-- ===== src/Security/Ldap.antt =====
-- lib/security-check/basic-ldap.js: authentication against an LDAP server.
--
-- The client of ldapjs is the record `Client`: each call gives what its callback gets, and the
-- connection after it. A promise is the value or the failure that it ends with. `unbind`, whose
-- failure is only logged, the log, `parse` and the setting of TLS have no counterpart, and an error of
-- the connection outside of a call ends the process in the code.
pub mod Names
pub mod Bound
pub mod Confirmed
use microgateway.Common.{
  ℕ, zero, suc, String, ◌≡◌, refl, Bool, true, false, Option, none, some, List, [], ◌∷◌, ◌+s◌, ◌==◌,
  truthy, same, if◌then◌else◌,
}
use microgateway.Security.Ldap.Names.{generate_dn, marker}

pub data Result (A E : Type 0) : Type 0 where
  ok : A → Result A E
  error : E → Result A E

-- `err.code`; the errors that the code itself makes have none.
pub record Failure : Type 0 where
  pub code : Option ℕ

pub record Entry : Type 0 where
  pub dn : String
  pub naming_context : Option String

pub record Search : Type 0 where
  pub base : Option String
  pub filter : Option String
  pub scope : Option String
  pub size_limit : ℕ
  pub attributes : List String

pub record Client (S : Type 0) : Type 0 where
  pub bind : (dn credentials : Option String) → S → Option Failure × S
  pub search : Search → S → Result (List Entry) Failure × S

-- `registry['ldap-config']`
pub record Config : Type 0 where
  pub host : String
  pub port : String
  pub ssl : Bool
  pub time_limit : Option ℕ
  pub auth_method : Option String
  pub authenticated_bind : Bool
  pub admin_dn : Option String
  pub admin_password : Option String
  pub search_prefix : Option String
  pub search_suffix : Option String
  pub search_base : Option String
  pub search_scope : Option String
  pub bind_prefix : Option String
  pub bind_suffix : Option String
  pub group_method : Option String
  pub dynamic_filter : Option String
  pub search_filter : Option String
  pub static_prefix : Option String
  pub static_suffix : Option String
  pub static_dn : Option String
  pub static_scope : Option String

pub record Options : Type 0 where
  pub url : String
  pub timeout : ℕ
  pub binds_first : Bool
  pub bind_dn : Option String
  pub bind_credentials : Option String
  pub user_auth : Search

-- `authFunctions`
pub data Method : Type 0 where
  search_dn : Method
  compose_dn : Method
  compose_upn : Method

pub auth_function : Option String → Option Method
auth_function m =
    if same m (some "searchDN")
    then some search_dn
    else if same m (some "composeDN")
    then some compose_dn
    else if same m (some "bindDN")
    then some compose_dn
    else if same m (some "composeUPN")
    then some compose_upn
    else if same m (some "bindUPN")
    then some compose_upn
    else none

-- `'' + value`, of a value that may be missing
pub shown : Option String → String
shown none = "undefined"
shown (some s) = s

pub timeout_of : Option ℕ → ℕ
timeout_of none = 300000
timeout_of (some zero) = 300000
timeout_of (some (suc n)) = suc n

pub scope_or_sub : Option String → String
scope_or_sub none = "sub"
scope_or_sub (some s) = if s == "" then "sub" else s

pub no_search : Search
no_search = record {
  base = none;
  filter = none;
  scope = none;
  size_limit = 1;
  attributes = "dn" ∷ [];
}

-- the options before the method is looked at
pub base_options : Config → Options
unfolding timeout_of no_search
base_options c = record {
  url = (if c.ssl then "ldaps://" else "ldap://") +s c.host +s ":" +s c.port;
  timeout = timeout_of c.time_limit;
  binds_first = c.authenticated_bind;
  bind_dn = if c.authenticated_bind then c.admin_dn else none;
  bind_credentials = if c.authenticated_bind then c.admin_password else none;
  user_auth = no_search;
}

-- `parseOptions`, by the method that `auth_function` finds under the same names
pub parse_options : Method → Config → Options
unfolding base_options shown scope_or_sub
parse_options search_dn c = record (base_options c) {
  user_auth = record {
    base = c.search_base;
    filter = some (shown c.search_prefix +s marker +s shown c.search_suffix);
    scope = some (scope_or_sub c.search_scope);
    size_limit = 1;
    attributes = "dn" ∷ "sn" ∷ "cn" ∷ "mail" ∷ "givenName" ∷ [];
  };
}
parse_options compose_dn c = record (base_options c) {
  bind_dn = some (shown c.bind_prefix +s marker +s shown c.bind_suffix);
}
parse_options compose_upn c = record (base_options c) {
  bind_dn = some (marker +s shown c.bind_suffix);
  user_auth = record {
    base = some "";
    filter = some "(objectClass=*)";
    scope = some "base";
    size_limit = 1;
    attributes = "defaultNamingContext" ∷ [];
  };
}

-- What a method leaves for the check of the groups.
pub record User : Type 0 where
  pub bind_dn : String
  pub bind_credentials : Option String
  pub search_base : Option String
  pub filter_prefix : String
  pub scope : String

pub record Bind : Type 0 where
  pub dn : Option String
  pub credentials : Option String
  pub search : Search

-- `parseGroupAuthOptions`, once there is a method; `null` fields are missing ones.
pub group_options : String → Config → User → Bind
unfolding shown
group_options method c u =
    if method == "dynamicAuth"
    then record {
      dn = some u.bind_dn;
      credentials = u.bind_credentials;
      search = record {
        base = u.search_base;
        filter =
            if u.filter_prefix == ""
            then c.search_filter
            else some ("(&" +s u.filter_prefix +s shown c.dynamic_filter +s ")");
        scope = some u.scope;
        size_limit = 1;
        attributes = "dn" ∷ [];
      };
    }
    else if method == "staticAuth"
    then record {
      dn = c.admin_dn;
      credentials = c.admin_password;
      search = record {
        base = c.static_dn;
        filter = some (shown c.static_prefix +s u.bind_dn +s shown c.static_suffix);
        scope = c.static_scope;
        size_limit = 1;
        attributes = "dn" ∷ [];
      };
    }
    else record {
      dn = none;
      credentials = none;
      search = record {
        base = none;
        filter = none;
        scope = none;
        size_limit = 1;
        attributes = "dn" ∷ [];
      };
    }

pub parse_group_options : Config → User → Option Bind
unfolding group_options
parse_group_options c u = elim c.group_method [
  | none ↦ none
  | some method ↦
      if method == ""
      then none
      else if method == "none"
      then none
      else some (group_options method c u)
]

module _ {S : Type 0} (client : Client S) where
  -- `bind(…).then(next)`
  pub after_bind :
      {A : Type 0}
      → (dn credentials : Option String) → (S → Result A Failure × S)
      → S
      → Result A Failure × S
  after_bind dn credentials next s =
      let (failed, s1) = client.bind dn credentials s in
      elim failed [ some e ↦ (error e, s1) | none ↦ next s1 ]

  -- `search(…).then(next)`
  pub after_search :
      {A : Type 0} → Search → (List Entry → S → Result A Failure × S) → S → Result A Failure × S
  after_search q next s =
      let (found, s1) = client.search q s in
      elim found [ error e ↦ (error e, s1) | ok users ↦ next users s1 ]

  pub user_of : String → Option String → User
  user_of dn pass = record {
    bind_dn = dn;
    bind_credentials = pass;
    search_base = some dn;
    filter_prefix = "";
    scope = "";
  }

  pub no_code : Failure
  no_code = record { code = none }

  -- the second step of `authSearchDN`
  pub with_users : Option String → List Entry → S → Result User Failure × S
  unfolding after_bind user_of no_code
  with_users pass [] s = (error no_code, s)
  with_users pass (u ∷ []) s = after_bind (some u.dn) pass (λ s1. (ok (user_of u.dn pass), s1)) s
  with_users pass (u ∷ v ∷ users) s = (error no_code, s)

  pub auth_search_dn : Options → String → Option String → S → Result User Failure × S
  unfolding after_bind after_search with_users
  auth_search_dn o user pass s =
      let q = record o.user_auth { filter = some (generate_dn user (shown o.user_auth.filter)) } in
      if o.binds_first
      then after_bind o.bind_dn o.bind_credentials (after_search q (with_users pass)) s
      else after_search q (with_users pass) s

  pub auth_compose_dn : Options → String → Option String → S → Result User Failure × S
  unfolding after_bind user_of
  auth_compose_dn o user pass s =
      let dn = generate_dn user (shown o.bind_dn) in
      after_bind (some dn) pass (λ s1. (ok (user_of dn pass), s1)) s

  pub upn_user : String → Option String → List Entry → S → Result User Failure × S
  unfolding no_code
  upn_user dn pass [] s = (error no_code, s)
  upn_user dn pass (u ∷ users) s = (
    ok (record {
      bind_dn = dn;
      bind_credentials = pass;
      search_base = u.naming_context;
      filter_prefix = "(userPrincipleName=" +s dn +s ")";
      scope = "sub";
    }),
    s,
  )

  pub auth_compose_upn : Options → String → Option String → S → Result User Failure × S
  unfolding after_bind after_search upn_user
  auth_compose_upn o user pass s =
      let dn = generate_dn user (shown o.bind_dn) in
      after_bind (some dn) pass (after_search o.user_auth (upn_user dn pass)) s

  pub auth_user : Method → Options → String → Option String → S → Result User Failure × S
  unfolding auth_search_dn auth_compose_dn auth_compose_upn
  auth_user search_dn = auth_search_dn
  auth_user compose_dn = auth_compose_dn
  auth_user compose_upn = auth_compose_upn

  -- What the search finds is not looked at.
  pub group_auth : Config → User → S → Result Unit Failure × S
  unfolding parse_group_options after_bind after_search
  group_auth c u s = elim (parse_group_options c u) [
    | none ↦ (ok tt, s)
    | some g ↦ after_bind g.dn g.credentials (after_search g.search (λ users s1. (ok tt, s1))) s
  ]

  -- the steps of `authenticate` for a method
  pub authenticate_by : Method → Config → String → Option String → S → Result Unit Failure × S
  unfolding auth_user group_auth
  authenticate_by m c user pass s =
      let (known, s1) = auth_user m (parse_options m c) user pass s in
      elim known [ error e ↦ (error e, s1) | ok u ↦ group_auth c u s1 ]

  -- The exported function and its `authenticate`: it throws where there is no method.
  unfoldable pub authenticate : Config → String → Option String → S → Result Unit Failure × S
  unfolding authenticate_by auth_function
  authenticate c user pass s = elim (auth_function c.auth_method) [
    | none ↦ (error no_code, s)
    | some m ↦ authenticate_by m c user pass s
  ]

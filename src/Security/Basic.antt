-- ===== src/Security/Basic.antt =====
-- lib/security-check/eval-basic.js: basic authentication by a user registry or by a URL.
--
-- The data store, the package request and the decoding of base64 are the record `Services`, with
-- `configureTls`, which is `none` where it throws. An answer that comes later is its value here, and
-- an error keeps its status code: its message is only logged.
pub mod Granted
pub mod Password
pub mod Tests
use microgateway.Common.{
  ℕ, String, ◌≡◌, refl, Bool, true, false, ◌||◌, Option, none, some, List, [], ◌∷◌, ltb, nat_eq,
  ◌+s◌, ◌==◌, split, if◌then◌else◌,
}
use microgateway.Security.Ldap.{
  Client, Config, Failure, Result, ok, error, auth_function, authenticate,
}
use microgateway.Security.Ldap.Names.{begins_with}

-- `done(error)` gets nothing, or an error with `error.statusCode`.
pub data Answer : Type 0 where
  granted : Answer
  refused : Option ℕ → Answer

-- `request.authorization` of the context
pub record Auth : Type 0 where
  pub scheme : String
  pub token : String

-- A property: missing, null or another value that counts as false; a text; or another value.
pub data Setting : Type 0 where
  missing : Setting
  text : String → Setting
  other : Setting

pub record UrlSetting : Type 0 where
  pub url : Setting
  pub tls_profile : Option String

pub record SecurityDef : Type 0 where
  pub type : String
  pub registry : Setting
  pub authentication_url : Option UrlSetting

pub record Registry : Type 0 where
  pub type : Option String
  pub ldap_config : Option Config
  pub tls_profile : Option String

-- what a promise of the data store ends with
pub data Fetched (A : Type 0) : Type 0 where
  found : List A → Fetched A
  not_array : Fetched A
  rejected : Option ℕ → Fetched A

pub data Tls (T : Type 0) : Type 0 where
  by_default : Tls T
  configured : T → Tls T
  unchecked : Tls T

pub record HttpOptions (T : Type 0) : Type 0 where
  pub url : String
  pub timeout : ℕ
  pub authorization : String
  pub tls : Tls T

pub data Reply : Type 0 where
  status : ℕ → Reply
  broken : Reply

pub record Services (P T : Type 0) : Type 0 where
  pub get_tls_profile : (snapshot name : String) → Fetched P
  pub get_registry : (snapshot name : String) → Fetched Registry
  pub configure_tls : P → Option T
  pub request : HttpOptions T → Reply
  pub decode : String → String

-- `_httpBasicAuthCB`
pub http_answer : Reply → Answer
http_answer (status n) = if ltb n 400 then granted else refused (some n)
http_answer broken = refused (some 500)

-- `autharr[0]` and `autharr[1]`
unfoldable pub first_two : List String → String × Option String
first_two [] = ("", none)
first_two (user ∷ []) = (user, none)
first_two (user ∷ pass ∷ more) = (user, some pass)

-- the user and the password of a decoded token
unfoldable pub credentials : String → String × Option String
unfolding first_two
credentials s = first_two (split 58 s)

-- the registries with a configuration for LDAP
pub user_registries : List Registry → List (Registry × Config)
user_registries [] = []
user_registries (r ∷ rs) =
    let rest = user_registries rs in elim r.ldap_config [ none ↦ rest | some c ↦ (r, c) ∷ rest ]

pub ldap_answer : Result Unit Failure → Answer
ldap_answer (ok u) = granted
ldap_answer (error e) = elim e.code [
  | none ↦ refused (some 500)
  | some n ↦ if nat_eq n 49 || nat_eq n 32 then refused (some 401) else refused (some 500)
]

pub is_ldap : String → Bool
unfolding begins_with
is_ldap url = begins_with "ldap://" url || begins_with "ldaps://" url

module _ {P T S : Type 0} (services : Services P T) (client : Client S) (start : S) where
  pub http_options : Auth → String → Tls T → HttpOptions T
  http_options a url tls = record {
    url = url;
    timeout = 300000;
    authorization = a.scheme +s " " +s a.token;
    tls = tls;
  }

  unfoldable pub http_basic_auth : Auth → String → Answer
  unfolding http_answer http_options
  http_basic_auth a url = http_answer (services.request (http_options a url by_default))

  -- the end of `httpsBasicAuth` with the profiles that were found
  pub with_profiles : Auth → String → Fetched P → Answer
  unfolding http_answer http_options
  with_profiles a url (found []) = refused (some 500)
  with_profiles a url (found (p ∷ ps)) = elim (services.configure_tls p) [
    | none ↦ refused (some 500)
    | some t ↦ http_answer (services.request (http_options a url (configured t)))
  ]
  with_profiles a url not_array = refused (some 500)
  with_profiles a url (rejected code) = refused (some 500)

  unfoldable pub https_basic_auth : String → Option String → Auth → String → Answer
  unfolding http_answer http_options with_profiles
  https_basic_auth snapshot profile a url = elim profile [
    | none ↦ http_answer (services.request (http_options a url unchecked))
    | some name ↦
        if name == ""
        then http_answer (services.request (http_options a url unchecked))
        else with_profiles a url (services.get_tls_profile snapshot name)
  ]

  -- `BasicLdap` throws for a method that it does not have, before there is a promise.
  unfoldable pub ldap_basic_auth : Auth → Config → Answer
  unfolding ldap_answer
  ldap_basic_auth a c = elim (auth_function c.auth_method) [
    | none ↦ refused none
    | some m ↦
        let (user, pass) = credentials (services.decode a.token) in
        ldap_answer (authenticate client c user pass start).0
  ]

  -- the profile of a secured registry, for which the configuration may throw
  pub secured : Auth → Config → Fetched P → Answer
  secured a c (found []) = refused (some 500)
  secured a c (found (p ∷ ps)) = elim (services.configure_tls p) [
    | none ↦ refused none
    | some t ↦ ldap_basic_auth a c
  ]
  secured a c not_array = refused (some 500)
  secured a c (rejected code) = refused code

  pub with_registry : String → Auth → List (Registry × Config) → Answer
  unfolding secured
  with_registry snapshot a [] = refused (some 500)
  with_registry snapshot a ((r, c) ∷ rs) = elim r.type [
    | none ↦ refused (some 500)
    | some t ↦
        if t == "ldap"
        then (if c.ssl
            then elim r.tls_profile [
              | none ↦ refused (some 500)
              | some name ↦
                  if name == ""
                  then refused (some 500)
                  else secured a c (services.get_tls_profile snapshot name)
            ]
            else ldap_basic_auth a c)
        else refused (some 500)
  ]

  pub with_registries : String → Auth → Fetched Registry → Answer
  unfolding with_registry user_registries
  with_registries snapshot a (found []) = refused (some 500)
  with_registries snapshot a (found (r ∷ rs)) = with_registry snapshot a (user_registries (r ∷ rs))
  with_registries snapshot a not_array = refused (some 500)
  with_registries snapshot a (rejected code) = refused code

  unfoldable pub registry_basic_auth : String → Auth → String → Answer
  unfolding with_registries
  registry_basic_auth snapshot a name =
      with_registries snapshot a (services.get_registry snapshot name)

  -- the cases of a URL
  pub url_basic_auth : String → Auth → UrlSetting → Answer
  unfolding is_ldap
  url_basic_auth snapshot a u = elim u.url [
    | missing ↦ refused (some 500)
    | other ↦ refused (some 500)
    | text url ↦
        if url == ""
        then refused (some 500)
        else if is_ldap url
        then refused (some 500)
        else if begins_with "http://" url
        then http_basic_auth a url
        else if begins_with "https://" url
        then https_basic_auth snapshot u.tls_profile a url
        else refused (some 500)
  ]

  -- without a registry
  pub other_basic_auth : String → SecurityDef → Auth → Answer
  unfolding url_basic_auth
  other_basic_auth snapshot def a = elim def.authentication_url [
    | none ↦ refused (some 500)
    | some u ↦ url_basic_auth snapshot a u
  ]

  -- `basicAuth`, once there is authorization data
  pub by_definition : String → SecurityDef → Auth → Answer
  unfolding other_basic_auth
  by_definition snapshot def a = elim def.registry [
    | missing ↦ other_basic_auth snapshot def a
    | other ↦ refused (some 500)
    | text name ↦
        if name == "" then other_basic_auth snapshot def a else registry_basic_auth snapshot a name
  ]

  unfoldable pub basic_auth : String → SecurityDef → Option Auth → Answer
  unfolding by_definition
  basic_auth snapshot def auth = elim auth [
    | none ↦ refused (some 401)
    | some a ↦ if a.scheme == "Basic" then by_definition snapshot def a else refused (some 401)
  ]

-- What the check sets in the context: 'error.status.code' and 'error.headers.WWW-Authenticate'.
pub record Context : Type 0 where
  pub error_code : Option ℕ
  pub challenge : Option String

-- the callback of `basicAuth` in `evalBasic`
unfoldable pub answered : Answer → Context → Bool × Context
answered granted ctx = (true, ctx)
answered (refused none) ctx = (false, ctx)
answered (refused (some n)) ctx =
    if nat_eq n 401
    then (false, record { error_code = some 401; challenge = some "Basic realm=\"apim\"" })
    else (false, ctx)

unfoldable pub eval_basic :
    {P T S : Type 0}
    → Services P T
    → Client S
    → S
    → String
    → SecurityDef
    → Option Auth
    → Context
    → Bool × Context
unfolding answered
eval_basic services client start snapshot def auth ctx =
    if def.type == "basic"
    then answered (basic_auth services client start snapshot def auth) ctx
    else (false, ctx)

-- ===== src/Security/Ldap/Confirmed.antt =====
-- As whom a user has bound to the directory, for each method of authentication.
use microgateway.Common.{
  String, ◌≡◌, refl, ap, sym, arith, ◌∙◌, Bool, true, false, Option, none, some, List, [], ◌∷◌,
  ◌+s◌, eq_iff, Option-cases, inl, inr, ◌⊎◌,
}
use microgateway.Security.Ldap.{
  Result, ok, Failure, Entry, Search, Client, Config, Method, search_dn, compose_dn, compose_upn,
  User, auth_function, parse_options, parse_group_options, after_bind, after_search, with_users,
  auth_search_dn, auth_compose_dn, upn_user, auth_compose_upn, auth_user, authenticate_by,
  authenticate, shown, scope_or_sub, user_of, base_options,
}
use microgateway.Security.Ldap.Names.{generate_dn, marker}
use microgateway.Security.Ldap.Bound.{result_cases, GroupsAnswer, group_auth-ok_iff}

-- the names of a method in the registry
abbrev pub IsNamed : Method → String → Type 0
IsNamed search_dn name = name ≡ "searchDN"
IsNamed compose_dn name = (name ≡ "composeDN") ⊎ (name ≡ "bindDN")
IsNamed compose_upn name = (name ≡ "composeUPN") ⊎ (name ≡ "bindUPN")

named : (name : String) (m : Method) → auth_function (some name) ≡ some m → IsNamed m name
unfolding auth_function
named name search_dn h = ground (arith, eq_iff name "searchDN")
named name compose_dn h = ground (arith, eq_iff name "composeDN", eq_iff name "bindDN")
named name compose_upn h = ground (arith, eq_iff name "composeUPN", eq_iff name "bindUPN")

auth_function-IsNamed :
    (o : Option String) (m : Method)
    → auth_function o ≡ some m
    → (name : String) × (o ≡ some name) × IsNamed m name
unfolding auth_function
auth_function-IsNamed none m h = cc
auth_function-IsNamed (some name) m h = (name, refl, named name m h)

-- the search for the user's entry
abbrev pub user_search : Config → String → Search
user_search c user = record {
  base = c.search_base;
  filter = some (generate_dn user (shown c.search_prefix +s marker +s shown c.search_suffix));
  scope = some (scope_or_sub c.search_scope);
  size_limit = 1;
  attributes = "dn" ∷ "sn" ∷ "cn" ∷ "mail" ∷ "givenName" ∷ [];
}

-- the search for the naming context
abbrev pub root_search : Search
root_search = record {
  base = some "";
  filter = some "(objectClass=*)";
  scope = some "base";
  size_limit = 1;
  attributes = "defaultNamingContext" ∷ [];
}

module _ {S : Type 0} (client : Client S) where
  module _ {A : Type 0} (a : A) where
    after_bind-runs :
        (dn pass : Option String) (next : S → Result A Failure × S) (s s' : S)
        → after_bind client dn pass next s ≡ (ok a, s')
        → (s1 : S) × (client.bind dn pass s ≡ (none, s1)) × (next s1 ≡ (ok a, s'))
    unfolding after_bind
    after_bind-runs dn pass next s s' h =
        let s1 = (client.bind dn pass s).1 in
        elim (Option-cases (client.bind dn pass s).0) [
          | inl e ↦ (s1, ap (λ o. (o, s1)) e, rw (e, after_bind) at h)
          | inr (f, e) ↦ cc (ap (λ x. x.0) (rw (e, after_bind) at h))
        ]

    after_search-runs :
        (q : Search) (next : List Entry → S → Result A Failure × S) (s s' : S)
        → after_search client q next s ≡ (ok a, s')
        → (users : List Entry) × (s1 : S) × (client.search q s ≡ (ok users, s1))
          × (next users s1 ≡ (ok a, s'))
    unfolding after_search
    after_search-runs q next s s' h =
        let s1 = (client.search q s).1 in
        elim (result_cases (client.search q s).0) [
          | inl (f, e) ↦ cc (ap (λ x. x.0) (rw (e, after_search) at h))
          | inr (users, e) ↦ (users, s1, ap (λ r. (r, s1)) e, rw (e, after_search) at h)
        ]

  -- The bind as the administrator before a search, where the registry asks for it.
  abbrev pub IsReady : (authenticated : Bool) → Config → (s ready : S) → Type 0
  IsReady true c s ready = client.bind c.admin_dn c.admin_password s ≡ (none, ready)
  IsReady false c s ready = ready ≡ s

  -- The calls that confirm a user `u`, from `s` to `s'`: a bind with the password as the one entry that
  -- the search for the user found, or as the name that is composed of the user.
  abbrev pub Confirmed :
      Method → Config → (user : String) → (pass : Option String) → (s s' : S) → User → Type 0
  Confirmed search_dn c user pass s s' u =
      (ready : S) × (entry : Entry) × (found : S) × IsReady c.authenticated_bind c s ready
      × (client.search (user_search c user) ready ≡ (ok (entry ∷ []), found))
      × (client.bind (some entry.dn) pass found ≡ (none, s'))
      × (u.bind_dn ≡ entry.dn)
      × (u.bind_credentials ≡ pass)
  Confirmed compose_dn c user pass s s' u =
      let dn = generate_dn user (shown c.bind_prefix +s marker +s shown c.bind_suffix) in
      (client.bind (some dn) pass s ≡ (none, s')) × (u.bind_dn ≡ dn) × (u.bind_credentials ≡ pass)
  Confirmed compose_upn c user pass s s' u =
      let dn = generate_dn user (marker +s shown c.bind_suffix) in
      (bound : S) × (root : Entry) × (more : List Entry) × (client.bind (some dn) pass s
        ≡ (none, bound))
      × (client.search root_search bound ≡ (ok (root ∷ more), s'))
      × (u.bind_dn ≡ dn)
      × (u.bind_credentials ≡ pass)
      × (u.search_base ≡ root.naming_context)

  bound_user :
      (dn : String) (pass : Option String) (s s' : S) (u : User)
      → after_bind client (some dn) pass (λ s1. (ok (user_of client dn pass), s1)) s ≡ (ok u, s')
      → (client.bind (some dn) pass s ≡ (none, s')) × (u.bind_dn ≡ dn) × (u.bind_credentials ≡ pass)
  unfolding user_of
  bound_user dn pass s s' u h =
      let (s1, bound, k) =
        after_bind-runs u (some dn) pass (λ s2. (ok (user_of client dn pass), s2)) s s' h in
      let same : user_of client dn pass ≡ u = cc (ap (λ x. x.0) k) in
      (
        bound ∙ ap (λ t. (none, t)) (ap (λ x. x.1) k),
        ap (λ (x : User). x.bind_dn) (sym same),
        ap (λ (x : User). x.bind_credentials) (sym same),
      )

  with_users-runs :
      (pass : Option String) (users : List Entry) (s s' : S) (u : User)
      → with_users client pass users s ≡ (ok u, s')
      → (e : Entry) × (users ≡ e ∷ [])
        × (client.bind (some e.dn) pass s ≡ (none, s'))
        × (u.bind_dn ≡ e.dn)
        × (u.bind_credentials ≡ pass)
  unfolding with_users
  with_users-runs pass [] s s' u h = cc
  with_users-runs pass (e ∷ []) s s' u h =
      let (bound, dn, same) = bound_user e.dn pass s s' u h in (e, refl, bound, dn, same)
  with_users-runs pass (e ∷ f ∷ users) s s' u h = cc

  searched-Confirmed :
      (c : Config) (user : String) (pass : Option String) (s ready s' : S) (u : User)
      → IsReady c.authenticated_bind c s ready
      → after_search client (user_search c user) (with_users client pass) ready ≡ (ok u, s')
      → Confirmed search_dn c user pass s s' u
  searched-Confirmed c user pass s ready s' u r h =
      let (users, found, is, k) =
        after_search-runs u (user_search c user) (with_users client pass) ready s' h in
      let (e, one, bound, dn, same) = with_users-runs pass users found s' u k in
      (ready, e, found, r, is ∙ ap (λ l. (ok l, found)) one, bound, dn, same)

  search_dn-Confirmed :
      (authenticated : Bool) (c : Config) (user : String) (pass : Option String) (s s' : S)
      (u : User)
      → c.authenticated_bind ≡ authenticated
      → auth_search_dn client (parse_options search_dn c) user pass s ≡ (ok u, s')
      → Confirmed search_dn c user pass s s' u
  unfolding auth_search_dn parse_options base_options
  search_dn-Confirmed true c user pass s s' u e h =
      let next = after_search client (user_search c user) (with_users client pass) in
      let (ready, bound, k) =
        after_bind-runs u c.admin_dn c.admin_password next s s'
          (rw (e, auth_search_dn, parse_options, base_options) at h) in
      searched-Confirmed c user pass s ready s' u (rw e bound) k
  search_dn-Confirmed false c user pass s s' u e h =
      searched-Confirmed c user pass s s s' u (rw e refl)
        (rw (e, auth_search_dn, parse_options, base_options) at h)

  upn_user-Confirmed :
      (c : Config) (user : String) (pass : Option String) (s bound found s' : S) (u : User)
      (users : List Entry)
      → let dn = generate_dn user (marker +s shown c.bind_suffix) in
        client.bind (some dn) pass s ≡ (none, bound)
        → client.search root_search bound ≡ (ok users, found)
        → upn_user client dn pass users found ≡ (ok u, s')
        → Confirmed compose_upn c user pass s s' u
  unfolding upn_user
  upn_user-Confirmed c user pass s bound found s' u [] is roots j = cc
  upn_user-Confirmed c user pass s bound found s' u (e ∷ more) is roots j =
      let dn = generate_dn user (marker +s shown c.bind_suffix) in
      let same : record {
        bind_dn = dn;
        bind_credentials = pass;
        search_base = e.naming_context;
        filter_prefix = "(userPrincipleName=" +s dn +s ")";
        scope = "sub";
      }
          ≡ u =
        cc (ap (λ x. x.0) j) in
      (
        bound,
        e,
        more,
        is,
        roots ∙ ap (λ t. (ok (e ∷ more), t)) (ap (λ x. x.1) j),
        ap (λ (x : User). x.bind_dn) (sym same),
        ap (λ (x : User). x.bind_credentials) (sym same),
        ap (λ (x : User). x.search_base) (sym same),
      )

  user-Confirmed :
      (m : Method) (c : Config) (user : String) (pass : Option String) (s s' : S) (u : User)
      → auth_user client m (parse_options m c) user pass s ≡ (ok u, s')
      → Confirmed m c user pass s s' u
  unfolding auth_user auth_compose_dn auth_compose_upn parse_options base_options user_of
  user-Confirmed search_dn c user pass s s' u h =
      search_dn-Confirmed c.authenticated_bind c user pass s s' u refl h
  user-Confirmed compose_dn c user pass s s' u h =
      bound_user (generate_dn user (shown c.bind_prefix +s marker +s shown c.bind_suffix)) pass s s'
        u h
  user-Confirmed compose_upn c user pass s s' u h =
      let dn = generate_dn user (marker +s shown c.bind_suffix) in
      let next = after_search client root_search (upn_user client dn pass) in
      let (bound, is, k) = after_bind-runs u (some dn) pass next s s' h in
      let (users, found, roots, j) =
        after_search-runs u root_search (upn_user client dn pass) bound s' k in
      upn_user-Confirmed c user pass s bound found s' u users is roots j

  -- Whoever is authenticated is confirmed by the method that the registry names: by a bind with the
  -- password that was given, as the one entry that the search for this user found (after a bind as the
  -- administrator, where the registry asks for it), or as the name that is composed of this user,
  -- with an answer of the directory's root where that is the user principal name. After it the check
  -- of the groups of that same user has ended without an error.
  pub authenticate-Confirmed :
      (c : Config) (user : String) (pass : Option String) (s : S)
      → (authenticate client c user pass s).0 ≡ ok tt
      → (name : String) × (m : Method) × (u : User) × (s' : S) × (c.auth_method ≡ some name)
        × IsNamed m name
        × Confirmed m c user pass s s' u
        × GroupsAnswer client (parse_group_options c u) s'
  unfolding authenticate authenticate_by
  authenticate-Confirmed c user pass s h = elim (Option-cases (auth_function c.auth_method)) [
    | inl e ↦ cc (rw (e, authenticate) at h)
    | inr (m, e) ↦
        let done = auth_user client m (parse_options m c) user pass s in
        elim (result_cases done.0) [
          | inl (f, k) ↦ cc (rw (e, authenticate, authenticate_by, k) at h)
          | inr (u, k) ↦
              let (name, is, named) = auth_function-IsNamed c.auth_method m e in
              (
                name,
                m,
                u,
                done.1,
                is,
                named,
                user-Confirmed m c user pass s done.1 u (ap (λ r. (r, done.1)) k),
                (group_auth-ok_iff client c u done.1).0
                    (rw (e, authenticate, authenticate_by, k) at h),
              )
        ]
  ]

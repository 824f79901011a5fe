-- ===== src/Security/Ldap/Bound.antt =====
-- What has to go well at the directory for a user to be authenticated.
use microgateway.Common.{
  String, ◌≡◌, ◌↔◌, refl, Option, none, some, List, [], ◌∷◌, Option-cases, Bool-cases, inl, inr,
  ◌⊎◌,
}
use microgateway.Security.Ldap.{
  Result, ok, error, Failure, Entry, Search, Client, Config, Options, Method, search_dn, compose_dn,
  compose_upn, User, Bind, auth_function, parse_options, parse_group_options, after_bind,
  after_search, with_users, auth_search_dn, auth_compose_dn, upn_user, auth_compose_upn, auth_user,
  group_auth, authenticate_by, authenticate, shown, user_of,
}
use microgateway.Security.Ldap.Names.{generate_dn}

pub result_cases :
    {A E : Type 0} (r : Result A E) → ((e : E) × (r ≡ error e)) ⊎ ((a : A) × (r ≡ ok a))
result_cases (ok a) = inr (a, refl)
result_cases (error e) = inl (e, refl)

module _ {S : Type 0} (client : Client S) where
  module _ {A : Type 0} (a : A) where
    after_bind-ok :
        (dn pass : Option String) (next : S → Result A Failure × S) (s : S)
        → ((after_bind client dn pass next s).0 ≡ ok a)
          ↔ (((client.bind dn pass s).0 ≡ none) × ((next (client.bind dn pass s).1).0 ≡ ok a))
    unfolding after_bind
    after_bind-ok dn pass next s = elim (Option-cases (client.bind dn pass s).0) [
      | inl e ↦ rw (e, after_bind) (λ h. (refl, h), λ (k, h). h)
      | inr (f, e) ↦ rw (e, after_bind) (λ h. cc, λ (k, h). cc)
    ]

    after_search-ok :
        (q : Search) (next : List Entry → S → Result A Failure × S) (s : S)
        → ((after_search client q next s).0 ≡ ok a) ↔ (
            (users : List Entry) × ((client.search q s).0 ≡ ok users)
            × ((next users (client.search q s).1).0 ≡ ok a))
    unfolding after_search
    after_search-ok q next s = elim (result_cases (client.search q s).0) [
      | inl (f, e) ↦ rw (e, after_search) (λ h. cc, λ (users, k, h). cc)
      | inr (users, e) ↦
          rw (e, after_search)
            (λ h. (users, refl, h), λ (found, k, h). let same : users ≡ found = cc in rw same h)
    ]

  -- Some bind with the password has gone well.
  abbrev pub Bound : Option String → Type 0
  Bound pass = (dn : String) × (s : S) × ((client.bind (some dn) pass s).0 ≡ none)

  with_users-Bound :
      (pass : Option String) (users : List Entry) (s : S) (u : User)
      → (with_users client pass users s).0 ≡ ok u
      → Bound pass
  unfolding with_users
  with_users-Bound pass [] s u h = cc
  with_users-Bound pass (e ∷ []) s u h = (
    e.dn,
    s,
    ((after_bind-ok u (some e.dn) pass (λ s1. (ok (user_of client e.dn pass), s1)) s).0 h).0,
  )
  with_users-Bound pass (e ∷ f ∷ users) s u h = cc

  searched-Bound :
      (q : Search) (pass : Option String) (s : S) (u : User)
      → (after_search client q (with_users client pass) s).0 ≡ ok u
      → Bound pass
  searched-Bound q pass s u h =
      let (users, found, k) = (after_search-ok u q (with_users client pass) s).0 h in
      with_users-Bound pass users (client.search q s).1 u k

  search_dn-Bound :
      (o : Options) (user : String) (pass : Option String) (s : S) (u : User)
      → (auth_search_dn client o user pass s).0 ≡ ok u
      → Bound pass
  unfolding auth_search_dn
  search_dn-Bound o user pass s u h =
      let q = record (o.user_auth) {
        filter = some (generate_dn user (shown o.user_auth.filter));
      } in
      elim (Bool-cases o.binds_first) [
        | inl e ↦
            let next = after_search client q (with_users client pass) in
            let (bound, k) =
              (after_bind-ok u o.bind_dn o.bind_credentials next s).0
                (rw (e, auth_search_dn) at h) in
            searched-Bound q pass (client.bind o.bind_dn o.bind_credentials s).1 u k
        | inr e ↦ searched-Bound q pass s u (rw (e, auth_search_dn) at h)
      ]

  auth_user-Bound :
      (m : Method) (o : Options) (user : String) (pass : Option String) (s : S) (u : User)
      → (auth_user client m o user pass s).0 ≡ ok u
      → Bound pass
  unfolding auth_user auth_compose_dn auth_compose_upn
  auth_user-Bound search_dn o user pass s u h = search_dn-Bound o user pass s u h
  auth_user-Bound compose_dn o user pass s u h =
      let dn = generate_dn user (shown o.bind_dn) in
      (dn, s, ((after_bind-ok u (some dn) pass (λ s1. (ok (user_of client dn pass), s1)) s).0 h).0)
  auth_user-Bound compose_upn o user pass s u h =
      let dn = generate_dn user (shown o.bind_dn) in
      (
        dn,
        s,
        ((after_bind-ok u (some dn) pass (after_search client o.user_auth (upn_user client dn pass))
              s).0
            h).0,
      )

  -- Whoever is authenticated, by any method and with any check of groups, has bound to the directory
  -- with the password that was given.
  pub authenticate-Bound :
      (c : Config) (user : String) (pass : Option String) (s : S)
      → (authenticate client c user pass s).0 ≡ ok tt
      → Bound pass
  unfolding authenticate authenticate_by
  authenticate-Bound c user pass s h = elim (Option-cases (auth_function c.auth_method)) [
    | inl e ↦ cc (rw (e, authenticate) at h)
    | inr (m, e) ↦ elim (result_cases (auth_user client m (parse_options m c) user pass s).0) [
      | inl (f, k) ↦ cc (rw (e, authenticate, authenticate_by, k) at h)
      | inr (u, k) ↦ auth_user-Bound m (parse_options m c) user pass s u k
    ]
  ]

  -- The bind and the search for the groups end without an error, where there are groups to check.
  abbrev pub GroupsAnswer : Option Bind → S → Type 0
  GroupsAnswer none s = Unit
  GroupsAnswer (some g) s =
      ((client.bind g.dn g.credentials s).0 ≡ none)
      × (users : List Entry) × ((client.search g.search (client.bind g.dn g.credentials s).1).0
          ≡ ok users)

  bound-GroupsAnswer :
      (g : Bind) (s : S)
      → ((after_bind client g.dn g.credentials
            (after_search client g.search (λ users s1. (ok tt, s1)))
            s).0
          ≡ ok tt)
        ↔ GroupsAnswer (some g) s
  bound-GroupsAnswer g s =
      let next : S → Result Unit Failure × S =
        after_search client g.search (λ users s1. (ok tt, s1)) in
      let (to, from) = after_bind-ok tt g.dn g.credentials next s in
      let (found, back) =
        after_search-ok tt g.search (λ users s1. (ok tt, s1))
          (client.bind g.dn g.credentials s).1 in
      (
        λ h. let (bound, k) = to h in let (users, is, e) = found k in (bound, users, is),
        λ (bound, users, is). from (bound, back (users, is, refl)),
      )

  -- The check of the groups goes well exactly when the registry asks for none, or the bind for it and
  -- the search end without an error: whatever the search finds, an entry or none.
  pub group_auth-ok_iff :
      (c : Config) (u : User) (s : S)
      → ((group_auth client c u s).0 ≡ ok tt) ↔ GroupsAnswer (parse_group_options c u) s
  unfolding group_auth
  group_auth-ok_iff c u s = elim (Option-cases (parse_group_options c u)) [
    | inl e ↦ rw (e, group_auth) (λ h. tt, λ h. refl)
    | inr (g, e) ↦ rw (e, group_auth) (bound-GroupsAnswer g s)
  ]

-- ===== src/OAuth/Clients/Authentic.antt =====
-- Which clients the token endpoint takes for authenticated.
use microgateway.Common.{
  not-true, String, ◌≡◌, ◌⊎◌, arith, refl, sym, ◌∙◌, true, false, not, ◌&&◌, ◌||◌, Option, none,
  some, List, truthy, same, get, split, Option-cases, Bool-cases, inl, inr, ◌==◌, eq_iff, and_split,
}
use mathlib.Core.Path.{subst}
use microgateway.OAuth.Exchange.{value_or_empty}
use microgateway.OAuth.Authorization.Routed.{truthy-some}
use microgateway.OAuth.Store.{Tables}
use microgateway.OAuth.Grants.{Client}
use microgateway.Security.Basic.{Auth, first_two}
use microgateway.OAuth.Clients.{
  Creds, Setup, Refused, passes, Presented, other_scheme, twice, no_colon, given, credential,
  non_empty, remove_credential, reject, client_of, hashed, of_pair, presented, is_required,
  on_creds, on_presented, client_authenticate,
}

module _ {R C : Type 0} (x : Setup R C) where
  -- The id and the secret that a request presents: by its parameters, or by a basic authorization
  -- beside which there is no parameter for the client.
  abbrev pub Presents : List (String × String) → Option Auth → String → Option String → Type 0
  Presents params header id secret =
      ((header ≡ none)
        × (get params "client_id" ≡ some id)
        × (secret ≡ hashed x (get params "client_secret")))
      ⊎ ((a : Auth) × (pass : String) × (header ≡ some a)
          × (a.scheme ≡ "Basic")
          × (truthy (get params "client_id") ≡ false)
          × (first_two (split b':' (x.decode a.token)) ≡ (id, some pass))
          × (secret ≡ some (x.digest pass)))

  -- The secret is that of the client; or there is none, and the client type and the grant ask for none.
  abbrev pub Fits : Option String → Option String → Creds → Client → Type 0
  Fits grant_type secret creds c =
      ((truthy secret ≡ true)
        × (same creds.client_secret secret ≡ true)
        × (c ≡ client_of x creds false))
      ⊎ ((truthy secret ≡ false)
          × (is_required x grant_type ≡ false)
          × (c ≡ client_of x creds true))

  abbrev pub Authentic : List (String × String) → Option Auth → Client → Type 0
  Authentic params header c =
      (id : String) × (secret : Option String) × (creds : Creds) × Presents params header id secret
      × (truthy (some id) ≡ true)
      × (x.get_client_creds id ≡ some creds)
      × Fits (get params "grant_type") secret creds c

  of_pair-given :
      (p : String × Option String) (id secret : Option String)
      → of_pair x p ≡ given id secret
      → (user : String) × (pass : String) × (p ≡ (user, some pass))
        × (id ≡ some user)
        × (secret ≡ some (x.digest pass))
  unfolding of_pair
  of_pair-given (user, none) id secret h = cc
  of_pair-given (user, some pass) id secret h = (user, pass, refl, cc h, cc h)

  presents :
      (params : List (String × String)) (header : Option Auth) (id secret : Option String)
      → presented x params header ≡ given id secret
      → truthy id ≡ true
      → (user : String) × (id ≡ some user) × Presents params header user secret
  unfolding presented non_empty of_pair
  presents params none id secret h k = elim (Bool-cases (truthy (get params "client_id"))) [
    | inl e ↦
        let (user, is, _) = truthy-some (get params "client_id") e in
        let h' = rw (e, presented, non_empty) at h in
        let ids : get params "client_id" ≡ id = cc h' in (user, sym ids ∙ is, inl (refl, is, cc h'))
    | inr e ↦
        let h' = rw (e, presented, non_empty) at h in
        let ids : none ≡ id = cc h' in cc (subst (λ o. truthy o ≡ true) (sym ids) k)
  ]
  presents params (some a) id secret h k = elim (Bool-cases (a.scheme == "Basic")) [
    | inr e ↦ cc (rw (e, presented) at h)
    | inl e ↦ elim (Bool-cases (truthy (get params "client_id"))) [
      | inl f ↦ cc (rw (e, f, presented) at h)
      | inr f ↦
          let (user, pass, pair, ids, secrets) =
            of_pair-given (first_two (split b':' (x.decode a.token))) id secret
              (rw (e, f, presented) at h) in
          (user, ids, inr (a, pass, refl, (eq_iff a.scheme "Basic").0 e, f, pair, secrets))
    ]
  ]

  module _ {A : Type 0} (c : Client) (t t' : Tables A R C) where
    reject-ne-passes :
        (e : Refused) (grant_type cred : Option String)
        → reject x e grant_type cred t ≡ (passes c, t')
        → ⊥
    unfolding reject
    reject-ne-passes e grant_type cred h =
        elim (Option-cases (remove_credential x grant_type cred t)) [
          | inl k ↦ cc (rw (k, reject) at h)
          | inr (u, k) ↦ cc (rw (k, reject) at h)
        ]

    on_creds-Fits :
        (grant_type cred secret : Option String) (o : Option Creds)
        → on_creds x grant_type cred secret o t ≡ (passes c, t')
        → (t' ≡ t) × (creds : Creds) × (o ≡ some creds) × Fits grant_type secret creds c
    unfolding on_creds
    on_creds-Fits grant_type cred secret none h = elim (reject-ne-passes _ grant_type cred h) [ ]
    on_creds-Fits grant_type cred secret (some k) h =
        elim (Bool-cases (truthy secret && same k.client_secret secret)) [
          | inl e ↦
              let (filled, equal) = and_split (truthy secret) (same k.client_secret secret) e in
              let h' = rw (e, on_creds) at h in
              let clients : c ≡ client_of x k false = cc h' in
              (cc h', k, refl, inl (filled, equal, clients))
          | inr e ↦ elim (Bool-cases (not (truthy secret) && not (is_required x grant_type))) [
            | inl f ↦
                let (bare, free) =
                  and_split (not (truthy secret)) (not (is_required x grant_type)) f in
                let h' = rw (e, f, on_creds) at h in
                let clients : c ≡ client_of x k true = cc h' in
                (
                  cc h',
                  k,
                  refl,
                  inr (
                    not-true (truthy secret) bare,
                    not-true (is_required x grant_type) free,
                    clients,
                  ),
                )
            | inr f ↦ elim (reject-ne-passes _ grant_type cred (rw (e, f, on_creds) at h)) [ ]
          ]
        ]

    on_presented-Fits :
        (grant_type cred : Option String) (p : Presented)
        → on_presented x grant_type cred p t ≡ (passes c, t')
        → (t' ≡ t)
          × (id : Option String) × (secret : Option String) × (creds : Creds) × (p
              ≡ given id secret)
          × (truthy id ≡ true)
          × (x.get_client_creds (value_or_empty id) ≡ some creds)
          × Fits grant_type secret creds c
    unfolding on_presented
    on_presented-Fits grant_type cred other_scheme h =
        elim (reject-ne-passes _ grant_type cred h) [ ]
    on_presented-Fits grant_type cred twice h = cc
    on_presented-Fits grant_type cred no_colon h = cc
    on_presented-Fits grant_type cred (given id secret) h =
        elim (Bool-cases (not (truthy id) || (not (truthy secret) && is_required x grant_type))) [
          | inl e ↦ elim (reject-ne-passes _ grant_type cred (rw (e, on_presented) at h)) [ ]
          | inr e ↦
              let (same, creds, found, fits) =
                on_creds-Fits grant_type cred secret (x.get_client_creds (value_or_empty id))
                  (rw (e, on_presented) at h) in
              (same, id, secret, creds, refl, ground arith, found, fits)
        ]

    -- A client passes only with the id of a client that the data store knows, by its parameters or
    -- by a basic authorization beside which there is no client id, and with the secret of this
    -- client, or without one where neither the client type nor the grant asks for one; and no
    -- table changes.
    pub client_authenticate-Authentic :
        (params : List (String × String)) (header : Option Auth)
        → client_authenticate x params header t ≡ (passes c, t')
        → (t' ≡ t) × Authentic params header c
    unfolding client_authenticate
    client_authenticate-Authentic params header h =
        let grant_type = get params "grant_type" in
        let (same, id, secret, creds, is, filled, found, fits) =
          on_presented-Fits grant_type (credential params grant_type) (presented x params header)
            h in
        let (user, named, shown) = presents params header id secret is filled in
        let filled' = subst (λ o. truthy o ≡ true) named filled in
        let found' = subst (λ o. x.get_client_creds (value_or_empty o) ≡ some creds) named found in
        (same, (user, secret, creds, shown, filled', found', fits))

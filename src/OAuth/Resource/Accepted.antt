-- ===== src/OAuth/Resource/Accepted.antt =====
-- Which bearer tokens are accepted.
use microgateway.Common.{
  ℕ, String, ◌≡◌, ◌↔◌, refl, ap, sym, Bool, true, false, Option, some, List, ltb, Option-cases,
  Bool-cases, inl, inr,
}
use mathlib.Core.Path.{subst}
use microgateway.OAuth.Store.{DataModel, Token, find_by_id}
use microgateway.OAuth.Resource.{
  Payload, Decoded, undecodable, unparsable, payload, Bearer, accepted, verify_token_format,
  compare_access_token, scopes_satisfied, app_fits, on_found, on_format, jwt_access_token_validator,
}

module _ {M : Type 0} (d : DataModel M Token) (verify : (jwt secret : String) → Bool) where
  abbrev pub Fits :
      Token → (jwt : String) → Bearer → (required : List String) → Option String → Type 0
  Fits t jwt b required app =
      (verify jwt t.secret ≡ true)
      × (compare_access_token b t ≡ true)
      × (scopes_satisfied required t.scopes ≡ true)
      × (app_fits app t ≡ true)

  found_iff :
      (t u : Token) (jwt : String) (b : Bearer) (required : List String) (app : Option String)
      → (on_found d verify t jwt b required app ≡ accepted u)
        ↔ ((t ≡ u) × Fits t jwt b required app)
  unfolding on_found
  found_iff t u jwt b required app = elim (Bool-cases (verify jwt t.secret)) [
    | inr e ↦ rw (e, on_found) (λ h. cc, λ (s, (v, w, x, y)). cc v)
    | inl e ↦ elim (Bool-cases (compare_access_token b t)) [
      | inr f ↦ rw (e, on_found, f) (λ h. cc, λ (s, (v, w, x, y)). cc w)
      | inl f ↦ elim (Bool-cases (scopes_satisfied required t.scopes)) [
        | inr g ↦ rw (e, on_found, f, g) (λ h. cc, λ (s, (v, w, x, y)). cc x)
        | inl g ↦ elim (Bool-cases (app_fits app t)) [
          | inr k ↦ rw (e, on_found, f, g, k) (λ h. cc, λ (s, (v, w, x, y)). cc y)
          | inl k ↦ rw (e, on_found, f, g, k) (λ h. (cc, (refl, refl, refl, refl)), λ (s, l). cc)
        ]
      ]
    ]
  ]

  format_iff :
      (m : M) (now : ℕ) (jwt : String) (b : Bearer) (required : List String) (app : Option String)
      (t : Token)
      → (on_format d verify m now jwt b required app ≡ accepted t)
        ↔ ((ltb b.exp now ≡ false) × (find_by_id d m b.jti ≡ some t) × Fits t jwt b required app)
  unfolding on_format
  format_iff m now jwt b required app t = elim (Bool-cases (ltb b.exp now)) [
    | inl e ↦ rw (e, on_format) (λ h. cc, λ (k, l, n). cc k)
    | inr e ↦ elim (Option-cases (find_by_id d m b.jti)) [
      | inl f ↦ rw (e, on_format, f) (λ h. cc, λ (k, l, n). cc l)
      | inr (u, f) ↦
          let (to, from) = found_iff u t jwt b required app in
          rw (e, on_format, f)
            (
              λ h.
                  let (same, fits) = to h in
                  (refl, ap some same, subst (λ x. Fits x jwt b required app) same fits),
              λ (k, l, fits).
                  let same : u ≡ t = cc l in
                  from (same, subst (λ x. Fits x jwt b required app) (sym same) fits),
            )
    ]
  ]

  -- A payload of the right format is not expired, and is that of a token of the table, with this
  -- token's secret, client and dates; and the token has the required scopes, and the client id of the
  -- query, if there is one.
  abbrev pub Valid :
      M
      → (now : ℕ) → (jwt : String) → Decoded
      → (required : List String) → Option String
      → Token
      → Type 0
  Valid m now jwt decoded required app t =
      (p : Payload) × (b : Bearer) × (decoded ≡ payload p)
      × (verify_token_format p ≡ some b)
      × (ltb b.exp now ≡ false)
      × (find_by_id d m b.jti ≡ some t)
      × Fits t jwt b required app

  -- A bearer token is accepted, as a certain token of the table, exactly when it is valid as this one.
  pub jwt_access_token_validator-accepted_iff :
      (m : M) (now : ℕ) (jwt : String) (decoded : Decoded) (required : List String)
      (app : Option String) (t : Token)
      → (jwt_access_token_validator d verify m now jwt decoded required app ≡ accepted t)
        ↔ Valid m now jwt decoded required app t
  unfolding jwt_access_token_validator
  jwt_access_token_validator-accepted_iff m now jwt undecodable required app t =
      (λ h. cc, λ (p, b, h, k, l, n, o). cc)
  jwt_access_token_validator-accepted_iff m now jwt unparsable required app t =
      (λ h. cc, λ (p, b, h, k, l, n, o). cc)
  jwt_access_token_validator-accepted_iff m now jwt (payload p) required app t =
      elim (Option-cases (verify_token_format p)) [
        | inl e ↦
            rw (e, jwt_access_token_validator)
              (λ h. cc, λ (q, b, h, k, l, n, o). let same : p ≡ q = cc h in cc (rw same at e))
        | inr (b, e) ↦
            let (to, from) = format_iff m now jwt b required app t in
            rw (e, jwt_access_token_validator)
              (
                λ h. let (in_time, found, fits) = to h in (p, b, refl, e, in_time, found, fits),
                λ (q, c, h, k, in_time, found, fits).
                    let is : p ≡ q = cc h in
                    let same : c ≡ b = cc (k, rw is at e) in
                    from (
                      subst
                        (λ x.
                          (ltb x.exp now ≡ false)
                          × (find_by_id d m x.jti ≡ some t)
                          × Fits t jwt x required app)
                        same (in_time, found, fits)),
              )
      ]

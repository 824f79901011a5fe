-- ===== src/OAuth/Grants/Valid.antt =====
-- What a valid token is: a row of the table, signed with its secret.
use microgateway.Common.{
  String, ◌≡◌, refl, Bool, true, Option, none, some, arith, Option-cases, Bool-cases, inl, inr,
  ◌==◌, split,
}
use microgateway.OAuth.Store.{Token, DataModel, find}
use microgateway.OAuth.Grants.{
  Claims, Decoded, garbled, claims, Validation, no_match, valid, authentic, checked, by_claims,
  by_payload, second, validate_token,
}

module _ (claims_of : String → Decoded) (verify : String → String → Bool) where
  checked-valid :
      (token : String) (c : Claims) (o : Option Token) (t : Token)
      → checked verify token c o ≡ valid t
      → (o ≡ some t) × (verify token t.secret ≡ true)
  unfolding checked authentic
  checked-valid token c none t h = cc
  checked-valid token c (some u) t h = ground arith

  -- A valid token has a row by an id of its claims, signed with the row's secret; and without a row
  -- for that id it is not valid.
  abbrev Backed :
      (String → Option Token) → String → Token → ((String → Option Token) → Validation) → Type 0
  Backed lookup token t validation =
      (id : String) × (lookup id ≡ some t)
      × (verify token t.secret ≡ true)
      × ((l : String → Option Token) → l id ≡ none → validation l ≡ no_match)

  by_claims-valid :
      (lookup : String → Option Token) (token : String) (c : Decoded) (t : Token)
      → by_claims claims_of verify lookup token c ≡ valid t
      → Backed lookup token t (λ l. by_claims claims_of verify l token c)
  unfolding by_claims
  by_claims-valid lookup token garbled t h = cc
  by_claims-valid lookup token (claims c) t h = elim (Option-cases c.jti) [
    | inl e ↦ cc (rw e at h)
    | inr (jti, e) ↦ elim (Bool-cases (jti == "")) [
      | inl f ↦ cc (rw (e, f) at h)
      | inr f ↦
          let (found, signed) = checked-valid token c (lookup jti) t (rw (e, f) at h) in
          (jti, found, signed, λ l k. rw (e, f, k) refl)
    ]
  ]

  by_payload-valid :
      (lookup : String → Option Token) (token : String) (o : Option String) (t : Token)
      → by_payload claims_of verify lookup token o ≡ valid t
      → Backed lookup token t (λ l. by_payload claims_of verify l token o)
  unfolding by_payload
  by_payload-valid lookup token none t h = cc
  by_payload-valid lookup token (some payload) t h = elim (Bool-cases (payload == "")) [
    | inl e ↦ cc (rw e at h)
    | inr e ↦
        let (id, found, signed, lost) =
          by_claims-valid lookup token (claims_of payload) t (rw e at h) in
        (id, found, signed, λ l k. rw e (lost l k))
  ]

  pub validate_token-valid :
      {M : Type 0} (d : DataModel M Token) (m : M) (api token : String) (t : Token)
      → validate_token claims_of verify d m api token ≡ valid t
      → (id : String) × (find d m api id ≡ some t)
        × (verify token t.secret ≡ true)
        × ((m' : M)
            → find d m' api id ≡ none
            → validate_token claims_of verify d m' api token ≡ no_match)
  unfolding validate_token
  validate_token-valid d m api token t h =
      let (id, found, signed, lost) =
        by_payload-valid (find d m api) token (second (split b'.' token)) t h in
      (id, found, signed, λ m' k. lost (find d m' api) k)

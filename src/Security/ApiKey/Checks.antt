-- ===== src/Security/ApiKey/Checks.antt =====
-- When the comparisons of a client id and of a secret go well.
use microgateway.Common.{
  String, ◌≡◌, ◌≢◌, ◌↔◌, refl, ap, sym, ◌∙◌, true, false, Option, none, some, same, ◌==◌, ◌⊎◌, inl,
  inr, Bool-cases, eq_iff,
}
use microgateway.Api.{Entry}
use microgateway.Security.ApiKey.{hashed, id_check, secret_check}

pub same_iff : (a b : Option String) → (same a b ≡ true) ↔ (a ≡ b)
same_iff none none = (λ h. refl, λ h. refl)
same_iff none (some t) = (λ h. cc, λ h. cc)
same_iff (some s) none = (λ h. cc, λ h. cc)
same_iff (some s) (some t) = (λ h. ap some ((eq_iff s t).0 h), λ h. (eq_iff s t).1 (cc h))

-- a test on the kind of the key that fails
pub untold : (a : Option String) (t : String) → a ≢ some t → same a (some t) ≡ false
untold a t h = elim (Bool-cases (same a (some t))) [
  | inl b ↦ absurd (h ((same_iff a (some t)).0 b))
  | inr b ↦ b
]

pub told : (a : Option String) (t : String) → same a (some t) ≡ false → a ≢ some t
told a t b h = cc (b, (same_iff a (some t)).1 h)

module _ (digest : String → String) (headers query : String → Option String) (entry : Entry) where
  -- The value is that of the entry's client secret: its hash, or, where it is missing or empty, as it
  -- is.
  abbrev pub IsSecret : Option String → Type 0
  IsSecret none = entry.client_secret ≡ none
  IsSecret (some s) =
      ((s ≡ "") × (entry.client_secret ≡ some ""))
      ⊎ ((s ≢ "") × (entry.client_secret ≡ some (digest s)))

  pub id_check_iff :
      (got secret : Option String)
      → (id_check got entry.client_id ≡ (true, secret))
        ↔ ((got ≡ entry.client_id) × (secret ≡ none))
  unfolding id_check
  id_check_iff got secret = (
    λ h. ((same_iff got entry.client_id).0 (ap (λ x. x.0) h), sym (ap (λ x. x.1) h)),
    λ (e, f). rw (id_check, (same_iff got entry.client_id).1 e, f) refl,
  )

  hashed_iff : (got : Option String) → (hashed digest got ≡ entry.client_secret) ↔ IsSecret got
  unfolding hashed
  hashed_iff none = (λ e. sym e, λ e. sym e)
  hashed_iff (some s) = elim (Bool-cases (s == "")) [
    | inl b ↦
        let empty = (eq_iff s "").0 b in
        (
          λ e. inl (empty, sym (rw (hashed, b) at e) ∙ ap some empty),
          λ (x : IsSecret (some s)). elim x [
            | inl (_, e) ↦ rw (hashed, b, e, empty) refl
            | inr (n, e) ↦ absurd (n empty)
          ],
        )
    | inr b ↦
        let full : s ≢ "" = λ k. cc (b, (eq_iff s "").1 k) in
        (
          λ e. inr (full, sym (rw (hashed, b) at e)),
          λ (x : IsSecret (some s)). elim x [
            | inl (k, e) ↦ absurd (full k)
            | inr (n, e) ↦ rw (hashed, b, e) refl
          ],
        )
  ]

  pub secret_check_iff :
      (got passed secret : Option String)
      → (secret_check digest headers query entry got passed ≡ (true, secret))
        ↔ (IsSecret got × (secret ≡ passed))
  unfolding secret_check
  secret_check_iff got passed secret =
      let (to, from) = same_iff (hashed digest got) entry.client_secret in
      let (up, down) = hashed_iff got in
      elim (Bool-cases (same (hashed digest got) entry.client_secret)) [
        | inl b ↦ (
          λ h. (up (to b), sym (ap (λ x. x.1) (rw (secret_check, b) at h))),
          λ (x, e). rw (secret_check, b, e) refl,
        )
        | inr b ↦
            (λ h. cc (ap (λ x. x.0) (rw (secret_check, b) at h)), λ (x, e). cc (b, from (down x)))
      ]

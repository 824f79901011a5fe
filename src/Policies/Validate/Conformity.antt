-- ===== src/Policies/Validate/Conformity.antt =====
-- When the validation of a message lets it pass.
use microgateway.Common.{
  String, ◌≡◌, ◌↔◌, refl, Bool, true, false, Option, none, some, List, [], ◌∷◌, All, keep, map,
  to_text, get, Option-cases, Bool-cases, inl, inr, ◌==◌,
}
use microgateway.Policies.Validate.{
  Call, fails, proceeds, Parameter, Input, has_failed, or_proceed, response_calls, reference_calls,
  validate, check, schema_of, response_schema, Conforms,
}

module _ {B K : Type 0} (is_valid : B → K → Bool) (resolve : String → Option K) where
  request_iff :
      (body : B) (ps : List (Parameter K))
      → (or_proceed is_valid resolve (
            map
              (λ (p : Parameter K). fails (some 400))
              (keep (has_failed is_valid resolve body) ps))
          ≡ proceeds ∷ [])
        ↔ All (λ p. has_failed is_valid resolve body p ≡ false) ps
  unfolding or_proceed
  request_iff body [] = (λ h. tt, λ h. refl)
  request_iff body (p ∷ ps) = elim (Bool-cases (has_failed is_valid resolve body p)) [
    | inl e ↦ rw e (λ h. cc, λ h. cc h.0)
    | inr e ↦ let (to, from) = request_iff body ps in rw e (λ h. (refl, to h), λ (k, h). from h)
  ]

  check_iff :
      (body : B) (schema : K)
      → (or_proceed is_valid resolve (check is_valid resolve body schema) ≡ proceeds ∷ [])
        ↔ (is_valid body schema ≡ true)
  unfolding or_proceed check
  check_iff body schema = elim (Bool-cases (is_valid body schema)) [
    | inl e ↦ rw e (λ h. refl, λ h. refl)
    | inr e ↦ rw e (λ h. cc, λ h. cc)
  ]

  some_iff :
      (body : B) (schema : K)
      → (or_proceed is_valid resolve (check is_valid resolve body schema) ≡ proceeds ∷ [])
        ↔ ((s : K) → ◌≡◌ {A = Option K} (some schema) (some s) → is_valid body s ≡ true)
  some_iff body schema =
      let (to, from) = check_iff body schema in
      (λ h s e. let same : schema ≡ s = cc in rw same at (to h), λ h. from (h schema refl))

  default_iff :
      (i : Input B K) (o : Option (Option K))
      → (or_proceed is_valid resolve
            (elim (elim o as (λ x. Option K) [ none ↦ none | some s ↦ s ]) as (λ x. List Call) [
              | none ↦ []
              | some schema ↦ check is_valid resolve i.message_body schema
            ])
          ≡ proceeds ∷ [])
        ↔ ((schema : K)
            → elim o as (λ x. Option K) [ none ↦ none | some s ↦ s ] ≡ some schema
            → is_valid i.message_body schema ≡ true)
  unfolding or_proceed
  default_iff i none = (λ h s e. cc, λ h. refl)
  default_iff i (some none) = (λ h s e. cc, λ h. refl)
  default_iff i (some (some schema)) = some_iff i.message_body schema

  of_status_iff :
      (i : Input B K) (o d : Option (Option K))
      → (or_proceed is_valid resolve
            (elim (elim o as (λ x. Option K) [ none ↦ none | some s ↦ s ]) as (λ x. List Call) [
              | none ↦
                  elim (elim d as (λ x. Option K) [ none ↦ none | some s ↦ s ])
                    as (λ x. List Call) [
                      | none ↦ []
                      | some schema ↦ check is_valid resolve i.message_body schema
                    ]
              | some schema ↦ check is_valid resolve i.message_body schema
            ])
          ≡ proceeds ∷ [])
        ↔ ((schema : K)
            → elim o as (λ x. Option K) [
              | some x ↦ elim x as (λ y. Option K) [
                | some s ↦ some s
                | none ↦ elim d as (λ z. Option K) [ none ↦ none | some s ↦ s ]
              ]
              | none ↦ elim d as (λ z. Option K) [ none ↦ none | some s ↦ s ]
            ]
              ≡ some schema
            → is_valid i.message_body schema ≡ true)
  of_status_iff i none d = default_iff i d
  of_status_iff i (some none) d = default_iff i d
  of_status_iff i (some (some schema)) d = some_iff i.message_body schema

  response_iff :
      (i : Input B K)
      → (or_proceed is_valid resolve (response_calls is_valid resolve i) ≡ proceeds ∷ []) ↔ (
          (schema : K)
          → response_schema is_valid resolve i ≡ some schema
          → is_valid i.message_body schema ≡ true)
  unfolding response_calls schema_of
  response_iff i = of_status_iff i (get i.responses (to_text i.status)) (get i.responses "default")

  reference_iff :
      (def : String) (i : Input B K)
      → (reference_calls is_valid resolve def i ≡ proceeds ∷ [])
        ↔ ((schema : K) × (resolve def ≡ some schema) × (is_valid i.message_body schema ≡ true))
  unfolding reference_calls
  reference_iff def i = elim (Option-cases (resolve def)) [
    | inl e ↦ rw (e, reference_calls) (λ h. cc, λ (s, k, v). cc)
    | inr (s, e) ↦
        let (to, from) = check_iff i.message_body s in
        rw (e, reference_calls)
          (λ h. (s, refl, to h), λ (s', k, v). let same : s ≡ s' = cc in from (rw same v))
  ]

  -- The policy calls `proceed`, and nothing else of the flow, exactly when the message conforms: for
  -- 'request' every body parameter with a schema is valid; for 'response' the body is valid by the
  -- schema for its status, or else by the default one, where there is one; otherwise the definition
  -- is a pointer that can be resolved, to a schema by which the body is valid.
  pub validate-proceeds_iff :
      (def : Option String) (i : Input B K)
      → (validate is_valid resolve def i ≡ proceeds ∷ []) ↔ Conforms is_valid resolve def i
  unfolding validate
  validate-proceeds_iff none i = (λ h. cc, λ h. absurd h)
  validate-proceeds_iff (some def) i = elim (Bool-cases (def == "request")) [
    | inl e ↦ rw e (request_iff i.request_body i.parameters)
    | inr e ↦ elim (Bool-cases (def == "response")) [
      | inl f ↦ rw (e, f) (response_iff i)
      | inr f ↦ elim (Bool-cases (def == "")) [
        | inl g ↦ rw (e, f, g) (λ h. cc, λ h. absurd h)
        | inr g ↦ rw (e, f, g) (reference_iff def i)
      ]
    ]
  ]

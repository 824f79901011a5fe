-- ===== src/Policies/Validate.antt =====
-- policies/validate/index.js. `is_valid` is `validator.validate(…).valid` of the package jsonschema, on
-- a body of the type `B` and a schema of the type `K`; `resolve` is the schema that json-refs finds
-- for a pointer, where it finds one.
pub mod Conformity
use microgateway.Common.{
  ℕ, String, ◌≡◌, ◌↔◌, refl, ap, ◌∙◌, Bool, true, false, ◌&&◌, Option, none, some, List, [], ◌∷◌,
  ◌++◌, arith, All, all, keep, map, to_text, get, Option-cases, Bool-cases, inl, inr, is_some, ◌==◌,
  if◌then◌else◌,
}

-- The calls of the flow: `fail` with the status code of the error, or without one, and `proceed`.
pub data Call : Type 0 where
  fails : Option ℕ → Call
  proceeds : Call

pub record Parameter (K : Type 0) : Type 0 where
  pub location : String
  pub schema : Option K

-- What the policy reads: the bodies, the parameters and the responses of the operation by status
-- (with the schema, where a response has one), and the status of the message.
pub record Input (B K : Type 0) : Type 0 where
  pub request_body : B
  pub message_body : B
  pub status : ℕ
  pub parameters : List (Parameter K)
  pub responses : List (String × Option K)

module _ {B K : Type 0} (is_valid : B → K → Bool) (resolve : String → Option K) where
  pub has_failed : B → Parameter K → Bool
  has_failed body p = elim p.schema [
    | none ↦ false
    | some schema ↦
        if p.location == "body" then (if is_valid body schema then false else true) else false
  ]

  -- `flow.proceed()` where nothing stopped it
  pub or_proceed : List Call → List Call
  or_proceed [] = proceeds ∷ []
  or_proceed (c ∷ calls) = c ∷ calls

  check : B → K → List Call
  check body schema = if is_valid body schema then [] else fails (some 422) ∷ []

  -- `responses.hasOwnProperty(key) && responses[key].hasOwnProperty('schema')`, and that schema
  schema_of : Input B K → String → Option K
  schema_of i key = elim (get i.responses key) [ none ↦ none | some s ↦ s ]

  pub response_calls : Input B K → List Call
  unfolding check schema_of
  response_calls i = elim (schema_of i (to_text i.status)) [
    | some schema ↦ check i.message_body schema
    | none ↦ elim (schema_of i "default") [ none ↦ [] | some schema ↦ check i.message_body schema ]
  ]

  pub request_calls : Input B K → List Call
  request_calls i =
      map (λ (p : Parameter K). fails (some 400)) (keep (has_failed i.request_body) i.parameters)

  pub reference_calls : String → Input B K → List Call
  unfolding check
  reference_calls def i = elim (resolve def) [
    | none ↦ fails (some 422) ∷ []
    | some schema ↦ or_proceed (check i.message_body schema)
  ]

  -- All calls of the flow that the policy makes; `definition` is `undefined` or a text.
  pub validate : Option String → Input B K → List Call
  unfolding request_calls response_calls reference_calls or_proceed
  validate none i = fails none ∷ []
  validate (some def) i =
      if def == "request"
      then or_proceed (request_calls i)
      else if def == "response"
      then or_proceed (response_calls i)
      else if def == ""
      then fails none ∷ []
      else reference_calls def i

  -- The schema for the response is that of the status, or else that of 'default'.
  abbrev pub response_schema : Input B K → Option K
  response_schema i = elim (get i.responses (to_text i.status)) [
    | some (some schema) ↦ some schema
    | some none ↦ elim (get i.responses "default") [ none ↦ none | some s ↦ s ]
    | none ↦ elim (get i.responses "default") [ none ↦ none | some s ↦ s ]
  ]

  -- What a definition asks for.
  abbrev pub Conforms : Option String → Input B K → Type 0
  Conforms none i = ⊥
  Conforms (some def) i =
      if def == "request"
      then All (λ p. has_failed i.request_body p ≡ false) i.parameters
      else if def == "response"
      then ((schema : K) → response_schema i ≡ some schema → is_valid i.message_body schema ≡ true)
      else if def == ""
      then ⊥
      else ((schema : K) × (resolve def ≡ some schema) × (is_valid i.message_body schema ≡ true))

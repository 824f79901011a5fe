-- ===== src/Policies/Cors.antt =====
-- lib/cors/index.js: the headers for requests from other origins, and the end of preflight requests.
use microgateway.Common.{
  String, ◌≡◌, ◌↔◌, refl, ap, ◌∙◌, Bool, true, false, ◌||◌, Option, none, some, List, [], ◌∷◌,
  Bool-cases, inl, inr, any, not, ◌==◌, if◌then◌else◌,
}

-- What the middleware does: `res.setHeader`, `res.end` and `next`.
pub data Act : Type 0 where
  sets_header : (name value : String) → Act
  ends : Act
  continues : Act

-- `req.ctx._apis`
pub record Target : Type 0 where
  pub allow_methods : String
  pub is_preflight : Bool

-- a header that is missing or empty counts as the default
pub header_or : String → Option String → String
header_or default none = default
header_or default (some value) = if value == "" then default else value

pub credentials : String → String
credentials allowed = if allowed == "*" then "false" else "true"

pub exposed : String
exposed =
    "APIm-Debug-Trans-Id, X-RateLimit-Limit, X-RateLimit-Remaining, X-RateLimit-Reset, X-Global-Transaction-ID"

-- the five headers, before the rest of the actions
pub cors_headers : Target → (origin requested : Option String) → List Act → List Act
unfolding header_or exposed credentials
cors_headers target origin requested rest =
    let allowed = header_or "*" origin in
    sets_header "access-control-allow-origin" allowed
    ∷ sets_header "access-control-allow-credentials" (credentials allowed)
    ∷ sets_header "access-control-allow-headers" (header_or "" requested)
    ∷ sets_header "access-control-allow-methods" target.allow_methods
    ∷ sets_header "access-control-expose-headers" exposed
    ∷ rest

pub is_handled : Target → Bool
is_handled target = target.is_preflight || (if target.allow_methods == "" then false else true)

unfoldable pub cors : Target → (origin requested : Option String) → List Act
unfolding cors_headers is_handled
cors target origin requested =
    let rest = (if target.is_preflight then ends else continues) ∷ [] in
    if is_handled target then cors_headers target origin requested rest else rest

-- The last value that the actions give a header.
abbrev pub value_of : String → List Act → Option String
value_of name [] = none
value_of name (sets_header n v ∷ acts) = elim (value_of name acts) [
  | none ↦ if n == name then some v else none
  | some w ↦ some w
]
value_of name (ends ∷ acts) = value_of name acts
value_of name (continues ∷ acts) = value_of name acts

abbrev pub is_end : Act → Bool
is_end (sets_header n v) = false
is_end ends = true
is_end continues = false

abbrev pub is_next : Act → Bool
is_next (sets_header n v) = false
is_next ends = false
is_next continues = true

abbrev pub allow_origin : String
allow_origin = "access-control-allow-origin"

abbrev pub allow_credentials : String
allow_credentials = "access-control-allow-credentials"

-- what a request with credentials has named
abbrev pub Named : Target → (origin requested : Option String) → Type 0
Named target origin requested =
    (s : String) × (origin ≡ some s)
    × ((s == "") ≡ false)
    × ((s == "*") ≡ false)
    × (value_of allow_origin (cors target origin requested) ≡ some s)

ends-last :
    (target : Target) (origin requested : Option String)
    → (any is_end (cors target origin requested) ≡ target.is_preflight)
      × (any is_next (cors target origin requested) ≡ not target.is_preflight)
unfolding cors cors_headers is_handled
ends-last target origin requested = elim (Bool-cases target.is_preflight) [
  | inl e ↦ rw e (refl, refl)
  | inr e ↦ elim (Bool-cases (target.allow_methods == "")) [
    | inl f ↦ rw (e, f) (refl, refl)
    | inr f ↦ rw (e, f) (refl, refl)
  ]
]

module _ (target : Target) (origin requested : Option String) where
  headers-values :
      (c : Act)
      → value_of allow_origin (c ∷ []) ≡ none
      → value_of allow_credentials (c ∷ []) ≡ none
      → (value_of allow_origin (cors_headers target origin requested (c ∷ []))
          ≡ some (header_or "*" origin))
        × (value_of allow_credentials (cors_headers target origin requested (c ∷ []))
            ≡ some (credentials (header_or "*" origin)))
  unfolding cors_headers
  headers-values c h k = (rw h refl, rw k refl)

origin-named :
    (origin : Option String)
    → (credentials (header_or "*" origin) ≡ "true") ↔ (
        (s : String) × (origin ≡ some s)
        × ((s == "") ≡ false)
        × ((s == "*") ≡ false)
        × (header_or "*" origin ≡ s))
unfolding header_or credentials
origin-named none = (λ h. cc, λ (s, h, k, l, m). cc)
origin-named (some s) = elim (Bool-cases (s == "")) [
  | inl e ↦ rw e (λ h. cc, λ (t, h, k, l, m). let same : s ≡ t = cc in cc (rw same at e))
  | inr e ↦ elim (Bool-cases (s == "*")) [
    | inl f ↦ rw (e, f) (λ h. cc, λ (t, h, k, l, m). let same : s ≡ t = cc in cc (rw same at f))
    | inr f ↦ rw (e, f) (λ h. (s, refl, e, f, refl), λ h. refl)
  ]
]

value-named :
    (target : Target) (origin requested : Option String) (c : Act)
    → value_of allow_origin (c ∷ []) ≡ none
    → value_of allow_credentials (c ∷ []) ≡ none
    → (value_of allow_credentials (cors_headers target origin requested (c ∷ [])) ≡ some "true") ↔ (
        (s : String) × (origin ≡ some s)
        × ((s == "") ≡ false)
        × ((s == "*") ≡ false)
        × (value_of allow_origin (cors_headers target origin requested (c ∷ [])) ≡ some s))
value-named target origin requested c h k =
    let (shown, allowed) = headers-values target origin requested c h k in
    let (to, from) = origin-named origin in
    (
      λ e.
          let (s, named, filled, other, is) = to (cc) in
          (s, named, filled, other, shown ∙ ap some is),
      λ (s, named, filled, other, is). allowed ∙ ap some (from (s, named, filled, other, cc)),
    )

-- A preflight request ends and any other goes on. Credentials are allowed exactly when the request
-- named an origin, which is not empty and not '*', and that origin is the one allowed; so credentials
-- and the origin '*' are never allowed together.
pub cors-ends :
    (target : Target) (origin requested : Option String)
    → (any is_end (cors target origin requested) ≡ target.is_preflight)
      × (any is_next (cors target origin requested) ≡ not target.is_preflight)
      × ((value_of allow_credentials (cors target origin requested) ≡ some "true")
          ↔ Named target origin requested)
unfolding cors
cors-ends target origin requested =
    let (ended, went_on) = ends-last target origin requested in
    (
      ended,
      went_on,
      elim (Bool-cases (is_handled target)) [
        | inl e ↦ elim (Bool-cases target.is_preflight) [
          | inl f ↦ rw (e, f) (value-named target origin requested ends refl refl)
          | inr f ↦ rw (e, f) (value-named target origin requested continues refl refl)
        ]
        | inr e ↦ elim (Bool-cases target.is_preflight) [
          | inl f ↦ rw (e, f) (λ h. cc, λ (s, h, k, l, m). cc)
          | inr f ↦ rw (e, f) (λ h. cc, λ (s, h, k, l, m). cc)
        ]
      ],
    )

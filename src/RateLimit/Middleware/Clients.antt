-- ===== src/RateLimit/Middleware/Clients.antt =====
-- That a client does not use up the requests of another one.
use text.Mathlib.TextLemmas.{append_cancel_left, append_cancel_right}
use microgateway.Common.{
  ℕ, ◌+◌, ◌≤◌, ◌<◌, String, ◌≡◌, ◌≢◌, refl, ◌∙◌, true, false, Option, none, some, List, [], ◌∷◌,
  ◌+s◌, get, All, length, Bool-cases, eq_iff, inl, inr, ◌==◌,
}
use microgateway.RateLimit.Headers.{Context}
use microgateway.RateLimit.Limiter.{Limiter}
use microgateway.RateLimit.Limiter.Admission.{let_through}
use microgateway.RateLimit.Middleware.{
  Series, Limit, Api, Cache, scope_of, applied, applied_config, rate_limit, client_part,
}
use microgateway.RateLimit.Middleware.Isolation.{passing, rate_limit-other, rate_limit-passing}

-- the API as a client calls it
abbrev pub as_client : Api → String → Api
as_client api c = record api { client_id = some c }

client_part-full : (c : String) → c ≢ "" → client_part (some c) ≡ ":" +s c
unfolding client_part
client_part-full c full = elim (Bool-cases (c == "")) [
  | inl b ↦ absurd (full ((eq_iff c "").0 b))
  | inr b ↦ rw (client_part, b) refl
]

-- Two clients that have the same part of a scope are the same.
parts_same :
    (start c d name : String)
    → start +s (":" +s c) +s ":" +s name ≡ start +s (":" +s d) +s ":" +s name
    → c ≡ d
parts_same start c d name e =
    append_cancel_left ":" c d
      (append_cancel_right (":" +s c) (":" +s d) (":" +s name) (append_cancel_left start _ _ e))

scope_of-client :
    (api : Api) (l : Limit) (c d : String)
    → c ≢ ""
    → d ≢ ""
    → c ≢ d
    → (scope_of (as_client api c) l == scope_of (as_client api d) l) ≡ false
unfolding scope_of
scope_of-client api l c d full filled apart =
    elim (Bool-cases (scope_of (as_client api c) l == scope_of (as_client api d) l)) [
      | inr e ↦ e
      | inl e ↦
          let same = (eq_iff _ _).0 e in
          absurd (
            apart (
              parts_same api.rate_limit_scope c d l.name
                (rw (scope_of, client_part-full c full, client_part-full d filled) at same)))
    ]

module _ {B : Type 0} (limiter : Limiter B) (get_interval : ℕ → ℕ → String → Option String → ℕ × ℕ)
    (series : Series (Context × Cache B)) where
  -- What the requests for the API at the given times leave.
  abbrev pub left_by : Api → List ℕ → Context × Cache B → Context × Cache B
  left_by api [] s = s
  left_by api (now ∷ times) s =
      left_by api times (rate_limit limiter get_interval now series api s).1

  left_by-client :
      (before : List ℕ) (api : Api) (l : Limit) (s : Context × Cache B) (c d : String)
      → applied api ≡ l ∷ []
      → c ≢ ""
      → d ≢ ""
      → c ≢ d
      → get s.1 (scope_of (as_client api d) l) ≡ none
      → get (left_by (as_client api c) before s).1 (scope_of (as_client api d) l) ≡ none
  unfolding applied
  left_by-client [] api l s c d h full filled apart e = e
  left_by-client (now ∷ before) api l s c d h full filled apart e =
      left_by-client before api l (rate_limit limiter get_interval now series (as_client api c) s).1
        c d h full filled apart
        (rate_limit-other limiter get_interval series now (as_client api c) s
            (scope_of (as_client api d) l) (rw h (scope_of-client api l c d full filled apart, tt))
          ∙ e)

  -- However many requests one client has made of a plan with one limit that rejects, of those that
  -- another client makes in the interval that begins with its own first one, as many get past the
  -- middleware as the limit says, and no more; or every one, where the limit is 0.
  pub rate_limit-client :
      (before : List ℕ) (now : ℕ) (times : List ℕ) (api : Api) (l : Limit) (s : Context × Cache B)
      (c d : String)
      → applied api ≡ l ∷ []
      → c ≢ ""
      → d ≢ ""
      → c ≢ d
      → get s.1 (scope_of (as_client api d) l) ≡ none
      → (applied_config get_interval (as_client api d) l).reject ≡ true
      → 0 < (applied_config get_interval (as_client api d) l).interval
      → All
          (λ t. (now ≤ t) × (t < now + (applied_config get_interval (as_client api d) l).interval))
          times
      → passing limiter get_interval series
          (as_client api d)
          (now ∷ times)
          (left_by (as_client api c) before s)
        ≡ let_through (applied_config get_interval (as_client api d) l).limit (length (now ∷ times))
  unfolding applied
  rate_limit-client before now times api l s c d h full filled apart e j pos w =
      rate_limit-passing limiter get_interval series now times (as_client api d) l
        (left_by (as_client api c) before s) h
        (left_by-client before api l s c d h full filled apart e) j pos w

-- ===== src/RateLimit/Tests.antt =====
-- A plan with a limit of two requests, and instances of the theorems on limits.
use microgateway.Common.{
  ℕ, min, String, ◌≡◌, refl, Bool, true, false, Option, none, some, List, [], ◌∷◌, arith, get,
  to_text, to_upper,
}
use microgateway.RateLimit.Headers.{Headers, Rate, Context, failed, limit_header, handle_response}
use microgateway.RateLimit.Headers.Rejection.{TellsOf, handle_response-rejected}
use microgateway.RateLimit.Limiter.{config_of}
use microgateway.RateLimit.Limiter.Counting.{Window, counting}
use microgateway.RateLimit.Middleware.{Series, Limit, Api, Cache, applied, applied_config, scope_of}
use microgateway.RateLimit.Middleware.Isolation.{passing, rate_limit-passing}
use microgateway.RateLimit.Middleware.Clients.{as_client, left_by, rate_limit-client}

abbrev unnamed : Rate
unnamed = record {
  name = "x-ibm-unnamed-rate-limit";
  limit = 100;
  remaining = some 7;
  reset = 9000;
  reject = true;
}

abbrev beyond : Rate
beyond = record { name = "gold"; limit = 60; remaining = none; reset = 2500; reject = true }

abbrev told : Headers
told = (limit_header, "name=gold,60") ∷ ("Vary", "Accept") ∷ []

abbrev ctx : Context
ctx = record { headers = told; has_error = false; post_flow = [] }

texts : to_text 2048 ≡ "2048"
unfolding to_text
texts = refl

handle_response-rejected_example :
    (h : Headers) × (handle_response beyond ctx
      ≡ (failed, record ctx { headers = h; has_error = true }))
    × TellsOf beyond told h
handle_response-rejected_example = handle_response-rejected beyond ctx refl refl

-- Tasks one after another, up to the first error.
abbrev in_turn : {S : Type 0} → List (S → Bool × S) → S → Bool × S
in_turn [] s = (true, s)
in_turn (t ∷ ts) s = elim (t s).0 [ false ↦ (false, (t s).1) | true ↦ in_turn ts (t s).1 ]

in_turn-fails :
    {S : Type 0} (t : S → Bool × S) (ts : List (S → Bool × S)) (s : S)
    → (t s).0 ≡ false
    → in_turn (t ∷ ts) s ≡ (false, (t s).1)
in_turn-fails t ts s e = rw (e, in_turn) refl

in_turn-goes :
    {S : Type 0} (t : S → Bool × S) (ts : List (S → Bool × S)) (s : S)
    → (t s).0 ≡ true
    → in_turn (t ∷ ts) s ≡ in_turn ts (t s).1
in_turn-goes t ts s e = rw (e, in_turn) refl

series : {S : Type 0} → Series S
series = record {
  run = in_turn;
  run-nil = λ s. refl;
  run-fails = in_turn-fails;
  run-goes = in_turn-goes;
}

abbrev two_per_minute : ℕ → ℕ → String → Option String → ℕ × ℕ
two_per_minute limit period unit value = (2, 60000)

abbrev hard : Limit
hard = record {
  name = "calls";
  value = "2/1minute";
  options = record {
    requests = none;
    limit = none;
    period = none;
    interval = none;
    unit = none;
    value = none;
    reject = false;
    hard_limit = true;
    scope = none;
  };
}

abbrev api : Api
api = record {
  rate_limits = some (hard ∷ []);
  rate_limit_scope = "plan:gold";
  client_id = some "app";
}

abbrev start : Context × Cache Window
start = (ctx, [])

applied-hard : applied api ≡ hard ∷ []
unfolding applied to_upper
applied-hard = refl

scope : scope_of api hard ≡ "plan:gold:app:calls"
unfolding scope_of
scope = refl

settings :
    ((applied_config two_per_minute api hard).reject ≡ true)
    × ((applied_config two_per_minute api hard).interval ≡ 60000)
unfolding config_of
settings = (refl, refl)

rate_limit-passing_example :
    passing counting two_per_minute series api (1000 ∷ 1000 ∷ 2000 ∷ 60999 ∷ []) start ≡ min 4 2
unfolding get config_of
rate_limit-passing_example =
    rate_limit-passing counting two_per_minute series 1000 (1000 ∷ 2000 ∷ 60999 ∷ []) api hard start
      applied-hard refl settings.0 (omega arith) (omega arith)

rate_limit-client_example :
    passing counting two_per_minute series
      (as_client api "other")
      (1000 ∷ 1000 ∷ 60999 ∷ [])
      (left_by counting two_per_minute series (as_client api "app") (900 ∷ 901 ∷ 902 ∷ []) start)
    ≡ min 3 2
unfolding get config_of
rate_limit-client_example =
    rate_limit-client counting two_per_minute series (900 ∷ 901 ∷ 902 ∷ []) 1000 (1000 ∷ 60999 ∷ [])
      api hard start "app" "other" applied-hard (λ h. cc) (λ h. cc) (λ h. cc) refl settings.0
      (omega arith) (omega arith)

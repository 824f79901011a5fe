-- ===== src/RateLimit/Middleware.antt =====
-- lib/rate-limit/index.js and util.js: the middleware that applies the limits of a plan, and the
-- cache of the limiters by their scope.
--
-- `async.series` is the record `Series`, with the laws that its documentation states: the tasks run
-- one after another, and the first error ends the series.
pub mod Isolation
pub mod Clients
use microgateway.Common.{
  ℕ, String, ◌≡◌, Bool, true, false, not, Option, none, some, List, [], ◌∷◌, get, put, to_upper,
  truthy, keep, map, any, ◌+s◌, ◌==◌, if◌then◌else◌,
}
use microgateway.RateLimit.Headers.{Context, Flow, failed, proceeded, threw}
use microgateway.RateLimit.Limiter.{Limiter, Options, Config, config_of, Buckets, in_process}

pub record Series (S : Type 0) : Type 0 where
  pub run : List (S → Bool × S) → S → Bool × S
  pub run-nil : (s : S) → run [] s ≡ (true, s)
  pub run-fails :
      (t : S → Bool × S) (ts : List (S → Bool × S)) (s : S)
      → (t s).0 ≡ false
      → run (t ∷ ts) s ≡ (false, (t s).1)
  pub run-goes :
      (t : S → Bool × S) (ts : List (S → Bool × S)) (s : S)
      → (t s).0 ≡ true
      → run (t ∷ ts) s ≡ run ts (t s).1

-- An element of `api.rateLimits`: its one key, the `value` of that, and its further fields.
pub record Limit : Type 0 where
  pub name : String
  pub value : String
  pub options : Options

-- what the middleware reads of the matched API
pub record Api : Type 0 where
  pub rate_limits : Option (List Limit)
  pub rate_limit_scope : String
  pub client_id : Option String

-- A limiter of the cache: the options at its creation, and its buckets.
pub record Instance (B : Type 0) : Type 0 where
  pub config : Config
  pub limiters : Buckets B

abbrev pub Cache : Type 0 → Type 0
Cache B = List (String × Instance B)

unfoldable pub is_limited : Limit → Bool
is_limited l = not (to_upper l.value == "UNLIMITED")

unfoldable client_part : Option String → String
client_part none = ""
client_part (some id) = if id == "" then "" else ":" +s id

-- `rateLimit.scope`
unfoldable pub scope_of : Api → Limit → String
unfolding client_part
scope_of api l = api.rate_limit_scope +s client_part api.client_id +s ":" +s l.name

limits_of : Option (List Limit) → List Limit
limits_of none = []
limits_of (some ls) = ls

-- the limits of the API that are applied
unfoldable pub applied : Api → List Limit
unfolding limits_of is_limited
applied api = keep is_limited (limits_of api.rate_limits)

abbrev pub calls_back : Flow → Bool
calls_back proceeded = true
calls_back failed = false
calls_back threw = false

-- the configuration of the limiter that is created for a limit
abbrev pub applied_config : (ℕ → ℕ → String → Option String → ℕ × ℕ) → Api → Limit → Config
applied_config get_interval api l =
    config_of get_interval
      (record l.options { value = some l.value; scope = some (scope_of api l) })

module _ {B : Type 0} (limiter : Limiter B) (get_interval : ℕ → ℕ → String → Option String → ℕ × ℕ)
    (now : ℕ) where
  -- the cached limiter, or `createLimiter(rateLimit)`
  pub instance_of : Api → Limit → Option (Instance B) → Instance B
  instance_of api l none = record { config = applied_config get_interval api l; limiters = [] }
  instance_of api l (some i) = i

  -- A task of the series: whether its callback gets no error, and what it leaves.
  pub task : Api → Limit → Context × Cache B → Bool × (Context × Cache B)
  unfolding instance_of
  task api l (ctx, cache) =
      let i = instance_of api l (get cache (scope_of api l)) in
      let (flow, (ctx', limiters)) = in_process limiter i.config now (ctx, i.limiters) in
      (calls_back flow, (ctx', put cache (scope_of api l) (record i { limiters = limiters })))

  -- The middleware: whether `next` gets no error, and what it leaves.
  pub rate_limit : Series (Context × Cache B) → Api → Context × Cache B → Bool × (Context × Cache B)
  unfolding applied
  rate_limit series api s =
      if any is_limited (limits_of api.rate_limits)
      then series.run (map (task api) (applied api)) s
      else (true, s)

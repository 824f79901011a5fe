-- ===== src/RateLimit/Limiter.antt =====
-- policies/rate-limiting/index.js and token-bucket.js: the policy in the memory of one process.
--
-- `RateLimiter` of the package limiter, with `fireImmediately`, is the record `Limiter`. Its laws say
-- what its documentation says: in an interval of the given length, which begins with the limiter's
-- creation, as many requests get a number of remaining ones as the limit allows; to the others the
-- callback gets -1, here `no_tokens`; where a request is more than the limit, which is then 0, the
-- callback gets an error. `get_interval` is that of microgateway-util.
pub mod Admission
pub mod Counting
use microgateway.Common.{
  ℕ, suc, ◌+◌, ◌-◌, ◌≤◌, ◌<◌, String, ◌≡◌, ◌≢◌, Bool, true, false, Option, none, some, List, [],
  ◌∷◌, get, put, split, truthy, nat_eq, ◌==◌, ◌||◌, if◌then◌else◌,
}
use microgateway.RateLimit.Headers.{Rate, Context, Flow, handle_response}

-- What the callback of `removeTokens` gets: an error with null, -1, or what remains.
pub data Removal : Type 0 where
  too_many_tokens : Removal
  no_tokens : Removal
  tokens_left : ℕ → Removal

-- `left` is the number of requests that the current interval still has, and `maximum` the number
-- that an interval has.
pub record Limiter (B : Type 0) : Type 0 where
  pub create : (limit interval now : ℕ) → B
  pub remove : B → ℕ → Removal × B
  pub start : B → ℕ
  pub interval : B → ℕ
  pub left : B → ℕ
  pub maximum : B → ℕ
  pub created :
      (l i now : ℕ)
      → (left (create l i now) ≡ l)
        × (start (create l i now) ≡ now)
        × (interval (create l i now) ≡ i)
        × (maximum (create l i now) ≡ l)
  pub taken :
      (b : B) (now n : ℕ)
      → start b ≤ now
      → now < start b + interval b
      → (remove b now).0 ≡ tokens_left n
      → suc (left (remove b now).1) ≡ left b
  pub spent :
      (b : B) (now : ℕ)
      → start b ≤ now
      → now < start b + interval b
      → (remove b now).0 ≡ no_tokens
      → (left b ≡ 0) × (left (remove b now).1 ≡ 0)
  pub steady :
      (b : B) (now : ℕ)
      → start b ≤ now
      → now < start b + interval b
      → (start (remove b now).1 ≡ start b) × (interval (remove b now).1 ≡ interval b)
  pub kept : (b : B) (now : ℕ) → maximum (remove b now).1 ≡ maximum b
  pub refused : (b : B) (now : ℕ) → maximum b < 1 → (remove b now).0 ≡ too_many_tokens
  pub answered : (b : B) (now : ℕ) → 1 ≤ maximum b → (remove b now).0 ≢ too_many_tokens

-- The options of the policy that the local limiter reads.
pub record Options : Type 0 where
  pub requests : Option ℕ
  pub limit : Option ℕ
  pub period : Option ℕ
  pub interval : Option ℕ
  pub unit : Option String
  pub value : Option String
  pub reject : Bool
  pub hard_limit : Bool
  pub scope : Option String

pub record Config : Type 0 where
  pub limit : ℕ
  pub interval : ℕ
  pub reject : Bool
  pub scope : Option String

-- `a || d` on numbers
number_or : Option ℕ → ℕ → ℕ
number_or none d = d
number_or (some a) d = if nat_eq a 0 then d else a

first_text : Option String → String → String
first_text none d = d
first_text (some s) d = if s == "" then d else s

unfoldable pub config_of : (ℕ → ℕ → String → Option String → ℕ × ℕ) → Options → Config
unfolding number_or first_text
config_of get_interval o =
    let (limit, interval) =
      get_interval (number_or o.requests (number_or o.limit 1000))
        (number_or o.period (number_or o.interval 1)) (first_text o.unit "hour") o.value in
    record {
      limit = limit;
      interval = interval;
      reject = o.reject || o.hard_limit;
      scope = o.scope;
    }

pub get_key : Config → String
unfolding first_text
get_key c = first_text c.scope "*"

-- `fields[fields.length - 1]`
pub last_field : List String → String
last_field [] = ""
last_field (s ∷ []) = s
last_field (s ∷ t ∷ l) = last_field (t ∷ l)

-- `Math.floor(remainingRequests)`: the error is ignored, and null becomes 0
pub remaining_of : Removal → Option ℕ
remaining_of too_many_tokens = some 0
remaining_of no_tokens = none
remaining_of (tokens_left n) = some n

abbrev pub Buckets : Type 0 → Type 0
Buckets B = List (String × B)

module _ {B : Type 0} (limiter : Limiter B) where
  pub bucket_of : Config → ℕ → Option B → B
  bucket_of c now none = limiter.create c.limit c.interval now
  bucket_of c now (some b) = b

  abbrev pub rate_of : Config → String → ℕ → Option ℕ → B → Rate
  rate_of c key now remaining b = record {
    name = last_field (split b':' key);
    limit = c.limit;
    remaining = remaining;
    reset = (limiter.start b + c.interval) - now;
    reject = c.reject;
  }

  -- inProcessRateLimiting, at the time `now`
  pub in_process : Config → ℕ → Context × Buckets B → Flow × (Context × Buckets B)
  unfolding bucket_of get_key remaining_of
  in_process c now (ctx, limiters) =
      let key = get_key c in
      let (removal, b) = limiter.remove (bucket_of c now (get limiters key)) now in
      let (flow, ctx') = handle_response (rate_of c key now (remaining_of removal) b) ctx in
      (flow, (ctx', put limiters key b))

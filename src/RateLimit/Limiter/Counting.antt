-- ===== src/RateLimit/Limiter/Counting.antt =====
-- A limiter that counts the requests of fixed intervals, as an instance of the laws.
use microgateway.Common.{
  ℕ, suc, ◌+◌, ◌-◌, ◌≤◌, ◌<◌, ◌≡◌, ◌≢◌, refl, ◌&&◌, arith, ltb, leb, nat_eq, if◌then◌else◌,
}
use microgateway.RateLimit.Limiter.{Limiter, Removal, too_many_tokens, no_tokens, tokens_left}

pub record Window : Type 0 where
  pub start : ℕ
  pub interval : ℕ
  pub limit : ℕ
  pub left : ℕ

abbrev pub current : Window → ℕ → Window
current b now =
    if leb b.start now && ltb now (b.start + b.interval)
    then b
    else record b { start = now; left = b.limit }

abbrev pub take : Window → Removal × Window
take b =
    if nat_eq b.left 0
    then (no_tokens, b)
    else (tokens_left (b.left - 1), record b { left = b.left - 1 })

-- `removeTokens(1)`, whose error leaves the limiter as it is
abbrev pub remove_one : Window → ℕ → Removal × Window
remove_one b now = if nat_eq b.limit 0 then (too_many_tokens, b) else take (current b now)

pub remove_one-taken :
    (b : Window) (now n : ℕ)
    → b.start ≤ now
    → now < b.start + b.interval
    → (remove_one b now).0 ≡ tokens_left n
    → suc (remove_one b now).1.left ≡ b.left
remove_one-taken b now n h k e = ground arith

pub remove_one-spent :
    (b : Window) (now : ℕ)
    → b.start ≤ now
    → now < b.start + b.interval
    → (remove_one b now).0 ≡ no_tokens
    → (b.left ≡ 0) × ((remove_one b now).1.left ≡ 0)
remove_one-spent b now h k e = ground arith

pub remove_one-steady :
    (b : Window) (now : ℕ)
    → b.start ≤ now
    → now < b.start + b.interval
    → ((remove_one b now).1.start ≡ b.start) × ((remove_one b now).1.interval ≡ b.interval)
remove_one-steady b now h k = ground arith

pub remove_one-kept : (b : Window) (now : ℕ) → (remove_one b now).1.limit ≡ b.limit
remove_one-kept b now = ground arith

pub remove_one-refused :
    (b : Window) (now : ℕ) → b.limit < 1 → (remove_one b now).0 ≡ too_many_tokens
remove_one-refused b now h = ground arith

pub remove_one-answered :
    (b : Window) (now : ℕ) → 1 ≤ b.limit → (remove_one b now).0 ≢ too_many_tokens
remove_one-answered b now h e = ground arith

abbrev pub counting : Limiter Window
counting = record {
  create = λ l i now. record { start = now; interval = i; limit = l; left = l };
  remove = remove_one;
  start = λ b. b.start;
  interval = λ b. b.interval;
  left = λ b. b.left;
  maximum = λ b. b.limit;
  created = λ l i now. (refl, refl, refl, refl);
  taken = remove_one-taken;
  spent = remove_one-spent;
  steady = remove_one-steady;
  kept = remove_one-kept;
  refused = remove_one-refused;
  answered = remove_one-answered;
}

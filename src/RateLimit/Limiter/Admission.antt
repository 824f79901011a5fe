-- ===== src/RateLimit/Limiter/Admission.antt =====
-- How many requests of one interval a limit lets through.
use microgateway.Common.{
  ℕ, ◌+◌, ◌-◌, ◌≤◌, ◌<◌, min, ◌≡◌, refl, true, none, some, List, [], ◌∷◌, arith, get, get-put, All,
  length, Bool-cases, ◌⊎◌, inl, inr, eq_refl, nat_eq, if◌then◌else◌, ◌∙◌,
}
use microgateway.RateLimit.Headers.{Context, Flow, failed, proceeded, threw}
use microgateway.RateLimit.Headers.Rejection.{handle_response-left, handle_response-spent}
use microgateway.RateLimit.Limiter.{
  Limiter, Removal, too_many_tokens, no_tokens, tokens_left, remaining_of, Config, get_key, Buckets,
  bucket_of, in_process,
}

abbrev pub counted : Flow → ℕ
counted proceeded = 1
counted failed = 0
counted threw = 0

-- How many of some requests of one interval a limit lets through: every one where it is 0.
abbrev pub let_through : ℕ → ℕ → ℕ
let_through limit n = if nat_eq limit 0 then n else min n limit

Removal-cases :
    (r : Removal) → (r ≡ too_many_tokens) ⊎ ((r ≡ no_tokens) ⊎ ((n : ℕ) × (r ≡ tokens_left n)))
Removal-cases too_many_tokens = inl refl
Removal-cases no_tokens = inr (inl refl)
Removal-cases (tokens_left n) = inr (inr (n, refl))

module _ {B : Type 0} (limiter : Limiter B) (c : Config) where
  -- How many of the requests at the given times proceed.
  abbrev pub admitted : List ℕ → Context × Buckets B → ℕ
  admitted [] s = 0
  admitted (now ∷ times) s =
      counted (in_process limiter c now s).0 + admitted times (in_process limiter c now s).1

  abbrev pub Within : B → ℕ → Type 0
  Within b now = (limiter.start b ≤ now) × (now < limiter.start b + limiter.interval b)

  bucket-after :
      (now : ℕ) (s : Context × Buckets B) (b : B)
      → bucket_of limiter c now (get s.1 (get_key c)) ≡ b
      → get (in_process limiter c now s).1.1 (get_key c) ≡ some (limiter.remove b now).1
  unfolding in_process
  bucket-after now s b e = rw (e, get-put, eq_refl) refl

  flow-left :
      (now : ℕ) (s : Context × Buckets B) (b : B) (n : ℕ)
      → bucket_of limiter c now (get s.1 (get_key c)) ≡ b
      → remaining_of (limiter.remove b now).0 ≡ some n
      → (in_process limiter c now s).0 ≡ proceeded
  unfolding in_process
  flow-left now s b n e k = handle_response-left _ s.0 n (rw e k)

  flow-spent :
      (now : ℕ) (s : Context × Buckets B) (b : B)
      → c.reject ≡ true
      → bucket_of limiter c now (get s.1 (get_key c)) ≡ b
      → remaining_of (limiter.remove b now).0 ≡ none
      → (in_process limiter c now s).0 ≡ failed
  unfolding in_process
  flow-spent now s b j e k = handle_response-spent _ s.0 j (rw e k)

  -- One request takes one of what is left, if there is any.
  in_process-counts :
      (now : ℕ) (s : Context × Buckets B) (b : B)
      → c.reject ≡ true
      → bucket_of limiter c now (get s.1 (get_key c)) ≡ b
      → Within b now
      → 1 ≤ limiter.maximum b
      → (counted (in_process limiter c now s).0 ≡ min 1 (limiter.left b))
        × (limiter.left (limiter.remove b now).1 ≡ limiter.left b - 1)
  unfolding remaining_of
  in_process-counts now s b j e (from, to) pos = elim (Removal-cases (limiter.remove b now).0) [
    | inl k ↦ absurd (limiter.answered b now pos k)
    | inr (inl k) ↦
        let (gone, still) = limiter.spent b now from to k in
        (rw (flow-spent now s b j e (rw k refl), gone) refl, omega (arith, gone, still))
    | inr (inr (n, k)) ↦
        let one = limiter.taken b now n from to k in
        (rw (flow-left now s b n e (rw k refl)) (omega (arith, one)), omega (arith, one))
  ]

  -- Where the limit is 0, the error of the limiter lets every request pass.
  in_process-refused :
      (now : ℕ) (s : Context × Buckets B) (b : B)
      → bucket_of limiter c now (get s.1 (get_key c)) ≡ b
      → limiter.maximum b ≡ 0
      → (in_process limiter c now s).0 ≡ proceeded
  unfolding remaining_of
  in_process-refused now s b e h =
      flow-left now s b 0 e (rw (limiter.refused b now (omega (arith, h))) refl)

  admitted-refused :
      (times : List ℕ) (s : Context × Buckets B) (b : B)
      → get s.1 (get_key c) ≡ some b
      → limiter.maximum b ≡ 0
      → admitted times s ≡ length times
  unfolding bucket_of
  admitted-refused [] s b e h = refl
  admitted-refused (now ∷ times) s b e h =
      let here : bucket_of limiter c now (get s.1 (get_key c)) ≡ b = rw e refl in
      let rest =
        admitted-refused times (in_process limiter c now s).1 (limiter.remove b now).1
          (bucket-after now s b here) (limiter.kept b now ∙ h) in
      rw (in_process-refused now s b here h, rest) (omega arith)

  Within-remove :
      (b : B) (now : ℕ) (times : List ℕ)
      → Within b now
      → All (Within b) times
      → All (Within (limiter.remove b now).1) times
  Within-remove b now [] w h = tt
  Within-remove b now (t ∷ times) w ((from, to), h) =
      let (start, interval) = limiter.steady b now w.0 w.1 in
      (
        (omega (arith, from, start), omega (arith, to, start, interval)),
        Within-remove b now times w h,
      )

  admitted-bucket :
      (times : List ℕ) (s : Context × Buckets B) (b : B)
      → c.reject ≡ true
      → get s.1 (get_key c) ≡ some b
      → All (Within b) times
      → 1 ≤ limiter.maximum b
      → admitted times s ≡ min (length times) (limiter.left b)
  unfolding bucket_of
  admitted-bucket [] s b j e h pos = omega arith
  admitted-bucket (now ∷ times) s b j e (w, h) pos =
      let here : bucket_of limiter c now (get s.1 (get_key c)) ≡ b = rw e refl in
      let (one, less) = in_process-counts now s b j here w pos in
      let rest =
        admitted-bucket times (in_process limiter c now s).1 (limiter.remove b now).1 j
          (bucket-after now s b here) (Within-remove b now times w h)
          (omega (arith, pos, limiter.kept b now)) in
      omega (arith, one, less, rest)

  created-Within :
      (now : ℕ) (times : List ℕ)
      → All (λ t. (now ≤ t) × (t < now + c.interval)) times
      → All (Within (limiter.create c.limit c.interval now)) times
  created-Within now [] h = tt
  created-Within now (t ∷ times) ((from, to), h) =
      let (_, start, interval, _) = limiter.created c.limit c.interval now in
      ((omega (arith, from, start), omega (arith, to, start, interval)), created-Within now times h)

  admitted-positive :
      (now : ℕ) (times : List ℕ) (s : Context × Buckets B)
      → c.reject ≡ true
      → 0 < c.interval
      → get s.1 (get_key c) ≡ none
      → All (λ t. (now ≤ t) × (t < now + c.interval)) times
      → 1 ≤ c.limit
      → admitted (now ∷ times) s ≡ min (length (now ∷ times)) c.limit
  unfolding bucket_of
  admitted-positive now times s j pos e h one_up =
      let b = limiter.create c.limit c.interval now in
      let (full, start, interval, most) = limiter.created c.limit c.interval now in
      let here : bucket_of limiter c now (get s.1 (get_key c)) ≡ b = rw e refl in
      let w : Within b now = (omega (arith, start), omega (arith, start, interval)) in
      let up : 1 ≤ limiter.maximum b = omega (arith, most, one_up) in
      let (one, less) = in_process-counts now s b j here w up in
      let rest =
        admitted-bucket times (in_process limiter c now s).1 (limiter.remove b now).1 j
          (bucket-after now s b here) (Within-remove b now times w (created-Within now times h))
          (omega (arith, up, limiter.kept b now)) in
      omega (arith, one, less, rest, full)

  admitted-zero :
      (now : ℕ) (times : List ℕ) (s : Context × Buckets B)
      → get s.1 (get_key c) ≡ none
      → c.limit ≡ 0
      → admitted (now ∷ times) s ≡ length (now ∷ times)
  unfolding bucket_of
  admitted-zero now times s e z =
      let b = limiter.create c.limit c.interval now in
      let (_, _, _, most) = limiter.created c.limit c.interval now in
      let here : bucket_of limiter c now (get s.1 (get_key c)) ≡ b = rw e refl in
      let rest =
        admitted-refused times (in_process limiter c now s).1 (limiter.remove b now).1
          (bucket-after now s b here) (limiter.kept b now ∙ most ∙ z) in
      rw (in_process-refused now s b here (most ∙ z), rest) (omega arith)

  -- Where the limit rejects, of the requests in the interval that begins with the first one of a key
  -- the first ones pass, as many as the limit says, and no more; where it is 0, every one passes.
  pub admitted_lem :
      (now : ℕ) (times : List ℕ) (s : Context × Buckets B)
      → c.reject ≡ true
      → 0 < c.interval
      → get s.1 (get_key c) ≡ none
      → All (λ t. (now ≤ t) × (t < now + c.interval)) times
      → admitted (now ∷ times) s ≡ let_through c.limit (length (now ∷ times))
  admitted_lem now times s j pos e h = elim (Bool-cases (nat_eq c.limit 0)) [
    | inl z ↦ rw z (admitted-zero now times s e (ground arith))
    | inr z ↦ rw z (admitted-positive now times s j pos e h (ground arith))
  ]

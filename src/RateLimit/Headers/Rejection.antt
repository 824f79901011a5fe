-- ===== src/RateLimit/Headers/Rejection.antt =====
-- The headers of a rejected request, and when the headers cannot be written.
use Prim.Native.Nat.{◌/◌}
use microgateway.Common.{
  ℕ, String, ◌≡◌, ◌↔◌, refl, ap, ◌∙◌, Bool, true, false, not, ◌&&◌, ◌||◌, none, some, arith, get,
  put, get-put, to_text, truthy, ◌+s◌, ◌==◌, Bool-cases, inl, inr,
}
use microgateway.RateLimit.Headers.{
  Headers, Rate, limit_header, remaining_header, reset_header, is_exceeded, is_unnamed,
  disp_remaining, prefix, cleared, first_item, setup_headers, Context, failed, proceeded,
  handle_response,
}

three :
    (h : Headers) (a b c : String)
    → let h' = put (put (put h limit_header a) remaining_header b) reset_header c in
      (get h' limit_header ≡ some a)
      × (get h' remaining_header ≡ some b)
      × (get h' reset_header ≡ some c)
      × ((key : String)
          → ((limit_header == key) || (remaining_header == key) || (reset_header == key)) ≡ false
          → get h' key ≡ get h key)
three h a b c = simp (get-put) (refl, refl, refl, λ key k. ground arith)

cleared-limit :
    (r : Rate) (h : Headers)
    → truthy (get (cleared r h) limit_header)
      ≡ (truthy (get h limit_header) && not (r.reject && is_exceeded r))
unfolding cleared
cleared-limit r h = elim (Bool-cases (r.reject && (is_exceeded r && truthy (get h limit_header)))) [
  | inl e ↦ rw (e, get-put, get-put, get-put) (ground arith)
  | inr e ↦ rw e (ground arith)
]

-- The headers cannot be written, because `splice` throws, exactly for the unnamed limit where an
-- earlier limit has written its header, unless the request is rejected.
setup_headers-none_iff :
    (r : Rate) (h : Headers)
    → (setup_headers r h ≡ none) ↔ (
        (is_unnamed r ≡ true)
        × (truthy (get h limit_header) ≡ true)
        × ((r.reject && is_exceeded r) ≡ false))
unfolding setup_headers
setup_headers-none_iff r h =
    let c = cleared-limit r h in (λ e. ground arith, λ (a, b, c'). ground arith)

-- Whether a header is none of the three.
abbrev pub is_other : String → Bool
is_other key = not ((limit_header == key) || (remaining_header == key) || (reset_header == key))

-- The headers tell of the limit alone, with nothing that remains; other headers are as before.
abbrev pub TellsOf : Rate → Headers → Headers → Type 0
TellsOf r before h =
    (get h limit_header ≡ some (prefix r +s to_text r.limit))
    × (get h remaining_header ≡ some (prefix r +s "0"))
    × (get h reset_header ≡ some (prefix r +s to_text (r.reset / 1000)))
    × ((key : String) → is_other key ≡ true → get h key ≡ get before key)

cleared-other :
    (r : Rate) (h : Headers) (key : String)
    → is_other key ≡ true
    → get (cleared r h) key ≡ get h key
unfolding cleared
cleared-other r h key k =
    elim (Bool-cases (r.reject && (is_exceeded r && truthy (get h limit_header)))) [
      | inl e ↦ rw (e, get-put, get-put, get-put) (ground arith)
      | inr e ↦ rw e refl
    ]

zero-text : to_text 0 ≡ "0"
unfolding to_text
zero-text = refl

first_item-TellsOf : (r : Rate) (h : Headers) → is_exceeded r ≡ true → TellsOf r h (first_item r h)
unfolding first_item
first_item-TellsOf r h e =
    let n : disp_remaining r ≡ 0 = ground arith in
    let (a, b, c, d) =
      three h (prefix r +s to_text r.limit) (prefix r +s "0")
        (prefix r +s to_text (r.reset / 1000)) in
    rw (e, n, zero-text) (a, b, c, λ key k. d key (ground arith))

-- A request beyond a limit that rejects fails, with the error set; and the three headers tell of that
-- limit alone, whatever the headers were before. Other headers and the subscribers stay.
pub handle_response-rejected :
    (r : Rate) (ctx : Context)
    → is_exceeded r ≡ true
    → r.reject ≡ true
    → (h : Headers) × (handle_response r ctx
        ≡ (failed, record ctx { headers = h; has_error = true }))
      × TellsOf r ctx.headers h
unfolding handle_response setup_headers
handle_response-rejected r ctx e j =
    let shut = cleared-limit r ctx.headers in
    let h' = cleared r ctx.headers in
    let (a, b, c, d) = first_item-TellsOf r h' e in
    (first_item r h', ground arith, (a, b, c, λ key k. d key k ∙ cleared-other r ctx.headers key k))

pub handle_response-spent :
    (r : Rate) (ctx : Context)
    → r.reject ≡ true
    → r.remaining ≡ none
    → (handle_response r ctx).0 ≡ failed
handle_response-spent r ctx j e =
    let (h, is, _) = handle_response-rejected r ctx (ground arith) j in ap (λ o. o.0) is

pub handle_response-left :
    (r : Rate) (ctx : Context) (n : ℕ)
    → r.remaining ≡ some n
    → (handle_response r ctx).0 ≡ proceeded
unfolding handle_response
handle_response-left r ctx n e = let kept : is_exceeded r ≡ false = ground arith in ground arith

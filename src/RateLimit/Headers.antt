-- ===== src/RateLimit/Headers.antt =====
-- policies/rate-limiting/helper.js: the decision on a request, and the headers of the response that
-- tell of the limit. A number of remaining requests below 0 is `none`. `resMsg.headers` is an object
-- with string keys, empty where the context has no message; a subscriber of 'post-flow' is the limit
-- that it tells of.
pub mod Rejection
use Prim.Native.Nat.{◌/◌}
use microgateway.Common.{
  ℕ, String, Bool, true, false, not, ◌&&◌, Option, none, some, List, [], ◌∷◌, ◌++◌, get, put,
  to_text, truthy, ◌+s◌, ◌==◌, if◌then◌else◌,
}

abbrev pub Headers : Type 0
Headers = List (String × String)

-- The arguments of `handleResponse` that `setupHeaders` reads.
pub record Rate : Type 0 where
  pub name : String
  pub limit : ℕ
  pub remaining : Option ℕ
  pub reset : ℕ
  pub reject : Bool

abbrev pub limit_header : String
limit_header = "X-RateLimit-Limit"

abbrev pub remaining_header : String
remaining_header = "X-RateLimit-Remaining"

abbrev pub reset_header : String
reset_header = "X-RateLimit-Reset"

-- `remaining < 0`
abbrev pub is_exceeded : Rate → Bool
is_exceeded r = elim r.remaining [ none ↦ true | some n ↦ false ]

abbrev pub disp_remaining : Rate → ℕ
disp_remaining r = elim r.remaining [ none ↦ 0 | some n ↦ n ]

-- `name || 'RateLimit'`
abbrev pub shown_name : Rate → String
shown_name r = if r.name == "" then "RateLimit" else r.name

abbrev pub is_unnamed : Rate → Bool
is_unnamed r = shown_name r == "x-ibm-unnamed-rate-limit"

-- the prefix of the first item
abbrev pub prefix : Rate → String
prefix r = if is_unnamed r then "" else "name=" +s shown_name r +s ","

-- `headers[key] += text`, where a header that is missing is read as "undefined"
append_to : Headers → String → String → Headers
append_to h key text = elim (get h key) [
  | none ↦ put h key ("undefined" +s text)
  | some old ↦ put h key (old +s text)
]

-- On a rejection the headers of earlier limits are emptied.
pub cleared : Rate → Headers → Headers
cleared r h =
    if r.reject && (is_exceeded r && truthy (get h limit_header))
    then put (put (put h limit_header "") remaining_header "") reset_header ""
    else h

pub first_item : Rate → Headers → Headers
first_item r h =
    let told =
      put (put h limit_header (prefix r +s to_text r.limit)) remaining_header
        (prefix r +s to_text (disp_remaining r)) in
    if is_exceeded r then put told reset_header (prefix r +s to_text (r.reset / 1000)) else told

pub next_item : Rate → Headers → Headers
unfolding append_to
next_item r h =
    let insert = "; name=" +s shown_name r +s "," in
    let told =
      append_to (append_to h limit_header (insert +s to_text r.limit)) remaining_header
        (insert +s to_text (disp_remaining r)) in
    if is_exceeded r then append_to told reset_header (insert +s to_text (r.reset / 1000)) else told

-- `none` is the TypeError of `splice`, which calls a text as a function.
pub setup_headers : Rate → Headers → Option Headers
unfolding cleared first_item next_item
setup_headers r h =
    let h' = cleared r h in
    if not (truthy (get h' limit_header))
    then some (first_item r h')
    else if is_unnamed r
    then none
    else some (next_item r h')

-- What the policy reads and writes of the context: the headers of its message, whether it has the
-- error with status 429, and the subscribers.
pub record Context : Type 0 where
  pub headers : Headers
  pub has_error : Bool
  pub post_flow : List Rate

pub data Flow : Type 0 where
  failed : Flow
  proceeded : Flow
  threw : Flow

pub handle_response : Rate → Context → Flow × Context
unfolding setup_headers
handle_response r ctx =
    if is_exceeded r && r.reject
    then elim (setup_headers r ctx.headers) [
      | none ↦ (threw, ctx)
      | some h ↦ (failed, record ctx { headers = h; has_error = true })
    ]
    else (proceeded, record ctx { post_flow = ctx.post_flow ++ r ∷ [] })

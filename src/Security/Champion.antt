-- ===== src/Security/Champion.antt =====
-- lib/security-check/index.js: the middleware that checks each candidate of the matcher in turn and
-- chooses one. Of the preflow context a match keeps what the choice and the limits of the plan read:
-- `plan_rate_limits` are the arrays 'plan-rate-limit' of the entries, by the entries' `id`, which
-- `splice` changes in place. A limit is its name and its value.
pub mod Choice
use microgateway.Common.{
  ℕ, String, Bool, true, false, not, ◌&&◌, ◌||◌, Option, none, some, List, [], ◌∷◌, ◌++◌, same,
  find_first, nat_eq, ltb, ◌==◌, if◌then◌else◌, loop,
}
use microgateway.Api.{Entry, MethodObj}
use microgateway.Matcher.{Candidate}
use microgateway.Security.{ForEach, Shared, Failure, Verdict, Handler, eval_security}

-- `rate_limits` is as `plan` reads it when the context is built.
pub record Match : Type 0 where
  pub candidate : Candidate
  pub authenticated : Option Bool
  pub no_security_reqs : Bool
  pub client_secret : Option String
  pub rate_limit : Option String
  pub rate_limits : Option (List (String × String))

abbrev pub Limits : Type 0
Limits = ℕ → Option (List (String × String))

-- The value of the first unnamed limit, and the array without it.
splice_unnamed : List (String × String) → Option String × List (String × String)
splice_unnamed [] = (none, [])
splice_unnamed ((name, value) ∷ l) =
    let (found, left) = splice_unnamed l in
    if name == "x-ibm-unnamed-rate-limit" then (some value, l) else (found, (name, value) ∷ left)

not_empty : List (String × String) → Option (List (String × String))
not_empty [] = none
not_empty (x ∷ l) = some (x ∷ l)

-- `plan['rate-limit']` and `plan['rate-limits']`, and what is left in the entry's array
pub plan_limits :
    Option (List (String × String))
    → Option String × Option (List (String × String)) × Option (List (String × String))
unfolding splice_unnamed not_empty
plan_limits none = (none, none, none)
plan_limits (some l) = let (found, left) = splice_unnamed l in (found, not_empty left, some left)

-- buildPreflowContext, and the fields that the middleware adds
unfoldable pub build_match :
    Candidate → Option Bool → Bool → Option String → Limits → Match × Limits
unfolding plan_limits
build_match c authenticated no_security_reqs client_secret limits =
    let (rate_limit, rate_limits, left) = plan_limits (limits c.entry.id) in
    (
      record {
        candidate = c;
        authenticated = authenticated;
        no_security_reqs = no_security_reqs;
        client_secret = client_secret;
        rate_limit = rate_limit;
        rate_limits = rate_limits;
      },
      λ n. if nat_eq n c.entry.id then left else limits n,
    )

-- the callback of evalSecurity: an error is logged, and the candidate skipped
pub on_verdict : Candidate → Verdict → List Match × Limits → List Match × Limits
unfolding build_match
on_verdict c v (matches, limits) =
    let (m, limits') = build_match c (some v.pass) v.no_security_reqs v.client_secret limits in
    elim v.err [
      | some e ↦ (matches, limits)
      | none ↦ if v.pass then (matches ++ m ∷ [], limits') else (matches, limits)
    ]

-- How the middleware ends: the status of the error, or the match in `_apis`.
pub data Settled : Type 0 where
  inactive : Settled
  suspended : Settled
  refused : ℕ → Settled
  chosen : Match → Settled

-- `matches[0]`, or the first match of the plan that the header x-ibm-plan-id names
pub champion : Option String → List Match → Option Match
champion plan_id [] = none
champion none (m ∷ matches) = some m
champion (some plan_id) (m ∷ matches) =
    if plan_id == ""
    then some m
    else elim (find_first (λ (n : Match). n.candidate.entry.plan_id == plan_id) (m ∷ matches)) [
      | none ↦ some m
      | some n ↦ some n
    ]

-- an app without an active subscription, for an operation with security requirements
pub is_inactive : Match → Bool
is_inactive m =
    let entry = m.candidate.entry in
    not m.no_security_reqs
    && (not entry.subscription_active || not (same entry.subscription_app_state (some "ACTIVE")))

pub settle : (status : Option ℕ) → Option Match → Settled
unfolding is_inactive
settle none none = refused 401
settle (some status) none = refused (if ltb status 400 then 401 else status)
settle status (some m) =
    if is_inactive m
    then inactive
    else if m.candidate.entry.api_state == "suspended"
    then suspended
    else chosen m

module _ (each : ForEach Shared Failure) (handlers : Entry → Handler) where
  abbrev pub verdict : Entry → MethodObj → Verdict
  verdict entry m = eval_security each (handlers entry) m.security_defs m.security_reqs

  -- A candidate without an operation is a preflight request.
  pub check_candidate : List Match × Limits → Candidate → List Match × Limits
  unfolding on_verdict
  check_candidate (matches, limits) c = elim c.mm [
    | none ↦ let (m, limits') = build_match c none true none limits in (matches ++ m ∷ [], limits')
    | some mm ↦ on_verdict c (verdict c.entry mm) (matches, limits)
  ]

  -- `plan_id` is the header, and `status` the 'error.status.code' of the context.
  unfoldable pub security_check :
      (plan_id : Option String) (status : Option ℕ) → Limits → List Candidate → Settled × Limits
  unfolding check_candidate champion settle
  security_check plan_id status limits candidates =
      let (matches, limits') = loop check_candidate ([], limits) candidates in
      (settle status (champion plan_id matches), limits')

-- ===== src/RateLimit/Middleware/Isolation.antt =====
-- What a request leaves of the other scopes, and how many requests a plan with one limit lets
-- through.
use microgateway.Common.{
  ℕ, ◌+◌, ◌≤◌, ◌<◌, String, ◌≡◌, refl, ap, ◌∙◌, sym, Bool, true, false, Option, none, some, List,
  [], ◌∷◌, arith, get, put, get-put, All, length, any, keep, map, Bool-cases, inl, inr, eq_refl,
  ◌==◌, if◌then◌else◌,
}
use microgateway.RateLimit.Headers.{Context, Flow, failed, proceeded, threw}
use microgateway.RateLimit.Limiter.{Limiter, in_process}
use microgateway.RateLimit.Limiter.Admission.{counted, admitted, let_through, admitted_lem}
use microgateway.RateLimit.Middleware.{
  Series, Limit, Api, Instance, Cache, is_limited, scope_of, limits_of, applied, calls_back,
  applied_config, instance_of, task, rate_limit,
}

any-keep : {A : Type 0} (p : A → Bool) (l : List A) → any p l ≡ false → keep p l ≡ []
any-keep p [] h = refl
any-keep p (x ∷ l) h = ground (arith, any-keep p l)

module _ {B : Type 0} (limiter : Limiter B) (get_interval : ℕ → ℕ → String → Option String → ℕ × ℕ)
    (series : Series (Context × Cache B)) where
  task-other :
      (now : ℕ) (api : Api) (l : Limit) (s : Context × Cache B) (k : String)
      → (scope_of api l == k) ≡ false
      → get (task limiter get_interval now api l s).1.1 k ≡ get s.1 k
  unfolding task
  task-other now api l s k h = rw (get-put, h) refl

  series-other :
      (now : ℕ) (api : Api) (ls : List Limit) (s : Context × Cache B) (k : String)
      → All (λ l. (scope_of api l == k) ≡ false) ls
      → get (series.run (map (task limiter get_interval now api) ls) s).1.1 k ≡ get s.1 k
  series-other now api [] s k h = rw (series.run-nil s) refl
  series-other now api (l ∷ ls) s k (h, hs) =
      let t = task limiter get_interval now api l in
      let ts = map (task limiter get_interval now api) ls in
      elim (Bool-cases (t s).0) [
        | inl e ↦
            rw (series.run-goes t ts s e)
              (series-other now api ls (t s).1 k hs ∙ task-other now api l s k h)
        | inr e ↦ rw (series.run-fails t ts s e) (task-other now api l s k h)
      ]

  pub rate_limit-other :
      (now : ℕ) (api : Api) (s : Context × Cache B) (k : String)
      → All (λ l. (scope_of api l == k) ≡ false) (applied api)
      → get (rate_limit limiter get_interval now series api s).1.1 k ≡ get s.1 k
  unfolding rate_limit
  rate_limit-other now api s k h = elim (Bool-cases (any is_limited (limits_of api.rate_limits))) [
    | inl e ↦ rw e (series-other now api (applied api) s k h)
    | inr e ↦ rw e refl
  ]

  rate_limit-single :
      (now : ℕ) (api : Api) (l : Limit) (s : Context × Cache B)
      → applied api ≡ l ∷ []
      → rate_limit limiter get_interval now series api s ≡ task limiter get_interval now api l s
  unfolding rate_limit applied
  rate_limit-single now api l s h =
      let t = task limiter get_interval now api l in
      elim (Bool-cases (any is_limited (limits_of api.rate_limits))) [
        | inl e ↦
            rw (e, h)
              (elim (Bool-cases (t s).0) [
                | inl k ↦
                    series.run-goes t [] s k
                    ∙ series.run-nil (t s).1
                    ∙ ap (λ b. (b, (t s).1)) (sym k)
                | inr k ↦ series.run-fails t [] s k ∙ ap (λ b. (b, (t s).1)) (sym k)
              ])
        | inr e ↦ cc (sym h ∙ any-keep is_limited (limits_of api.rate_limits) e)
      ]

  -- How many requests for the API at the given times get past the middleware.
  abbrev pub passing : Api → List ℕ → Context × Cache B → ℕ
  passing api [] s = 0
  passing api (now ∷ times) s =
      (if (rate_limit limiter get_interval now series api s).0 then 1 else 0)
      + passing api times (rate_limit limiter get_interval now series api s).1

  flow-counted : (f : Flow) → (if calls_back f then 1 else 0) ≡ counted f
  flow-counted failed = refl
  flow-counted proceeded = refl
  flow-counted threw = refl

  -- What a request of the limiter `i` leaves.
  abbrev used : String → Instance B → ℕ → Context × Cache B → Context × Cache B
  used scope i now s = (
    (in_process limiter i.config now (s.0, i.limiters)).1.0,
    put s.1 scope (record i { limiters = (in_process limiter i.config now (s.0, i.limiters)).1.1 }),
  )

  rate_limit-used :
      (now : ℕ) (api : Api) (l : Limit) (s : Context × Cache B) (i : Instance B)
      → applied api ≡ l ∷ []
      → instance_of limiter get_interval now api l (get s.1 (scope_of api l)) ≡ i
      → rate_limit limiter get_interval now series api s ≡ (
        calls_back (in_process limiter i.config now (s.0, i.limiters)).0,
        used (scope_of api l) i now s,
      )
  unfolding task
  rate_limit-used now api l s i h e = rw (rate_limit-single now api l s h, e) refl

  -- A request of the limiter `i`, and those after it.
  first-passing :
      (now : ℕ) (times : List ℕ) (api : Api) (l : Limit) (s : Context × Cache B) (i : Instance B)
      → applied api ≡ l ∷ []
      → instance_of limiter get_interval now api l (get s.1 (scope_of api l)) ≡ i
      → passing api times (used (scope_of api l) i now s)
        ≡ admitted limiter i.config times (in_process limiter i.config now (s.0, i.limiters)).1
      → passing api (now ∷ times) s ≡ admitted limiter i.config (now ∷ times) (s.0, i.limiters)
  first-passing now times api l s i h e rest =
      let f = (in_process limiter i.config now (s.0, i.limiters)).0 in
      ap (λ r. (if r.0 then 1 else 0) + passing api times r.1) (rate_limit-used now api l s i h e)
      ∙ omega (arith, flow-counted f, rest)

  passing-instance :
      (times : List ℕ) (api : Api) (l : Limit) (s : Context × Cache B) (i : Instance B)
      → applied api ≡ l ∷ []
      → get s.1 (scope_of api l) ≡ some i
      → passing api times s ≡ admitted limiter i.config times (s.0, i.limiters)
  unfolding instance_of
  passing-instance [] api l s i h e = refl
  passing-instance (now ∷ times) api l s i h e = first-passing now times api l s i h (rw e refl) (
      passing-instance times api l (used (scope_of api l) i now s)
        (record i { limiters = (in_process limiter i.config now (s.0, i.limiters)).1.1 }) h
        (rw (get-put, eq_refl) refl))

  -- Where a plan has one limit that applies, and that rejects: of the requests in the interval that
  -- begins with the first one of its scope, as many get past the middleware as the limit says, and
  -- no more; except that with a limit of 0 every request gets past it.
  pub rate_limit-passing :
      (now : ℕ) (times : List ℕ) (api : Api) (l : Limit) (s : Context × Cache B)
      → applied api ≡ l ∷ []
      → get s.1 (scope_of api l) ≡ none
      → (applied_config get_interval api l).reject ≡ true
      → 0 < (applied_config get_interval api l).interval
      → All (λ t. (now ≤ t) × (t < now + (applied_config get_interval api l).interval)) times
      → passing api (now ∷ times) s
        ≡ let_through (applied_config get_interval api l).limit (length (now ∷ times))
  unfolding instance_of get
  rate_limit-passing now times api l s h e j pos w =
      let i : Instance B = record { config = applied_config get_interval api l; limiters = [] } in
      first-passing now times api l s i h (rw e refl) (
        passing-instance times api l (used (scope_of api l) i now s)
          (record i { limiters = (in_process limiter i.config now (s.0, i.limiters)).1.1 }) h
          (rw (get-put, eq_refl) refl))
      ∙ admitted_lem limiter (applied_config get_interval api l) now times (s.0, []) j pos refl w

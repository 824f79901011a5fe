-- ===== src/Security/Champion/Choice.antt =====
-- Which candidate the security check chooses.
use mathlib.Core.List.{Mem, mem-cons}
use mathlib.Core.Logic.Or
use microgateway.Common.{
  ℕ, String, ◌≡◌, refl, Bool, true, false, Option, none, some, List, [], ◌∷◌, All, All-append, loop,
  find_first, arith, Option-cases, Bool-cases, ◌⊎◌, inl, inr, ◌==◌,
}
use microgateway.Api.{Entry, MethodObj}
use microgateway.Matcher.{Candidate}
use microgateway.Security.{ForEach, Shared, Failure, Verdict, Handler}
use microgateway.Security.Champion.{
  Match, Limits, build_match, on_verdict, champion, is_inactive, chosen, settle, verdict,
  check_candidate, security_check,
}

module _ (each : ForEach Shared Failure) (handlers : Entry → Handler) where
  -- The match is of a preflight request, or the evaluation of its operation passed without an error;
  -- and it reports whether there were requirements.
  abbrev pub Fits : Match → Type 0
  Fits m =
      ((m.candidate.mm ≡ none) × (m.no_security_reqs ≡ true))
      ⊎ ((mm : MethodObj) × (m.candidate.mm ≡ some mm)
          × ((verdict each handlers m.candidate.entry mm).err ≡ none)
          × ((verdict each handlers m.candidate.entry mm).pass ≡ true)
          × (m.no_security_reqs ≡ (verdict each handlers m.candidate.entry mm).no_security_reqs))

  abbrev pub From : List Candidate → Match → Type 0
  From candidates m = Mem m.candidate candidates × Fits m

  verdict-All :
      (P : Match → Type 0) (c : Candidate) (v : Verdict) (s : List Match × Limits)
      → All P s.0
      → (v.err ≡ none
          → v.pass ≡ true
          → P (build_match c (some v.pass) v.no_security_reqs v.client_secret s.1).0)
      → All P (on_verdict c v s).0
  unfolding on_verdict
  verdict-All P c v s h new = elim (Option-cases v.err) [
    | inl e ↦ elim (Bool-cases v.pass) [
      | inl p ↦
          let new' = new e p in
          let fits = rw p at new' in
          rw (e, p, on_verdict)
            (All-append P s.0
              ((build_match c (some true) v.no_security_reqs v.client_secret s.1).0 ∷ []) h
              (fits, tt))
      | inr p ↦ rw (e, p, on_verdict) h
    ]
    | inr (f, e) ↦ rw (e, on_verdict) h
  ]

  check-All :
      (candidates : List Candidate) (c : Candidate) (s : List Match × Limits)
      → Mem c candidates
      → All (From candidates) s.0
      → All (From candidates) (check_candidate each handlers s c).0
  unfolding check_candidate build_match
  check-All candidates c s m h = elim (Option-cases c.mm) [
    | inl e ↦
        rw (e, check_candidate)
          (All-append (From candidates) s.0 ((build_match c none true none s.1).0 ∷ []) h
            ((m, inl (e, refl)), tt))
    | inr (mm, e) ↦
        rw (e, check_candidate)
          (verdict-All (From candidates) c (verdict each handlers c.entry mm) s h
            (λ f p. (m, inr (mm, e, f, p, refl))))
  ]

  loop-All :
      (candidates cs : List Candidate) (s : List Match × Limits)
      → ((c : Candidate) → Mem c cs → Mem c candidates)
      → All (From candidates) s.0
      → All (From candidates) (loop (check_candidate each handlers) s cs).0
  loop-All candidates [] s sub h = h
  loop-All candidates (c ∷ cs) s sub h =
      loop-All candidates cs (check_candidate each handlers s c)
        (λ d m. sub d (mem-cons.1 (Or.inr m)))
        (check-All candidates c s (sub c (mem-cons.1 (Or.inl refl))) h)

found-All :
    (P : Match → Type 0) (p : Match → Bool) (ms : List Match) (m : Match)
    → All P ms
    → find_first p ms ≡ some m
    → P m
found-All P p [] m h e = cc
found-All P p (n ∷ ms) m h e = elim (Bool-cases (p n)) [
  | inl f ↦ let same : n ≡ m = ground arith in rw (← same) h.0
  | inr f ↦ found-All P p ms m h.1 (rw f at e)
]

champion-All :
    (P : Match → Type 0) (plan_id : Option String) (ms : List Match) (m : Match)
    → All P ms
    → champion plan_id ms ≡ some m
    → P m
unfolding champion
champion-All P plan_id [] m h e = cc
champion-All P none (n ∷ ms) m h e = let same : n ≡ m = ground arith in rw (← same) h.0
champion-All P (some plan_id) (n ∷ ms) m h e = elim (Bool-cases (plan_id == "")) [
  | inl f ↦ let same : n ≡ m = ground arith in rw (← same) h.0
  | inr f ↦
      elim (Option-cases
        (find_first (λ (k : Match). k.candidate.entry.plan_id == plan_id) (n ∷ ms))) [
          | inl g ↦ let same : n ≡ m = ground arith in rw (← same) h.0
          | inr (k, g) ↦
              let same : k ≡ m = ground arith in
              rw (← same)
                (found-All P (λ (k : Match). k.candidate.entry.plan_id == plan_id) (n ∷ ms) k h g)
        ]
]

settle-chosen :
    (status : Option ℕ) (o : Option Match) (m : Match)
    → settle status o ≡ chosen m
    → (o ≡ some m)
      × (is_inactive m ≡ false)
      × ((m.candidate.entry.api_state == "suspended") ≡ false)
unfolding settle
settle-chosen none none m h = cc
settle-chosen (some status) none m h = cc
settle-chosen status (some n) m h = ground arith

-- The match that the security check chooses is of one of the candidates. It is of a preflight
-- request, or the evaluation of its operation's requirements passed without an error. If the
-- operation has requirements, the app's subscription is active; and the API is not suspended.
pub security_check_sound :
    (each : ForEach Shared Failure) (handlers : Entry → Handler) (plan_id : Option String)
    (status : Option ℕ) (limits : Limits) (candidates : List Candidate) (m : Match)
    → (security_check each handlers plan_id status limits candidates).0 ≡ chosen m
    → Mem m.candidate candidates
      × Fits each handlers m
      × (is_inactive m ≡ false)
      × ((m.candidate.entry.api_state == "suspended") ≡ false)
unfolding security_check
security_check_sound each handlers plan_id status limits candidates m h =
    let matches = (loop (check_candidate each handlers) ([], limits) candidates).0 in
    let (is, active, running) = settle-chosen status (champion plan_id matches) m h in
    let (member, fits) =
      champion-All (From each handlers candidates) plan_id matches m
        (loop-All each handlers candidates candidates ([], limits) (λ c n. n) tt) is in
    (member, fits, active, running)

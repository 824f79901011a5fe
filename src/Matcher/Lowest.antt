-- ===== src/Matcher/Lowest.antt =====
-- The search for the best score in lib/api-matcher, against a description with no running state:
-- the candidates of least score, in the order in which they were found.
use microgateway.Common.{
  ℕ, suc, ◌≤◌, ◌<◌, min, ◌≡◌, ◌≢◌, ◌⊎◌, refl, inl, inr, Bool, true, false, if◌then◌else◌,
  lt_trichotomy, le→leb, lt→ltb, le→not_ltb, lt→not_leb, ≡→nat_eq, List, [], ◌∷◌, ◌++◌, append-nil,
  append_assoc, arith, nat_eq, All, All-append, keep, keep-append, loop,
}
use microgateway.Matcher.{Candidate, Search, consider}

-- the least score, not above `top`
abbrev pub lowest : ℕ → List Candidate → ℕ
lowest top [] = top
lowest top (c ∷ cs) = lowest (min top c.score) cs

abbrev pub scored : ℕ → List Candidate → List Candidate
scored n = keep (λ c. nat_eq c.score n)

abbrev pub AtLeast : ℕ → List Candidate → Type 0
AtLeast n = All (λ c. n ≤ c.score)

-- What the running state says of the candidates that were seen.
record Describes (seen : List Candidate) (s : Search) : Type 0 where
  found : s.matches ≡ scored s.best_score seen
  least : AtLeast s.best_score seen

scored-above : (m n : ℕ) (cs : List Candidate) → AtLeast n cs → suc m ≤ n → scored m cs ≡ []
scored-above m n [] h k = refl
scored-above m n (c ∷ cs) h k = ground (arith, scored-above m n cs h.1 k)

AtLeast-weaken : (m n : ℕ) (cs : List Candidate) → AtLeast n cs → m ≤ n → AtLeast m cs
AtLeast-weaken m n [] h k = tt
AtLeast-weaken m n (c ∷ cs) h k = (omega arith, AtLeast-weaken m n cs h.1 k)

best-consider : (s : Search) (c : Candidate) → (consider s c).best_score ≡ min s.best_score c.score
unfolding consider
best-consider s c = ground arith

consider-lt :
    (s : Search) (c : Candidate)
    → c.score < s.best_score
    → consider s c ≡ record { matches = c ∷ []; best_score = c.score }
unfolding consider
consider-lt s c h = rw (le→leb c.score s.best_score (omega arith), lt→ltb c.score s.best_score h)

consider-eq :
    (s : Search) (c : Candidate)
    → c.score ≡ s.best_score
    → consider s c ≡ record s { matches = s.matches ++ c ∷ [] }
unfolding consider
consider-eq s c h =
    rw (le→leb c.score s.best_score (omega arith), le→not_ltb c.score s.best_score (omega arith))

consider-gt : (s : Search) (c : Candidate) → s.best_score < c.score → consider s c ≡ s
unfolding consider
consider-gt s c h = rw (lt→not_leb c.score s.best_score h)

consider-Describes :
    (seen : List Candidate) (s : Search) (c : Candidate)
    → Describes seen s
    → Describes (seen ++ c ∷ []) (consider s c)
consider-Describes seen s c d = elim (lt_trichotomy c.score s.best_score) [
  | inl lt ↦ rw (consider-lt s c lt) (record {
    found =
        rw (keep-append, scored-above c.score s.best_score seen d.least lt, ≡→nat_eq c.score) refl;
    least =
        All-append _ seen (c ∷ []) (AtLeast-weaken c.score s.best_score seen d.least (omega arith))
          (omega arith);
  })
  | inr (inl eq) ↦ rw (consider-eq s c eq) (record {
    found = rw keep-append (ground (arith, d.found));
    least = All-append _ seen (c ∷ []) d.least (omega arith);
  })
  | inr (inr gt) ↦ rw (consider-gt s c gt) (record {
    found = rw keep-append (ground (arith, d.found, append-nil (scored s.best_score seen)));
    least = All-append _ seen (c ∷ []) d.least (omega arith);
  })
]

consider_all :
    (seen : List Candidate) (s : Search) (cs : List Candidate)
    → Describes seen s
    → Describes (seen ++ cs) (loop consider s cs)
consider_all seen s [] d = rw append-nil d
consider_all seen s (c ∷ cs) d =
    rw (← append_assoc seen (c ∷ []) cs)
      (consider_all (seen ++ c ∷ []) (consider s c) cs (consider-Describes seen s c d))

best-loop :
    (s : Search) (cs : List Candidate) → (loop consider s cs).best_score ≡ lowest s.best_score cs
best-loop s [] = refl
best-loop s (c ∷ cs) = rw (best-loop (consider s c) cs, best-consider s c)

-- The search from the start keeps the candidates of least score.
pub matches-consider :
    (top : ℕ) (cs : List Candidate)
    → (loop consider (record { matches = []; best_score = top }) cs).matches
      ≡ scored (lowest top cs) cs
matches-consider top cs =
    let s : Search = record { matches = []; best_score = top } in
    let d = consider_all [] s cs (record { found = refl; least = tt }) in
    rw (d.found, best-loop s cs)

ne_nil_if :
    (b : Bool) (c : Candidate) (cs : List Candidate)
    → (b ≡ true) ⊎ (cs ≢ [])
    → (if b then c ∷ cs else cs) ≢ []
ne_nil_if true c cs h e = cc
ne_nil_if false c cs (inl h) e = cc
ne_nil_if false c cs (inr h) e = h e

lowest_cases : (m : ℕ) (cs : List Candidate) → (lowest m cs ≡ m) ⊎ (scored (lowest m cs) cs ≢ [])
lowest_cases m [] = inl refl
lowest_cases m (c ∷ cs) = elim (lowest_cases (min m c.score) cs) [
  | inr more ↦ inr (ne_nil_if _ c _ (inr more))
  | inl e ↦ elim (lt_trichotomy c.score m) [
    | inl lt ↦ inr (
        ne_nil_if (nat_eq c.score (lowest m (c ∷ cs))) c (scored (lowest m (c ∷ cs)) cs)
          (inl (ground (arith, e))))
    | inr ge ↦ inl (omega (arith, e))
  ]
]

-- Of candidates that score at most `top`, one at least is kept.
pub scored-lowest-ne-nil :
    (top : ℕ) (c : Candidate) (cs : List Candidate)
    → c.score ≤ top
    → scored (lowest top (c ∷ cs)) (c ∷ cs) ≢ []
scored-lowest-ne-nil top c cs h = elim (lowest_cases (min top c.score) cs) [
  | inr more ↦ ne_nil_if _ c _ (inr more)
  | inl e ↦
      ne_nil_if (nat_eq c.score (lowest top (c ∷ cs))) c (scored (lowest top (c ∷ cs)) cs)
        (inl (ground (arith, e)))
]

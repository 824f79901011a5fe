-- ===== src/Matcher/Selection.antt =====
-- What lib/api-matcher selects, described without its loops.
use microgateway.Common.{
  ◌≤◌, String, ◌≡◌, refl, ap, ◌∙◌, ◌≢◌, ◌↔◌, Bool, List, [], ◌∷◌, ◌++◌, if◌then◌else◌, Bool-cases,
  inl, inr, All, keep, loop, loop-append,
}
use microgateway.Api.{PathObj, Entry}
use microgateway.Matcher.{
  Current, Candidate, Search, narrowed, not_found, max_value, reached, candidate_of, consider,
  visit_path, visit_entry, find_matches, settle, request_path, api_matcher,
}
use microgateway.Matcher.Lowest.{lowest, scored, matches-consider, scored-lowest-ne-nil}

module _ (re_test : String → String → Bool) (current : Current) where
  -- the operations of an entry that the path and the method reach, as candidates
  eligible_paths : Entry → List PathObj → List Candidate
  eligible_paths entry [] = []
  eligible_paths entry (p ∷ ps) =
      let rest = eligible_paths entry ps in
      if reached re_test current entry p then candidate_of current entry p ∷ rest else rest

  -- All the candidates of the entries, in order.
  unfoldable pub eligible : List Entry → List Candidate
  unfolding eligible_paths
  eligible [] = []
  eligible (e ∷ es) =
      let rest = eligible es in
      if e.test_app_cid_sec then eligible_paths e e.api_paths ++ rest else rest

  visit_paths :
      (entry : Entry) (s : Search) (ps : List PathObj)
      → loop (visit_path re_test current entry) s ps ≡ loop consider s (eligible_paths entry ps)
  unfolding visit_path eligible_paths
  visit_paths entry s [] = refl
  visit_paths entry s (p ∷ ps) = elim (Bool-cases (reached re_test current entry p)) [
    | inl e ↦ rw e (visit_paths entry (consider s (candidate_of current entry p)) ps)
    | inr e ↦ rw e (visit_paths entry s ps)
  ]

  visit_entries :
      (s : Search) (es : List Entry)
      → loop (visit_entry re_test current) s (keep (λ (e : Entry). e.test_app_cid_sec) es)
        ≡ loop consider s (eligible es)
  unfolding visit_entry eligible
  visit_entries s [] = refl
  visit_entries s (e ∷ es) = elim (Bool-cases e.test_app_cid_sec) [
    | inl h ↦ simp h (
        rw loop-append (
          rw (← visit_paths e s e.api_paths)
            (visit_entries (loop (visit_path re_test current e) s e.api_paths) es)))
    | inr h ↦ simp h (visit_entries s es)
  ]

  -- The nested loops find the candidates of least score among all that are reached, in order.
  pub find_matches_lem :
      (apis : List Entry)
      → find_matches re_test current apis
        ≡ scored (lowest max_value (eligible apis)) (eligible apis)
  unfolding find_matches
  find_matches_lem apis =
      ap (λ (s : Search). s.matches)
        (visit_entries (record { matches = []; best_score = max_value }) apis)
      ∙ matches-consider max_value (eligible apis)

  settle-ne-nil : (cs : List Candidate) → cs ≢ [] → settle cs ≡ narrowed cs
  unfolding settle
  settle-ne-nil [] h = absurd (h refl)
  settle-ne-nil (c ∷ cs) h = refl

  settle-scored :
      (cs : List Candidate)
      → All (λ c. c.score ≤ max_value) cs
      → (settle (scored (lowest max_value cs) cs) ≡ not_found) ↔ (cs ≡ [])
  unfolding settle
  settle-scored [] h = (λ _. refl, λ _. refl)
  settle-scored (c ∷ cs) h =
      let kept = scored-lowest-ne-nil max_value c cs h.0 in
      (λ e. cc (e, settle-ne-nil _ kept), λ e. cc)

-- Where no score is above Number.MAX_VALUE, 404 is the outcome exactly when no operation of a
-- usable entry is reached by path and method.
pub api_matcher-not_found_iff :
    (re_test : String → String → Bool) (method pathname : String) (apis : List Entry)
    → All
        (λ c. c.score ≤ max_value)
        (eligible re_test (record { method = method; path = request_path pathname }) apis)
    → (api_matcher re_test method pathname apis ≡ not_found)
      ↔ (eligible re_test (record { method = method; path = request_path pathname }) apis ≡ [])
unfolding api_matcher
api_matcher-not_found_iff re_test method pathname apis h =
    let current : Current = record { method = method; path = request_path pathname } in
    rw (find_matches_lem re_test current apis) (settle-scored re_test current _ h)

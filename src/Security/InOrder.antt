-- ===== src/Security/InOrder.antt =====
-- A `ForEach` that runs the iterators one after another and stops at the first error, as an
-- instance of its laws.
use microgateway.Common.{In, ◌≡◌, refl, Option, none, some, List, [], ◌∷◌, Option-cases, inl, inr}
use microgateway.Security.{ForEach}

module _ {S E X : Type 0} (f : X → S → Option E × S) where
  abbrev pub each_in_order : List X → S → Option E × S
  each_in_order [] s = (none, s)
  each_in_order (x ∷ xs) s = elim (f x s).0 [
    | some e ↦ (some e, (f x s).1)
    | none ↦ each_in_order xs (f x s).1
  ]

  pub order-done :
      (xs : List X) (s : S)
      → (each_in_order xs s).0 ≡ none
      → (x : X) → In x xs
      → (s1 : S) × ((f x s1).0 ≡ none)
  order-done [] s h x m = absurd m
  order-done (y ∷ xs) s h x m = elim (Option-cases (f y s).0) [
    | inl e ↦ elim m [
      | inl same ↦ (s, rw (same) e)
      | inr n ↦ order-done xs (f y s).1 (rw (e, each_in_order) at h) x n
    ]
    | inr (e, k) ↦ cc (rw (k, each_in_order) at h)
  ]

  pub order-kept :
      (xs : List X) (s : S) (J : S → Type 0)
      → ((y : X) (s2 : S) → In y xs → J s2 → J (f y s2).1)
      → J s
      → J (each_in_order xs s).1
  order-kept [] s J step h = h
  order-kept (y ∷ xs) s J step h = elim (Option-cases (f y s).0) [
    | inl e ↦
        rw (e, each_in_order)
          (order-kept xs (f y s).1 J (λ z s2 m. step z s2 (inr m)) (step y s (inl refl) h))
    | inr (e, k) ↦ rw (k, each_in_order) (step y s (inl refl) h)
  ]

  pub order-failed :
      (xs : List X) (s : S) (e : E)
      → (each_in_order xs s).0 ≡ some e
      → (x : X) × In x xs
        × ((s1 : S) × ((f x s1).0 ≡ some e)
            × ((J : S → Type 0)
                → ((y : X) (s2 : S) → In y xs → J s2 → J (f y s2).1)
                → J (f x s1).1
                → J (each_in_order xs s).1))
  order-failed [] s e h = cc
  order-failed (y ∷ xs) s e h = elim (Option-cases (f y s).0) [
    | inl k ↦
        let (x, m, (s1, is, reach)) = order-failed xs (f y s).1 e (rw (k, each_in_order) at h) in
        (
          x,
          inr m,
          (s1, is, λ J step j. rw (k, each_in_order) (reach J (λ z s2 n. step z s2 (inr n)) j)),
        )
    | inr (e', k) ↦
        let h' = rw (k, each_in_order) at h in
        (y, inl refl, (s, cc, λ J step j. rw (k, each_in_order) j))
  ]

abbrev pub in_order : {S E : Type 0} → ForEach S E
in_order = record {
  for_each = λ xs f s. each_in_order f xs s;
  done = λ xs f s. order-done f xs s;
  failed = λ xs f s. order-failed f xs s;
  kept = λ xs f s. order-kept f xs s;
}

-- ===== src/Context/Conversion/Nested.antt =====
-- The conversion of an array of arrays, which does not end.
use microgateway.Common.{
  ℕ, zero, suc, String, ◌≡◌, refl, ap, ◌∙◌, false, Option, none, some, [], ◌∷◌, same,
}
use microgateway.Context.{
  Value, text, records, Runtime, Elem, Promise, pends, an_array, target_of, delimiter_of, by_target,
  on_csv, all_of, listed, for_items, convert_to_type,
}

module _ {V : Type 0} (rt : Runtime V) where
  by_target_pending :
      (f : String → Promise (Value V)) (e : Elem) (s : String)
      → e.items ≡ some (some "array")
      → same e.collection_format (some "multi") ≡ false
      → rt.csv (delimiter_of e.collection_format) (text s) ≡ records ((s ∷ []) ∷ [])
      → f s ≡ pends
      → by_target rt f e (text s) an_array ≡ pends
  unfolding by_target on_csv all_of listed
  by_target_pending f e s k m r p = rw (m, k, r, on_csv, p) refl

  -- An array of arrays is never converted, where the parser takes the text for one record of one field:
  -- the code converts this field by the same definition again, without an end.
  convert_to_type_nested :
      (depth : ℕ) (e : Elem) (s : String)
      → e.type ≡ some "array"
      → e.items ≡ some (some "array")
      → same e.collection_format (some "multi") ≡ false
      → rt.csv (delimiter_of e.collection_format) (text s) ≡ records ((s ∷ []) ∷ [])
      → convert_to_type rt depth e (text s) ≡ pends
  unfolding convert_to_type for_items target_of
  convert_to_type_nested zero e s h k m r = refl
  convert_to_type_nested (suc depth) e s h k m r =
      let rest = convert_to_type_nested depth (record e { type = some "array" }) s refl k m r in
      let items : for_items e ≡ record e { type = some "array" } =
        ap
          (λ (o : Option (Option String)). elim o as (λ x. Elem) [
            | none ↦ e
            | some t ↦ record e { type = t }
          ])
          k in
      ap
        (λ t.
          by_target rt (λ one. convert_to_type rt depth (for_items e) (text one)) e (text s)
            (target_of t))
        h
      ∙ by_target_pending (λ one. convert_to_type rt depth (for_items e) (text one)) e s k m r
          (ap (λ f. convert_to_type rt depth f (text s)) items ∙ rest)

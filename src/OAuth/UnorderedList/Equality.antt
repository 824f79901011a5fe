-- ===== src/OAuth/UnorderedList/Equality.antt =====
-- `equalTo` against equality up to order, which is the library's `Perm`.
use mathlib.Core.List.{Nodup, Perm}
use mathlib.Core.List.Perm
use mathlib.Core.List.Nodup
use mathlib.Core.List.Subperm
use native.Mathlib.Bridge.{from_ℕ, from_le⁻¹}
use native.Mathlib.Nat.{le_of_eq}
use microgateway.Common.{
  ◌≡◌, ◌↔◌, true, sym, ap, ◌∙◌, Bool-cases, inl, inr, nat_eq, nat_eq→≡, ≡→nat_eq, length, all,
  contains,
}
use microgateway.Common.Words.{all-contains→Mem, Mem→all-contains, from_ℕ-length}
use microgateway.OAuth.UnorderedList.{UnorderedList, equal_to}

equal_to_parts :
    (l o : UnorderedList)
    → equal_to l o ≡ true
    → (length l.items ≡ length o.items) × (all (contains o.items) l.items ≡ true)
unfolding equal_to
equal_to_parts l o h = elim (Bool-cases (nat_eq (length l.items) (length o.items))) [
  | inl e ↦ (nat_eq→≡ _ _ e, rw e at h)
  | inr n ↦ cc (rw n at h)
]

-- For a list without repetitions `equalTo` holds of exactly its reorderings.
equal_to_iff : (l o : UnorderedList) → Nodup l.items → (equal_to l o ≡ true) ↔ Perm l.items o.items
unfolding equal_to
equal_to_iff l o distinct = (
  λ h.
      let (same, covered) = equal_to_parts l o h in
      Subperm.perm_of_length_le
        (Nodup.subperm distinct (λ s m. all-contains→Mem l.items o.items s covered m))
        (from_le⁻¹ _ _ (rw (from_ℕ-length, from_ℕ-length) (le_of_eq (sym same)))),
  λ p.
      let same : length l.items ≡ length o.items =
        sym (from_ℕ-length l.items) ∙ ap from_ℕ (Perm.length-eq p) ∙ from_ℕ-length o.items in
      rw (same, ≡→nat_eq) (Mem→all-contains l.items o.items (λ s m. (Perm.mem_iff p).0 m)),
)

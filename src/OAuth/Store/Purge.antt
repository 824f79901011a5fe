-- ===== src/OAuth/Store/Purge.antt =====
-- What a purge of a token table leaves.
use microgateway.Common.{
  ℕ, ◌<◌, String, ◌≡◌, Bool, true, not, some, [], ◌∷◌, arith, keep, find_first, All, Bool-cases,
  inl, inr, ◌==◌, eq_iff, leb,
}
use mathlib.Core.List.{List as Rows}
use microgateway.OAuth.Store.{Token, DataModel, find, purge}
use microgateway.OAuth.Store.Lookup.{find-found, find_first_sound, find_first-All}

keep-All : {R : Type 0} (q : R → Bool) (rs : Rows R) → All (λ r. q r ≡ true) (keep q rs)
keep-All q [] = tt
keep-All q (r ∷ rs) = elim (Bool-cases (q r)) [
  | inl e ↦ rw e (e, keep-All q rs)
  | inr e ↦ rw e (keep-All q rs)
]

-- A token that is found after a purge is of the id and the API that are looked up, and expires after
-- the time of the purge.
find-purge :
    {M : Type 0} (d : DataModel M Token) (m : M) (now : ℕ) (api id : String) (t : Token)
    → find d (purge d m now) api id ≡ some t
    → (t.id ≡ id) × (t.api_id ≡ api) × (now < t.expired_at)
unfolding purge
find-purge d m now api id t h =
    let alive : Token → Bool = λ (u : Token). not (leb u.expired_at now) in
    let (first, of) = find-found d (purge d m now) api id t h in
    let first' : find_first (λ (u : Token). u.id == id) (keep alive (d.rows m)) ≡ some t =
      rw (d.rows-destroy_all) at first in
    (
      (eq_iff t.id id).0
          (find_first_sound (λ (u : Token). u.id == id) (keep alive (d.rows m)) t first'),
      (eq_iff t.api_id api).0 of,
      let left =
            find_first-All (λ u. alive u ≡ true) (λ (u : Token). u.id == id) (keep alive (d.rows m))
              t first' (keep-All alive (d.rows m)) in
          ground arith,
    )

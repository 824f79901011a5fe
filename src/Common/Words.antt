-- ===== src/Common/Words.antt =====
-- `contains` is membership, and the native length of a list is the library's.
use mathlib.Core.Path.{◌≡◌, refl, sym}
use mathlib.Core.Logic.{inl, inr}
use mathlib.Core.Logic.Or
use mathlib.Core.Bool.{Bool, true}
use mathlib.Core.List as L
use mathlib.Core.List.{List, [], ◌∷◌, Mem, mem-cons, not-mem-nil}
use native.Mathlib.Bridge.{from_ℕ}
use native.Mathlib.Omega.{arith}
use Prim.Native.String.{String}
use text.Mathlib.Text.{◌==◌}
use text.Mathlib.TextEquality.{eq_iff}
use microgateway.Common.Base.{Bool-cases}
use microgateway.Common.Lists.{length, all}
use microgateway.Common.Text.{contains}

true-prop : (b : Bool) → IsProp (b ≡ true)
true-prop b = hlevel

pub contains→Mem : (xs : List String) (s : String) → contains xs s ≡ true → Mem s xs
unfolding contains
contains→Mem [] s h = cc
contains→Mem (x ∷ xs) s h = elim (Bool-cases (x == s)) [
  | inl e ↦ mem-cons.1 (Or.inl (sym ((eq_iff x s).0 e)))
  | inr n ↦ mem-cons.1 (Or.inr (contains→Mem xs s (rw n at h)))
]

pub Mem→contains : (xs : List String) (s : String) → Mem s xs → contains xs s ≡ true
unfolding contains
Mem→contains [] s m = absurd (not-mem-nil m)
Mem→contains (x ∷ xs) s m =
    Or.elim (true-prop _) (mem-cons.0 m) (λ e. ground (arith, eq_iff x s))
      (λ k. ground (arith, Mem→contains xs s k))

pub all-contains→Mem :
    (xs ys : List String) (s : String) → all (contains ys) xs ≡ true → Mem s xs → Mem s ys
all-contains→Mem [] ys s h m = absurd (not-mem-nil m)
all-contains→Mem (x ∷ xs) ys s h m =
    Or.elim Mem-prop' (mem-cons.0 m) (λ e. contains→Mem ys s (rw e (ground arith)))
      (λ k. all-contains→Mem xs ys s (ground arith) k)
  where
    Mem-prop' : IsProp (Mem s ys)
    Mem-prop' = squash₁

pub Mem→all-contains :
    (xs ys : List String) → ((s : String) → Mem s xs → Mem s ys) → all (contains ys) xs ≡ true
Mem→all-contains [] ys h = refl
Mem→all-contains (x ∷ xs) ys h =
    rw (Mem→contains ys x (h x (mem-cons.1 (Or.inl refl))))
      (Mem→all-contains xs ys (λ s m. h s (mem-cons.1 (Or.inr m))))

pub from_ℕ-length : (xs : List String) → from_ℕ (L.length xs) ≡ length xs
from_ℕ-length [] = refl
from_ℕ-length (x ∷ xs) = ground (arith, from_ℕ-length xs)

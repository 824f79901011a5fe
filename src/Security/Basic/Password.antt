-- ===== src/Security/Basic/Password.antt =====
-- The user and the password that a decoded token is read as.
use Prim.Native.Char.{Char, code}
use Prim.Native.String.{[], ◌∷◌}
use mathlib.Core.List
use text.Mathlib.TextLemmas.{nil-append, cons-append}
use microgateway.Common.{
  String, ◌≡◌, refl, ap, sym, ◌∙◌, Option, none, some, nat_eq, ◌+s◌, split, split_from, Bool-cases,
  inl, inr,
}
use microgateway.Security.Basic.{credentials, first_two}

abbrev first : List.List String → Option String
first List.[] = none
first (List.◌∷◌ s ss) = some s

first_two-first : (s : String) (ss : List.List String) → first_two (List.◌∷◌ s ss) ≡ (s, first ss)
unfolding first_two
first_two-first s List.[] = refl
first_two-first s (List.◌∷◌ t ts) = refl

abbrev colon : Char
colon = ":"

colon-append : (s : String) → ":" +s s ≡ colon ∷ s
colon-append s = cons-append colon [] s ∙ ap (λ t. colon ∷ t) (nil-append s)

-- The first part ends at the first colon.
first-split_from :
    (cur s more : String)
    → first (split_from 58 cur (s +s (colon ∷ more))) ≡ first (split_from 58 cur s)
unfolding split_from
first-split_from cur [] more = rw nil-append refl
first-split_from cur (c ∷ s) more = elim (Bool-cases (nat_eq (code c) 58)) [
  | inl e ↦ rw (cons-append, e) refl
  | inr e ↦ rw (cons-append, e) (first-split_from (cur +s (c ∷ [])) s more)
]

two_parts :
    (cur s t : String)
    → first (split_from 58 "" s) ≡ first (split_from 58 "" t)
    → first_two (List.◌∷◌ cur (split_from 58 "" s)) ≡ first_two (List.◌∷◌ cur (split_from 58 "" t))
two_parts cur s t e =
    first_two-first cur (split_from 58 "" s)
    ∙ ap (λ p. (cur, p)) e
    ∙ sym (first_two-first cur (split_from 58 "" t))

first_two-split_from :
    (cur user pass more : String)
    → first_two (split_from 58 cur (user +s (colon ∷ (pass +s (colon ∷ more)))))
      ≡ first_two (split_from 58 cur (user +s (colon ∷ pass)))
unfolding split_from
first_two-split_from cur [] pass more =
    rw (nil-append, nil-append)
      (two_parts cur (pass +s (colon ∷ more)) pass (first-split_from "" pass more))
first_two-split_from cur (c ∷ user) pass more = elim (Bool-cases (nat_eq (code c) 58)) [
  | inl e ↦
      rw (cons-append, cons-append, e)
        (two_parts cur (user +s (colon ∷ (pass +s (colon ∷ more)))) (user +s (colon ∷ pass))
          (first-split_from "" user (pass +s (colon ∷ more)) ∙ sym (first-split_from "" user pass)))
  | inr e ↦ rw (cons-append, cons-append, e) (first_two-split_from (cur +s (c ∷ [])) user pass more)
]

-- What follows the second colon of a decoded token is not part of the password: the directory is asked
-- about the same user and password as without it.
credentials-colon :
    (user pass more : String)
    → credentials (user +s ":" +s pass +s ":" +s more) ≡ credentials (user +s ":" +s pass)
unfolding credentials split
credentials-colon user pass more =
    rw (colon-append more, colon-append (pass +s (colon ∷ more)), colon-append pass)
      (first_two-split_from "" user pass more)

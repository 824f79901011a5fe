-- ===== src/OAuth/Exchange/Scopes.antt =====
-- The scopes of a token request: splitting loses nothing.
use Prim.Native.Char.{Char, code}
use Prim.Native.String.{[], ◌∷◌}
use mathlib.Core.List.{List}
use text.Mathlib.TextLemmas.{nil-append, cons-append, append_assoc, append-nil}
use text.Mathlib.TextEquality.{Char-path}
use microgateway.Common.{
  String, ◌≡◌, ◌≢◌, refl, ap, ◌∙◌, inl, inr, true, Bool-cases, nat_eq, nat_eq→≡, ◌+s◌, split, join,
  length, ltb,
}
use microgateway.Common.Text.{split_from}
use microgateway.OAuth.Exchange.{scope_list}

space_char : (c : Char) → nat_eq (code c) b' ' ≡ true → (c ∷ []) ≡ " "
space_char c h =
    let space : Char = " " in ap (λ d. d ∷ []) (Char-path c space (nat_eq→≡ (code c) b' ' h))

split_from-ne-nil : (cur s : String) → split_from b' ' cur s ≢ List.[]
unfolding split_from
split_from-ne-nil cur [] e = cc
split_from-ne-nil cur (c ∷ s) e = elim (Bool-cases (nat_eq (code c) b' ')) [
  | inl sep ↦ cc (e, sep)
  | inr other ↦ split_from-ne-nil (cur +s (c ∷ [])) s (rw other at e)
]

join-cons :
    (sep s : String) (parts : List String)
    → parts ≢ List.[]
    → join sep (List.◌∷◌ s parts) ≡ s +s sep +s join sep parts
unfolding join
join-cons sep s List.[] h = absurd (h refl)
join-cons sep s (List.◌∷◌ t ts) h = refl

join-split_from : (cur s : String) → join " " (split_from b' ' cur s) ≡ cur +s s
unfolding split_from
join-split_from cur [] = unfold join in rw append-nil refl
join-split_from cur (c ∷ s) = elim (Bool-cases (nat_eq (code c) b' ')) [
  | inl sep ↦ rw sep (
      join-cons " " cur (split_from b' ' "" s) (split_from-ne-nil "" s)
      ∙ ap (λ t. cur +s " " +s t) (join-split_from "" s)
      ∙ simp (nil-append, ← space_char c sep, cons-append))
  | inr other ↦
      rw other (join-split_from (cur +s (c ∷ [])) s ∙ simp (nil-append, append_assoc, cons-append))
]

pub join-split : (s : String) → join " " (split b' ' s) ≡ s
unfolding split
join-split s = join-split_from "" s ∙ nil-append s

-- With the default separator the list of scopes, joined by spaces, is the scope of the request.
join-scope_list : (scope : String) → join " " (scope_list (List.◌∷◌ b' ' List.[]) scope) ≡ scope
unfolding scope_list
join-scope_list scope = elim (Bool-cases (ltb 1 (length (split b' ' scope)))) [
  | inl many ↦ rw many (join-split scope)
  | inr one ↦ rw one (unfold join in refl)
]

-- ===== src/Context/PathRegex/Template.antt =====
-- Templates of paths, and what the steps of the loop make of their parts.
use Prim.Native.Char.{Char, code}
use microgateway.Common.{
  not-true, ℕ, suc, ◌≡◌, refl, ap, ◌∙◌, arith, Bool, true, false, not, ◌&&◌, none, some, List, [],
  ◌∷◌, ◌++◌, append_assoc, nat_eq, ≡→nat_eq, All, and_split,
}
use microgateway.Context.PathRegex.{
  Chars, cut, after_prefix, replace, variable_path, pattern_of, is_none, Groups,
}

abbrev pub avoids : ℕ → Chars → Bool
avoids k [] = true
avoids k (c ∷ s) = not (nat_eq (code c) k) && avoids k s

-- A text without braces.
abbrev pub Plain : Chars → Type 0
Plain s = (avoids b'{' s ≡ true) × (avoids b'}' s ≡ true)

pub avoids-append :
    (k : ℕ) (s t : Chars) → avoids k s ≡ true → avoids k t ≡ true → avoids k (s ++ t) ≡ true
avoids-append k [] t h g = g
avoids-append k (c ∷ s) t h g =
    let (a, b) = and_split (not (nat_eq (code c) k)) (avoids k s) h in
    rw (a, avoids-append k s t b g) refl

pub Plain-append : (s t : Chars) → Plain s → Plain t → Plain (s ++ t)
Plain-append s t (a, b) (c, d) = (avoids-append b'{' s t a c, avoids-append b'}' s t b d)

pub cut-avoids : (k : ℕ) (s : Chars) → avoids k s ≡ true → cut k s ≡ none
unfolding cut
cut-avoids k [] h = refl
cut-avoids k (c ∷ s) h =
    let (a, b) = and_split (not (nat_eq (code c) k)) (avoids k s) h in
    rw (not-true (nat_eq (code c) k) a, cut-avoids k s b) refl

pub cut-append :
    (k : ℕ) (s : Chars) (d : Char) (t : Chars)
    → avoids k s ≡ true
    → nat_eq (code d) k ≡ true
    → cut k (s ++ d ∷ t) ≡ some (s, t)
unfolding cut
cut-append k [] d t h g = rw g refl
cut-append k (c ∷ s) d t h g =
    let (a, b) = and_split (not (nat_eq (code c) k)) (avoids k s) h in
    rw (not-true (nat_eq (code c) k) a, cut-append k s d t b g) refl

pub after_prefix-append : (p t : Chars) → after_prefix p (p ++ t) ≡ some t
unfolding after_prefix
after_prefix-append [] t = refl
after_prefix-append (c ∷ p) t = rw (≡→nat_eq (code c), after_prefix-append p t) refl

after_prefix_other :
    (d c : Char) (q s : Chars)
    → nat_eq (code c) (code d) ≡ false
    → after_prefix (d ∷ q) (c ∷ s) ≡ none
unfolding after_prefix
after_prefix_other d c q s h =
    let back : nat_eq (code d) (code c) ≡ false = ground arith in rw back refl

pub replace_here :
    (part by : Chars) (c : Char) (s t : Chars)
    → after_prefix part (c ∷ s) ≡ some t
    → replace part by (c ∷ s) ≡ by ++ t
unfolding replace
replace_here part by c s t h = rw (h, replace) refl

replace_later :
    (part by : Chars) (c : Char) (s : Chars)
    → after_prefix part (c ∷ s) ≡ none
    → replace part by (c ∷ s) ≡ c ∷ replace part by s
unfolding replace
replace_later part by c s h = rw (h, replace) refl

pub replace-append :
    (s : Chars) (d : Char) (q by t : Chars)
    → avoids (code d) s ≡ true
    → replace (d ∷ q) by (s ++ d ∷ (q ++ t)) ≡ s ++ (by ++ t)
replace-append [] d q by t h = replace_here (d ∷ q) by d (q ++ t) t (after_prefix-append (d ∷ q) t)
replace-append (c ∷ s) d q by t h =
    let (a, b) = and_split (not (nat_eq (code c) (code d))) (avoids (code d) s) h in
    replace_later (d ∷ q) by c (s ++ d ∷ (q ++ t))
      (after_prefix_other d c q _ (not-true (nat_eq (code c) (code d)) a))
    ∙ ap (λ u. c ∷ u) (replace-append s d q by t b)

-- A template: texts each followed by a variable, and a text at the end.
abbrev pub Pieces : Type 0
Pieces = List (Chars × Chars)

abbrev pub template : Pieces → Chars → Chars
template [] tail = tail
template ((lit, name) ∷ ps) tail = lit ++ "{" ∷ (name ++ "}" ∷ template ps tail)

abbrev pub is_last : Pieces → Bool
is_last [] = true
is_last (p ∷ ps) = false

-- The pattern of a template: every variable is one segment, but the last one may be several.
abbrev pub pattern : Bool → Pieces → Chars → Chars
pattern multi [] tail = tail
pattern multi ((lit, name) ∷ ps) tail =
    lit ++ (pattern_of multi (is_last ps) ++ pattern multi ps tail)

-- The variables with their numbers.
abbrev pub numbered : ℕ → Pieces → Groups
numbered i [] = []
numbered i ((lit, name) ∷ ps) = (name, i) ∷ numbered (suc i) ps

abbrev pub PlainPieces : Pieces → Type 0
PlainPieces ps = All (λ p. Plain p.0 × Plain p.1) ps

pub pattern_of-Plain : (multi last : Bool) → Plain (pattern_of multi last)
unfolding pattern_of
pattern_of-Plain true true = (refl, refl)
pattern_of-Plain true false = (refl, refl)
pattern_of-Plain false true = (refl, refl)
pattern_of-Plain false false = (refl, refl)

-- Whether a variable is the last, by the search for a '{' after its own.
pub is_none-cut :
    (name : Chars) (ps : Pieces) (tail : Chars)
    → Plain name
    → PlainPieces ps
    → Plain tail
    → is_none (cut b'{' (name ++ "}" ∷ template ps tail)) ≡ is_last ps
unfolding is_none
is_none-cut name [] tail h hs t =
    rw (cut-avoids b'{' (name ++ "}" ∷ tail) (avoids-append b'{' name ("}" ∷ tail) h.0 t.0)) refl
is_none-cut name ((lit, other) ∷ ps) tail h ((l, o), hs) t =
    let before = avoids-append b'{' name ("}" ∷ lit) h.0 l.0 in
    let whole = append_assoc name ("}" ∷ lit) ("{" ∷ (other ++ "}" ∷ template ps tail)) in
    rw
      (
        ← whole,
        cut-append b'{' (name ++ "}" ∷ lit) "{" (other ++ "}" ∷ template ps tail) before refl,
      )
      refl

pub variable_path-append :
    (before name rest : Chars)
    → Plain before
    → Plain name
    → variable_path before (name ++ "}" ∷ rest) ≡ ("{" ∷ (name ++ "}" ∷ []), name)
unfolding variable_path
variable_path-append before name rest h g =
    rw (cut-avoids b'}' before h.1, variable_path, cut-append b'}' name "}" rest g.1 refl) refl

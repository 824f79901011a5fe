-- ===== src/Common/Text.antt =====
-- The string functions of the JavaScript runtime that the gateway calls, over the native texts.
use Prim.Native.Nat.{ℕ, zero, suc, ◌/◌, ◌%◌}
use Prim.Native.Char.{Char, code}
use Prim.Native.String
use Prim.Native.String.{String, [], ◌∷◌}
use mathlib.Core.Path.{◌≡◌, refl}
use mathlib.Core.Bool.{Bool, true, false, not, ◌||◌}
use mathlib.Core.Option.{Option, none, some}
use mathlib.Core.List.{List}
use native.Mathlib.Omega.{arith}
use text.Mathlib.Text.{◌==◌}
use text.Mathlib.TextEquality.{eq_iff}
use microgateway.Common.Base.{nat_eq, ltb, if◌then◌else◌}

infixr 60 ◌+s◌
-- `+` on strings
abbrev pub ◌+s◌ : String → String → String
s +s t = String.◌++◌ s t

-- `s.split(sep)` for a separator of one character: the parts, never none. `cur` is the part that
-- is being read.
unfoldable pub split_from : ℕ → String → String → List String
split_from sep cur [] = List.◌∷◌ cur List.[]
split_from sep cur (c ∷ s) =
    let closed = List.◌∷◌ cur (split_from sep "" s) in
    let longer = split_from sep (cur +s (c ∷ [])) s in
    if nat_eq (code c) sep then closed else longer

unfoldable pub split : ℕ → String → List String
unfolding split_from
split sep s = split_from sep "" s

-- `parts.join(sep)`
unfoldable pub join : String → List String → String
join sep List.[] = ""
join sep (List.◌∷◌ s List.[]) = s
join sep (List.◌∷◌ s (List.◌∷◌ t ts)) = s +s sep +s join sep (List.◌∷◌ t ts)

-- The character of `to` at the place where `from` holds `c`; `c` where it does not.
swap_in : String → String → Char → Char
swap_in (f ∷ from) (t ∷ to) c = if nat_eq (code f) (code c) then t else swap_in from to c
swap_in from to c = c

abbrev uppers : String
uppers = "ABCDEFGHIJKLMNOPQRSTUVWXYZ"

abbrev lowers : String
lowers = "abcdefghijklmnopqrstuvwxyz"

-- `toLowerCase` and `toUpperCase` on ASCII letters; other characters stay.
unfoldable pub to_lower : String → String
unfolding swap_in
to_lower [] = []
to_lower (c ∷ s) = swap_in uppers lowers c ∷ to_lower s

unfoldable pub to_upper : String → String
unfolding swap_in
to_upper [] = []
to_upper (c ∷ s) = swap_in lowers uppers c ∷ to_upper s

-- A string that may be `undefined` counts as false if it is, or if it is empty.
abbrev pub truthy : Option String → Bool
truthy none = false
truthy (some s) = not (s == "")

-- `===` between strings that may be `undefined`
abbrev pub same : Option String → Option String → Bool
same none none = true
same (some s) (some t) = s == t
same _ _ = false

digit : ℕ → String
digit n =
    if nat_eq n 0
    then "0"
    else if nat_eq n 1
    then "1"
    else if nat_eq n 2
    then "2"
    else if nat_eq n 3
    then "3"
    else if nat_eq n 4
    then "4"
    else if nat_eq n 5
    then "5"
    else if nat_eq n 6
    then "6"
    else if nat_eq n 7
    then "7"
    else if nat_eq n 8
    then "8"
    else "9"

-- Each step takes the last digit, so that the number itself is enough fuel.
digits_of : (fuel n : ℕ) → String
unfolding digit
digits_of zero n = digit n
digits_of (suc fuel) n = elim (ltb n 10) [
  | true ↦ digit n
  | false ↦ digits_of fuel (n / 10) +s digit (n % 10)
]

-- a number as a text, in decimal digits
unfoldable pub to_text : ℕ → String
unfolding digits_of
to_text n = digits_of n n

-- `list.indexOf(s) !== -1`
unfoldable pub contains : List String → String → Bool
contains List.[] s = false
contains (List.◌∷◌ t ts) s = t == s || contains ts s

-- An object with string keys, as its own properties in order: reading and writing a property.
module _ {ℓ} {V : Type ℓ} where
  unfoldable pub get : List (String × V) → String → Option V
  get List.[] key = none
  get (List.◌∷◌ (k, v) o) key = if k == key then some v else get o key

  unfoldable pub put : List (String × V) → String → V → List (String × V)
  put List.[] key v = List.◌∷◌ (key, v) List.[]
  put (List.◌∷◌ (k, w) o) key v =
      if k == key then List.◌∷◌ (k, v) o else List.◌∷◌ (k, w) (put o key v)

  -- `_.extend(o, source)`
  unfoldable pub extend : List (String × V) → List (String × V) → List (String × V)
  unfolding put
  extend o List.[] = o
  extend o (List.◌∷◌ (k, v) source) = extend (put o k v) source

  pub get-put :
      (o : List (String × V)) (k j : String) (v : V)
      → get (put o k v) j ≡ (if k == j then some v else get o j)
  unfolding get put
  get-put List.[] k j v = refl
  get-put (List.◌∷◌ (i, w) o) k j v =
      ground (arith, eq_iff k j, eq_iff i k, eq_iff i j, get-put o k j v)

-- ===== src/Context/PathRegex.antt =====
-- `makePathRegex` of lib/apim-context/index.js. A path is the list of its characters. The loop has
-- fuel, and is none where it is still running.
pub mod Template
pub mod Run
pub mod Compiled
use Prim.Native.Char.{Char, code}
use Prim.Native.String as S
use microgateway.Common.{
  ℕ, zero, suc, String, Bool, true, false, not, ◌&&◌, ◌||◌, Option, none, some, List, [], ◌∷◌, ◌++◌,
  nat_eq, if◌then◌else◌,
}

abbrev pub Chars : Type 0
Chars = List Char

abbrev pub chars : String → Chars
chars S.[] = []
chars (S.◌∷◌ c s) = c ∷ chars s

-- `indexOf` and `substring`: what stands before the first of these characters, and after it
unfoldable pub cut : ℕ → Chars → Option (Chars × Chars)
cut k [] = none
cut k (c ∷ s) =
    let rest = cut k s in
    if nat_eq (code c) k
    then some ([], s)
    else elim rest [ none ↦ none | some (a, b) ↦ some (c ∷ a, b) ]

-- what follows a prefix
unfoldable pub after_prefix : Chars → Chars → Option Chars
after_prefix [] s = some s
after_prefix (c ∷ p) [] = none
after_prefix (c ∷ p) (d ∷ s) =
    let rest = after_prefix p s in if nat_eq (code c) (code d) then rest else none

-- `path.replace(part, by)` for a text: the first occurrence
unfoldable pub replace : (part by path : Chars) → Chars
unfolding after_prefix
replace part by [] = elim part [ [] ↦ by | c ∷ p ↦ [] ]
replace part by (c ∷ s) =
    let rest = replace part by s in
    elim (after_prefix part (c ∷ s)) [ some t ↦ by ++ t | none ↦ c ∷ rest ]

-- `/{\+([^}]+)}$/`
unfoldable pub is_multi_here : Chars → Bool
unfolding after_prefix cut
is_multi_here s = elim (after_prefix (chars "{+") s) [
  | none ↦ false
  | some t ↦ elim (cut b'}' t) [
    | none ↦ false
    | some ([], rest) ↦ false
    | some (c ∷ name, []) ↦ true
    | some (c ∷ name, d ∷ rest) ↦ false
  ]
]

unfoldable pub is_multi : Chars → Bool
unfolding is_multi_here
is_multi [] = false
is_multi (c ∷ s) = is_multi_here (c ∷ s) || is_multi s

-- `variablePath` and `variablePath_only`, for the texts before and after the first '{'. `substring`
-- swaps its arguments where the first '}' is missing or comes earlier.
unfoldable pub variable_path : (before after : Chars) → Chars × Chars
unfolding cut
variable_path before after = elim (cut b'}' before) [
  | some (a, between) ↦ (between, chars "}" ++ between ++ chars "{")
  | none ↦ elim (cut b'}' after) [
    | some (name, rest) ↦ (chars "{" ++ name ++ chars "}", name)
    | none ↦ (before, before ++ chars "{")
  ]
]

-- The pattern for a variable; `last` is whether no '{' comes after its own.
unfoldable pub pattern_of : (multi last : Bool) → Chars
pattern_of multi last = if multi && last then chars "(.+)" else chars "([^/]+)"

unfoldable pub is_none : Option (Chars × Chars) → Bool
is_none none = true
is_none (some p) = false

abbrev pub Groups : Type 0
Groups = List (Chars × ℕ)

-- The loop, with the groups in the order in which they are set.
unfoldable pub loop : ℕ → (multi : Bool) → Chars → ℕ → Groups → Option (Chars × Groups)
unfolding cut variable_path replace pattern_of is_none
loop zero multi path i groups = none
loop (suc fuel) multi path i groups = elim (cut b'{' path) [
  | none ↦ some (path, groups)
  | some (before, after) ↦
      let (variable, name) = variable_path before after in
      loop fuel multi (replace variable (pattern_of multi (is_none (cut b'{' after))) path) (suc i)
        (groups ++ (name, i) ∷ [])
]

unfoldable pub without_slash : Chars → Chars
without_slash [] = []
without_slash (c ∷ []) = if nat_eq (code c) b'/' then [] else c ∷ []
without_slash (c ∷ d ∷ s) = c ∷ without_slash (d ∷ s)

pub base_of : Option Chars → Chars
unfolding without_slash
base_of none = []
base_of (some base) = without_slash base

pub is_root : Chars → Bool
is_root [] = false
is_root (c ∷ []) = nat_eq (code c) b'/'
is_root (c ∷ d ∷ s) = false

unfoldable pub make_path_regex : ℕ → Option Chars → (api_path : Chars) → Option (Chars × Groups)
unfolding loop is_multi base_of is_root
make_path_regex fuel base api_path = elim (loop fuel (is_multi api_path) api_path 1 []) [
  | none ↦ none
  | some (path, groups) ↦
      some (
        chars "^" ++ base_of base ++ (if is_root api_path then [] else path) ++ chars "/?$",
        groups,
      )
]

-- ===== src/OAuth/Server/Support.antt =====
-- What the server supports after registrations.
use microgateway.Common.{
  All, ◌↔◌, String, ◌≡◌, refl, ◌∙◌, Bool, true, false, ◌||◌, List, [], ◌∷◌, ◌++◌, all, contains,
  arith, inl, inr, Bool-cases, eq_iff,
}
use microgateway.OAuth.Server.{
  Server, Words, array, words, add_words, supports, first_supported, scope, support_scope,
  grant_type, support_grant_type, support_response_type,
}

contains-append :
    (xs ys : List String) (s : String) → contains (xs ++ ys) s ≡ (contains xs s || contains ys s)
unfolding contains
contains-append [] ys s = refl
contains-append (x ∷ xs) ys s = ground (arith, contains-append xs ys s)

-- A word is known after the registration of a list if it was known before or is in the list.
contains-add_words :
    (known ws : List String) (s : String)
    → contains (add_words known ws) s ≡ (contains known s || contains ws s)
unfolding add_words contains
contains-add_words known [] s = ground arith
contains-add_words known (w ∷ ws) s = elim (Bool-cases (contains known w)) [
  | inl old ↦ rw old (contains-add_words known ws s ∙ ground (arith, eq_iff w s))
  | inr new ↦
      rw new (
        contains-add_words (known ++ w ∷ []) ws s
        ∙ ground (arith, contains-append known (w ∷ []) s))
]

all-ext :
    (p q : String → Bool) → ((s : String) → p s ≡ q s) → (ws : List String) → all p ws ≡ all q ws
all-ext p q h [] = refl
all-ext p q h (w ∷ ws) = rw (h w, all-ext p q h ws)

-- Every word of a list is known.
abbrev pub AllKnown : List String → List String → Type 0
AllKnown known ws = All (λ w. contains known w ≡ true) ws

-- A list has a first word, which is known.
abbrev pub FirstKnown : List String → List String → Type 0
FirstKnown known [] = ⊥
FirstKnown known (w ∷ ws) = contains known w ≡ true

all_iff : (known ws : List String) → (all (contains known) ws ≡ true) ↔ AllKnown known ws
all_iff known [] = (λ h. tt, λ h. refl)
all_iff known (w ∷ ws) = ground (arith, all_iff known ws)

first_iff : (known ws : List String) → (first_supported known ws ≡ true) ↔ FirstKnown known ws
unfolding first_supported
first_iff known [] = (λ h. cc, λ h. absurd h)
first_iff known (w ∷ ws) = (λ h. h, λ h. h)

module _ {S E : Type 0} (s : Server S E) where
  pub support_scope_iff : (ws : Words) → (support_scope s ws ≡ true) ↔ AllKnown s.scopes (words ws)
  unfolding support_scope supports
  support_scope_iff ws = all_iff s.scopes (words ws)

  pub support_grant_type_iff :
      (ws : Words) → (support_grant_type s ws ≡ true) ↔ AllKnown s.grant_types (words ws)
  unfolding support_grant_type supports
  support_grant_type_iff ws = all_iff s.grant_types (words ws)

  pub support_response_type_iff :
      (ws : Words) → (support_response_type s ws ≡ true) ↔ FirstKnown s.response_types (words ws)
  unfolding support_response_type
  support_response_type_iff ws = first_iff s.response_types (words ws)

  -- After `scope(ws)` the server supports exactly the lists of scopes that were supported before or
  -- are among `ws`, each word taken by itself.
  support_scope-scope :
      (ws vs : Words)
      → support_scope (scope s ws) vs
        ≡ all (λ v. contains s.scopes v || contains (words ws) v) (words vs)
  unfolding support_scope scope
  support_scope-scope ws vs = all-ext _ _ (contains-add_words s.scopes (words ws)) (words vs)

  -- After `grantType(ws)` the server supports exactly the lists of grant types that were supported
  -- before or are among `ws`, each word taken by itself.
  support_grant_type-grant_type :
      (ws vs : Words)
      → support_grant_type (grant_type s ws) vs
        ≡ all (λ v. contains s.grant_types v || contains (words ws) v) (words vs)
  unfolding support_grant_type grant_type
  support_grant_type-grant_type ws vs =
      all-ext _ _ (contains-add_words s.grant_types (words ws)) (words vs)

  -- `supportResponseType` accepts every list whose first word is registered, also where another
  -- word of it is not, so that the loop of the other methods would refuse the list.
  support_response_type_first :
      (one : String) (more : List String)
      → contains s.response_types one ≡ true
      → supports s.response_types more ≡ false
      → (support_response_type s (array (one ∷ more)) ≡ true)
        × (supports s.response_types (one ∷ more) ≡ false)
  unfolding support_response_type supports
  support_response_type_first one more h k = ground arith

-- ===== src/OAuth/Store/Lookup.antt =====
-- What the tables hold after a deletion.
use microgateway.Common.{
  ℕ, ◌+◌, ◌≤◌, String, ◌≡◌, refl, Bool, true, false, not, ◌&&◌, none, some, [], ◌∷◌, ◌++◌, arith,
  keep, find_first, Bool-cases, inl, inr, All, ◌==◌, eq_iff, if◌then◌else◌, ltb,
}
use mathlib.Core.List.{List as Rows}
use microgateway.OAuth.Store.{Token, Code, code_of_api, DataModel, find, find_code, delete_code}

-- A row counts for the refreshes that it allows, and for one at least.
abbrev pub weight : Token → ℕ
weight t = if ltb 1 t.count_down then t.count_down else 1

abbrev pub budget : Rows Token → ℕ
budget [] = 0
budget (t ∷ ts) = weight t + budget ts

pub budget-append : (ts us : Rows Token) → budget (ts ++ us) ≡ budget ts + budget us
budget-append [] us = omega arith
budget-append (t ∷ ts) us = omega (arith, budget-append ts us)

pub budget-keep-le : (q : Token → Bool) (ts : Rows Token) → budget (keep q ts) ≤ budget ts
budget-keep-le q [] = omega arith
budget-keep-le q (t ∷ ts) = elim (Bool-cases (q t)) [
  | inl e ↦ rw e (omega (arith, budget-keep-le q ts))
  | inr e ↦ rw e (omega (arith, budget-keep-le q ts))
]

-- Deleting the row that a search finds takes its weight away.
pub budget-delete :
    (p q : Token → Bool) (ts : Rows Token) (t : Token)
    → find_first p ts ≡ some t
    → q t ≡ false
    → budget (keep q ts) + weight t ≤ budget ts
budget-delete p q [] t h k = cc
budget-delete p q (u ∷ ts) t h k = elim (Bool-cases (p u)) [
  | inl e ↦ let same : u ≡ t = ground arith in rw (same, k) (omega (arith, budget-keep-le q ts))
  | inr e ↦ elim (Bool-cases (q u)) [
    | inl f ↦ rw f (omega (arith, budget-delete p q ts t (rw e at h) k))
    | inr f ↦ rw f (omega (arith, budget-delete p q ts t (rw e at h) k))
  ]
]

-- The ids are those of a table with `id` for its key.
abbrev pub Unique : Rows Token → Type 0
Unique [] = Unit
Unique (t ∷ ts) = All (λ u. (u.id == t.id) ≡ false) ts × Unique ts

find_first-none :
    (k : String) (ts : Rows Token)
    → All (λ u. (u.id == k) ≡ false) ts
    → (q : Token → Bool) → find_first (λ (u : Token). u.id == k) (keep q ts) ≡ none
find_first-none k [] h q = refl
find_first-none k (t ∷ ts) h q = ground (arith, find_first-none k ts h.1 q)

-- Deleting the row with an id leaves none with that id.
pub find_first-delete :
    (k : String) (q : Token → Bool) (ts : Rows Token) (t : Token)
    → Unique ts
    → find_first (λ (u : Token). u.id == k) ts ≡ some t
    → q t ≡ false
    → find_first (λ (u : Token). u.id == k) (keep q ts) ≡ none
find_first-delete k q [] t d h e = refl
find_first-delete k q (u ∷ ts) t d h e = elim (Bool-cases (u.id == k)) [
  | inl f ↦
      let same : u ≡ t = ground arith in
      let key : u.id ≡ k = (eq_iff u.id k).0 f in
      let gone : find_first (λ (v : Token). v.id == k) (keep q ts) ≡ none =
        find_first-none k ts (rw key at d.0) q in
      rw (same, e) gone
  | inr f ↦ ground (arith, find_first-delete k q ts t d.1)
]

-- `find` finds a row with the id, of the API.
pub find-found :
    {M : Type 0} (d : DataModel M Token) (m : M) (api id : String) (t : Token)
    → find d m api id ≡ some t
    → (find_first (λ (u : Token). u.id == id) (d.rows m) ≡ some t) × ((t.api_id == api) ≡ true)
unfolding find
find-found d m api id t h = ground arith

pub find_first_sound :
    {R : Type 0} (p : R → Bool) (rs : Rows R) (r : R) → find_first p rs ≡ some r → p r ≡ true
find_first_sound p [] r h = cc
find_first_sound p (s ∷ rs) r h = elim (Bool-cases (p s)) [
  | inl e ↦ let same : s ≡ r = ground arith in rw (← same) e
  | inr e ↦ find_first_sound p rs r (rw e at h)
]

pub find_first-All :
    {R : Type 0} (P : R → Type 0) (p : R → Bool) (rs : Rows R) (r : R)
    → find_first p rs ≡ some r
    → All P rs
    → P r
find_first-All P p [] r h a = absurd (elim (Bool-cases true) [ inl e ↦ cc | inr e ↦ cc ])
find_first-All P p (s ∷ rs) r h a = elim (Bool-cases (p s)) [
  | inl e ↦ let same : s ≡ r = ground arith in rw (← same) a.0
  | inr e ↦ find_first-All P p rs r (rw e at h) a.1
]

pub find_first-append_none :
    {R : Type 0} (p : R → Bool) (rs us : Rows R)
    → find_first p rs ≡ none
    → find_first p us ≡ none
    → find_first p (rs ++ us) ≡ none
find_first-append_none p [] us h k = k
find_first-append_none p (r ∷ rs) us h k = ground (arith, find_first-append_none p rs us)

-- A search that finds no row with the id gives no result.
pub find-none :
    {M : Type 0} (d : DataModel M Token) (m : M) (api id : String)
    → find_first (λ (u : Token). u.id == id) (d.rows m) ≡ none
    → find d m api id ≡ none
unfolding find
find-none d m api id h = rw h

deleted-none :
    (api code : String) (rows : Rows Code)
    → code_of_api api (
        find_first
          (λ (c : Code). c.id == code)
          (keep (λ c. not (c.id == code && c.api_id == api)) rows))
      ≡ none
unfolding code_of_api
deleted-none api code [] = refl
deleted-none api code (c ∷ rows) = ground (arith, deleted-none api code rows)

-- A deleted code of an API is not found again.
pub find_code-delete_code :
    {M : Type 0} (d : DataModel M Code) (m : M) (api code : String)
    → find_code d (delete_code d m (some api) code) api code ≡ none
unfolding find_code delete_code
find_code-delete_code d m api code = rw (d.rows-destroy_all) (deleted-none api code (d.rows m))

erased-none :
    (api code : String) (rows : Rows Code)
    → code_of_api api
        (find_first (λ (c : Code). c.id == code) (keep (λ c. not (c.id == code)) rows))
      ≡ none
unfolding code_of_api
erased-none api code [] = refl
erased-none api code (c ∷ rows) = ground (arith, erased-none api code rows)

-- A code that is deleted without an API is not found at any.
pub find_code-delete_code_any :
    {M : Type 0} (d : DataModel M Code) (m : M) (api code : String)
    → find_code d (delete_code d m none code) api code ≡ none
unfolding find_code delete_code
find_code-delete_code_any d m api code = rw (d.rows-destroy_all) (erased-none api code (d.rows m))

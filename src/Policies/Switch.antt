-- ===== src/Policies/Switch.antt =====
-- policies/operation-switch/index.js: the subflow of the first case with the operation of the
-- request. A subflow is of a type `X`; a case without `execute` has `none`.
use microgateway.Common.{
  String, ◌≡◌, ◌↔◌, refl, ap, Bool, true, ◌&&◌, Option, none, some, List, [], ◌∷◌, ◌++◌, All, any,
  same, to_lower, Option-cases, Bool-cases, inl, inr, ◌==◌, if◌then◌else◌,
}

-- An operation that a case names: by its id, or by verb and path.
pub data Operation : Type 0 where
  by_id : String → Operation
  by_verb : (verb path : String) → Operation

pub record Case (X : Type 0) : Type 0 where
  pub operations : List Operation
  pub execute : Option X

-- the operation of the request, its verb in lower case
pub record Actual : Type 0 where
  pub id : Option String
  pub verb : String
  pub path : String

pub is_expected : Actual → Operation → Bool
is_expected a (by_id id) = same (some id) a.id
is_expected a (by_verb verb path) = to_lower verb == a.verb && path == a.path

module _ {X : Type 0} (a : Actual) where
  -- what the inner loop leaves in `subflow`
  pub case_flow : Case X → Option X
  case_flow c = if any (is_expected a) c.operations then c.execute else none

  pub find_subflow : List (Case X) → Option X
  unfolding case_flow
  find_subflow [] = none
  find_subflow (c ∷ cases) = elim (case_flow c) [ some x ↦ some x | none ↦ find_subflow cases ]

-- What the policy calls: `flow.invoke`, with `flow.proceed` when that ends, or `flow.proceed`.
pub data Ends (X : Type 0) : Type 0 where
  invoked : X → Ends X
  proceeded : Ends X

unfoldable pub operation_switch :
    {X : Type 0} → Option String → (verb path : String) → List (Case X) → Ends X
unfolding find_subflow is_expected
operation_switch id verb path cases =
    elim (find_subflow (record { id = id; verb = to_lower verb; path = path }) cases) [
      | some x ↦ invoked x
      | none ↦ proceeded
    ]

abbrev pub Chosen : {X : Type 0} → Actual → List (Case X) → X → Type 0
Chosen {X} a cases x =
    (before : List (Case X)) × (c : Case X) × (after : List (Case X)) × (cases
      ≡ before ++ c ∷ after)
    × All (λ d. case_flow a d ≡ none) before
    × (any (is_expected a) c.operations ≡ true)
    × (c.execute ≡ some x)

module _ {X : Type 0} (a : Actual) where
  case_flow-some :
      (c : Case X) (x : X)
      → case_flow a c ≡ some x
      → (any (is_expected a) c.operations ≡ true) × (c.execute ≡ some x)
  unfolding case_flow
  case_flow-some c x h = elim (Bool-cases (any (is_expected a) c.operations)) [
    | inl e ↦ (e, rw e at h)
    | inr e ↦ cc (rw e at h)
  ]

  some-case_flow :
      (c : Case X) (x : X)
      → any (is_expected a) c.operations ≡ true
      → c.execute ≡ some x
      → case_flow a c ≡ some x
  unfolding case_flow
  some-case_flow c x h k = rw h k

  subflow-Chosen :
      (cases : List (Case X)) (x : X) → find_subflow a cases ≡ some x → Chosen a cases x
  unfolding find_subflow
  subflow-Chosen [] x h = cc
  subflow-Chosen (c ∷ cases) x h = elim (Option-cases (case_flow a c)) [
    | inl e ↦
        let (before, d, after, is, none_of, hit, runs) =
          subflow-Chosen cases x (rw (e, find_subflow) at h) in
        (c ∷ before, d, after, ap (λ l. c ∷ l) is, (e, none_of), hit, runs)
    | inr (y, e) ↦
        let same : y ≡ x = cc (rw (e, find_subflow) at h) in
        let (hit, runs) = case_flow-some c x (rw same at e) in ([], c, cases, refl, tt, hit, runs)
  ]

  Chosen-subflow :
      (before : List (Case X)) (c : Case X) (after : List (Case X)) (x : X)
      → All (λ d. case_flow a d ≡ none) before
      → case_flow a c ≡ some x
      → find_subflow a (before ++ c ∷ after) ≡ some x
  unfolding find_subflow
  Chosen-subflow [] c after x h k = rw (k, find_subflow) refl
  Chosen-subflow (d ∷ before) c after x (e, h) k =
      rw (e, find_subflow) (Chosen-subflow before c after x h k)

-- A subflow is invoked exactly when it is that of a case that names the operation of the request, by
-- id or by verb and path, and no case before it that names the operation has a subflow.
pub operation_switch-invoked_iff :
    {X : Type 0} (id : Option String) (verb path : String) (cases : List (Case X)) (x : X)
    → (operation_switch id verb path cases ≡ invoked x)
      ↔ Chosen (record { id = id; verb = to_lower verb; path = path }) cases x
unfolding operation_switch
operation_switch-invoked_iff {X} id verb path cases x =
    let a : Actual = record { id = id; verb = to_lower verb; path = path } in
    (
      λ h. elim (Option-cases (find_subflow a cases)) [
        | inl e ↦ cc (rw (e, operation_switch) at h)
        | inr (y, e) ↦
            let same : y ≡ x = cc (rw (e, operation_switch) at h) in
            subflow-Chosen a cases x (rw same at e)
      ],
      λ (before, c, after, is, none_of, hit, runs).
          let e = Chosen-subflow a before c after x none_of (some-case_flow a c x hit runs) in
          rw (is, e, operation_switch) refl,
    )

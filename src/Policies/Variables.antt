-- ===== src/Policies/Variables.antt =====
-- policies/set-variable/index.js: setting, adding to and clearing variables of the context.
--
-- The context of flow-engine is the record `Context`, with the law that a variable that is set is what
-- `get` gives. A value of a variable is seen as undefined or null, as a list, or as another one.
use microgateway.Common.{
  String, ◌≡◌, refl, ap, ◌∙◌, Bool, true, false, List, [], ◌∷◌, ◌++◌, All, All-append, loop,
  loop-append,
}

pub data View (V : Type 0) : Type 0 where
  nil : View V
  array : List V → View V
  single : V → View V

pub record Context (X V : Type 0) : Type 0 where
  pub view : V → View V
  pub of_list : List V → V
  pub get : X → String → V
  pub set : X → String → V → X
  pub del : X → String → X
  pub view-of_list : (l : List V) → view (of_list l) ≡ array l
  pub get-set : (x : X) (k : String) (v : V) → get (set x k v) k ≡ v

-- An action with one of the three properties, or with none.
pub data Action (V : Type 0) : Type 0 where
  sets : String → V → Action V
  adds : String → V → Action V
  clears : String → Action V
  unknown : Action V

pub data Ending : Type 0 where
  proceeded : Ending
  failed : Ending

module _ {X V : Type 0} (c : Context X V) where
  -- what `_.concat` adds for a value
  pub parts : V → List V
  parts v = elim (c.view v) [ nil ↦ v ∷ [] | array l ↦ l | single w ↦ v ∷ [] ]

  -- the list that `add` makes of the old value
  unfoldable pub added : V → V → V
  unfolding parts
  added old v = elim (c.view old) [
    | nil ↦ c.of_list (parts v)
    | array l ↦ c.of_list (l ++ parts v)
    | single w ↦ c.of_list (old ∷ parts v)
  ]

  pub act : X → Action V → X
  unfolding added
  act x (sets k v) = c.set x k v
  act x (adds k v) = c.set x k (added (c.get x k) v)
  act x (clears k) = c.del x k
  act x unknown = x

  -- `props.actions.some(…)`: the first action that is unknown ends the policy
  unfoldable pub set_variable : List (Action V) → X → Ending × X
  unfolding act
  set_variable [] x = (proceeded, x)
  set_variable (unknown ∷ actions) x = (failed, x)
  set_variable (sets k v ∷ actions) x = set_variable actions (act x (sets k v))
  set_variable (adds k v ∷ actions) x = set_variable actions (act x (adds k v))
  set_variable (clears k ∷ actions) x = set_variable actions (act x (clears k))

  abbrev pub is_known : Action V → Bool
  is_known unknown = false
  is_known (sets k v) = true
  is_known (adds k v) = true
  is_known (clears k) = true

  known-run :
      (actions : List (Action V)) (x : X)
      → All (λ a. is_known a ≡ true) actions
      → (set_variable actions x ≡ (proceeded, loop act x actions))
        × ((more : List (Action V))
            → set_variable (actions ++ unknown ∷ more) x ≡ (failed, loop act x actions))
  unfolding set_variable
  known-run [] x h = (refl, λ more. refl)
  known-run (unknown ∷ actions) x (h, hs) = cc
  known-run (sets k v ∷ actions) x (h, hs) = known-run actions (act x (sets k v)) hs
  known-run (adds k v ∷ actions) x (h, hs) = known-run actions (act x (adds k v)) hs
  known-run (clears k ∷ actions) x (h, hs) = known-run actions (act x (clears k)) hs

  added-last :
      (x : X) (k : String) (v : V) (old : List V)
      → c.get (act (act x (sets k (c.of_list old))) (adds k v)) k ≡ c.of_list (old ++ parts v)
  unfolding act added
  added-last x k v old = rw (c.get-set, c.get-set) (rw (c.view-of_list old, added) refl)

  -- Actions that are known are all done, in order, and the policy proceeds. Where an unknown one
  -- follows them it fails, with all of them done and nothing that comes later; and a list that ends in
  -- an added value holds that value last.
  set_variable_lem :
      (actions : List (Action V)) (x : X)
      → All (λ a. is_known a ≡ true) actions
      → (set_variable actions x ≡ (proceeded, loop act x actions))
        × ((more : List (Action V))
            → set_variable (actions ++ unknown ∷ more) x ≡ (failed, loop act x actions))
        × ((k : String) (v : V) (old : List V)
            → c.get (set_variable (actions ++ sets k (c.of_list old) ∷ adds k v ∷ []) x).1 k
              ≡ c.of_list (old ++ parts v))
  set_variable_lem actions x h =
      let (all_of, some_of) = known-run actions x h in
      (
        all_of,
        some_of,
        λ k v old.
            let two : List (Action V) = sets k (c.of_list old) ∷ adds k v ∷ [] in
            let run =
              known-run (actions ++ two) x
                (All-append (λ a. is_known a ≡ true) actions two h (refl, (refl, tt))) in
            ap (λ r. c.get r.1 k) run.0
            ∙ ap (λ y. c.get y k) (loop-append act x actions two)
            ∙ added-last (loop act x actions) k v old,
      )

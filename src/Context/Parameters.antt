-- ===== src/Context/Parameters.antt =====
-- `parseParameters` of lib/apim-context/index.js: the parameters of a request by their definitions.
--
-- A source gives a value to a name; that of the path is none where the expression does not match, and
-- that of the form where there is no body, and reading one of them throws.
use Prim.Native.Char.{code}
use Prim.Native.String as S
use microgateway.Common.{
  ℕ, String, ◌≡◌, refl, sym, ◌∙◌, false, Option, none, some, List, [], ◌∷◌, get, put, get-put,
  eq_refl, ◌++◌, split, All, nat_eq, ◌==◌, to_lower, if◌then◌else◌,
}
use mathlib.Core.Path.{subst}
use microgateway.Context.{
  Value, Values, nothing, text, several, no_values, and_values, Runtime, Elem, Promise, resolves,
  rejects, pends, crashes, convert_to_type,
}

pub record Param : Type 0 where
  pub name : String
  pub location : String
  pub elem_of : Elem

pub record Sources (V : Type 0) : Type 0 where
  pub query : String → Value V
  pub headers : String → Value V
  pub path : Option (String → Value V)
  pub form : Option (String → Value V)
  pub body : Value V

-- a name that begins with '+', without it
unfoldable pub plus_name : String → Option String
plus_name S.[] = none
plus_name (S.◌∷◌ c s) = if nat_eq (code c) b'+' then some s else none

module _ {V : Type 0} (rt : Runtime V) (depth : ℕ) (src : Sources V) where
  pub converted : Elem → Option (String → Value V) → String → Promise (Value V)
  converted e none name = rejects
  converted e (some look_up) name = convert_to_type rt depth e (look_up name)

  -- the switch over the location of one parameter
  unfoldable pub value_of : Param → Promise (Value V)
  unfolding converted
  value_of p =
      if p.location == "query"
      then convert_to_type rt depth p.elem_of (src.query p.name)
      else if p.location == "path"
      then converted p.elem_of src.path p.name
      else if p.location == "header"
      then convert_to_type rt depth p.elem_of (src.headers (to_lower p.name))
      else if p.location == "body"
      then resolves src.body
      else if p.location == "formData"
      then converted p.elem_of src.form p.name
      else convert_to_type rt depth p.elem_of nothing

  abbrev pub Found : Type 0
  Found = List (String × Value V)

  -- the outcome of two promises that are waited for together
  pub with_value : String → Promise (Value V) → Promise Found → Promise Found
  with_value name crashes rest = crashes
  with_value name p crashes = crashes
  with_value name rejects rest = rejects
  with_value name p rejects = rejects
  with_value name pends rest = pends
  with_value name p pends = pends
  with_value name (resolves v) (resolves found) = resolves ((name, v) ∷ found)

  unfoldable pub values_of : List Param → Promise Found
  unfolding with_value value_of
  values_of [] = resolves []
  values_of (p ∷ ps) = with_value p.name (value_of p) (values_of ps)

  pub texts_of : List String → Values V
  texts_of [] = no_values
  texts_of (s ∷ l) = and_values (text s) (texts_of l)

  -- The last value, whose name may begin with '+'. A value that is no text has no `split`: the
  -- exception leaves the promise pending.
  pub last_value : Found → String → Value V → Option String → Promise Found
  unfolding texts_of put
  last_value acc name v none = resolves (put acc name v)
  last_value acc name (text s) (some rest) =
      resolves (put acc rest (several (texts_of (split b'/' s))))
  last_value acc name v (some rest) = pends

  unfoldable pub object_of : Found → Found → Promise Found
  unfolding last_value plus_name put
  object_of acc [] = resolves acc
  object_of acc ((name, v) ∷ []) = last_value acc name v (plus_name name)
  object_of acc ((name, v) ∷ p ∷ ps) = object_of (put acc name v) (p ∷ ps)

  pub on_values : Promise Found → Promise Found
  unfolding object_of
  on_values (resolves found) = object_of [] found
  on_values rejects = rejects
  on_values pends = pends
  on_values crashes = crashes

  -- `parseParameters`
  unfoldable pub parse_parameters : List Param → Promise Found
  unfolding on_values values_of
  parse_parameters ps = on_values (values_of ps)

  abbrev puts : Found → Found → Found
  puts acc [] = acc
  puts acc ((name, v) ∷ found) = puts (put acc name v) found

  object_of-puts :
      (acc found : Found)
      → All (λ q. plus_name q.0 ≡ none) found
      → object_of acc found ≡ resolves (puts acc found)
  unfolding object_of last_value
  object_of-puts acc [] h = refl
  object_of-puts acc ((name, v) ∷ []) (h, hs) = rw h refl
  object_of-puts acc ((name, v) ∷ p ∷ ps) (h, hs) = object_of-puts (put acc name v) (p ∷ ps) hs

  puts-get :
      (acc found : Found) (name : String) (v : Value V)
      → All (λ q. (q.0 == name) ≡ false) found
      → get acc name ≡ some v
      → get (puts acc found) name ≡ some v
  puts-get acc [] name v h g = g
  puts-get acc ((other, w) ∷ found) name v (h, hs) g =
      puts-get (put acc other w) found name v hs (rw (get-put, h) g)

  -- How the values come from the parameters.
  with_value-resolves :
      (name : String) (p : Promise (Value V)) (rest : Promise Found) (found : Found)
      → with_value name p rest ≡ resolves found
      → (v : Value V) × (more : Found) × (p ≡ resolves v)
        × (rest ≡ resolves more)
        × (found ≡ (name, v) ∷ more)
  unfolding with_value
  with_value-resolves name crashes rest found h = cc
  with_value-resolves name rejects (resolves more) found h = cc
  with_value-resolves name rejects rejects found h = cc
  with_value-resolves name rejects pends found h = cc
  with_value-resolves name rejects crashes found h = cc
  with_value-resolves name pends (resolves more) found h = cc
  with_value-resolves name pends rejects found h = cc
  with_value-resolves name pends pends found h = cc
  with_value-resolves name pends crashes found h = cc
  with_value-resolves name (resolves v) rejects found h = cc
  with_value-resolves name (resolves v) pends found h = cc
  with_value-resolves name (resolves v) crashes found h = cc
  with_value-resolves name (resolves v) (resolves more) found h = (v, more, refl, refl, cc h)

  values_of-names :
      (P : String → Type 0) (ps : List Param) (found : Found)
      → values_of ps ≡ resolves found
      → All (λ p. P p.name) ps
      → All (λ q. P q.0) found
  unfolding values_of
  values_of-names P [] found h a =
      let none_left : [] ≡ found = cc h in subst (λ l. All (λ q. P q.0) l) none_left tt
  values_of-names P (p ∷ ps) found h (a, as_) =
      let (v, more, is, rest, whole) =
        with_value-resolves p.name (value_of p) (values_of ps) found h in
      subst (λ l. All (λ q. P q.0) l) (sym whole) (a, values_of-names P ps more rest as_)

  values-get :
      (before : List Param) (p : Param) (after : List Param) (acc found : Found)
      → values_of (before ++ p ∷ after) ≡ resolves found
      → All (λ q. (q.name == p.name) ≡ false) after
      → (v : Value V) × (value_of p ≡ resolves v) × (get (puts acc found) p.name ≡ some v)
  unfolding values_of
  values-get [] p after acc found h other =
      let (v, more, is, rest, whole) =
        with_value-resolves p.name (value_of p) (values_of after) found h in
      let names = values_of-names (λ n. (n == p.name) ≡ false) after more rest other in
      let here : get (put acc p.name v) p.name ≡ some v = rw (get-put, eq_refl) refl in
      let got = puts-get (put acc p.name v) more p.name v names here in
      (v, is, subst (λ (l : Found). get (puts acc l) p.name ≡ some v) (sym whole) got)
  values-get (q ∷ before) p after acc found h other =
      let (w, more, is, rest, whole) =
        with_value-resolves q.name (value_of q) (values_of (before ++ p ∷ after)) found h in
      subst
        (λ (l : Found).
          (v : Value V) × (value_of p ≡ resolves v) × (get (puts acc l) p.name ≡ some v))
        (sym whole) (values-get before p after (put acc q.name w) more rest other)

  on_values-resolves :
      (q : Promise Found) (found : Found)
      → on_values q ≡ resolves found
      → (all : Found) × (q ≡ resolves all) × (object_of [] all ≡ resolves found)
  unfolding on_values
  on_values-resolves (resolves all) found h = (all, refl, h)
  on_values-resolves rejects found h = cc
  on_values-resolves pends found h = cc
  on_values-resolves crashes found h = cc

  -- Where the parameters are parsed and no name begins with '+', every parameter has been converted, and
  -- its name has its value, unless a later parameter has the same name.
  pub parse_parameters-get :
      (before : List Param) (p : Param) (after : List Param) (found : Found)
      → All (λ q. plus_name q.name ≡ none) (before ++ p ∷ after)
      → All (λ q. (q.name == p.name) ≡ false) after
      → parse_parameters (before ++ p ∷ after) ≡ resolves found
      → (v : Value V) × (value_of p ≡ resolves v) × (get found p.name ≡ some v)
  unfolding parse_parameters
  parse_parameters-get before p after found plain other h =
      let (all, e, is) = on_values-resolves (values_of (before ++ p ∷ after)) found h in
      let names = values_of-names (λ n. plus_name n ≡ none) (before ++ p ∷ after) all e plain in
      let whole : puts [] all ≡ found = cc (sym (object_of-puts [] all names) ∙ is) in
      subst (λ (l : Found). (v : Value V) × (value_of p ≡ resolves v) × (get l p.name ≡ some v))
        whole (values-get before p after [] all e other)

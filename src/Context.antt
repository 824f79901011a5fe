-- ===== src/Context.antt =====
-- lib/apim-context/index.js: what the gateway reads of a request before its flow runs. The functions
-- of the runtime and of the packages that it calls are the record `Runtime`; a value that is no text,
-- truth value or list is of the type `V`.
pub mod PathRegex
pub mod Conversion
pub mod Parameters
pub mod Body
pub mod Postflow
pub mod Tests
use microgateway.Common.{
  ℕ, zero, suc, String, Bool, true, false, not, ◌&&◌, ◌||◌, Option, none, some, List, [], ◌∷◌,
  truthy, same, get, put, map, split, ◌==◌, to_lower, contains, if◌then◌else◌,
}

mutual
  pub data Value (V : Type 0) : Type 0 where
    nothing : Value V
    text : String → Value V
    truth : Bool → Value V
    several : Values V → Value V
    foreign : V → Value V

  pub data Values (V : Type 0) : Type 0 where
    no_values : Values V
    and_values : Value V → Values V → Values V

-- What the package csv-parse does with a text: it calls back with an error or with the records, or
-- it throws.
pub data Csv : Type 0 where
  raises : Csv
  fails : Csv
  records : List (List String) → Csv

pub record Runtime (V : Type 0) : Type 0 where
  pub number : Value V → V
  pub date : Value V → V
  pub buffer : Value V → Option V
  pub json : Value V → Option (Value V)
  pub to_string : Value V → String
  pub csv : (delimiter : String) → Value V → Csv

-- a parameter's definition: `items` with its `type`
pub record Elem : Type 0 where
  pub type : Option String
  pub collection_format : Option String
  pub items : Option (Option String)

-- How a promise ends, or that it does not; or an exception outside of it.
pub data Promise (T : Type 0) : Type 0 where
  resolves : T → Promise T
  rejects : Promise T
  pends : Promise T
  crashes : Promise T

pub data Target : Type 0 where
  an_array : Target
  a_buffer : Target
  a_boolean : Target
  a_date : Target
  a_number : Target
  an_object : Target
  a_string : Target
  a_file : Target
  as_is : Target

-- the cases of the switch
unfoldable pub target_of : Option String → Target
unfolding contains
target_of none = as_is
target_of (some t) =
    if t == "array"
    then an_array
    else if contains ("binary" ∷ "byte" ∷ []) t
    then a_buffer
    else if t == "boolean"
    then a_boolean
    else if contains ("date" ∷ "dateTime" ∷ []) t
    then a_date
    else if contains ("double" ∷ "float" ∷ "integer" ∷ "long" ∷ "number" ∷ []) t
    then a_number
    else if t == "object"
    then an_object
    else if contains ("password" ∷ "string" ∷ []) t
    then a_string
    else if t == "file"
    then a_file
    else as_is

unfoldable pub delimiter_of : Option String → String
delimiter_of f =
    if same f (some "ssv")
    then " "
    else if same f (some "tsv")
    then "\t"
    else if same f (some "pipes")
    then "|"
    else ","

-- the definition that the elements of an array are converted by
unfoldable pub for_items : Elem → Elem
for_items e = elim e.items [ none ↦ e | some t ↦ record e { type = t } ]

module _ {V : Type 0} where
  pub and_then : Value V → Promise (Values V) → Promise (Values V)
  and_then v (resolves vs) = resolves (and_values v vs)
  and_then v rejects = rejects
  and_then v pends = pends
  and_then v crashes = crashes

  -- `Promise.all`, whose rejection nobody handles
  unfoldable pub all_of : List (Promise (Value V)) → Promise (Values V)
  unfolding and_then
  all_of [] = resolves no_values
  all_of (resolves v ∷ ps) = and_then v (all_of ps)
  all_of (rejects ∷ ps) = elim (all_of ps) [ crashes ↦ crashes | _ ↦ pends ]
  all_of (pends ∷ ps) = elim (all_of ps) [ crashes ↦ crashes | _ ↦ pends ]
  all_of (crashes ∷ ps) = crashes

  unfoldable pub listed : Promise (Values V) → Promise (Value V)
  listed (resolves vs) = resolves (several vs)
  listed rejects = pends
  listed pends = pends
  listed crashes = crashes

  -- The callback of the parser, for a conversion of the elements: without a record the code reads a
  -- property of `undefined`.
  unfoldable pub on_csv : (String → Promise (Value V)) → Csv → Promise (Value V)
  unfolding all_of listed
  on_csv convert raises = rejects
  on_csv convert fails = resolves nothing
  on_csv convert (records []) = crashes
  on_csv convert (records (r ∷ rs)) = listed (all_of (map convert r))

  unfoldable pub boolean_of : Value V → Promise (Value V)
  boolean_of (text s) =
      if to_lower s == "false"
      then resolves (truth false)
      else if to_lower s == "true"
      then resolves (truth true)
      else resolves nothing
  boolean_of nothing = rejects
  boolean_of (truth b) = rejects
  boolean_of (several vs) = rejects
  boolean_of (foreign v) = rejects

  unfoldable pub string_of : Runtime V → Value V → String
  string_of rt (text s) = s
  string_of rt v = rt.to_string v

  unfoldable pub or_nothing : Option (Value V) → Value V
  or_nothing none = nothing
  or_nothing (some v) = v

  unfoldable pub buffer_of : Option V → Promise (Value V)
  buffer_of none = rejects
  buffer_of (some b) = resolves (foreign b)

  -- the branches of the switch, for a value that is not missing
  unfoldable pub by_target :
      Runtime V → (String → Promise (Value V)) → Elem → Value V → Target → Promise (Value V)
  unfolding on_csv boolean_of string_of or_nothing buffer_of delimiter_of
  by_target rt convert e v an_array =
      if same e.collection_format (some "multi") then resolves v else elim e.items [
        | none ↦ rejects
        | some t ↦ on_csv convert (rt.csv (delimiter_of e.collection_format) v)
      ]
  by_target rt convert e v a_buffer = buffer_of (rt.buffer v)
  by_target rt convert e v a_boolean = boolean_of v
  by_target rt convert e v a_date = resolves (foreign (rt.date v))
  by_target rt convert e v a_number = resolves (foreign (rt.number v))
  by_target rt convert e v an_object = resolves (or_nothing (rt.json v))
  by_target rt convert e v a_string = resolves (text (string_of rt v))
  by_target rt convert e v a_file = resolves nothing
  by_target rt convert e v as_is = resolves v

  -- `convertToType`, to a depth of arrays: beyond it the promise is still pending.
  unfoldable pub convert_to_type : Runtime V → ℕ → Elem → Value V → Promise (Value V)
  unfolding by_target target_of for_items
  convert_to_type rt zero e v = pends
  convert_to_type rt (suc depth) e nothing = resolves nothing
  convert_to_type rt (suc depth) e (text s) =
      by_target rt (λ one. convert_to_type rt depth (for_items e) (text one)) e (text s)
        (target_of e.type)
  convert_to_type rt (suc depth) e (truth b) =
      by_target rt (λ one. convert_to_type rt depth (for_items e) (text one)) e (truth b)
        (target_of e.type)
  convert_to_type rt (suc depth) e (several vs) =
      by_target rt (λ one. convert_to_type rt depth (for_items e) (text one)) e (several vs)
        (target_of e.type)
  convert_to_type rt (suc depth) e (foreign v) =
      by_target rt (λ one. convert_to_type rt depth (for_items e) (text one)) e (foreign v)
        (target_of e.type)

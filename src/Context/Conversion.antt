-- ===== src/Context/Conversion.antt =====
-- The conversion of parameters to their types: where it ends, and where it does not.
pub mod Nested
use microgateway.Common.{zero, ◌≡◌, ◌≢◌, ap, ◌∙◌, false, Option, none, some, [], same, ◌⊎◌}
use microgateway.Context.{
  Value, nothing, text, Csv, records, Runtime, Elem, Promise, resolves, rejects, crashes, pends,
  Target, an_array, a_buffer, a_boolean, target_of, delimiter_of, raises, fails,
}

module _ {V : Type 0} (rt : Runtime V) where
  -- The parser is called for the value, and answers so.
  abbrev Parsed : Elem → Value V → Csv → Type 0
  Parsed e v c =
      (same e.collection_format (some "multi") ≡ false)
      × (e.items ≢ none)
      × (rt.csv (delimiter_of e.collection_format) v ≡ c)

  abbrev IsNoText : Value V → Type 0
  IsNoText (text s) = ⊥
  IsNoText v = Unit

  -- what a conversion to a type is refused for
  abbrev RefusedBy : Elem → Value V → Target → Type 0
  RefusedBy e v an_array =
      ((same e.collection_format (some "multi") ≡ false) × (e.items ≡ none)) ⊎ Parsed e v raises
  RefusedBy e v a_buffer = rt.buffer v ≡ none
  RefusedBy e v a_boolean = IsNoText v
  RefusedBy e v _ = ⊥

  -- the value is read as an array, and the parser fails on it
  abbrev UnreadBy : Elem → Value V → Target → Type 0
  UnreadBy e v an_array = Parsed e v fails
  UnreadBy e v _ = ⊥

  -- the value is read as an array, and the parser finds no record in it
  abbrev EmptyBy : Elem → Value V → Target → Type 0
  EmptyBy e v an_array = Parsed e v (records [])
  EmptyBy e v _ = ⊥

  abbrev pub Refused : Elem → Value V → Type 0
  Refused e nothing = ⊥
  Refused e v = RefusedBy e v (target_of e.type)

  abbrev pub Unread : Elem → Value V → Type 0
  Unread e nothing = ⊥
  Unread e v = UnreadBy e v (target_of e.type)

  abbrev pub Empty : Elem → Value V → Type 0
  Empty e nothing = ⊥
  Empty e v = EmptyBy e v (target_of e.type)

  -- How a conversion ends: in a rejection, in nothing, in an exception, or in some value.
  abbrev pub Ends : (refused unread empty : Type 0) → Promise (Value V) → Type 0
  Ends refused unread empty r =
      (refused × (r ≡ rejects))
      ⊎ ((unread × (r ≡ resolves nothing))
          ⊎ ((empty × (r ≡ crashes))
              ⊎ ((¬ refused) × (¬ unread) × (¬ empty) × ((w : Value V) × (r ≡ resolves w)))))

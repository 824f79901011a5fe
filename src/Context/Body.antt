-- ===== src/Context/Body.antt =====
-- `parseRequestBody` and `copyAPIProperties` of lib/apim-context/index.js. `is` is the package type-is,
-- which tells whether a content type is one of some patterns, and `charset` the one of the request; a
-- body is of the type `B`, and `json`, `decode` and `form` are none where the function throws.
use microgateway.Common.{
  arith, ◌≢◌, String, ◌≡◌, refl, ap, ◌∙◌, Bool, true, false, Option, none, some, List, [], ◌∷◌,
  ◌++◌, truthy, to_lower, ◌==◌, Bool-cases, eq_iff, Option-cases, inl, inr, ◌⊎◌, All, if◌then◌else◌,
}
use microgateway.OAuth.Exchange.{value_or_empty}

pub record Parsers (B V : Type 0) : Type 0 where
  pub is : String → List String → Bool
  pub charset : Option String
  pub json : B → Option V
  pub decode : String → B → Option V
  pub form : B → Option V
  pub buffer : B → V
  pub is_empty : B → Bool

-- What becomes of `request.body`: it is left alone, or set read-only; or an error with status 400.
pub data Parsed (V : Type 0) : Type 0 where
  untouched : Parsed V
  read_only : Option V → Parsed V
  bad_request : Parsed V

pub charset_or_utf8 : Option String → String
charset_or_utf8 o = if truthy o then to_lower (value_or_empty o) else "utf-8"

module _ {B V : Type 0} (x : Parsers B V) where
  -- the body as one content type; `none` where its parser throws
  pub parse_as : B → String → Option V
  unfolding charset_or_utf8
  parse_as body type =
      if x.is type ("*/json" ∷ [])
      then x.json body
      else if x.is type ("text/*" ∷ "*/xml" ∷ "+xml" ∷ [])
      then x.decode (charset_or_utf8 x.charset) body
      else if x.is type ("*/x-www-form-urlencoded" ∷ [])
      then x.form body
      else some (x.buffer body)

  -- the loop of `some`
  pub parse_first : B → List String → Option V
  unfolding parse_as
  parse_first body [] = none
  parse_first body (type ∷ types) =
      let rest = parse_first body types in
      elim (parse_as body type) [ some v ↦ some v | none ↦ rest ]

  pub target_types : Option String → List String → List String
  target_types content_type consumes =
      if truthy content_type then value_or_empty content_type ∷ [] else consumes

  pub checked : Option V → Parsed V
  checked none = bad_request
  checked (some v) = read_only (some v)

  pub parse_body : Option B → List String → Parsed V
  unfolding parse_first checked
  parse_body none types = read_only none
  parse_body (some body) [] = read_only (some (x.buffer body))
  parse_body (some body) (type ∷ types) =
      if x.is_empty body
      then read_only (some (x.buffer body))
      else checked (parse_first body (type ∷ types))

  -- `parseRequestBody`
  unfoldable pub parse_request_body :
      (has_body : Bool) → Option String → (consumes : List String) → Option B → Parsed V
  unfolding target_types parse_body
  parse_request_body has_body content_type consumes body =
      if has_body then parse_body body (target_types content_type consumes) else untouched

-- How a body of a type is read, and what that gives: none is a parser that throws.
module _ {B V : Type 0} (x : Parsers B V) where
  pub data ReadsAs (body : B) (type : String) : Option V → Type 0 where
    as_json :
        {o : Option V} → x.is type ("*/json" ∷ []) ≡ true → x.json body ≡ o → ReadsAs body type o
    as_utf8 :
        {o : Option V}
        → x.is type ("*/json" ∷ []) ≡ false
        → x.is type ("text/*" ∷ "*/xml" ∷ "+xml" ∷ []) ≡ true
        → truthy x.charset ≡ false
        → x.decode "utf-8" body ≡ o
        → ReadsAs body type o
    as_charset :
        {o : Option V}
        → (c : String) → x.is type ("*/json" ∷ []) ≡ false
        → x.is type ("text/*" ∷ "*/xml" ∷ "+xml" ∷ []) ≡ true
        → x.charset ≡ some c
        → (c == "") ≡ false
        → x.decode (to_lower c) body ≡ o
        → ReadsAs body type o
    as_form :
        {o : Option V}
        → x.is type ("*/json" ∷ []) ≡ false
        → x.is type ("text/*" ∷ "*/xml" ∷ "+xml" ∷ []) ≡ false
        → x.is type ("*/x-www-form-urlencoded" ∷ []) ≡ true
        → x.form body ≡ o
        → ReadsAs body type o
    as_buffer :
        {o : Option V}
        → x.is type ("*/json" ∷ []) ≡ false
        → x.is type ("text/*" ∷ "*/xml" ∷ "+xml" ∷ []) ≡ false
        → x.is type ("*/x-www-form-urlencoded" ∷ []) ≡ false
        → some (x.buffer body) ≡ o
        → ReadsAs body type o

  decode-ReadsAs :
      (body : B) (type : String) (charset : Option String) (o : Option V)
      → x.charset ≡ charset
      → x.is type ("*/json" ∷ []) ≡ false
      → x.is type ("text/*" ∷ "*/xml" ∷ "+xml" ∷ []) ≡ true
      → x.decode (charset_or_utf8 charset) body ≡ o
      → ReadsAs body type o
  unfolding charset_or_utf8
  decode-ReadsAs body type none o c n t h = as_utf8 n t (rw c refl) h
  decode-ReadsAs body type (some cs) o c n t h = elim (Bool-cases (cs == "")) [
    | inl e ↦ as_utf8 n t (rw (c, e) refl) (rw (truthy, e) at h)
    | inr e ↦ as_charset cs n t c e (rw (truthy, e) at h)
  ]

  parse_as-ReadsAs :
      (body : B) (type : String) (o : Option V) → parse_as x body type ≡ o → ReadsAs body type o
  unfolding parse_as
  parse_as-ReadsAs body type o h = elim (Bool-cases (x.is type ("*/json" ∷ []))) [
    | inl j ↦ as_json j (rw (parse_as, j) at h)
    | inr j ↦ elim (Bool-cases (x.is type ("text/*" ∷ "*/xml" ∷ "+xml" ∷ []))) [
      | inl t ↦ decode-ReadsAs body type x.charset o refl j t (rw (parse_as, j, t) at h)
      | inr t ↦ elim (Bool-cases (x.is type ("*/x-www-form-urlencoded" ∷ []))) [
        | inl f ↦ as_form j t f (rw (parse_as, j, t, f) at h)
        | inr f ↦ as_buffer j t f (rw (parse_as, j, t, f) at h)
      ]
    ]
  ]

  -- No content type fits the body.
  abbrev pub Fails : B → List String → Type 0
  Fails body types = All (λ type. ReadsAs body type none) types

  parse_first-Fails :
      (body : B) (types : List String) → parse_first x body types ≡ none → Fails body types
  unfolding parse_first
  parse_first-Fails body [] h = tt
  parse_first-Fails body (type ∷ types) h = elim (Option-cases (parse_as x body type)) [
    | inl e ↦
        (parse_as-ReadsAs body type none e, parse_first-Fails body types (rw (e, parse_first) at h))
    | inr (v, e) ↦ cc (rw (e, parse_first) at h)
  ]

  -- The types, or the first of them, that the body was read by, after others that do not fit.
  abbrev pub FirstOf : B → List String → V → Type 0
  FirstOf body types v =
      (before : List String) × (type : String) × (after : List String) × (types
        ≡ before ++ type ∷ after)
      × Fails body before
      × ReadsAs body type (some v)

  parse_first-FirstOf :
      (body : B) (types : List String) (v : V)
      → parse_first x body types ≡ some v
      → FirstOf body types v
  unfolding parse_first
  parse_first-FirstOf body [] v h = cc
  parse_first-FirstOf body (type ∷ types) v h = elim (Option-cases (parse_as x body type)) [
    | inr (w, e) ↦
        let same : w ≡ v = cc (rw (e, parse_first) at h) in
        ([], type, types, refl, tt, parse_as-ReadsAs body type (some v) (e ∙ ap some same))
    | inl e ↦
        let (before, one, after, split, fail, is) =
          parse_first-FirstOf body types v (rw (e, parse_first) at h) in
        (
          type ∷ before,
          one,
          after,
          ap (λ l. type ∷ l) split,
          (parse_as-ReadsAs body type none e, fail),
          is,
        )
  ]

  -- What the middleware makes of a body that is not empty, by the types that it may have: an error with
  -- status 400 where no type fits it; a buffer where there are no types; and otherwise what the first
  -- type that fits gives, read-only.
  abbrev pub Read : B → List String → Parsed V → Type 0
  Read body types r =
      ((r ≡ bad_request) × (types ≢ []) × Fails body types)
      ⊎ (((types ≡ []) × (r ≡ read_only (some (x.buffer body))))
          ⊎ ((v : V) × (r ≡ read_only (some v)) × FirstOf body types v))

  -- by the content type of the request, where it has one, and else by what the API consumes
  abbrev pub ReadBy : B → Option String → List String → Parsed V → Type 0
  ReadBy body none consumes r = Read body consumes r
  ReadBy body (some type) consumes r =
      ((type ≡ "") × Read body consumes r) ⊎ ((type ≢ "") × Read body (type ∷ []) r)

  parse_body-Read :
      (body : B) (types : List String)
      → x.is_empty body ≡ false
      → Read body types (parse_body x (some body) types)
  unfolding parse_body checked
  parse_body-Read body [] h = inr (inl (refl, refl))
  parse_body-Read body (type ∷ types) h = elim (Option-cases (parse_first x body (type ∷ types))) [
    | inl e ↦
        rw (h, parse_body, e)
          (inl (refl, λ k. ground arith, parse_first-Fails body (type ∷ types) e))
    | inr (v, e) ↦
        rw (h, parse_body, e) (inr (inr (v, refl, parse_first-FirstOf body (type ∷ types) v e)))
  ]

  -- A body that is not empty is read by the content type of the request, or, where it has none, by
  -- the first of the types that the API consumes that fits: as JSON, as text in the charset of the
  -- request (UTF-8 without one), as a form, or else as a buffer. Without any type it stays a buffer,
  -- and where none fits it is an error with status 400.
  pub parse_request_body-ReadBy :
      (content_type : Option String) (consumes : List String) (body : B)
      → x.is_empty body ≡ false
      → ReadBy body content_type consumes
          (parse_request_body x true content_type consumes (some body))
  unfolding parse_request_body target_types
  parse_request_body-ReadBy none consumes body h = parse_body-Read body consumes h
  parse_request_body-ReadBy (some type) consumes body h = elim (Bool-cases (type == "")) [
    | inl e ↦ inl ((eq_iff type "").0 e, rw (truthy, e) (parse_body-Read body consumes h))
    | inr e ↦
        inr (λ k. cc ((eq_iff type "").1 k), rw (truthy, e) (parse_body-Read body (type ∷ []) h))
  ]

-- `copyAPIProperties`: `get` finds a variable that counts as true, and `set` sets one.
module _ {C P : Type 0} (get : C → String → Option P) (set : C → String → P → C) where
  pub copy_all : List (String × P) → C → C
  copy_all [] c = c
  copy_all ((name, p) ∷ props) c = elim (get c name) [
    | some q ↦ copy_all props c
    | none ↦ copy_all props (set c name p)
  ]

  unfoldable pub copy_api_properties : Option (List (String × P)) → C → C
  unfolding copy_all
  copy_api_properties none c = c
  copy_api_properties (some props) c = copy_all props c

  copy_all-keeps :
      (props : List (String × P)) (c : C) (name : String) (p : P)
      → ((d : C) (other : String) (q : P)
          → get d other ≡ none
          → get d name ≡ some p
          → get (set d other q) name ≡ some p)
      → get c name ≡ some p
      → get (copy_all props c) name ≡ some p
  unfolding copy_all
  copy_all-keeps [] c name p law h = h
  copy_all-keeps ((other, q) ∷ props) c name p law h = elim (Option-cases (get c other)) [
    | inl e ↦ rw (e, copy_all) (copy_all-keeps props (set c other q) name p law (law c other q e h))
    | inr (r, e) ↦ rw (e, copy_all) (copy_all-keeps props c name p law h)
  ]

-- ===== src/Context/Postflow.antt =====
-- lib/postflow/index.js: the response that `message` of the context becomes. `stringify` is that of qs,
-- `json` that of JSON, none where they throw, and `byte_length` the length of a text in UTF-8. A value of
-- the type `V` is one that is neither a text nor a buffer, and counts as true.
use mathlib.Core.Path.{subst}
use microgateway.Common.{
  ℕ, nat_eq, String, ◌≡◌, ◌∙◌, false, not, Option, none, some, List, [], ◌∷◌, get, put, get-put,
  Bool-cases, eq_iff, refl, Option-cases, inl, inr, ◌==◌, ◌&&◌, to_lower, to_text, if◌then◌else◌,
}

pub data Body (V : Type 0) : Type 0 where
  no_body : Body V
  text : String → Body V
  buffer : (length : ℕ) → (content : V) → Body V
  value : V → Body V

pub record Status : Type 0 where
  pub code : Option ℕ
  pub reason : Option String

pub record Message (V : Type 0) : Type 0 where
  pub status : Option Status
  pub headers : List (String × String)
  pub body : Body V

pub record Encoders (V : Type 0) : Type 0 where
  pub stringify : V → Option String
  pub json : V → Option String
  pub byte_length : String → ℕ

-- `res`: its headers under lower case names, and what is written
pub record Response (V : Type 0) : Type 0 where
  pub status_code : ℕ
  pub status_message : Option String
  pub headers : List (String × String)
  pub written : Body V

-- the first value of a header that is not empty
unfoldable pub find_header : String → List (String × String) → String
find_header target [] = ""
find_header target ((name, v) ∷ headers) =
    let rest = find_header target headers in
    if to_lower name == target && not (v == "") then v else rest

pub set_all : List (String × String) → List (String × String) → List (String × String)
unfolding put
set_all set [] = set
set_all set ((name, v) ∷ headers) = set_all (put set (to_lower name) v) headers

pub status_code_of : Option Status → ℕ
status_code_of none = 200
status_code_of (some s) = elim s.code [ none ↦ 200 | some n ↦ if nat_eq n 0 then 200 else n ]

pub reason_of : Option Status → Option String
reason_of none = none
reason_of (some s) = s.reason

module _ {V : Type 0} (x : Encoders V) where
  -- the body as it is written; none where an encoder throws
  pub encoded : (content_type : String) → Body V → Option (Body V)
  encoded content_type no_body = some no_body
  encoded content_type (text s) = some (text s)
  encoded content_type (buffer n b) = some (buffer n b)
  encoded content_type (value v) =
      elim (if content_type == "application/x-www-form-urlencoded"
        then x.stringify v
        else x.json v) [ none ↦ none | some s ↦ some (text s) ]

  -- the number of bytes that are written
  pub length_of : Body V → ℕ
  length_of no_body = 0
  length_of (text s) = if s == "" then 0 else x.byte_length s
  length_of (buffer n b) = n
  length_of (value v) = 0

  pub with_length :
      (transfer_encoding : String) → Body V → List (String × String) → List (String × String)
  unfolding length_of put
  with_length transfer_encoding body headers =
      if transfer_encoding == "chunked"
      then headers
      else put headers "content-length" (to_text (length_of body))

  -- `postflow`; none is `next(error)`
  unfoldable pub postflow : Message V → Option (Response V)
  unfolding encoded with_length find_header set_all status_code_of reason_of put
  postflow m = elim (encoded (find_header "content-type" m.headers) m.body) [
    | none ↦ none
    | some body ↦ some (record {
      status_code = status_code_of m.status;
      status_message = reason_of m.status;
      headers =
          put (with_length (find_header "transfer-encoding" m.headers) body (set_all [] m.headers))
            "x-powered-by" "IBM API Connect MicroGateway";
      written = body;
    })
  ]

  abbrev HasLength : Option (Response V) → Type 0
  HasLength none = Unit
  HasLength (some r) = get r.headers "content-length" ≡ some (to_text (length_of r.written))

  length_header :
      (transfer_encoding : String) (body : Body V) (headers : List (String × String))
      (powered : String)
      → (transfer_encoding == "chunked") ≡ false
      → get
          (put (with_length transfer_encoding body headers) "x-powered-by" powered)
          "content-length"
        ≡ some (to_text (length_of body))
  unfolding with_length
  length_header transfer_encoding body headers powered h =
      get-put (with_length transfer_encoding body headers) "x-powered-by" "content-length" powered
      ∙ rw (with_length, h)
          (get-put headers "content-length" "content-length" (to_text (length_of body)))

  postflow-length_of :
      (m : Message V) (r : Response V)
      → (find_header "transfer-encoding" m.headers == "chunked") ≡ false
      → postflow m ≡ some r
      → get r.headers "content-length" ≡ some (to_text (length_of r.written))
  unfolding postflow with_length
  postflow-length_of m r h e =
      elim (Option-cases (encoded (find_header "content-type" m.headers) m.body)) [
        | inl k ↦ cc (rw (k, postflow) at e)
        | inr (body, k) ↦
            let is = rw (k, postflow) at e in
            subst (λ (o : Option (Response V)). HasLength o) is
              (length_header (find_header "transfer-encoding" m.headers) body (set_all [] m.headers)
                "IBM API Connect MicroGateway" h)
      ]

  abbrev IsEncoded : String → Body V → Option (Response V) → Type 0
  IsEncoded type body none = Unit
  IsEncoded type body (some r) = encoded type body ≡ some r.written

  postflow-encoded :
      (m : Message V) (r : Response V)
      → postflow m ≡ some r
      → encoded (find_header "content-type" m.headers) m.body ≡ some r.written
  unfolding postflow
  postflow-encoded m r e =
      let type = find_header "content-type" m.headers in
      elim (Option-cases (encoded type m.body)) [
        | inl k ↦ cc (rw (k, postflow) at e)
        | inr (body, k) ↦
            subst (λ (o : Option (Response V)). IsEncoded type m.body o) (rw (k, postflow) at e) k
      ]

  -- What is written for a body, with which length.
  abbrev pub Sized : (content_type : String) → (body written : Body V) → Option String → Type 0
  Sized type no_body written length = (written ≡ no_body) × (length ≡ some (to_text 0))
  Sized type (text s) written length =
      (written ≡ text s) × (length ≡ some (to_text (x.byte_length s)))
  Sized type (buffer n b) written length = (written ≡ buffer n b) × (length ≡ some (to_text n))
  Sized type (value v) written length =
      (s : String) × ((if type == "application/x-www-form-urlencoded"
          then x.stringify v
          else x.json v)
        ≡ some s)
      × (written ≡ text s)
      × (length ≡ some (to_text (x.byte_length s)))

  length_of-text : (s : String) → x.byte_length "" ≡ 0 → length_of (text s) ≡ x.byte_length s
  unfolding length_of
  length_of-text s h = elim (Bool-cases (s == "")) [
    | inl e ↦ rw (length_of, e, (eq_iff s "").0 e, h) refl
    | inr e ↦ rw (length_of, e) refl
  ]

  encoded-Sized :
      (type : String) (body written : Body V) (length : Option String)
      → x.byte_length "" ≡ 0
      → encoded type body ≡ some written
      → length ≡ some (to_text (length_of written))
      → Sized type body written length
  unfolding encoded length_of
  encoded-Sized type no_body written length h e l = (cc e, cc (e, l))
  encoded-Sized type (text s) written length h e l =
      let w : written ≡ text s = cc e in (w, rw (w, length_of-text s h) at l)
  encoded-Sized type (buffer n b) written length h e l =
      let w : written ≡ buffer n b = cc e in (w, rw w at l)
  encoded-Sized type (value v) written length h e l =
      elim (Option-cases
        (if type == "application/x-www-form-urlencoded" then x.stringify v else x.json v)) [
          | inl k ↦ cc (rw (encoded, k) at e)
          | inr (s, k) ↦
              let w : written ≡ text s = cc (rw (encoded, k) at e) in
              (s, k, w, rw (w, length_of-text s h) at l)
        ]

  -- A response that is not chunked has as its Content-Length the number of bytes that are written,
  -- whatever the headers of the message say: that of a text in UTF-8, or of the text that an object
  -- is encoded to, as a form or as JSON by the content type; that of a buffer; or 0 without a body.
  -- The empty text has no bytes.
  pub postflow-Sized :
      (m : Message V) (r : Response V)
      → x.byte_length "" ≡ 0
      → (find_header "transfer-encoding" m.headers == "chunked") ≡ false
      → postflow m ≡ some r
      → Sized
          (find_header "content-type" m.headers)
          m.body
          r.written
          (get r.headers "content-length")
  postflow-Sized m r h c e =
      encoded-Sized (find_header "content-type" m.headers) m.body r.written
        (get r.headers "content-length") h (postflow-encoded m r e) (postflow-length_of m r c e)

-- ===== src/Context/Tests.antt =====
-- A request with a path, parameters and a body, and the theorems on them.
use microgateway.Common.{
  to_text, false, ℕ, String, ◌≡◌, refl, arith, true, none, some, [], ◌∷◌, ◌++◌, get, put, contains,
  split, split_from, to_lower, ◌==◌, if◌then◌else◌, All, ◌&&◌,
}
use microgateway.Context.{
  Value, nothing, text, truth, several, foreign, no_values, and_values, Runtime, Elem, resolves,
  pends, crashes, raises, records, delimiter_of, convert_to_type,
}
use microgateway.Context.Parameters.{
  Param, Sources, plus_name, value_of, parse_parameters, parse_parameters-get,
}
use microgateway.Context.Body.{Parsers, ReadBy, parse_request_body, parse_request_body-ReadBy}
use microgateway.Context.Postflow
use microgateway.Context.Postflow.{
  Message, Response, Encoders, value, find_header, postflow, Sized, postflow-Sized,
}
use microgateway.Context.PathRegex.{
  chars, is_multi, is_root, base_of, make_path_regex, without_slash, loop, cut, replace,
  variable_path, pattern_of, after_prefix,
}
use microgateway.Context.PathRegex.Template.{Pieces, template, pattern, numbered}
use microgateway.Context.PathRegex.Compiled.{make_path_regex-template, make_path_regex_open}

-- A parser that splits at commas, and stops at a text that is empty.
abbrev runtime : Runtime ℕ
runtime = record {
  number = λ v. 7;
  date = λ v. 0;
  buffer = λ v. some 1;
  json = λ v. none;
  to_string = λ v. "";
  csv = λ d v. elim v [
    | text s ↦ if s == "" then records [] else records (split b',' s ∷ [])
    | nothing ↦ raises
    | truth b ↦ raises
    | several vs ↦ raises
    | foreign n ↦ raises
  ];
}

abbrev numbers : Elem
numbers = record {
  type = some "array";
  collection_format = some "csv";
  items = some (some "boolean");
}

abbrev nested : Elem
nested = record { type = some "array"; collection_format = some "csv"; items = some (some "array") }

converts :
    convert_to_type runtime 2 numbers (text "true,no")
    ≡ resolves (several (and_values (truth true) (and_values nothing no_values)))
unfolding convert_to_type split split_from to_lower contains
converts = refl

crashes_on_empty : convert_to_type runtime 2 numbers (text "") ≡ crashes
unfolding convert_to_type contains
crashes_on_empty = refl

one_field :
    runtime.csv (delimiter_of nested.collection_format) (text "a") ≡ records (("a" ∷ []) ∷ [])
unfolding delimiter_of split split_from
one_field = refl

abbrev plain : Elem
plain = record { type = some "string"; collection_format = none; items = none }

abbrev id_param : Param
id_param = record { name = "id"; location = "query"; elem_of = plain }

abbrev sources : Sources ℕ
sources = record {
  query = λ name. if name == "id" then text "5" else nothing;
  headers = λ name. nothing;
  path = none;
  form = none;
  body = nothing;
}

abbrev unnamed : Param
unnamed = record { name = "x"; location = "header"; elem_of = plain }

parses :
    parse_parameters runtime 2 sources (id_param ∷ unnamed ∷ [])
    ≡ resolves (("id", text "5") ∷ ("x", nothing) ∷ [])
unfolding parse_parameters convert_to_type value_of put contains
parses = refl

names_are_plain : All (λ (q : Param). plus_name q.name ≡ none) (id_param ∷ unnamed ∷ [])
unfolding plus_name
names_are_plain = (refl, (refl, tt))

parse_parameters-get_example :
    (v : Value ℕ) × (value_of runtime 2 sources id_param ≡ resolves v)
    × (get (("id", text "5") ∷ ("x", nothing) ∷ []) "id" ≡ some v)
parse_parameters-get_example =
    parse_parameters-get runtime 2 sources [] id_param (unnamed ∷ [])
      (("id", text "5") ∷ ("x", nothing) ∷ []) names_are_plain (refl, tt) parses

-- A parameter with '+' that the request does not have leaves it without an answer.
hangs :
    parse_parameters runtime 2 sources
      (record { name = "+rest"; location = "query"; elem_of = plain } ∷ [])
    ≡ pends
unfolding parse_parameters convert_to_type value_of put contains plus_name
hangs = refl

abbrev parsers : Parsers String ℕ
parsers = record {
  is = λ type patterns. contains patterns "*/json" && type == "application/json";
  charset = none;
  json = λ b. if b == "5" then some 5 else none;
  decode = λ c b. none;
  form = λ b. none;
  buffer = λ b. 0;
  is_empty = λ b. b == "";
}

parse_request_body-ReadBy_example :
    ReadBy parsers "5"
      (some "application/json")
      []
      (parse_request_body parsers true (some "application/json") [] (some "5"))
parse_request_body-ReadBy_example =
    parse_request_body-ReadBy parsers (some "application/json") [] "5" refl

abbrev pieces : Pieces
pieces = (chars "/users/", chars "id") ∷ (chars "/", chars "+rest") ∷ []

is_path : template pieces [] ≡ chars "/users/{id}/{+rest}"
is_path = refl

compiles :
    make_path_regex 3 (some (chars "/v1/")) (chars "/users/{id}/{+rest}")
    ≡ some (chars "^/v1/users/([^/]+)/(.+)/?$", (chars "id", 1) ∷ (chars "+rest", 2) ∷ [])
unfolding make_path_regex loop cut replace variable_path pattern_of after_prefix without_slash
    is_multi
compiles = refl

make_path_regex-template_example :
    let path = template pieces [] in
    make_path_regex 3 (some (chars "/v1/")) path
    ≡ some (
      chars "^"
          ++ base_of (some (chars "/v1/"))
          ++ (if is_root path then [] else pattern (is_multi path) pieces [])
          ++ chars "/?$",
      numbered 1 pieces,
    )
make_path_regex-template_example =
    make_path_regex-template 3 (some (chars "/v1/")) pieces [] (omega arith)
      (((refl, refl), (refl, refl)), (((refl, refl), (refl, refl)), tt)) (refl, refl)

make_path_regex_open_example :
    make_path_regex 1000 none (chars "/users/" ++ "{" ∷ chars "id") ≡ none
make_path_regex_open_example =
    make_path_regex_open 1000 none (chars "/users/") (chars "id") (refl, refl) refl

abbrev encoders : Encoders ℕ
encoders = record {
  stringify = λ v. none;
  json = λ v. some "{}";
  byte_length = λ s. if s == "" then 0 else 2;
}

abbrev reply : Message ℕ
reply = record { status = none; headers = ("Content-Length", "9") ∷ []; body = value 5 }

abbrev response : Response ℕ
response = record {
  status_code = 200;
  status_message = none;
  headers = ("content-length", "2") ∷ ("x-powered-by", "IBM API Connect MicroGateway") ∷ [];
  written = Postflow.text "{}";
}

answers : postflow encoders reply ≡ some response
unfolding postflow put to_lower to_text
answers = refl

no_encoding : (find_header "transfer-encoding" reply.headers == "chunked") ≡ false
unfolding find_header to_lower
no_encoding = refl

postflow-Sized_example :
    Sized encoders
      (find_header "content-type" reply.headers)
      reply.body
      response.written
      (get response.headers "content-length")
postflow-Sized_example = postflow-Sized encoders reply response refl no_encoding answers

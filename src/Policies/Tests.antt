-- ===== src/Policies/Tests.antt =====
-- A few assemblies, and instances of the theorems on their policies.
use microgateway.Common.{
  ℕ, String, ◌≡◌, ◌↔◌, refl, ap, eq_refl, get, inr, leb, Bool, true, false, none, some, List, [],
  ◌∷◌, any, to_lower, ◌==◌, if◌then◌else◌,
}
use microgateway.Policies.Switch.{
  by_id, by_verb, Case, Chosen, invoked, operation_switch, operation_switch-invoked_iff,
}
use microgateway.Policies.Variables.{View, array, single, Context}
use microgateway.Policies.Validate.{proceeds, Input, Conforms, validate}
use microgateway.Policies.Validate.Conformity.{validate-proceeds_iff}
use microgateway.Policies.Errors
use microgateway.OAuth.Authorization.{Urls}
use microgateway.Policies.Errors.{Err, Oauth, Response, either_text, error_handler}
use microgateway.Policies.Errors.Answered.{error_handler-some}
use microgateway.Policies.Cors.{
  Named, value_of, allow_credentials, is_end, is_next, cors, cors-ends,
}

-- An error in the redirection of a request for a code.
abbrev urls : Urls
urls = record { with_query = λ uri q. uri; with_hash = λ uri hash. uri; stringify = λ o. "" }

abbrev oauth : Oauth
oauth = record {
  type = some "AZ req";
  redirect_uri = some "https://a.org";
  state = none;
  response_type = none;
}

abbrev failure : Err
failure = record {
  is_error = true;
  is_plain = false;
  name = some "AuthorizationError";
  message = none;
  code = some "invalid_scope";
  uri = none;
  status = none;
}

abbrev request : Errors.Input
request = record {
  is_provider = true;
  error = none;
  oauth2 = some oauth;
  query = ("response_type", "code") ∷ [];
  message_headers = [];
}

has_response : either_text (get request.query "response_type") oauth.response_type ≡ some "code"
unfolding get either_text
has_response = refl

error_handler-some_example :
    (r : Response) × (error_handler urls (λ o. "") request failure ≡ some r)
error_handler-some_example =
    error_handler-some urls (λ o. "") request failure
      (inr (oauth, "AZ req", "code", refl, refl, refl, has_response))

abbrev cases : List (Case ℕ)
cases =
    record { operations = by_id "list" ∷ []; execute = some 1 }
    ∷ record { operations = by_verb "GET" "/items" ∷ []; execute = some 2 }
    ∷ []

operation_switch-invoked_iff_example :
    (operation_switch none "Get" "/items" cases ≡ invoked 2)
    ↔ Chosen (record { id = none; verb = to_lower "Get"; path = "/items" }) cases 2
operation_switch-invoked_iff_example = operation_switch-invoked_iff none "Get" "/items" cases 2

-- Bodies are numbers, and a schema is the least number that it allows.
abbrev input : Input ℕ ℕ
input = record {
  request_body = 5;
  message_body = 3;
  status = 404;
  parameters = record { location = "body"; schema = some 4 } ∷ [];
  responses = ("200", some 9) ∷ ("default", some 2) ∷ [];
}

abbrev is_valid : ℕ → ℕ → Bool
is_valid body schema = leb schema body

validate-proceeds_iff_example :
    (validate is_valid (λ name. none) (some "response") input ≡ proceeds ∷ [])
    ↔ Conforms is_valid (λ name. none) (some "response") input
validate-proceeds_iff_example =
    validate-proceeds_iff is_valid (λ name. none) (some "response") input

cors-ends_example :
    (any is_end
        (cors (record { allow_methods = "GET"; is_preflight = true }) (some "http://a.org") none)
      ≡ true)
    × (any is_next
          (cors (record { allow_methods = "GET"; is_preflight = true }) (some "http://a.org") none)
        ≡ false)
    × ((value_of allow_credentials (
            cors (record { allow_methods = "GET"; is_preflight = true }) (some "http://a.org") none)
          ≡ some "true")
        ↔ Named (record { allow_methods = "GET"; is_preflight = true }) (some "http://a.org") none)
cors-ends_example =
    cors-ends (record { allow_methods = "GET"; is_preflight = true }) (some "http://a.org") none

-- Values of variables: numbers, and lists as pairs of an element and the rest.
data Value : Type 0 where
  number : ℕ → Value
  empty : Value
  pair : (first rest : Value) → Value

abbrev elements : Value → List Value
elements (number n) = []
elements empty = []
elements (pair v w) = v ∷ elements w

abbrev view : Value → View Value
view (number n) = single (number n)
view empty = array []
view (pair v w) = array (v ∷ elements w)

abbrev of_list : List Value → Value
of_list [] = empty
of_list (v ∷ l) = pair v (of_list l)

elements-of_list : (l : List Value) → elements (of_list l) ≡ l
elements-of_list [] = refl
elements-of_list (v ∷ l) = ap (λ m. v ∷ m) (elements-of_list l)

view-of_list : (l : List Value) → view (of_list l) ≡ array l
view-of_list [] = refl
view-of_list (v ∷ l) = ap (λ m. array (v ∷ m)) (elements-of_list l)

abbrev set_in : (String → Value) → String → Value → String → Value
set_in x k v j = if j == k then v else x j

was_set : (x : String → Value) (k : String) (v : Value) → set_in x k v k ≡ v
was_set x k v = let e = eq_refl k in rw e refl

abbrev variables : Context (String → Value) Value
variables = record {
  view = view;
  of_list = of_list;
  get = λ x k. x k;
  set = set_in;
  del = λ x k j. if j == k then number 0 else x j;
  view-of_list = view-of_list;
  get-set = was_set;
}

abbrev nothing_set : String → Value
nothing_set k = number 0

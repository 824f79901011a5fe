-- ===== src/OAuth/Server.antt =====
-- lib/oauth2/az-server/server.js: the registry of the authorization server. It keeps the supported
-- scopes, grant types and response types, and the chains of grant and exchange middleware.
--
-- A word list that the source takes as a string or as an array is a `Words`. A handler is a
-- function of the state of the request (`req`, `ctx`): it calls `next` with no argument, calls it
-- with an error or `'route'`, throws, or does neither. Its time of answering is not modelled.
pub mod Support
pub mod Chain
pub mod Tests
use microgateway.Common.{
  String, Bool, true, false, not, ◌||◌, Option, none, some, List, [], ◌∷◌, ◌++◌, all, contains,
  split, extend, ◌==◌, if◌then◌else◌,
}
use microgateway.OAuth.UnorderedList.{UnorderedList, of_string, equal_to}

pub data Words : Type 0 where
  text : String → Words
  array : List String → Words

-- `if (_.isString(ws)) ws = ws.split(' ')`
abbrev pub words : Words → List String
words (text s) = split b' ' s
words (array ws) = ws

-- `if (list.indexOf(one) === -1) list.push(one)`, for each word
pub add_words : List String → List String → List String
add_words known [] = known
add_words known (one ∷ more) =
    add_words (if contains known one then known else known ++ one ∷ []) more

-- the loop of the `support…` methods
pub supports : List String → List String → Bool
supports known ws = all (contains known) ws

-- The loop of `supportResponseType`. It runs to `this.responseType.length`, which is the number of
-- parameters of the method `responseType`: 1. It looks at the first word alone, and finds
-- `undefined` where there is none.
first_supported : List String → List String → Bool
first_supported known [] = false
first_supported known (one ∷ more) = contains known one

-- The type of a grant layer: '*' is every type. Types are not empty.
layer_type : String → Option UnorderedList
layer_type type = if type == "*" then none else some (of_string type)

-- What a handler does with its `next`.
pub data Reply (E : Type 0) : Type 0 where
  proceed : Reply E
  report : E → Reply E
  throw : E → Reply E
  hold : Reply E

-- How a chain ends: `cb()`, `cb(err)`, or no call yet.
pub data End (E : Type 0) : Type 0 where
  finished : End E
  failed : E → End E
  waiting : End E

abbrev pub Handler : Type 0 → Type 0 → Type 0
Handler S E = S → Reply E × S

-- What a request parser gives to `merge`, in the call or by its callback; or an error, reported or
-- thrown; or nothing.
pub data Parsed (E : Type 0) : Type 0 where
  fields : List (String × String) → Parsed E
  bad : E → Parsed E
  silent : Parsed E

-- `cb(null, areq)`, `cb(err)`, or no call
pub data Parsing (E : Type 0) : Type 0 where
  parsed : List (String × String) → Parsing E
  unparsed : E → Parsing E
  unanswered : Parsing E

abbrev pub Parser : Type 0 → Type 0 → Type 0
Parser S E = S → Parsed E × S

pub record Layer (T H : Type 0) : Type 0 where
  pub type : Option T
  pub handle : H

pub record Server (S E : Type 0) : Type 0 where
  pub req_parsers : List (Layer UnorderedList (Parser S E))
  pub res_handlers : List (Layer UnorderedList (Handler S E))
  pub exchanges : List (Layer String (Handler S E))
  pub scopes : List String
  pub response_types : List String
  pub grant_types : List String

module _ {S E : Type 0} where
  -- `new Server()`
  unfoldable pub server : Server S E
  server = record {
    req_parsers = [];
    res_handlers = [];
    exchanges = [];
    scopes = [];
    response_types = [];
    grant_types = [];
  }

  unfoldable pub scope : Server S E → Words → Server S E
  unfolding add_words
  scope s ws = record s { scopes = add_words s.scopes (words ws) }

  unfoldable pub support_scope : Server S E → Words → Bool
  unfolding supports
  support_scope s ws = supports s.scopes (words ws)

  unfoldable pub grant_type : Server S E → Words → Server S E
  unfolding add_words
  grant_type s ws = record s { grant_types = add_words s.grant_types (words ws) }

  unfoldable pub support_grant_type : Server S E → Words → Bool
  unfolding supports
  support_grant_type s ws = supports s.grant_types (words ws)

  pub response_type : Server S E → Words → Server S E
  unfolding add_words
  response_type s ws = record s { response_types = add_words s.response_types (words ws) }

  unfoldable pub support_response_type : Server S E → Words → Bool
  unfolding first_supported
  support_response_type s ws = first_supported s.response_types (words ws)

  -- `grant(type, phase, fn)` for the phases 'request' and 'response'
  pub grant_request : Server S E → String → Parser S E → Server S E
  unfolding layer_type
  grant_request s type fn = record s {
    req_parsers = s.req_parsers ++ record { type = layer_type type; handle = fn } ∷ [];
  }

  pub grant_response : Server S E → String → Handler S E → Server S E
  unfolding layer_type
  grant_response s type fn = record s {
    res_handlers = s.res_handlers ++ record { type = layer_type type; handle = fn } ∷ [];
  }

  add_request : Server S E → String → Option (Parser S E) → Server S E
  unfolding grant_request
  add_request s name none = s
  add_request s name (some fn) = grant_request s name fn

  add_response : Server S E → String → Option (Handler S E) → Server S E
  unfolding grant_response
  add_response s name none = s
  add_response s name (some fn) = grant_response s name fn

  add_type : Server S E → Option Words → Server S E
  unfolding response_type
  add_type s none = s
  add_type s (some ws) = response_type s ws

  -- `grant(mod)` for a grant module with its name, request parser, response handler and type
  pub grant :
      Server S E → String → Option (Parser S E) → Option (Handler S E) → Option Words → Server S E
  unfolding add_request add_response add_type
  grant s name request response types =
      add_type (add_response (add_request s name request) name response) types

  -- `exchange(type, fn)`; where the type is left out it is the name of the function
  unfoldable pub exchange : Server S E → String → Handler S E → Server S E
  exchange s type fn = record s {
    exchanges =
        s.exchanges ++ record { type = if type == "*" then none else some type; handle = fn } ∷ [];
  }

-- The loop with `next` that `_exchange` and `_respond` share. An exception of a handler is caught
-- around its call. The callback itself is taken not to throw.
module _ {S E : Type 0} where
  abbrev pub on_reply : (S → End E × S) → Reply E × S → End E × S
  on_reply rest (proceed, s) = rest s
  on_reply rest (report e, s) = (failed e, s)
  on_reply rest (throw e, s) = (failed e, s)
  on_reply rest (hold, s) = (waiting, s)

module _ {T S E : Type 0} (applies : Option T → Bool) where
  unfoldable pub run_chain : List (Layer T (Handler S E)) → S → End E × S
  run_chain [] s = (finished, s)
  run_chain (layer ∷ stack) s = elim (applies layer.type) [
    | false ↦ run_chain stack s
    | true ↦ on_reply (run_chain stack) (layer.handle s)
  ]

-- `layer.type === null || layer.type === type`
abbrev pub is_type : String → Option String → Bool
is_type type none = true
is_type type (some t) = t == type

-- `layer.type === null || layer.type.equalTo(ultype)`
abbrev pub is_list : UnorderedList → Option UnorderedList → Bool
is_list type none = true
is_list type (some t) = equal_to t type

-- The authorization request that `_parse` builds, as its properties.
abbrev pub Fields : Type 0
Fields = List (String × String)

abbrev start_areq : String → Fields
start_areq type = if type == "" then [] else ("type", type) ∷ []

module _ {S E : Type 0} where
  -- `_exchange(type, req, cb)`
  unfoldable pub exchange_type : Server S E → String → S → End E × S
  unfolding run_chain
  exchange_type server type s = run_chain (is_type type) server.exchanges s

  -- `_respond(txn, ctx, cb)` for a transaction whose request has the type `type`
  pub respond : Server S E → String → S → End E × S
  unfolding run_chain
  respond server type s = run_chain (is_list (of_string type)) server.res_handlers s

  abbrev on_parsed : (Fields → S → Parsing E × S) → Fields → Parsed E × S → Parsing E × S
  on_parsed rest areq (fields o, s) = rest (extend areq o) s
  on_parsed rest areq (bad e, s) = (unparsed e, s)
  on_parsed rest areq (silent, s) = (unanswered, s)

  parse_from : UnorderedList → List (Layer UnorderedList (Parser S E)) → Fields → S → Parsing E × S
  parse_from type [] areq s = (parsed areq, s)
  parse_from type (layer ∷ stack) areq s = elim (is_list type layer.type) [
    | false ↦ parse_from type stack areq s
    | true ↦ on_parsed (parse_from type stack) areq (layer.handle s)
  ]

  -- `_parse(type, req, cb)`
  pub parse : Server S E → String → S → Parsing E × S
  unfolding parse_from
  parse server type s = parse_from (of_string type) server.req_parsers (start_areq type) s

-- az-server/middleware/token.js: `unsupported type` is the TokenError 'Unsupported grant type: …'
-- with the code 'unsupported_grant_type'.
module _ {E : Type 0} (unsupported : String → E) where
  token_end : String → End E → End E
  token_end type finished = failed (unsupported type)
  token_end type (failed e) = failed e
  token_end type waiting = waiting

module _ {S E : Type 0} (unsupported : String → E) where
  unfoldable pub token : Server S E → String → S → End E × S
  unfolding token_end
  token server type s =
      let (e, s') = exchange_type server type s in (token_end unsupported type e, s')

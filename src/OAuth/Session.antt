-- ===== src/OAuth/Session.antt =====
-- lib/oauth2/az-server/middleware: authorization.js, transactionLoader.js, decision.js and
-- id-extractor.js, with the handlers of az-server/index.js beside them. They keep the transactions of
-- a browser session between its requests.
--
-- `req.oauth2` is the transaction of the session that a request works on, and is given by its id. An
-- id is looked up among the own properties of the object that holds the transactions. `get_app_info`
-- is the data store's look-up of a client, `none` where it finds none or fails, and a new id of `uid`
-- is an argument.
pub mod Decision
pub mod Vetted
pub mod Asked
pub mod Steps
pub mod Consent
pub mod Login
pub mod Tests
use microgateway.Common.{
  ℕ, ◌+◌, String, Bool, true, false, not, ◌&&◌, ◌||◌, Option, none, some, List, [], ◌∷◌, truthy,
  same, get, put, split, join, contains, all, length, nat_eq, ltb, ◌==◌, if◌then◌else◌,
}
use microgateway.OAuth.Server.{Server, Words, text}
use microgateway.OAuth.Helper.{Items, missing, words, list, Options, Refusal, validate_client}
use microgateway.OAuth.Exchange.{Scope, no_scope, empty_scope, in_scopes, value_or_empty}
use microgateway.OAuth.Authorization.{AzRequest}

pub record Client : Type 0 where
  pub id : String
  pub title : String
  pub redirection_uri : Option String

-- `res` of a transaction
pub record Res : Type 0 where
  pub allow : Bool
  pub scope : Scope

-- A transaction: `client` with its `logined` and `loginCount`, `req` with its `type`, and what the
-- requests of the session have added.
pub record Txn : Type 0 where
  pub client : Client
  pub logined : Bool
  pub login_count : ℕ
  pub type : Option String
  pub req : AzRequest
  pub redirect_uri : Option String
  pub user : Option String
  pub res : Option Res

abbrev pub Txns : Type 0
Txns = List (String × Txn)

-- `req.session`, and its property under the session key
pub data Session : Type 0 where
  absent : Session
  unused : Session
  holds : Txns → Session

pub data Error : Type 0 where
  no_session : Error
  parse_error : String → Error
  no_response_type : Error
  no_client_id : Error
  invalid_client : Error
  no_redirect_uri : Error
  refused : Refusal → Error
  unsupported_type : Error
  no_transactions : Error
  no_transaction_id : Error
  no_transaction : Error
  forbidden : Error
  not_authenticated : Error
  authentication_error : Error
  bad_redirect : Error
  type_error : Error

-- `next(err)`, or `next()` with the id of the transaction
pub data Outcome : Type 0 where
  failed : Error → Outcome
  goes_on : String → Outcome

pub record Request : Type 0 where
  pub query : List (String × String)
  pub body : List (String × String)

-- `a || b`, of texts that may be missing
pub or_param : Option String → Option String → Option String
or_param a b = if truthy a then a else b

-- a parameter of the query, or else of the body
unfoldable pub param : Request → String → Option String
unfolding or_param get
param r name = or_param (get r.query name) (get r.body name)

-- What `_parse` gives to its callback: an error, an object without properties, one with `type` only,
-- or one with what a parser has found.
pub data Parsed : Type 0 where
  unparsed : String → Parsed
  empty : Parsed
  only_type : String → Parsed
  parsed : (type : Option String) → AzRequest → Parsed

-- `_.isEqual` of two parsed requests
pub same_list : List String → List String → Bool
same_list [] [] = true
same_list [] (t ∷ ts) = false
same_list (s ∷ ss) [] = false
same_list (s ∷ ss) (t ∷ ts) = s == t && same_list ss ts

pub same_scope : Scope → Scope → Bool
unfolding same_list
same_scope no_scope no_scope = true
same_scope empty_scope empty_scope = true
same_scope (in_scopes l) (in_scopes k) = same_list l k
same_scope no_scope empty_scope = false
same_scope no_scope (in_scopes k) = false
same_scope empty_scope no_scope = false
same_scope empty_scope (in_scopes k) = false
same_scope (in_scopes l) no_scope = false
same_scope (in_scopes l) empty_scope = false

pub same_request : AzRequest → AzRequest → Bool
unfolding same_scope
same_request r s =
    r.client_id == s.client_id
    && (same r.redirect_uri s.redirect_uri
        && (same_scope r.scope s.scope && (r.api_id == s.api_id && same r.state s.state)))

-- `searchTXData`: the first transaction of the same request, with its id
pub search_tx_data : Txns → Option String → AzRequest → Option (String × Txn)
unfolding same_request
search_tx_data [] type r = none
search_tx_data ((id, t) ∷ txns) type r =
    let rest = search_tx_data txns type r in
    if same t.type type && same_request t.req r then some (id, t) else rest

-- `createTXData`, without the insertion
pub create_tx_data : Option String → AzRequest → Client → Txn
create_tx_data type r client = record {
  client = client;
  logined = false;
  login_count = 0;
  type = type;
  req = r;
  redirect_uri = none;
  user = none;
  res = none;
}

-- `req.session[key] || {}`
pub txns_of : Session → Txns
txns_of absent = []
txns_of unused = []
txns_of (holds txns) = txns

-- `{ redirectURI: … }` and `{ responseType: …, scope: areq.scope || '' }` for `validateClient`
pub redirect_options : String → Options
redirect_options uri = record {
  redirect_uri = some uri;
  scope = missing;
  response_type = none;
  grant_type = none;
}

pub scope_items : Scope → Items
scope_items no_scope = words ""
scope_items empty_scope = words ""
scope_items (in_scopes l) = list l

pub type_words : Option String → Option Words
type_words none = none
type_words (some s) = some (text s)

pub request_options : Option String → AzRequest → Options
unfolding scope_items type_words
request_options type r = record {
  redirect_uri = none;
  scope = scope_items r.scope;
  response_type = type_words type;
  grant_type = none;
}

module _ {S E : Type 0} (server : Server S E) (get_app_info : String → Option Client)
    (uid : String) where
  -- the transaction of the request, which takes over `req.oauth2`
  pub with_tx : Client → String → Option String → AzRequest → Txns → String × Txns
  unfolding search_tx_data create_tx_data put
  with_tx client uri type r txns = elim (search_tx_data txns type r) [
    | some (id, t) ↦ (id, put txns id (record t { redirect_uri = some uri }))
    | none ↦ (uid, put txns uid (record (create_tx_data type r client) { redirect_uri = some uri }))
  ]

  -- `validated`, for a client that was found, from the second check on
  pub for_request : Client → String → Option String → AzRequest → Session → Outcome × Session
  unfolding request_options with_tx txns_of
  for_request client uri type r s =
      elim (validate_client server client.redirection_uri (request_options type r)) [
        | some e ↦ (failed (refused e), s)
        | none ↦ let (id, txns) = with_tx client uri type r (txns_of s) in (goes_on id, holds txns)
      ]

  pub redirect_uri_of : Client → Request → Option String → Option String
  unfolding or_param param
  redirect_uri_of client req uri =
      or_param (or_param uri (param req "redirect_uri")) client.redirection_uri

  -- `validated`: what is done after the check of the redirect URI
  pub validated :
      Client
      → Request
      → (uri : Option String) → (String → Session → Outcome × Session)
      → Session
      → Outcome × Session
  unfolding redirect_uri_of redirect_options
  validated client req uri next s =
      let found = redirect_uri_of client req uri in
      if truthy found
      then elim (validate_client server client.redirection_uri
          (redirect_options (value_or_empty found))) [
            | some e ↦ (failed (refused e), s)
            | none ↦ next (value_or_empty found) s
          ]
      else (failed no_redirect_uri, s)

  -- `authorizationValidate`, and then `validated`
  pub with_client :
      (id : Option String)
      → Request
      → (uri : Option String) → (Client → String → Session → Outcome × Session)
      → Session
      → Outcome × Session
  unfolding validated
  with_client id req uri next s =
      if truthy id
      then elim (get_app_info (value_or_empty id)) [
        | none ↦ (failed invalid_client, s)
        | some client ↦ validated client req uri (next client) s
      ]
      else (failed no_client_id, s)

  pub on_parsed : Request → Parsed → Session → Outcome × Session
  unfolding with_client for_request or_param param
  on_parsed req (unparsed e) s = (failed (parse_error e), s)
  on_parsed req empty s = (failed no_response_type, s)
  on_parsed req (only_type type) s =
      with_client (param req "client_id") req none (λ client uri s1. (failed unsupported_type, s1))
        s
  on_parsed req (parsed type r) s =
      with_client (or_param (some r.client_id) (param req "client_id")) req r.redirect_uri
        (λ client uri s1. for_request client uri type r s1) s

  -- `authorization`
  unfoldable pub authorization : Request → Parsed → Session → Outcome × Session
  unfolding on_parsed
  authorization req p absent = (failed no_session, absent)
  authorization req p unused = on_parsed req p unused
  authorization req p (holds txns) = on_parsed req p (holds txns)

-- `transactionLoader`
unfoldable pub transaction_loader : (field : String) → Request → Session → Outcome
unfolding param get
transaction_loader field req absent = failed no_session
transaction_loader field req unused = failed no_transactions
transaction_loader field req (holds txns) =
    let id = param req field in
    if truthy id
    then elim (get txns (value_or_empty id)) [
      | none ↦ failed no_transaction
      | some t ↦ goes_on (value_or_empty id)
    ]
    else failed no_transaction_id

-- ===== src/OAuth/Authorization.antt =====
-- lib/oauth2/az-server/grant/code.js and token.js: the request parsers and the response handlers of
-- the grants that the authorization endpoint offers. Their responses differ only in the locations
-- that they redirect to, and are `respond` for the two.
--
-- The module url of the platform is the record `Urls`. A separator of scopes is one character. The
-- provider's `issue` runs on its world `W`, and calls its callback at once, throws, or never answers.
pub mod Routed
pub mod Sent
pub mod Redirects
pub mod Tests
use microgateway.Common.{
  ℕ, String, Bool, true, false, Option, none, some, List, [], ◌∷◌, truthy, get, put, ◌==◌,
  if◌then◌else◌,
}
use microgateway.OAuth.Exchange.{
  Scope, no_scope, empty_scope, in_scopes, requested_scope, Object, str, token_object, no_refresh,
  value_or_empty,
}

-- `url.format` of a parsed URI whose query is given these parameters, or whose hash is this text; and
-- `qs.stringify`.
pub record Urls : Type 0 where
  pub with_query : String → List (String × String) → String
  pub with_hash : String → String → String
  pub stringify : Object → String

-- what `request` returns
pub record AzRequest : Type 0 where
  pub client_id : String
  pub redirect_uri : Option String
  pub scope : Scope
  pub api_id : String
  pub state : Option String

-- `getParam` of code.js: the query, and with `allowsPost` then the body, if there is one
pub code_param :
    Bool → List (String × String) → Option (List (String × String)) → String → Option String
unfolding get
code_param allows_post query body name = elim allows_post [
  | false ↦ get query name
  | true ↦ elim body [
    | none ↦ get query name
    | some b ↦ if truthy (get query name) then get query name else get b name
  ]
]

-- `request` of both grants; `none` is the error for a missing client id.
unfoldable pub parse_request :
    List ℕ → (String → Option String) → (api_id : String) → Option AzRequest
parse_request separators get_param api_id =
    if truthy (get_param "client_id")
    then some (record {
      client_id = value_or_empty (get_param "client_id");
      redirect_uri = get_param "redirect_uri";
      scope = requested_scope separators (get_param "scope");
      api_id = api_id;
      state = get_param "state";
    })
    else none

-- A transaction of a client `C` for a user `U`: `redirectURI`, `res.allow`, `res.scope` and `req`.
pub record Transaction (C U : Type 0) : Type 0 where
  pub client : C
  pub user : U
  pub redirect_uri : Option String
  pub allow : Bool
  pub res_scope : Scope
  pub req : Option AzRequest

pub record Message : Type 0 where
  pub headers : List (String × String)
  pub status : Option ℕ
  pub body : Option String

pub data Failure : Type 0 where
  no_redirect : Failure
  access_denied : Failure
  type_error : Failure
  other : String → Failure

-- What the handler calls: `next('route')`, `next(err)`, or nothing.
pub data Next : Type 0 where
  routed : Next
  failed : Failure → Next
  waits : Next

-- What `issue` does with its callback: an error; no error and a text, if any, with more of the type
-- `G`; or it throws, or does not call it.
pub data Answer (G : Type 0) : Type 0 where
  errs : String → Answer G
  issues : Option String → G → Answer G
  throws : String → Answer G
  silent : Answer G

-- `redirect` of lib/oauth2/oauth2-helper.js
pub redirect : String → Message
redirect location = record { headers = ("Location", location) ∷ []; status = some 302; body = none }

module _ {C U : Type 0} where
  -- `txn.req && txn.req.state`
  pub state_of : Transaction C U → Option String
  state_of txn = elim txn.req [ none ↦ none | some r ↦ r.state ]

  -- `txn.res.scope || txn.req.scope`, and `txn.req`, whose absence throws
  pub scope_of : Transaction C U → AzRequest → Scope
  scope_of txn r = elim txn.res_scope [
    | in_scopes l ↦ in_scopes l
    | no_scope ↦ r.scope
    | empty_scope ↦ r.scope
  ]

  module _ {G W : Type 0} (denied : Transaction C U → String → String)
      (granted : Transaction C U → String → String → G → String)
      (issue : Transaction C U → AzRequest → Scope → W → Answer G × W) where
    -- `issued`, and the catch around `issue`
    pub on_answer : Transaction C U → String → Answer G × W → Message → Next × (W × Message)
    on_answer txn uri (errs e, w) m = (failed (other e), (w, m))
    on_answer txn uri (issues text g, w) m =
        if truthy text
        then (routed, (w, redirect (granted txn uri (value_or_empty text) g)))
        else (failed access_denied, (w, m))
    on_answer txn uri (throws e, w) m = (failed (other e), (w, m))
    on_answer txn uri (silent, w) m = (waits, (w, m))

    -- the branches by `txn.res.allow` and `txn.req`
    pub on_decision :
        Transaction C U → String → Bool → Option AzRequest → W × Message → Next × (W × Message)
    unfolding on_answer scope_of
    on_decision txn uri false req (w, m) = (routed, (w, redirect (denied txn uri)))
    on_decision txn uri true none (w, m) = (failed type_error, (w, m))
    on_decision txn uri true (some r) (w, m) = on_answer txn uri (issue txn r (scope_of txn r) w) m

    pub on_uri : Transaction C U → Option String → W × Message → Next × (W × Message)
    unfolding on_decision
    on_uri txn none (w, m) = (failed no_redirect, (w, m))
    on_uri txn (some uri) (w, m) =
        if uri == ""
        then (failed no_redirect, (w, m))
        else on_decision txn uri txn.allow txn.req (w, m)

    -- `response` of both grants
    unfoldable pub respond : Transaction C U → W × Message → Next × (W × Message)
    unfolding on_uri
    respond txn (w, m) = on_uri txn txn.redirect_uri (w, m)

  -- the parameters of a redirection, with the state where it is not empty
  pub with_state : Transaction C U → List (String × String) → List (String × String)
  unfolding state_of put
  with_state txn q = elim (state_of txn) [
    | none ↦ q
    | some s ↦ if s == "" then q else put q "state" s
  ]

  pub token_state : Transaction C U → Object → Object
  unfolding state_of put
  token_state txn o = elim (state_of txn) [
    | none ↦ o
    | some s ↦ if s == "" then o else put o "state" (str s)
  ]

  module _ (urls : Urls) where
    pub code_denied : Transaction C U → String → String
    unfolding with_state
    code_denied txn uri = urls.with_query uri (with_state txn (("error", "access_denied") ∷ []))

    pub code_granted : Transaction C U → String → String → Unit {0} → String
    unfolding with_state
    code_granted txn uri code u = urls.with_query uri (with_state txn (("code", code) ∷ []))

    pub token_denied : Transaction C U → String → String
    unfolding token_state
    token_denied txn uri =
        urls.with_hash uri (urls.stringify (token_state txn (("error", str "access_denied") ∷ [])))

    -- an access token with its `params`
    pub token_granted : Transaction C U → String → String → Option Object → String
    unfolding token_state
    token_granted txn uri access params =
        urls.with_hash uri
          (urls.stringify (token_state txn (token_object access no_refresh params)))

    unfoldable pub code_response :
        {W : Type 0}
        → (Transaction C U → AzRequest → Scope → W → Answer (Unit {0}) × W)
        → Transaction C U
        → W × Message
        → Next × (W × Message)
    unfolding code_denied code_granted
    code_response issue = respond code_denied code_granted issue

    unfoldable pub token_response :
        {W : Type 0}
        → (Transaction C U → AzRequest → Scope → W → Answer (Option Object) × W)
        → Transaction C U
        → W × Message
        → Next × (W × Message)
    unfolding token_denied token_granted
    token_response issue = respond token_denied token_granted issue

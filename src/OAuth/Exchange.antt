-- ===== src/OAuth/Exchange.antt =====
-- lib/oauth2/az-server/exchange: the four exchanges of a token request. Each checks its parameters,
-- calls the provider's `issue` with a callback `issued`, and writes the token response.
--
-- A handler runs on the world of the provider (`W`, which `issue` may change) and the message of the
-- context. `issue` calls its callback at once, throws, or never answers. `stringify` is
-- `JSON.stringify` on the token object. A separator of scopes is one character.
pub mod Response
pub mod Scopes
pub mod Success
pub mod Tests
use microgateway.Common.{
  ℕ, String, ◌<◌, Bool, true, false, not, Option, none, some, List, [], ◌∷◌, ltb, nat_eq, length,
  if◌then◌else◌, ◌==◌, split, get, put, extend, truthy,
}
use microgateway.OAuth.Server.{Handler, Reply, report, hold}

-- the values of a token object
pub data Value : Type 0 where
  undefined : Value
  str : String → Value
  num : ℕ → Value

abbrev pub Object : Type 0
Object = List (String × Value)

-- What `next` gets: `'route'`, a TokenError, or an error of the provider.
pub data Failure : Type 0 where
  route : Failure
  token_error : (message code : String) → Failure
  other : String → Failure

-- The argument `refreshToken` of `issued`: false, a string, or an object that takes the place of
-- `params`.
pub data Refresh : Type 0 where
  no_refresh : Refresh
  refresh : String → Refresh
  instead : Object → Refresh

pub record Issued : Type 0 where
  pub err : Option Failure
  pub access_token : Option String
  pub refresh_token : Refresh
  pub params : Option Object

-- What a call of `issue` does.
pub data Issuing : Type 0 where
  calls : Issued → Issuing
  raises : Failure → Issuing
  silent : Issuing

pub record Message : Type 0 where
  pub headers : List (String × String)
  pub body : Option String

-- `v || 'Bearer'`
or_bearer : Option Value → Value
or_bearer none = str "Bearer"
or_bearer (some undefined) = str "Bearer"
or_bearer (some (str s)) = if s == "" then str "Bearer" else str s
or_bearer (some (num n)) = if nat_eq n 0 then str "Bearer" else num n

-- the properties that `refreshToken` and `params` give to the token object
abbrev with_refresh : Object → Refresh → Object
with_refresh tok no_refresh = tok
with_refresh tok (refresh t) = if t == "" then tok else put tok "refresh_token" (str t)
with_refresh tok (instead o) = tok

abbrev merged_params : Refresh → Option Object → Object
merged_params (instead o) params = o
merged_params r none = []
merged_params r (some o) = o

-- the object before its type is settled
abbrev pub extended : String → Refresh → Option Object → Object
extended access r params =
    extend (with_refresh (put [] "access_token" (str access)) r) (merged_params r params)

-- The object `tok` of `issued`.
unfoldable pub token_object : String → Refresh → Option Object → Object
unfolding or_bearer put extend get
token_object access r params =
    let tok = extended access r params in put tok "token_type" (or_bearer (get tok "token_type"))

abbrev pub value_or_empty : Option String → String
value_or_empty none = ""
value_or_empty (some s) = s

-- The first separator that splits the scope, or the scope as a whole.
unfoldable pub scope_list : List ℕ → String → List String
unfolding split
scope_list [] scope = scope ∷ []
scope_list (sep ∷ separators) scope =
    let parts = split sep scope in
    if ltb 1 (length parts) then parts else scope_list separators scope

-- The scope that `issue` gets: `undefined`, the empty text, or a list.
pub data Scope : Type 0 where
  no_scope : Scope
  empty_scope : Scope
  in_scopes : List String → Scope

abbrev pub requested_scope : List ℕ → Option String → Scope
requested_scope separators none = no_scope
requested_scope separators (some scope) =
    if scope == "" then empty_scope else in_scopes (scope_list separators scope)

module _ (stringify : Object → String) where
  -- `issued`, whose only difference between the exchanges is the message of 'invalid_grant'
  unfoldable pub issued : String → Issued → Message → Reply Failure × Message
  unfolding token_object put
  issued invalid i m = elim i.err [
    | some e ↦ (report e, m)
    | none ↦
        if truthy i.access_token
        then (
          report route,
          record {
            headers =
                put
                  (put (put m.headers "Content-Type" "application/json") "Cache-Control" "no-store")
                  "Pragma" "no-cache";
            body =
                some (
                  stringify
                    (token_object (value_or_empty i.access_token) i.refresh_token i.params));
          },
        )
        else (report (token_error invalid "invalid_grant"), m)
  ]

-- `issue` by its number of parameters, for a client `C` and a world `W`.
pub data IssueRefresh (C W : Type 0) : Type 0 where
  scoped : (C → String → Scope → W → Issuing × W) → IssueRefresh C W
  unscoped : (C → String → W → Issuing × W) → IssueRefresh C W

pub data IssuePassword (C W : Type 0) : Type 0 where
  scoped : (C → (username passwd : String) → Scope → W → Issuing × W) → IssuePassword C W
  unscoped : (C → (username passwd : String) → W → Issuing × W) → IssuePassword C W

pub data IssueClient (C W : Type 0) : Type 0 where
  for_subject : (C → Option String → Scope → W → Issuing × W) → IssueClient C W
  scoped : (C → Scope → W → Issuing × W) → IssueClient C W
  unscoped : (C → W → Issuing × W) → IssueClient C W

lacks : String → Failure
lacks name = token_error name "invalid_request"

module _ {C W : Type 0} (stringify : Object → String) (separators : List ℕ) (client : C) where
  -- `try { issue(…, issued) } catch (ex) { return next(ex) }`
  call_issue : String → Issuing × W → Message → Reply Failure × (W × Message)
  unfolding issued
  call_issue invalid (calls i, w) m = let (r, m') = issued stringify invalid i m in (r, (w, m'))
  call_issue invalid (raises e, w) m = (report e, (w, m))
  call_issue invalid (silent, w) m = (hold, (w, m))

  -- authorizationCode.js: the request's parameters, then `issue`
  pub authorization_code :
      (C → String → Option String → W → Issuing × W)
      → List (String × String)
      → Handler (W × Message) Failure
  unfolding call_issue get lacks
  authorization_code issue parameters (w, m) =
      let code = get parameters "code" in
      if truthy code
      then call_issue "Invalid authorization code"
          (issue client (value_or_empty code) (get parameters "redirect_uri") w) m
      else (report (lacks "Missing required parameter \"code\""), (w, m))

  issue_refresh : IssueRefresh C W → String → Scope → W → Issuing × W
  issue_refresh (scoped issue) token scope w = issue client token scope w
  issue_refresh (unscoped issue) token scope w = issue client token w

  -- refreshToken.js
  unfoldable pub refresh_token :
      IssueRefresh C W → List (String × String) → Handler (W × Message) Failure
  unfolding call_issue issue_refresh scope_list get lacks
  refresh_token issue parameters (w, m) =
      let token = get parameters "refresh_token" in
      if truthy token
      then call_issue "Invalid refresh token"
          (issue_refresh issue (value_or_empty token)
            (requested_scope separators (get parameters "scope")) w)
          m
      else (report (lacks "Missing required parameter \"refresh_token\""), (w, m))

  issue_password : IssuePassword C W → (username passwd : String) → Scope → W → Issuing × W
  issue_password (scoped issue) username passwd scope w = issue client username passwd scope w
  issue_password (unscoped issue) username passwd scope w = issue client username passwd w

  -- password.js
  pub password : IssuePassword C W → List (String × String) → Handler (W × Message) Failure
  unfolding call_issue issue_password scope_list get lacks
  password issue parameters (w, m) =
      let username = get parameters "username" in
      let passwd = get parameters "password" in
      if truthy username
      then (if truthy passwd
          then call_issue "Invalid resource owner credentials"
              (issue_password issue (value_or_empty username) (value_or_empty passwd)
                (requested_scope separators (get parameters "scope")) w)
              m
          else (report (lacks "Missing required parameter \"password\""), (w, m)))
      else (report (lacks "Missing required parameter \"username\""), (w, m))

  issue_client : IssueClient C W → Option String → Scope → W → Issuing × W
  issue_client (for_subject issue) subject scope w = issue client subject scope w
  issue_client (scoped issue) subject scope w = issue client scope w
  issue_client (unscoped issue) subject scope w = issue client w

  -- clientCredentials.js
  pub client_credentials : IssueClient C W → List (String × String) → Handler (W × Message) Failure
  unfolding call_issue issue_client scope_list get
  client_credentials issue parameters (w, m) =
      call_issue "Invalid client credentials"
        (issue_client issue (get parameters "username")
          (requested_scope separators (get parameters "scope")) w)
        m

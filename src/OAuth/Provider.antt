-- ===== src/OAuth/Provider.antt =====
-- lib/oauth2/az-server/index.js: the other `issue` functions of the provider, and the servers that
-- its pool builds for the API documents.
--
-- The handlers are those of one token request, whose client and parameters they close over; the
-- state is the tables and the message. `login` is the user authentication, which asks an LDAP or
-- HTTP server.
pub mod Registry
pub mod Pool
pub mod Dispatch
pub mod Tests
use Prim.Native.Nat.{◌/◌}
use microgateway.Common.{
  ℕ, ◌-◌, String, Bool, true, false, Option, none, some, List, [], ◌∷◌, ◌++◌, contains,
  if◌then◌else◌,
}
use microgateway.OAuth.Server.{Server, server, array, scope, grant_type, exchange, Handler}
use microgateway.OAuth.Helper.{Items, list, validate_client}
use microgateway.OAuth.Exchange.{
  Object, Failure, Scope, no_scope, empty_scope, in_scopes, Issuing, Message, IssueRefresh, scoped,
  IssuePassword, IssueClient, authorization_code, refresh_token, password, client_credentials,
  other, calls, no_refresh,
}
use microgateway.OAuth.Store.{Token, Code, DataModel, Fresh, Tables, save, save_code}
use microgateway.OAuth.Store.Permission.{Permission, Editable, add_permission}
use microgateway.OAuth.Grants.{
  Client, Decoded, failed_with, refused, granted, options_for, refusal, first_refresh, code_grant,
  refresh_grant,
}

-- How the authentication of a resource owner ends.
pub data Login : Type 0 where
  login_failed : Failure → Login
  denied : Login
  accepted : Login

-- What the functions close over: the tables, the document's settings and the runtime.
pub record Provider (A R C : Type 0) : Type 0 where
  pub access_tokens : DataModel A Token
  pub refresh_tokens : DataModel R Token
  pub codes : DataModel C Code
  pub claims_of : String → Decoded
  pub verify : String → String → Bool
  pub now : ℕ
  pub api : String
  pub client_type : String
  pub access : List String → Fresh
  pub renew : List String → Fresh
  pub refresh_count : ℕ
  pub enable_refresh_token : Bool
  pub login : (username passwd : String) → Login

-- `scope || ''`
or_empty : Scope → Scope
or_empty no_scope = empty_scope
or_empty s = s

-- The list of scopes; the other two scopes are refused before a token is made for them.
pub scopes_in : Scope → List String
scopes_in no_scope = []
scopes_in empty_scope = []
scopes_in (in_scopes l) = l

module _ {A R C : Type 0} (p : Provider A R C) where
  -- the generator of refresh tokens and their count, where they are enabled
  pub renewal : Option ((List String → Fresh) × ℕ)
  renewal = if p.enable_refresh_token then some (p.renew, p.refresh_count) else none

  pub new_tokens :
      Client
      → Option String
      → List String
      → (grant : String) → Tables A R C
      → Issuing × Tables A R C
  unfolding renewal
  new_tokens client user scopes grant t =
      let a = p.access scopes in
      let r = first_refresh renewal scopes in
      (
        granted a r scopes ((a.expired_at - a.issued_at) / 1000),
        save p.access_tokens p.refresh_tokens t p.api client.client_id user scopes grant a none r,
      )

  -- `issue` of the exchange of client credentials
  pub application_issue :
      {S E : Type 0} → Server S E → Client → Scope → Tables A R C → Issuing × Tables A R C
  unfolding or_empty new_tokens
  application_issue server client scope t =
      elim (validate_client server client.redirection_uri
        (options_for (or_empty scope) "application")) [
          | some r ↦ (failed_with (refusal r), t)
          | none ↦ new_tokens client (some client.client_id) (scopes_in scope) "application" t
        ]

  pub after_login :
      Login → Client → (username : String) → Scope → Tables A R C → Issuing × Tables A R C
  unfolding new_tokens
  after_login (login_failed e) client username scope t = (failed_with e, t)
  after_login denied client username scope t = (refused, t)
  after_login accepted client username scope t =
      new_tokens client (some username) (scopes_in scope) "password" t

  -- `issue` of the exchange of passwords
  pub password_issue :
      {S E : Type 0}
      → Server S E
      → Client
      → (username passwd : String) → Scope
      → Tables A R C
      → Issuing × Tables A R C
  unfolding or_empty after_login
  password_issue server client username passwd scope t =
      elim (validate_client server client.redirection_uri
        (options_for (or_empty scope) "password")) [
          | some r ↦ (failed_with (refusal r), t)
          | none ↦ after_login (p.login username passwd) client username scope t
        ]

  -- `issue` of the implicit grant, for a user that is known; the permissions are the second table.
  pub implicit_issue :
      {S E P : Type 0}
      → Server S E
      → Editable P Permission
      → Client
      → (user : String) → List String
      → (authorized : Bool) → Tables A R C × P
      → Issuing × (Tables A R C × P)
  implicit_issue server permissions client user scopes authorized (t, q) =
      elim (validate_client server client.redirection_uri
        (options_for (in_scopes scopes) "implicit")) [
          | some r ↦ (failed_with (refusal r), (t, q))
          | none ↦
              let a = p.access scopes in
              (
                granted a none scopes ((a.expired_at - a.issued_at) / 1000),
                (
                  save p.access_tokens p.refresh_tokens t p.api client.client_id (some user) scopes
                      "implicit" a none none,
                  if authorized
                      then q
                      else add_permission permissions q p.api client.client_id user (list scopes)
                          p.now,
                ),
              )
        ]

  -- `issue` of the grant of codes: the id of the new token is the code.
  pub code_issue :
      {S E P : Type 0}
      → Server S E
      → Editable P Permission
      → Client
      → Option String
      → (user : String) → List String
      → (authorized : Bool) → Tables A R C × P
      → (Option Failure × Option String) × (Tables A R C × P)
  code_issue server permissions client redirect_uri user scopes authorized (t, q) =
      elim (validate_client server client.redirection_uri
        (options_for (in_scopes scopes) "accessCode")) [
          | some r ↦ ((some (refusal r), none), (t, q))
          | none ↦
              let a = p.access scopes in
              (
                (none, some a.id),
                (
                  record t {
                    codes =
                        save_code p.codes t.codes p.api client.client_id (some user) a.id scopes
                          redirect_uri a.issued_at a.expired_at;
                  },
                  if authorized
                      then q
                      else add_permission permissions q p.api client.client_id user (list scopes)
                          p.now,
                ),
              )
        ]

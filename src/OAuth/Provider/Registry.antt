-- ===== src/OAuth/Provider/Registry.antt =====
-- `ServerPool.getServer` of lib/oauth2/az-server/index.js: the scopes, the grant types and the
-- exchanges of the server for an API document. The grants of the authorization endpoint and its
-- middlewares are left out.
pub mod Endpoint
use microgateway.Common.{
  ℕ, String, Bool, true, false, Option, none, some, List, [], ◌∷◌, ◌++◌, contains, if◌then◌else◌,
}
use microgateway.OAuth.Server.{Server, server, array, scope, grant_type, exchange, Handler}
use microgateway.OAuth.Exchange.{
  Object, Failure, Scope, Issuing, Message, IssueRefresh, IssuePassword, IssueClient,
  authorization_code, refresh_token, password, client_credentials,
}
use microgateway.OAuth.Store.{Tables}
use microgateway.OAuth.Grants.{Client, code_grant, refresh_grant}
use microgateway.OAuth.Provider.{Provider, renewal, application_issue, password_issue}

-- `oauth2` of the document's 'x-ibm-configuration': the names of `scopes`, and `grants`.
pub record Settings : Type 0 where
  pub supported_scopes : List String
  pub grants : List String

-- A token request: the authenticated client, and its parameters.
pub record Request : Type 0 where
  pub client : Client
  pub parameters : List (String × String)

module _ {A R C : Type 0} (p : Provider A R C) (cfg : Settings) (stringify : Object → String) where
  abbrev pub State : Type 0
  State = Tables A R C × Message

  -- `allowedGrants`, to which the grant of refresh tokens is pushed
  unfoldable pub allowed_grants : List String
  allowed_grants = if p.enable_refresh_token then cfg.grants ++ "refreshToken" ∷ [] else cfg.grants

  -- The server with its scopes and grant types, which are all that `validateClient` asks it for.
  unfoldable pub base : Server State Failure
  unfolding allowed_grants
  base = grant_type (scope server (array cfg.supported_scopes)) (array allowed_grants)

  -- `if (allowedGrants.indexOf(…) !== -1) server.exchange(…)`
  unfoldable pub when :
      Bool → String → Handler State Failure → Server State Failure → Server State Failure
  when enabled type h s = if enabled then exchange s type h else s

  -- the default of `scopeSeparator`
  abbrev pub separators : List ℕ
  separators = b' ' ∷ []

  module _ (request : Request) where
    abbrev pub code_handler : Handler State Failure
    code_handler =
        authorization_code stringify separators request.client
          (λ client code uri t.
            code_grant base p.access_tokens p.refresh_tokens p.codes p.claims_of p.verify p.now
              p.api p.access (renewal p) client code uri t)
          request.parameters

    abbrev pub application_handler : Handler State Failure
    application_handler =
        client_credentials stringify separators request.client
          (IssueClient.scoped (λ client scope t. application_issue p base client scope t))
          request.parameters

    abbrev pub password_handler : Handler State Failure
    password_handler =
        password stringify separators request.client
          (IssuePassword.scoped (λ client username passwd scope t.
            password_issue p base client username passwd scope t))
          request.parameters

    abbrev pub refresh_issue : Client → String → Scope → Tables A R C → Issuing × Tables A R C
    refresh_issue client tok scope t =
        refresh_grant base p.access_tokens p.refresh_tokens p.codes p.claims_of p.verify p.now p.api
          p.client_type p.access p.renew client tok scope t

    abbrev pub refresh_handler : Handler State Failure
    refresh_handler =
        refresh_token stringify separators request.client (IssueRefresh.scoped refresh_issue)
          request.parameters

    -- the new server of `getServer`
    unfoldable pub build_server : Server State Failure
    unfolding when
    build_server = when p.enable_refresh_token "refresh_token" refresh_handler (
        when (contains allowed_grants "password") "password" password_handler (
          when (contains allowed_grants "application") "client_credentials" application_handler
            (when (contains allowed_grants "accessCode") "authorization_code" code_handler base)))

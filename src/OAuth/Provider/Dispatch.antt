-- ===== src/OAuth/Provider/Dispatch.antt =====
-- The middleware of lib/oauth2/az-server/index.js: the purge of the tables, and which handlers a
-- request goes to.
use microgateway.Common.{
  ℕ, String, Bool, ◌&&◌, ◌||◌, Option, none, some, List, get, truthy, is_some, ◌==◌, if◌then◌else◌,
}
use microgateway.OAuth.Store.{Token, Code, DataModel, Tables, purge, purge_codes}
use microgateway.OAuth.Store.Permission.{Permission, Editable, purge_permissions}

-- `req.oauth2.type`
pub data Request : Type 0 where
  redirected : Request
  first : Request
  login : Request
  consent : Request
  token : Request
  invalid : Request

-- The text values of the query, the body and the parameters. `is_provider` tells whether the API
-- document is that of a provider.
pub record Incoming : Type 0 where
  pub is_provider : Bool
  pub verb : String
  pub query : List (String × String)
  pub body : List (String × String)
  pub parameters : List (String × String)

pub classify : Incoming → Request
unfolding get
classify r =
    let posts = λ (field : String). r.verb == "POST" && is_some (get r.body field) in
    if truthy (get r.query "rstate") || is_some (get r.body "rstate")
    then redirected
    else if is_some (get r.parameters "response_type") && is_some (get r.parameters "client_id")
    then first
    else if posts "transaction_id"
    then login
    else if posts "dp-state"
    then consent
    else if is_some (get r.parameters "grant_type")
    then token
    else invalid

module _ {A R C P : Type 0} (da : DataModel A Token) (dr : DataModel R Token)
    (dc : DataModel C Code) (dp : Editable P Permission) where
  pub purge_all : ℕ → Tables A R C × P → Tables A R C × P
  purge_all now (t, q) = (
    record {
      access_tokens = purge da t.access_tokens now;
      refresh_tokens = purge dr t.refresh_tokens now;
      codes = purge_codes dc t.codes now;
    },
    purge_permissions dp q now,
  )

  -- `none` where the request is not for a provider and goes on to the next middleware
  pub dispatch : ℕ → Incoming → Tables A R C × P → Option Request × (Tables A R C × P)
  unfolding classify purge_all
  dispatch now r s = if r.is_provider then (some (classify r), purge_all now s) else (none, s)

-- ===== src/Security/ApiKey.antt =====
-- lib/security-check/eval-apikey.js: the handler for API keys. `headers` is the request's headers,
-- under their names in lower case, `query` what `qs.parse` gives of the query string, where the
-- values are texts, and `digest` the SHA-256 of a text in base64.
pub mod Checks
pub mod Passing
use microgateway.Common.{
  String, ◌≡◌, Bool, true, false, Option, none, some, same, to_lower, ◌==◌, if◌then◌else◌, arith,
  ◌⊎◌, inl, inr, Bool-cases, eq_iff, ◌↔◌, ◌≢◌, refl, ap, sym, ◌∙◌,
}
use microgateway.Api.{Definition, Entry}

pub hashed : (String → String) → Option String → Option String
hashed digest none = none
hashed digest (some s) = if s == "" then some s else some (digest s)

-- a client id: no secret is passed on
pub id_check : Option String → Option String → Bool × Option String
id_check got expected = (same got expected, none)

module _ (digest : String → String) (headers query : String → Option String) (entry : Entry) where
  pub secret_check : Option String → Option String → Bool × Option String
  unfolding hashed
  secret_check got secret =
      if same (hashed digest got) entry.client_secret then (true, secret) else (false, none)

  in_header : Definition → Bool × Option String
  unfolding id_check secret_check
  in_header d =
      let value = headers (to_lower d.name) in
      if same d.apikey (some "clientid")
      then id_check value entry.client_id
      else if same d.apikey (some "clientsecret")
      then secret_check value value
      else if d.name == "X-IBM-Client-Id"
      then id_check (headers "x-ibm-client-id") entry.client_id
      else if d.name == "X-IBM-Client-Secret"
      then secret_check (headers "x-ibm-client-secret") (headers "x-ibm-client-secret")
      else (false, none)

  given : Option String → Bool
  given none = false
  given (some s) = if s == "" then false else true

  -- The fixed parameter client_secret passes on the secret of the entry, which is hashed.
  in_query : Definition → Bool × Option String
  unfolding id_check secret_check given
  in_query d =
      let value = query d.name in
      if same d.apikey (some "clientid")
      then id_check value entry.client_id
      else if same d.apikey (some "clientsecret")
      then (if given value then secret_check value value else (false, none))
      else if d.name == "client_id"
      then id_check (query "client_id") entry.client_id
      else if d.name == "client_secret"
      then secret_check (query "client_secret") entry.client_secret
      else (false, none)

  unfoldable pub eval_apikey : Definition → Bool × Option String
  unfolding in_header in_query
  eval_apikey d =
      if d.location == "header"
      then in_header d
      else if d.location == "query"
      then in_query d
      else (false, none)

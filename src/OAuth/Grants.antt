-- ===== src/OAuth/Grants.antt =====
-- The `issue` functions of two exchanges in lib/oauth2/az-server/index.js, those for authorization
-- codes and for refresh tokens, with `validateToken` of lib/oauth2/oauth2-helper.js.
--
-- `claims_of` is `JSON.parse` of a decoded base64 text, and `verify` is `jwt.verify` with HS256; a
-- new token of `generateToken` is an argument. Callbacks of the store run at once, in the order of
-- the calls. Ttl and counts come from the API document; `now` is the time of the request.
pub mod Rotation
pub mod Valid
pub mod Callback
pub mod Spent
pub mod Codes
pub mod Tests
use microgateway.Common.{
  ℕ, ◌-◌, String, Bool, true, false, not, ◌&&◌, ◌||◌, Option, none, some, List, [], ◌∷◌, ltb,
  nat_eq, all, contains, same, split, join, ◌==◌, if◌then◌else◌,
}
use Prim.Native.Nat.{◌/◌}
use microgateway.OAuth.Server.{Server, text}
use microgateway.OAuth.Helper.{
  Items, missing, words, list, Stamps, is_expired, Options, Refusal, unrecognized_scope,
  unsupported_grant_type, invalid_redirect_uri, validate_client,
}
use microgateway.OAuth.Exchange.{
  Scope, no_scope, empty_scope, in_scopes, Object, Value, str, num, Failure, token_error, other,
  Refresh, no_refresh, refresh, Issued, Issuing, calls, raises,
}
use microgateway.OAuth.Store.{
  Token, Code, DataModel, Fresh, Tables, find, find_code, delete_refresh, delete_by_refresh_token,
  delete_code, save,
}

pub record Client : Type 0 where
  pub client_id : String
  pub api : String
  pub redirection_uri : Option String
  pub auth_skipped : Bool

-- the payload of a JWT
pub record Claims : Type 0 where
  pub jti : Option String
  pub aud : String
  pub iat : ℕ
  pub exp : ℕ

-- What decoding gives: an exception, or the claims.
pub data Decoded : Type 0 where
  garbled : Decoded
  claims : Claims → Decoded

-- How `validateToken` ends.
pub data Validation : Type 0 where
  exception : Validation
  no_match : Validation
  valid : Token → Validation

unfoldable pub second : List String → Option String
second [] = none
second (a ∷ []) = none
second (a ∷ b ∷ l) = some b

pub authentic : (String → String → Bool) → String → Claims → Token → Bool
authentic verify token c t =
    verify token t.secret
    && (c.aud == t.app_id && (nat_eq c.exp t.expired_at && nat_eq c.iat t.issued_at))

checked : (String → String → Bool) → String → Claims → Option Token → Validation
unfolding authentic
checked verify token c none = no_match
checked verify token c (some t) = if authentic verify token c t then valid t else no_match

module _ (claims_of : String → Decoded) (verify : String → String → Bool) where
  unfoldable pub by_claims : (String → Option Token) → String → Decoded → Validation
  unfolding checked
  by_claims lookup token garbled = exception
  by_claims lookup token (claims c) = elim c.jti [
    | none ↦ no_match
    | some jti ↦ if jti == "" then no_match else checked verify token c (lookup jti)
  ]

  unfoldable pub by_payload : (String → Option Token) → String → Option String → Validation
  unfolding by_claims
  by_payload lookup token none = no_match
  by_payload lookup token (some payload) =
      if payload == "" then no_match else by_claims lookup token (claims_of payload)

  -- `validateToken(models, apiId, token, type, done)` on the table of the type
  unfoldable pub validate_token :
      {M : Type 0} → DataModel M Token → M → (api token : String) → Validation
  unfolding by_payload second split
  validate_token d m api token = by_payload (find d m api) token (second (split b'.' token))

-- `done(err)`, `done(null, false)` and `done(null, token, …)`
abbrev pub failed_with : Failure → Issuing
failed_with e =
    calls (record { err = some e; access_token = none; refresh_token = no_refresh; params = none })

abbrev pub refused : Issuing
refused =
    calls (record { err = none; access_token = none; refresh_token = no_refresh; params = none })

unfoldable pub refresh_of : Option (Fresh × ℕ) → Refresh
refresh_of none = no_refresh
refresh_of (some (r, n)) = refresh r.token

-- getTokenHandler, for the token that `save` stored
abbrev pub granted : Fresh → Option (Fresh × ℕ) → List String → ℕ → Issuing
granted a r scopes expires_in = calls (record {
  err = none;
  access_token = some a.token;
  refresh_token = refresh_of r;
  params = some (
      ("token_type", str "Bearer")
      ∷ ("expires_in", num expires_in)
      ∷ ("scope", str (join " " scopes))
      ∷ []);
})

-- The scopes that a refresh asks for, or those of the token where it names none.
pub asked : Scope → List String → List String
asked no_scope saved = saved
asked empty_scope saved = saved
asked (in_scopes l) saved = l

unfoldable pub items_of : Scope → Items
items_of no_scope = missing
items_of empty_scope = words ""
items_of (in_scopes l) = list l

abbrev pub options_for : Scope → String → Options
options_for scope grant_type = record {
  redirect_uri = none;
  scope = items_of scope;
  response_type = none;
  grant_type = some (text grant_type);
}

unfoldable pub refusal_code : Refusal → String
refusal_code unrecognized_scope = "invalid_scope"
refusal_code unsupported_grant_type = "unsupported_grant_type"
refusal_code _ = "invalid_request"

-- the refresh token of a code, where these are enabled
unfoldable pub first_refresh : Option ((List String → Fresh) × ℕ) → List String → Option (Fresh × ℕ)
first_refresh none scopes = none
first_refresh (some (generate, count)) scopes = some (generate scopes, count)

-- the AuthorizationError of `validateClient`, by its code
abbrev pub refusal : Refusal → Failure
refusal r = other (refusal_code r)

pub next_count : ℕ → (List String → Fresh) → List String → Option (Fresh × ℕ)
next_count count generate scopes = if ltb 1 count then some (generate scopes, count - 1) else none

abbrev pub stamps : Code → Stamps
stamps c = record {
  issued_at = some c.issued_at;
  expired_at = some c.expired_at;
  expires_in = some c.expires_in;
}

module _ {S E A R C : Type 0} (server : Server S E) (da : DataModel A Token)
    (dr : DataModel R Token) (dc : DataModel C Code) (claims_of : String → Decoded)
    (verify : String → String → Bool) (now : ℕ) where
  -- The token is saved, then the used refresh token and its access tokens are deleted.
  unfoldable pub rotate :
      (api : String)
      → Client
      → Token
      → List String
      → Fresh
      → Option (Fresh × ℕ)
      → Tables A R C
      → Issuing × Tables A R C
  rotate api client saved scopes a r t =
      let t' = save da dr t api client.client_id saved.user_id scopes "refreshToken" a none r in
      (
        granted a r scopes ((a.expired_at - a.issued_at) / 1000),
        record t' {
          refresh_tokens = delete_refresh dr t'.refresh_tokens client.client_id saved.id;
          access_tokens = delete_by_refresh_token da t'.access_tokens client.client_id saved.id;
        },
      )

  -- the checks on a valid refresh token, and the issue
  unfoldable pub refresh_saved :
      (api client_type : String)
      → Client
      → Scope
      → (access renew : List String → Fresh) → Token
      → Tables A R C
      → Issuing × Tables A R C
  unfolding asked next_count
  refresh_saved api client_type client scope access renew saved t =
      let scopes = asked scope saved.scopes in
      if client_type == "public" && (saved.grant == "application" && client.auth_skipped)
      then (failed_with (token_error "Missing required parameter: client_*" "invalid_request"), t)
      else if not (saved.app_id == client.client_id)
          || (ltb saved.expired_at now || not (all (contains saved.scopes) scopes))
      then (refused, t)
      else rotate api client saved scopes (access scopes) (next_count saved.count_down renew scopes)
          t

  unfoldable pub after_validation :
      (api client_type : String)
      → Client
      → Scope
      → (access renew : List String → Fresh) → Validation
      → Tables A R C
      → Issuing × Tables A R C
  after_validation api client_type client scope access renew exception t =
      (raises (other "exception"), t)
  after_validation api client_type client scope access renew no_match t = (refused, t)
  after_validation api client_type client scope access renew (valid saved) t =
      refresh_saved api client_type client scope access renew saved t

  -- `issue` of the exchange of refresh tokens
  unfoldable pub refresh_grant :
      (api client_type : String) (access renew : List String → Fresh)
      → Client
      → String
      → Scope
      → Tables A R C
      → Issuing × Tables A R C
  unfolding refusal_code
  refresh_grant api client_type access renew client token scope t =
      elim (validate_client server client.redirection_uri (options_for scope "refreshToken")) [
        | some r ↦ (failed_with (refusal r), t)
        | none ↦
            after_validation api client_type client scope access renew
              (validate_token claims_of verify dr t.refresh_tokens client.api token) t
      ]

  code_found :
      Client
      → (api code : String) → Option String
      → (access : List String → Fresh) → (renew : Option ((List String → Fresh) × ℕ)) → Option Code
      → Tables A R C
      → Issuing × Tables A R C
  unfolding first_refresh
  code_found client api code redirect_uri access renew none t = (refused, t)
  code_found client api code redirect_uri access renew (some c) t =
      if not (client.client_id == c.app_id)
      then (failed_with (token_error "Client id mismatches" "invalid_grant"), t)
      else if not (same redirect_uri c.redirect_uri)
      then (failed_with (token_error "Redirect uri mismatches" "invalid_grant"), t)
      else if is_expired now (stamps c)
      then (failed_with (token_error "Authorization code is expired" "invalid_grant"), t)
      else let a = access c.scopes in
        let r = first_refresh renew c.scopes in
        let t' = record t { codes = delete_code dc t.codes (some api) code } in
        (
          granted a r c.scopes ((a.expired_at - a.issued_at) / 1000),
          save da dr t' api client.client_id c.user_id c.scopes "accessCode" a (some code) r,
        )

  -- `issue` of the exchange of authorization codes. `renew` is the generator and the count of
  -- refresh tokens, where these are enabled.
  pub code_grant :
      (api : String) (access : List String → Fresh) (renew : Option ((List String → Fresh) × ℕ))
      → Client
      → String
      → Option String
      → Tables A R C
      → Issuing × Tables A R C
  unfolding code_found
  code_grant api access renew client code redirect_uri t =
      code_found client api code redirect_uri access renew (find_code dc t.codes api code) t

-- ===== src/OAuth/Clients.antt =====
-- lib/oauth2/az-server/middleware/authentication.js: who the client of a token request is, and who
-- its resource owner is; with the two helpers of lib/oauth2/oauth2-helper.js that take a credential
-- out of the store where its client is not authenticated.
--
-- `get_client_creds` is the data store's look-up in a snapshot, `digest` the SHA-256 digest and
-- `decode` the text of a base64 text. A deletion whose condition on `appId` is undefined has no such
-- condition in LoopBack.
pub mod Authentic
pub mod Burnt
pub mod Handlers
pub mod Tests
use microgateway.Common.{
  ℕ, String, Bool, true, false, not, ◌&&◌, ◌||◌, Option, none, some, List, [], ◌∷◌, truthy, same,
  get, split, ◌+s◌, ◌==◌, if◌then◌else◌,
}
use microgateway.OAuth.Exchange.{value_or_empty, token_error}
use microgateway.OAuth.Store.{DataModel, Token, Code, Tables, delete_code}
use microgateway.OAuth.Grants.{Client, Decoded, garbled, claims, second}
use microgateway.OAuth.Provider.{Login, login_failed, accepted}
use microgateway.Security.Ldap
use microgateway.Security.Basic.{
  Auth, first_two, Answer, granted, refused, SecurityDef, Services, basic_auth,
}

-- what `getClientCredsById` finds
pub record Creds : Type 0 where
  pub client_id : String
  pub client_secret : Option String
  pub redirection_uri : Option String

pub record Setup (R C : Type 0) : Type 0 where
  pub refresh_tokens : DataModel R Token
  pub codes : DataModel C Code
  pub claims_of : String → Decoded
  pub digest : String → String
  pub decode : String → String
  pub get_client_creds : String → Option Creds
  pub api : String
  pub client_type : String

pub data Refused : Type 0 where
  unsupported_scheme : Refused
  multiple_schemes : Refused
  missing_parameter : Refused
  authentication_error : Refused

-- `next()` with the client in `req.oauth2`, `next(err)` with or without a header WWW-Authenticate, or
-- an exception
pub data Ending : Type 0 where
  passes : Client → Ending
  refuses : Refused → (challenged : Bool) → Ending
  throws : Ending

-- what a request presents, where `client_secret` is hashed
pub data Presented : Type 0 where
  other_scheme : Presented
  twice : Presented
  no_colon : Presented
  given : (client_id client_secret : Option String) → Presented

-- `credential`, by the grant type
pub credential : List (String × String) → Option String → Option String
unfolding get
credential params grant_type =
    if same grant_type (some "refresh_token")
    then get params "refresh_token"
    else if same grant_type (some "authorization_code")
    then get params "code"
    else none

pub non_empty : Option String → Option String
non_empty o = if truthy o then o else none

module _ {R C : Type 0} (x : Setup R C) where
  -- the end of `deleteRefreshToken`; `none` is the exception of `JSON.parse`
  unfoldable pub delete_of : R → Decoded → Option R
  delete_of m garbled = none
  delete_of m (claims c) = elim c.jti [
    | none ↦ some m
    | some jti ↦
        if jti == "" then some m else some (x.refresh_tokens.destroy_all m (λ t. t.id == jti))
  ]

  unfoldable pub delete_refresh_token : R → String → Option R
  unfolding delete_of
  delete_refresh_token m token = elim (second (split b'.' token)) [
    | none ↦ some m
    | some payload ↦ if payload == "" then some m else delete_of m (x.claims_of payload)
  ]

  unfoldable pub delete_az_code : C → String → C
  unfolding delete_code
  delete_az_code m code = delete_code x.codes m none code

  pub client_of : Creds → Bool → Client
  client_of c skipped = record {
    client_id = c.client_id;
    api = x.api;
    redirection_uri = c.redirection_uri;
    auth_skipped = skipped;
  }

  pub hashed : Option String → Option String
  hashed o = if truthy o then some (x.digest (value_or_empty o)) else none

  pub of_pair : String × Option String → Presented
  of_pair (user, none) = no_colon
  of_pair (user, some pass) = given (some user) (some (x.digest pass))

  pub presented : List (String × String) → Option Auth → Presented
  unfolding non_empty hashed of_pair get
  presented params none =
      given (non_empty (get params "client_id")) (hashed (get params "client_secret"))
  presented params (some a) =
      if a.scheme == "Basic"
      then (if truthy (get params "client_id")
          then twice
          else of_pair (first_two (split b':' (x.decode a.token))))
      else other_scheme

  -- `secretIsRequired`
  pub is_required : Option String → Bool
  is_required grant_type =
      same grant_type (some "client_credentials") || not (x.client_type == "public")

  module _ {A : Type 0} where
    pub remove_credential :
        (grant_type credential : Option String) → Tables A R C → Option (Tables A R C)
    unfolding delete_refresh_token delete_az_code
    remove_credential grant_type none t = some t
    remove_credential grant_type (some credential) t =
        if credential == ""
        then some t
        else if same grant_type (some "refresh_token")
        then elim (delete_refresh_token t.refresh_tokens credential) [
          | none ↦ none
          | some m ↦ some (record t { refresh_tokens = m })
        ]
        else if same grant_type (some "authorization_code")
        then some (record t { codes = delete_az_code t.codes credential })
        else some t

    -- the refusals that take the credential away
    pub reject :
        Refused → (grant_type credential : Option String) → Tables A R C → Ending × Tables A R C
    unfolding remove_credential
    reject e grant_type credential t = elim (remove_credential grant_type credential t) [
      | none ↦ (throws, t)
      | some t' ↦ (refuses e true, t')
    ]

    -- the callback of the look-up
    pub on_creds :
        (grant_type credential client_secret : Option String)
        → Option Creds
        → Tables A R C
        → Ending × Tables A R C
    unfolding reject client_of is_required
    on_creds grant_type credential secret none t =
        reject authentication_error grant_type credential t
    on_creds grant_type credential secret (some c) t =
        if truthy secret && same c.client_secret secret
        then (passes (client_of c false), t)
        else if not (truthy secret) && not (is_required grant_type)
        then (passes (client_of c true), t)
        else reject authentication_error grant_type credential t

    pub on_presented :
        (grant_type credential : Option String) → Presented → Tables A R C → Ending × Tables A R C
    unfolding reject on_creds is_required
    on_presented grant_type credential other_scheme t =
        reject unsupported_scheme grant_type credential t
    on_presented grant_type credential twice t = (refuses multiple_schemes false, t)
    on_presented grant_type credential no_colon t = (throws, t)
    on_presented grant_type credential (given id secret) t =
        if not (truthy id) || (not (truthy secret) && is_required grant_type)
        then reject missing_parameter grant_type credential t
        else on_creds grant_type credential secret (x.get_client_creds (value_or_empty id)) t

    -- the middleware of `clientAuthenticate`
    unfoldable pub client_authenticate :
        List (String × String) → Option Auth → Tables A R C → Ending × Tables A R C
    unfolding credential presented on_presented get
    client_authenticate params header t =
        let grant_type = get params "grant_type" in
        on_presented grant_type (credential params grant_type) (presented params header) t

-- how `userAuthenticate` ends
pub answered : Answer → Login
answered granted = accepted
answered (refused code) =
    login_failed (token_error "Failed to authenticate the resource owner" "invalid_grant")

-- `userAuthenticate`; `encode` is the base64 text of a text
unfoldable pub user_authenticate :
    {P T S : Type 0}
    → Services P T
    → Ldap.Client S
    → S
    → (encode : String → String) → (snapshot : String) → SecurityDef
    → (username password : String) → Login
unfolding answered
user_authenticate services client start encode snapshot def username password = answered (
    basic_auth services client start snapshot def
      (some (record { scheme = "Basic"; token = encode (username +s ":" +s password) })))

-- ===== src/OAuth/Clients/Handlers.antt =====
-- `tokenHandlers` of lib/oauth2/az-server/index.js: the client is authenticated, and then the token
-- endpoint of the server answers.
use microgateway.Common.{String, ◌≡◌, refl, true, Option, some, List, get}
use microgateway.OAuth.Server.{End, failed, token}
use microgateway.OAuth.Exchange.{Failure, Object, Message, requested_scope, value_or_empty, route}
use microgateway.OAuth.Store.{Token, Tables}
use microgateway.OAuth.Grants.{Client, validate_token, valid}
use microgateway.OAuth.Grants.Rotation.{MayRefresh}
use microgateway.OAuth.Provider.{Provider}
use microgateway.OAuth.Provider.Registry.{Request, Settings, State, build_server, separators}
use microgateway.OAuth.Provider.Registry.Endpoint.{unsupported, token-build_server}
use microgateway.Security.Basic.{Auth}
use microgateway.OAuth.Clients.{
  Creds, Setup, Refused, Ending, passes, refuses, throws, client_authenticate,
}
use microgateway.OAuth.Clients.Authentic.{Authentic, client_authenticate-Authentic}

-- How the handlers end: with the error or the exception of the first, or as the endpoint ends.
pub data Handled : Type 0 where
  stops : Refused → Handled
  breaks : Handled
  ends : End Failure → Handled

module _ {A R C : Type 0} (p : Provider A R C) (cfg : Settings) (stringify : Object → String)
    (digest decode : String → String) (get_client_creds : String → Option Creds) where
  unfoldable pub setup : Setup R C
  setup = record {
    refresh_tokens = p.refresh_tokens;
    codes = p.codes;
    claims_of = p.claims_of;
    digest = digest;
    decode = decode;
    get_client_creds = get_client_creds;
    api = p.api;
    client_type = p.client_type;
  }

  unfoldable pub after_client :
      List (String × String) → Ending × Tables A R C → Message → Handled × State p cfg stringify
  unfolding get
  after_client params (passes c, t) m =
      let request : Request = record { client = c; parameters = params } in
      let (e, s) =
        token unsupported (build_server p cfg stringify request)
          (value_or_empty (get params "grant_type")) (t, m) in
      (ends e, s)
  after_client params (refuses e challenged, t) m = (stops e, (t, m))
  after_client params (throws, t) m = (breaks, (t, m))

  -- the handlers of a token request
  unfoldable pub token_handlers :
      List (String × String)
      → Option Auth
      → Tables A R C
      → Message
      → Handled × State p cfg stringify
  unfolding after_client setup
  token_handlers params header t m =
      after_client params (client_authenticate setup params header t) m

  -- The client is authentic, and the refresh token of the request is one of its own that it may use.
  abbrev pub MayHave : List (String × String) → Option Auth → Tables A R C → Client → Type 0
  MayHave params header t c =
      Authentic setup params header c
      × (saved : Token) × (validate_token p.claims_of p.verify p.refresh_tokens t.refresh_tokens
            c.api (value_or_empty (get params "refresh_token"))
          ≡ valid saved)
      × MayRefresh p.now c (requested_scope (separators p cfg stringify) (get params "scope")) saved

  after_client_refreshed :
      (params : List (String × String)) (header : Option Auth) (t t' : Tables A R C) (m : Message)
      (e : Ending)
      → get params "grant_type" ≡ some "refresh_token"
      → client_authenticate setup params header t ≡ (e, t')
      → (after_client params (e, t') m).0 ≡ ends (failed route)
      → (p.enable_refresh_token ≡ true) × (c : Client) × MayHave params header t c
  unfolding after_client
  after_client_refreshed params header t t' m throws g h k = cc
  after_client_refreshed params header t t' m (refuses e challenged) g h k = cc
  after_client_refreshed params header t t' m (passes c) g h k =
      let (same, authentic) = client_authenticate-Authentic setup c t t' params header h in
      let k' = rw (same, g, after_client) at k in
      let (on, (saved, is, may, _)) =
        token-build_server p cfg stringify (record { client = c; parameters = params }) t m
          (cc k') in
      (on, c, (authentic, saved, is, may))

  -- A token request with the grant type 'refresh_token' is answered with a token only where refresh
  -- tokens are enabled, the client is authentic, and its refresh token is a valid one, is its own, is not
  -- expired and has every scope that the request asks for.
  pub token_handlers_refreshed :
      (params : List (String × String)) (header : Option Auth) (t : Tables A R C) (m : Message)
      → get params "grant_type" ≡ some "refresh_token"
      → (token_handlers params header t m).0 ≡ ends (failed route)
      → (p.enable_refresh_token ≡ true) × (c : Client) × MayHave params header t c
  unfolding token_handlers
  token_handlers_refreshed params header t m g h =
      let r = client_authenticate setup params header t in
      after_client_refreshed params header t r.1 m r.0 g refl h

-- ===== src/OAuth/Provider/Tests.antt =====
-- A provider with one refresh token, and instances of the theorems on its endpoint, its permissions
-- and its pool.
use text.Mathlib.Text.{starts_with}
use microgateway.Common.{
  String, ◌≡◌, refl, true, false, none, some, List, [], ◌∷◌, get, contains, ◌==◌, if◌then◌else◌,
}
use microgateway.OAuth.Server.{
  failed, grant_type, scope, server, support_scope, support_grant_type, token, exchange_type,
  run_chain, exchange,
}
use microgateway.OAuth.Helper.{words, validate_client}
use microgateway.OAuth.Exchange.{Object, Message, route, refresh_token, issued}
use microgateway.OAuth.Store.{Token, Code, Fresh, Tables, find}
use microgateway.OAuth.Store.Memory.{memory}
use microgateway.OAuth.Store.Permission.{
  Permission, Editable, update_first, is_authorized, add_permission,
}
use microgateway.OAuth.Store.Permission.Granted.{is_authorized-add_permission}
use microgateway.OAuth.Grants.{
  items_of, Client, claims, garbled, valid, validate_token, refresh_grant, after_validation,
  refresh_saved, rotate,
}
use microgateway.OAuth.Grants.Rotation.{MayRefresh, step}
use microgateway.OAuth.Provider.{Provider, denied}
use microgateway.OAuth.Provider.Registry.{
  Settings, Request, base, build_server, when, allowed_grants,
}
use microgateway.OAuth.Provider.Registry.Endpoint.{
  answer, used_token, asked_scope, token-build_server,
}
use microgateway.OAuth.Provider.Pool.{Pool, pool_key, get_server, clean_up, get_server-clean_up}

abbrev saved : Token
saved = record {
  id = "r1";
  api_id = "api";
  app_id = "app";
  user_id = some "ann";
  secret = "key";
  grant = "password";
  scopes = "read" ∷ "write" ∷ [];
  refresh_token = none;
  authorization_code = none;
  count_down = 3;
  issued_at = 1000;
  expired_at = 9000;
  expires_in = 8;
}

abbrev pub tables : Tables (List Token) (List Token) (List Code)
tables = record { access_tokens = []; refresh_tokens = saved ∷ []; codes = [] }

abbrev pub app : Client
app = record {
  client_id = "app";
  api = "api";
  redirection_uri = some "https://app/cb";
  auth_skipped = false;
}

abbrev fresh : String → List String → Fresh
fresh id scopes = record {
  id = id;
  token = id;
  secret = "key";
  issued_at = 5000;
  expired_at = 8000;
}

abbrev pub provider : Provider (List Token) (List Token) (List Code)
provider = record {
  access_tokens = memory;
  refresh_tokens = memory;
  codes = memory;
  claims_of = λ s.
      if s == "r1"
      then claims (record { jti = some "r1"; aud = "app"; iat = 1000; exp = 9000 })
      else garbled;
  verify = λ token secret. secret == "key";
  now = 5000;
  api = "api";
  client_type = "confidential";
  access = fresh "a2";
  renew = fresh "r2";
  refresh_count = 2048;
  enable_refresh_token = true;
  login = λ username passwd. denied;
}

abbrev pub settings : Settings
settings = record {
  supported_scopes = "read" ∷ "write" ∷ [];
  grants = "application" ∷ "password" ∷ [];
}

abbrev request : Request
request = record {
  client = app;
  parameters =
      ("grant_type", "refresh_token") ∷ ("refresh_token", "h.r1.s") ∷ ("scope", "read") ∷ [];
}

abbrev pub stringify : Object → String
stringify o = "{}"

abbrev pub message : Message
message = record { headers = []; body = none }

answered : (answer provider settings stringify request (tables, message)).0 ≡ failed route
unfolding get token exchange_type run_chain exchange build_server when allowed_grants refresh_token
    issued refresh_grant after_validation refresh_saved rotate validate_token contains base
    grant_type scope server validate_client items_of support_scope support_grant_type find
answered = refl

token-build_server_example :
    (provider.enable_refresh_token ≡ true)
    × ((t : Token) × (validate_token provider.claims_of provider.verify memory tables.refresh_tokens
            "api"
            (used_token provider settings stringify request)
          ≡ valid t)
        × MayRefresh 5000 app (asked_scope provider settings stringify request) t
        × ((answer provider settings stringify request (tables, message)).1.0
            ≡ (step
                (base provider settings stringify)
                memory
                memory
                memory
                provider.claims_of
                provider.verify
                5000
                "api"
                "confidential"
                (fresh "a2")
                (fresh "r2")
                app
                (asked_scope provider settings stringify request)
                t
                tables).1))
token-build_server_example =
    token-build_server provider settings stringify request tables message answered

abbrev table : Editable (List Permission) Permission
table = record { model = memory; update = λ m p f. update_first p f m; rows-update = λ m p f. refl }

is_authorized-add_permission_example :
    is_authorized table
      (add_permission table [] "api" "app" "ann" (words "read, write") 5)
      "api"
      "app"
      "ann"
      (words "read, write")
    ≡ true
is_authorized-add_permission_example =
    is_authorized-add_permission table [] "api" "app" "ann" (words "read, write") 5

-- A server is the title of its document.
abbrev pool : Pool (λ (title : String). title)
pool = ("1:api", "one") ∷ ("12:api", "twelve") ∷ ("2:api", "two") ∷ []

-- Cleaning up the snapshot "1" also drops the server of the snapshot "12".
prefixes : clean_up (λ (title : String). title) (some "1") pool ≡ ("2:api", "two") ∷ []
unfolding clean_up
prefixes = refl

get_server-clean_up_example :
    ((api : String) (doc : String)
      → (get_server
          (λ (title : String). title)
          (clean_up (λ (title : String). title) (some "1") pool)
          "1"
          api
          doc).0
        ≡ doc)
    × ((snap' api : String) (doc : String)
        → (get_server
            (λ (title : String). title)
            (clean_up (λ (title : String). title) (some "1") pool)
            snap'
            api
            doc).0
          ≡ (if starts_with (pool_key (λ (title : String). title) snap' api) "1"
              then doc
              else (get_server (λ (title : String). title) pool snap' api doc).0))
get_server-clean_up_example = get_server-clean_up (λ (title : String). title) pool "1"

-- ===== src/OAuth/Grants/Tests.antt =====
-- A provider with one refresh token and one code, and instances of the theorems on the exchanges.
use microgateway.Common.{
  ℕ, ◌<◌, String, ◌≡◌, refl, Bool, true, false, Option, none, some, List, [], ◌∷◌, split, contains,
  ◌==◌, if◌then◌else◌,
}
use microgateway.OAuth.Server.{Server, server, text, grant_type, support_grant_type, support_scope}
use microgateway.OAuth.Helper.{validate_client, is_expired}
use microgateway.OAuth.Exchange.{no_scope, Issuing}
use microgateway.OAuth.Store.{
  Token, Code, Fresh, Tables, find_code, delete_code, find, save, delete_refresh,
}
use microgateway.OAuth.Store.Memory.{memory}
use microgateway.OAuth.Store.Lookup.{budget}
use microgateway.OAuth.Grants.{
  items_of, Client, Decoded, claims, garbled, valid, refused, validate_token, refresh_grant,
  code_grant, after_validation, refresh_saved, rotate,
}
use microgateway.OAuth.Grants.Rotation.{grants, MayRefresh, step, run, refresh_grant_sound}
use microgateway.OAuth.Grants.Spent.{after, refresh_grant-budget, refresh_grant-once}
use microgateway.OAuth.Grants.Codes.{MayExchange, exchanged, code_grant-once}

abbrev provider : Server ℕ String
provider = grant_type server (text "refreshToken")

abbrev saved : Token
saved = record {
  id = "r1";
  api_id = "api";
  app_id = "app";
  user_id = some "ann";
  secret = "key";
  grant = "password";
  scopes = "read" ∷ "write" ∷ [];
  refresh_token = none;
  authorization_code = none;
  count_down = 3;
  issued_at = 1000;
  expired_at = 9000;
  expires_in = 8;
}

abbrev code : Code
code = record {
  id = "c1";
  api_id = "api";
  app_id = "app";
  user_id = some "ann";
  issued_at = 1000;
  expired_at = 4000;
  expires_in = 3;
  scopes = "read" ∷ [];
  redirect_uri = some "https://app/cb";
}

abbrev tables : Tables (List Token) (List Token) (List Code)
tables = record { access_tokens = []; refresh_tokens = saved ∷ []; codes = code ∷ [] }

abbrev app : Client
app = record {
  client_id = "app";
  api = "api";
  redirection_uri = some "https://app/cb";
  auth_skipped = false;
}

-- The second part of "h.r1.s" decodes to the claims of the saved token.
abbrev decode : String → Decoded
decode s =
    if s == "r1"
    then claims (record { jti = some "r1"; aud = "app"; iat = 1000; exp = 9000 })
    else garbled

abbrev signed : String → String → Bool
signed token secret = secret == "key"

abbrev fresh : String → List String → Fresh
fresh id scopes = record {
  id = id;
  token = id;
  secret = "key";
  issued_at = 5000;
  expired_at = 8000;
}

abbrev refreshed : Issuing × Tables (List Token) (List Token) (List Code)
refreshed =
    run provider memory memory memory decode signed 5000 "api" "confidential" (fresh "a2")
      (fresh "r2") app no_scope "h.r1.s" tables

ok : grants refreshed.0 ≡ true
unfolding refresh_grant after_validation validate_token refresh_saved rotate validate_client server
    grant_type support_grant_type support_scope split contains find save delete_refresh items_of
ok = refl

refresh_grant_sound_example :
    (t : Token) × (validate_token decode signed memory tables.refresh_tokens "api" "h.r1.s"
      ≡ valid t)
    × MayRefresh 5000 app no_scope t
    × (refreshed
        ≡ step provider memory memory memory decode signed 5000 "api" "confidential"
            (fresh "a2")
            (fresh "r2")
            app
            no_scope
            t
            tables)
refresh_grant_sound_example =
    refresh_grant_sound provider memory memory memory decode signed 5000 "api" "confidential"
      (fresh "a2") (fresh "r2") app no_scope "h.r1.s" tables ok

refresh_grant-budget_example :
    budget (
      after provider memory memory memory decode signed 5000 "api" "confidential"
        (fresh "a2")
        (fresh "r2")
        app
        no_scope
        "h.r1.s"
        tables)
    < 3
refresh_grant-budget_example =
    refresh_grant-budget provider memory memory memory decode signed 5000 "api" "confidential"
      (fresh "a2") (fresh "r2") app no_scope "h.r1.s" tables ok

refresh_grant-once_example :
    let again =
      run provider memory memory memory decode signed 6000 "api" "public"
        (fresh "a3")
        (fresh "r3")
        app
        no_scope
        "h.r1.s"
        refreshed.1 in
    (grants again.0 ≡ false) × (again.1 ≡ refreshed.1)
refresh_grant-once_example =
    refresh_grant-once provider memory memory memory decode signed 5000 "api" "confidential"
      (fresh "a2") (fresh "r2") app no_scope "h.r1.s" tables (tt, tt) ((λ _. refl), tt) ok 6000
      "api" "public" (fresh "a3") (fresh "r3") app no_scope refl

abbrev once : Issuing × Tables (List Token) (List Token) (List Code)
once =
    exchanged provider memory memory memory decode signed 2000 "api" (fresh "a1")
      (some (fresh "r3", 2)) app "c1" (some "https://app/cb") tables

ok_code : grants once.0 ≡ true
unfolding code_grant find_code delete_code is_expired save
ok_code = refl

code_grant-once_example :
    ((c : Code) × (find_code memory tables.codes "api" "c1" ≡ some c)
      × MayExchange 2000 app (some "https://app/cb") c)
    × ((now' : ℕ) (access' : List String → Fresh) (renew' : Option ((List String → Fresh) × ℕ))
          (client' : Client) (redirect_uri' : Option String)
        → exchanged provider memory memory memory decode signed now' "api" access' renew' client'
            "c1" redirect_uri' once.1
          ≡ (refused, once.1))
code_grant-once_example =
    code_grant-once provider memory memory memory decode signed 2000 "api" (fresh "a1")
      (some (fresh "r3", 2)) app "c1" (some "https://app/cb") tables ok_code

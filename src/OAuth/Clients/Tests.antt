-- ===== src/OAuth/Clients/Tests.antt =====
-- Requests of one client for the tokens of a provider, and the theorems on them.
use microgateway.Common.{
  String, ◌≡◌, refl, true, false, Option, none, some, List, [], ◌∷◌, get, contains, split,
  split_from, ◌+s◌,
}
use microgateway.OAuth.Server.{
  server, failed, grant_type, scope, support_scope, support_grant_type, token, exchange_type,
  run_chain, exchange,
}
use microgateway.OAuth.Helper.{validate_client}
use microgateway.OAuth.Exchange.{no_scope, route, refresh_token, issued}
use microgateway.OAuth.Store.{Token, Code, Tables, Fresh, find, delete_code}
use microgateway.OAuth.Store.Memory.{memory}
use microgateway.OAuth.Grants.{
  Client, second, items_of, validate_token, refresh_grant, after_validation, refresh_saved, rotate,
  refused,
}
use microgateway.OAuth.Grants.Rotation.{grants, run}
use microgateway.OAuth.Grants.Codes.{exchanged}
use microgateway.OAuth.Provider.Registry.{base, build_server, when, allowed_grants}
use microgateway.OAuth.Provider.Tests.{provider, settings, tables, stringify, message, app}
use microgateway.Security.Basic.{first_two}
use microgateway.OAuth.Clients.{
  Creds, Setup, passes, refuses, authentication_error, missing_parameter, client_authenticate,
}
use microgateway.OAuth.Clients.Authentic.{Authentic, client_authenticate-Authentic}
use microgateway.OAuth.Clients.Burnt.{
  client_authenticate_burns_refresh, client_authenticate_burns_code,
}
use microgateway.OAuth.Clients.Handlers.{
  setup, token_handlers, ends, MayHave, token_handlers_refreshed,
}

abbrev digest : String → String
digest s = s +s "#"

abbrev decode : String → String
decode s = s

abbrev get_creds : String → Option Creds
get_creds id =
    get
      ((
        "app",
        record {
          client_id = "app";
          client_secret = some "secret#";
          redirection_uri = some "https://app/cb";
        },
      )
        ∷ [])
      id

abbrev clients : Setup (List Token) (List Code)
clients = setup provider settings stringify digest decode get_creds

abbrev refresh_params : String → List (String × String)
refresh_params secret =
    ("grant_type", "refresh_token")
    ∷ ("refresh_token", "h.r1.s")
    ∷ ("scope", "read")
    ∷ ("client_id", "app")
    ∷ ("client_secret", secret)
    ∷ []

lets_in : client_authenticate clients (refresh_params "secret") none tables ≡ (passes app, tables)
unfolding client_authenticate get setup
lets_in = refl

by_header :
    client_authenticate clients [] (some (record { scheme = "Basic"; token = "app:secret" })) tables
    ≡ (passes app, tables)
unfolding client_authenticate get setup split split_from first_two
by_header = refl

client_authenticate-Authentic_example :
    (tables ≡ tables) × Authentic clients (refresh_params "secret") none app
client_authenticate-Authentic_example =
    client_authenticate-Authentic clients app tables tables (refresh_params "secret") none lets_in

refreshes :
    (token_handlers provider settings stringify digest decode get_creds
      (refresh_params "secret")
      none
      tables
      message).0
    ≡ ends (failed route)
unfolding token_handlers client_authenticate get setup token exchange_type run_chain exchange
    build_server when allowed_grants refresh_token issued refresh_grant after_validation
    refresh_saved rotate validate_token contains base grant_type scope server validate_client
    items_of support_scope support_grant_type find
refreshes = refl

is_refresh : get (refresh_params "secret") "grant_type" ≡ some "refresh_token"
unfolding get
is_refresh = refl

token_handlers_refreshed_example :
    (provider.enable_refresh_token ≡ true)
    × (c : Client) × MayHave provider settings stringify digest decode get_creds
        (refresh_params "secret")
        none
        tables
        c
token_handlers_refreshed_example =
    token_handlers_refreshed provider settings stringify digest decode get_creds
      (refresh_params "secret") none tables message is_refresh refreshes

abbrev tables_without_refresh : Tables (List Token) (List Token) (List Code)
tables_without_refresh = record tables { refresh_tokens = [] }

shuts_out :
    client_authenticate clients (refresh_params "guess") none tables
    ≡ (refuses authentication_error true, tables_without_refresh)
unfolding client_authenticate get setup split split_from second
shuts_out = refl

is_token : get (refresh_params "guess") "refresh_token" ≡ some "h.r1.s"
unfolding get
is_token = refl

is_refresh_guess : get (refresh_params "guess") "grant_type" ≡ some "refresh_token"
unfolding get
is_refresh_guess = refl

abbrev fresh : List String → Fresh
fresh scopes = record {
  id = "a3";
  token = "a3";
  secret = "key";
  issued_at = 5000;
  expired_at = 8000;
}

client_authenticate_burns_refresh_example :
    let again =
      run
        (base provider settings stringify)
        memory
        memory
        memory
        provider.claims_of
        provider.verify
        5001
        "api"
        "confidential"
        fresh
        fresh
        app
        no_scope
        "h.r1.s"
        tables_without_refresh in
    (grants again.0 ≡ false) × (again.1 ≡ tables_without_refresh)
unfolding setup
client_authenticate_burns_refresh_example =
    client_authenticate_burns_refresh clients (refresh_params "guess") none tables
      tables_without_refresh authentication_error "h.r1.s" is_refresh_guess is_token refl shuts_out
      (base provider settings stringify) memory provider.verify 5001 "api" "confidential" fresh
      fresh app no_scope

abbrev tables_with_code : Tables (List Token) (List Token) (List Code)
tables_with_code = record tables {
  codes =
      record {
        id = "c0de";
        api_id = "api";
        app_id = "app";
        user_id = some "ann";
        issued_at = 1000;
        expired_at = 9000;
        expires_in = 8;
        scopes = "read" ∷ [];
        redirect_uri = none;
      }
      ∷ [];
}

abbrev code_params : List (String × String)
code_params = ("grant_type", "authorization_code") ∷ ("code", "c0de") ∷ ("client_id", "app") ∷ []

shuts_out_code :
    client_authenticate clients code_params none tables_with_code
    ≡ (refuses missing_parameter true, tables)
unfolding client_authenticate get setup delete_code
shuts_out_code = refl

is_code : get code_params "grant_type" ≡ some "authorization_code"
unfolding get
is_code = refl

is_given : get code_params "code" ≡ some "c0de"
unfolding get
is_given = refl

client_authenticate_burns_code_example :
    exchanged
      (base provider settings stringify)
      memory
      memory
      memory
      provider.claims_of
      provider.verify
      5001
      "api"
      fresh
      none
      app
      "c0de"
      none
      tables
    ≡ (refused, tables)
unfolding setup
client_authenticate_burns_code_example =
    client_authenticate_burns_code clients code_params none tables_with_code tables
      missing_parameter "c0de" is_code is_given refl shuts_out_code
      (base provider settings stringify) memory provider.verify 5001 "api" fresh none app none

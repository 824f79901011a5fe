-- ===== src/OAuth/Helper/Tests.antt =====
-- Requests of one client, and instances of the theorems on scopes and on the client's checks.
use microgateway.Common.{
  ℕ, ◌≡◌, ◌↔◌, String, refl, true, false, none, some, [], ◌∷◌, contains, split,
}
use microgateway.OAuth.Server.{
  Server, server, text, scope, grant_type, support_scope, support_grant_type,
}
use microgateway.OAuth.Helper.{
  Stamps, is_expired, words, normalize_list, Options, validate_client, unrecognized_scope,
  invalid_redirect_uri,
}
use microgateway.OAuth.Helper.Client.{
  RedirectFits, ScopeFits, ResponseFits, GrantFits, validate_client_iff,
}

abbrev short_lived : Stamps
short_lived = record { issued_at = some 5000; expired_at = none; expires_in = some 2 }

expired : (is_expired 7001 short_lived ≡ true) × (is_expired 7000 short_lived ≡ false)
unfolding is_expired
expired = (refl, refl)

scopes : normalize_list (words "read, write  admin") ≡ "read" ∷ "write" ∷ "admin" ∷ []
unfolding normalize_list
scopes = refl

abbrev provider : Server ℕ String
provider = grant_type (scope server (text "read write")) (text "refreshToken")

abbrev request_for : String → Options
request_for scopes = record {
  redirect_uri = some "https://app/cb?x=1";
  scope = words scopes;
  response_type = none;
  grant_type = some (text "refreshToken");
}

requests :
    (validate_client provider (some "https://app/cb") (request_for "read") ≡ none)
    × (validate_client provider (some "https://app/cb") (request_for "admin")
        ≡ some unrecognized_scope)
    × (validate_client provider (some "https://other") (request_for "read")
        ≡ some invalid_redirect_uri)
unfolding validate_client grant_type scope server split contains support_scope support_grant_type
requests = (refl, refl, refl)

validate_client_iff_example :
    (validate_client provider (some "https://app/cb") (request_for "read") ≡ none) ↔ (
      RedirectFits (some "https://app/cb") (some "https://app/cb?x=1")
      × ScopeFits provider (words "read")
      × ResponseFits provider none
      × GrantFits provider (some (text "refreshToken")))
validate_client_iff_example =
    validate_client_iff provider (some "https://app/cb") (request_for "read")

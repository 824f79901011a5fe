-- ===== src/OAuth/Store/Tests.antt =====
-- A purge of a table of two tokens.
use microgateway.Common.{ℕ, String, ◌≡◌, refl, none, some, List, [], ◌∷◌}
use microgateway.OAuth.Store.{Token, find, purge}
use microgateway.OAuth.Store.Memory.{memory}

abbrev token_until : String → ℕ → Token
token_until id expired_at = record {
  id = id;
  api_id = "api";
  app_id = "app";
  user_id = none;
  secret = "key";
  grant = "password";
  scopes = "read" ∷ [];
  refresh_token = none;
  authorization_code = none;
  count_down = 3;
  issued_at = 10;
  expired_at = expired_at;
  expires_in = 1;
}

abbrev two_tokens : List Token
two_tokens = token_until "old" 1000 ∷ token_until "new" 3000 ∷ []

old_is_gone : find memory (purge memory two_tokens 1000) "api" "old" ≡ none
unfolding find purge
old_is_gone = refl

new_is_found :
    find memory (purge memory two_tokens 1000) "api" "new" ≡ some (token_until "new" 3000)
unfolding find purge
new_is_found = refl

-- ===== src/OAuth/Resource/Tests.antt =====
-- A token of a table of one, and an instance of the theorem on bearer tokens.
use microgateway.Common.{String, ◌≡◌, ◌↔◌, refl, Bool, none, some, [], ◌∷◌, contains, ◌==◌}
use microgateway.OAuth.Store.{Token, find_by_id}
use microgateway.OAuth.Store.Memory.{memory}
use microgateway.OAuth.Resource.{
  Payload, payload, accepted, invalid_token, jwt_access_token_validator,
}
use microgateway.OAuth.Resource.Accepted.{Valid, jwt_access_token_validator-accepted_iff}

abbrev token : Token
token = record {
  id = "t1";
  api_id = "api";
  app_id = "app";
  user_id = some "ann";
  secret = "key";
  grant = "password";
  scopes = "read" ∷ "write" ∷ [];
  refresh_token = none;
  authorization_code = none;
  count_down = 0;
  issued_at = 10;
  expired_at = 900;
  expires_in = 1;
}

abbrev bearer : Payload
bearer = record { jti = some "t1"; aud = some "app"; iat = some 10; exp = some 900 }

abbrev verify : (jwt secret : String) → Bool
verify jwt secret = secret == "key"

is_accepted :
    jwt_access_token_validator memory verify
      (token ∷ [])
      500
      "jwt"
      (payload bearer)
      ("write" ∷ [])
      none
    ≡ accepted token
unfolding jwt_access_token_validator contains find_by_id
is_accepted = refl

too_late :
    jwt_access_token_validator memory verify (token ∷ []) 901 "jwt" (payload bearer) [] none
    ≡ invalid_token 401
unfolding jwt_access_token_validator
too_late = refl

is_out_of_scope :
    jwt_access_token_validator memory verify
      (token ∷ [])
      500
      "jwt"
      (payload bearer)
      ("admin" ∷ [])
      none
    ≡ invalid_token 403
unfolding jwt_access_token_validator contains find_by_id
is_out_of_scope = refl

jwt_access_token_validator-accepted_iff_example :
    (jwt_access_token_validator memory verify
        (token ∷ [])
        500
        "jwt"
        (payload bearer)
        ("write" ∷ [])
        none
      ≡ accepted token)
    ↔ Valid memory verify (token ∷ []) 500 "jwt" (payload bearer) ("write" ∷ []) none token
jwt_access_token_validator-accepted_iff_example =
    jwt_access_token_validator-accepted_iff memory verify (token ∷ []) 500 "jwt" (payload bearer)
      ("write" ∷ []) none token

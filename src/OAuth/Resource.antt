-- ===== src/OAuth/Resource.antt =====
-- lib/oauth2/resource-server/resource-server.js: the validation of a bearer token for a resource.
-- `verify` is `jwt.verify` with HS256, on the token and a secret; the decoding of the token by the
-- package jws and `JSON.parse` is its outcome. The look-up of the token does not fail.
pub mod Accepted
pub mod Tests
use microgateway.Common.{
  ℕ, String, ◌≡◌, Bool, true, false, ◌&&◌, Option, none, some, List, [], ◌∷◌, all, contains, ltb,
  nat_eq, truthy, ◌==◌, if◌then◌else◌,
}
use microgateway.OAuth.Store.{DataModel, Token, find_by_id}

-- The payload: `jti` and `aud` where they are texts, `iat` and `exp` where they are dates.
pub record Payload : Type 0 where
  pub jti : Option String
  pub aud : Option String
  pub iat : Option ℕ
  pub exp : Option ℕ

pub data Decoded : Type 0 where
  undecodable : Decoded
  unparsable : Decoded
  payload : Payload → Decoded

-- a payload of the right format
pub record Bearer : Type 0 where
  pub jti : String
  pub aud : String
  pub iat : ℕ
  pub exp : ℕ

-- What `done` gets: an error with its code, or the token that was found.
pub data Verdict : Type 0 where
  invalid_token : (status : ℕ) → Verdict
  invalid_request : Verdict
  accepted : Token → Verdict

-- `verifyTokenFormat`
pub verify_token_format : Payload → Option Bearer
verify_token_format p = elim p.jti [
  | none ↦ none
  | some jti ↦ elim p.aud [
    | none ↦ none
    | some aud ↦ elim p.iat [
      | none ↦ none
      | some iat ↦ elim p.exp [
        | none ↦ none
        | some exp ↦ some (record { jti = jti; aud = aud; iat = iat; exp = exp })
      ]
    ]
  ]
]

-- `compareAccessToken` finds no difference.
pub compare_access_token : Bearer → Token → Bool
compare_access_token b t =
    b.jti == t.id && (b.aud == t.app_id && (nat_eq b.iat t.issued_at && nat_eq b.exp t.expired_at))

pub scopes_satisfied : (required granted : List String) → Bool
scopes_satisfied required granted = all (contains granted) required

-- the client id of the query, where it is given, is that of the token
pub app_fits : Option String → Token → Bool
app_fits none t = true
app_fits (some id) t = if id == "" then true else id == t.app_id

module _ {M : Type 0} (d : DataModel M Token) (verify : (jwt secret : String) → Bool) where
  -- the callback of `findById`
  pub on_found :
      Token → (jwt : String) → Bearer → (required : List String) → Option String → Verdict
  unfolding compare_access_token scopes_satisfied app_fits
  on_found t jwt b required app =
      if verify jwt t.secret
      then (if compare_access_token b t
          then (if scopes_satisfied required t.scopes
              then (if app_fits app t then accepted t else invalid_token 403)
              else invalid_token 403)
          else invalid_token 401)
      else invalid_token 401

  pub on_format :
      M → (now : ℕ) → (jwt : String) → Bearer → (required : List String) → Option String → Verdict
  unfolding on_found
  on_format m now jwt b required app =
      if ltb b.exp now then invalid_token 401 else elim (find_by_id d m b.jti) [
        | none ↦ invalid_token 401
        | some t ↦ on_found t jwt b required app
      ]

  -- `jwtAccessTokenValidator`
  unfoldable pub jwt_access_token_validator :
      M → (now : ℕ) → (jwt : String) → Decoded → (required : List String) → Option String → Verdict
  unfolding on_format verify_token_format
  jwt_access_token_validator m now jwt undecodable required app = invalid_token 401
  jwt_access_token_validator m now jwt unparsable required app = invalid_token 401
  jwt_access_token_validator m now jwt (payload p) required app = elim (verify_token_format p) [
    | none ↦ invalid_request
    | some b ↦ on_format m now jwt b required app
  ]

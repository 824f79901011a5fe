-- ===== src/OAuth/Grants/Callback.antt =====
-- What the exchange of refresh tokens passes to its callback.
use microgateway.Common.{
  ℕ, String, ◌≡◌, refl, Bool, true, false, List, arith, Option-cases, inl, inr,
}
use microgateway.OAuth.Server.{Server}
use microgateway.OAuth.Helper.{validate_client}
use microgateway.OAuth.Exchange.{Issuing, calls, raises, silent, Scope}
use microgateway.OAuth.Exchange.Success.{is_route, succeeds}
use microgateway.OAuth.Store.{Token, Code, DataModel, Fresh, Tables}
use microgateway.OAuth.Grants.{
  Client, Decoded, Validation, exception, no_match, valid, options_for, validate_token,
  refresh_saved, after_validation, refresh_grant, rotate,
}
use microgateway.OAuth.Grants.Rotation.{grants, run}

pub succeeds-grants : (x : Issuing) → succeeds x ≡ true → grants x ≡ true
succeeds-grants (calls i) h = ground arith
succeeds-grants (raises e) h = cc
succeeds-grants silent h = cc

module _ {S E A R C : Type 0} (server : Server S E) (da : DataModel A Token)
    (dr : DataModel R Token) (dc : DataModel C Code) (claims_of : String → Decoded)
    (verify : String → String → Bool) (now : ℕ) (api client_type : String)
    (access renew : List String → Fresh) (client : Client) (scope : Scope) where
  saved-is_route :
      (saved : Token) (t : Tables A R C)
      → is_route
          (refresh_saved server da dr dc claims_of verify now api client_type client scope access
            renew saved t).0
        ≡ false
  unfolding refresh_saved rotate
  saved-is_route saved t = ground arith

  validation-is_route :
      (v : Validation) (t : Tables A R C)
      → is_route
          (after_validation server da dr dc claims_of verify now api client_type client scope access
            renew v t).0
        ≡ false
  unfolding after_validation
  validation-is_route exception t = refl
  validation-is_route no_match t = refl
  validation-is_route (valid saved) t = saved-is_route saved t

  -- The callback never gets 'route' for an error.
  pub run-is_route :
      (token : String) (t : Tables A R C)
      → is_route
          (run server da dr dc claims_of verify now api client_type access renew client scope token
            t).0
        ≡ false
  unfolding refresh_grant
  run-is_route token t =
      elim (Option-cases
        (validate_client server client.redirection_uri (options_for scope "refreshToken"))) [
          | inl e ↦
              rw (e, refresh_grant)
                (validation-is_route
                  (validate_token claims_of verify dr t.refresh_tokens client.api token) t)
          | inr (r, e) ↦ rw (e, refresh_grant) refl
        ]

-- ===== src/OAuth/Grants/Rotation.antt =====
-- The exchange of refresh tokens: what a success proves, and how often it can happen.
use microgateway.Common.{
  ℕ, ◌≤◌, String, ◌≡◌, refl, Bool, true, false, List, arith, Option-cases, inl, inr, all, contains,
  is_some, eq_iff,
}
use microgateway.OAuth.Server.{Server}
use microgateway.OAuth.Helper.{validate_client}
use microgateway.OAuth.Exchange.{Scope, Issuing, calls, raises, silent}
use microgateway.OAuth.Store.{Token, Code, DataModel, Fresh, Tables}
use microgateway.OAuth.Grants.{
  Client, Decoded, Validation, exception, no_match, valid, validate_token, asked, options_for,
  next_count, rotate, refresh_saved, after_validation, refresh_grant,
}

-- The callback got an access token.
abbrev pub grants : Issuing → Bool
grants (calls i) = is_some i.access_token
grants (raises e) = false
grants silent = false

-- What the checks on a saved refresh token ask for.
pub record MayRefresh (now : ℕ) (client : Client) (scope : Scope) (saved : Token) : Type 0 where
  pub owner : saved.app_id ≡ client.client_id
  pub alive : now ≤ saved.expired_at
  pub covered : all (contains saved.scopes) (asked scope saved.scopes) ≡ true

module _ {S E A R C : Type 0} (server : Server S E) (da : DataModel A Token)
    (dr : DataModel R Token) (dc : DataModel C Code) (claims_of : String → Decoded)
    (verify : String → String → Bool) (now : ℕ) (api client_type : String)
    (access renew : List String → Fresh) (client : Client) (scope : Scope) where
  abbrev pub step : Token → Tables A R C → Issuing × Tables A R C
  step saved t =
      let scopes = asked scope saved.scopes in
      rotate server da dr dc claims_of verify now api client saved scopes (access scopes)
        (next_count saved.count_down renew scopes) t

  refresh_saved-grants :
      (saved : Token) (t : Tables A R C)
      → grants
          (refresh_saved server da dr dc claims_of verify now api client_type client scope access
            renew saved t).0
        ≡ true
      → MayRefresh now client scope saved
        × (refresh_saved server da dr dc claims_of verify now api client_type client scope access
              renew saved t
            ≡ step saved t)
  unfolding refresh_saved
  refresh_saved-grants saved t h =
      let same = eq_iff saved.app_id client.client_id in
      (
        record { owner = ground (arith, same); alive = ground arith; covered = ground arith },
        ground arith,
      )

  after_validation-grants :
      (v : Validation) (t : Tables A R C)
      → grants
          (after_validation server da dr dc claims_of verify now api client_type client scope access
            renew v t).0
        ≡ true
      → (saved : Token) × (v ≡ valid saved)
        × MayRefresh now client scope saved
        × (after_validation server da dr dc claims_of verify now api client_type client scope access
              renew v t
            ≡ step saved t)
  unfolding after_validation
  after_validation-grants exception t h = cc
  after_validation-grants no_match t h = cc
  after_validation-grants (valid saved) t h =
      let (may, same) = refresh_saved-grants saved t h in (saved, refl, may, same)

  abbrev pub run : String → Tables A R C → Issuing × Tables A R C
  run token t =
      refresh_grant server da dr dc claims_of verify now api client_type access renew client token
        scope t

  -- A refresh that gives an access token had a valid refresh token of the same client, not expired,
  -- with every scope that is asked for among its own; and its outcome is that of the rotation.
  pub refresh_grant_sound :
      (token : String) (t : Tables A R C)
      → grants (run token t).0 ≡ true
      → (saved : Token) × (validate_token claims_of verify dr t.refresh_tokens client.api token
          ≡ valid saved)
        × MayRefresh now client scope saved
        × (run token t ≡ step saved t)
  unfolding refresh_grant
  refresh_grant_sound token t h =
      elim (Option-cases
        (validate_client server client.redirection_uri (options_for scope "refreshToken"))) [
          | inl e ↦
              rw (e, refresh_grant)
                (after_validation-grants
                  (validate_token claims_of verify dr t.refresh_tokens client.api token) t
                  (rw (e, refresh_grant) at h))
          | inr (r, e) ↦ cc (rw (e, refresh_grant) at h)
        ]

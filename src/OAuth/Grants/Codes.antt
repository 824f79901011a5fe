-- ===== src/OAuth/Grants/Codes.antt =====
-- The exchange of authorization codes: what a success proves, and that a code serves once.
use microgateway.Common.{
  ℕ, String, ◌≡◌, refl, ap, ◌∙◌, Bool, true, false, Option, none, some, List, arith, same, eq_iff,
}
use microgateway.OAuth.Server.{Server}
use microgateway.OAuth.Exchange.{Issuing}
use microgateway.OAuth.Helper.{is_expired}
use microgateway.OAuth.Store.{Token, Code, DataModel, Fresh, Tables, find_code, delete_code, save}
use microgateway.OAuth.Store.Lookup.{find_code-delete_code}
use microgateway.OAuth.Grants.{
  Client, Decoded, stamps, refused, first_refresh, code_found, code_grant,
}
use microgateway.OAuth.Grants.Rotation.{grants}

-- What the checks on a code ask for.
pub record MayExchange (now : ℕ) (client : Client) (redirect_uri : Option String) (c : Code)
    : Type 0 where
  pub owner : client.client_id ≡ c.app_id
  pub redirected : same redirect_uri c.redirect_uri ≡ true
  pub alive : is_expired now (stamps c) ≡ false

save-codes :
    {A R C : Type 0} (da : DataModel A Token) (dr : DataModel R Token) (t : Tables A R C)
    (api client : String) (user : Option String) (scopes : List String) (grant : String) (a : Fresh)
    (az_code : Option String) (r : Option (Fresh × ℕ))
    → (save da dr t api client user scopes grant a az_code r).codes ≡ t.codes
unfolding save
save-codes da dr t api client user scopes grant a az_code none = refl
save-codes da dr t api client user scopes grant a az_code (some _) = refl

module _ {S E A R C : Type 0} (server : Server S E) (da : DataModel A Token)
    (dr : DataModel R Token) (dc : DataModel C Code) (claims_of : String → Decoded)
    (verify : String → String → Bool) (now : ℕ) (api : String) (access : List String → Fresh)
    (renew : Option ((List String → Fresh) × ℕ)) where
  code_found-grants :
      (client : Client) (code : String) (redirect_uri : Option String) (o : Option Code)
      (t : Tables A R C)
      → grants
          (code_found server da dr dc claims_of verify now client api code redirect_uri access renew
            o t).0
        ≡ true
      → (c : Code) × (o ≡ some c)
        × MayExchange now client redirect_uri c
        × ((code_found server da dr dc claims_of verify now client api code redirect_uri access
              renew o t).1.codes
            ≡ delete_code dc t.codes (some api) code)
  unfolding code_found
  code_found-grants client code redirect_uri none t h = cc
  code_found-grants client code redirect_uri (some c) t h =
      let owns = eq_iff client.client_id c.app_id in
      (
        c,
        refl,
        record { owner = ground (arith, owns); redirected = ground arith; alive = ground arith },
        ground (
          arith,
          save-codes da dr (record t { codes = delete_code dc t.codes (some api) code }) api
              client.client_id c.user_id c.scopes "accessCode" (access c.scopes) (some code)
              (first_refresh renew c.scopes),
        ),
      )

  abbrev pub exchanged : Client → String → Option String → Tables A R C → Issuing × Tables A R C
  exchanged client code redirect_uri t =
      code_grant server da dr dc claims_of verify now api access renew client code redirect_uri t

  code_grant-grants :
      (client : Client) (code : String) (redirect_uri : Option String) (t : Tables A R C)
      → grants (exchanged client code redirect_uri t).0 ≡ true
      → (c : Code) × (find_code dc t.codes api code ≡ some c)
        × MayExchange now client redirect_uri c
        × ((exchanged client code redirect_uri t).1.codes ≡ delete_code dc t.codes (some api) code)
  unfolding code_grant
  code_grant-grants client code redirect_uri t h =
      code_found-grants client code redirect_uri (find_code dc t.codes api code) t h

  pub unknown-refuses :
      (client : Client) (code : String) (redirect_uri : Option String) (t : Tables A R C)
      → find_code dc t.codes api code ≡ none
      → exchanged client code redirect_uri t ≡ (refused, t)
  unfolding code_grant code_found
  unknown-refuses client code redirect_uri t h = rw (h, code_grant) refl

-- An exchange that gives an access token had a code of the client, saved with the same redirect URI
-- and not expired; and the code serves once: any further exchange of it at the API, by any client
-- and at any time, is refused and changes no table.
pub code_grant-once :
    {S E A R C : Type 0} (server : Server S E) (da : DataModel A Token) (dr : DataModel R Token)
    (dc : DataModel C Code) (claims_of : String → Decoded) (verify : String → String → Bool)
    (now : ℕ) (api : String) (access : List String → Fresh)
    (renew : Option ((List String → Fresh) × ℕ)) (client : Client) (code : String)
    (redirect_uri : Option String) (t : Tables A R C)
    → grants
        (exchanged server da dr dc claims_of verify now api access renew client code redirect_uri
          t).0
      ≡ true
    → let t' =
        (exchanged server da dr dc claims_of verify now api access renew client code redirect_uri
          t).1 in
      ((c : Code) × (find_code dc t.codes api code ≡ some c)
        × MayExchange now client redirect_uri c)
      × ((now' : ℕ) (access' : List String → Fresh) (renew' : Option ((List String → Fresh) × ℕ))
            (client' : Client) (redirect_uri' : Option String)
          → exchanged server da dr dc claims_of verify now' api access' renew' client' code
              redirect_uri' t'
            ≡ (refused, t'))
code_grant-once server da dr dc claims_of verify now api access renew client code redirect_uri t h =
    let (c, found, may, gone) =
      code_grant-grants server da dr dc claims_of verify now api access renew client code
        redirect_uri t h in
    let t' =
      (exchanged server da dr dc claims_of verify now api access renew client code redirect_uri
        t).1 in
    (
      (c, found, may),
      λ now' access' renew' client' redirect_uri'.
          unknown-refuses server da dr dc claims_of verify now' api access' renew' client' code
            redirect_uri' t'
            (ap (λ m. find_code dc m api code) gone ∙ find_code-delete_code dc t.codes api code),
    )

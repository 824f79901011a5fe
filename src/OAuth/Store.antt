-- ===== src/OAuth/Store.antt =====
-- lib/oauth2/models/index.js: the token store of the provider. The LoopBack models behind it are
-- tables with the operations of `DataModel`, which is an argument of all that uses them; its laws
-- are LoopBack's documented behaviour of `create`, `findOne` and `destroyAll`, where no operation
-- fails and the order of the rows is that of their creation.
--
-- A row of the access or refresh tokens has the fields of both; a date is a number of milliseconds.
pub mod Lookup
pub mod Memory
pub mod Purge
pub mod Permission
pub mod Tests
use Prim.Native.Nat.{◌/◌}
use microgateway.Common.{
  ℕ, ◌-◌, String, ◌≡◌, Bool, true, false, not, ◌&&◌, Option, none, some, ◌++◌, ◌∷◌, [], leb, keep,
  find_first, same, ◌==◌, if◌then◌else◌,
}
use mathlib.Core.List.{List as Rows}

pub record Token : Type 0 where
  pub id : String
  pub api_id : String
  pub app_id : String
  pub user_id : Option String
  pub secret : String
  pub grant : String
  pub scopes : Rows String
  pub refresh_token : Option String
  pub authorization_code : Option String
  pub count_down : ℕ
  pub issued_at : ℕ
  pub expired_at : ℕ
  pub expires_in : ℕ

pub record Code : Type 0 where
  pub id : String
  pub api_id : String
  pub app_id : String
  pub user_id : Option String
  pub issued_at : ℕ
  pub expired_at : ℕ
  pub expires_in : ℕ
  pub scopes : Rows String
  pub redirect_uri : Option String

-- A table `M` of rows `R`, as LoopBack gives it.
pub record DataModel (M R : Type 0) : Type 0 where
  pub rows : M → Rows R
  pub create : M → R → M
  pub destroy_all : M → (R → Bool) → M
  pub rows-create : (m : M) (r : R) → rows (create m r) ≡ rows m ++ r ∷ []
  pub rows-destroy_all :
      (m : M) (p : R → Bool) → rows (destroy_all m p) ≡ keep (λ r. not (p r)) (rows m)

abbrev find_one : {M R : Type 0} → DataModel M R → M → (R → Bool) → Option R
find_one d m p = find_first p (d.rows m)

-- A result of another API is no result.
of_api : String → Option Token → Option Token
of_api api none = none
of_api api (some t) = if t.api_id == api then some t else none

code_of_api : String → Option Code → Option Code
code_of_api api none = none
code_of_api api (some c) = if c.api_id == api then some c else none

-- What the token generator gives for a new token.
pub record Fresh : Type 0 where
  pub id : String
  pub token : String
  pub secret : String
  pub issued_at : ℕ
  pub expired_at : ℕ

module _ {M : Type 0} (d : DataModel M Token) where
  -- `find` of accessTokens and of refreshTokens
  unfoldable pub find : M → (api id : String) → Option Token
  unfolding of_api
  find m api id = of_api api (find_one d m (λ t. t.id == id))

  -- accessToken.findById
  unfoldable pub find_by_id : M → String → Option Token
  find_by_id m id = find_one d m (λ t. t.id == id)

  pub find_by_refresh_token : M → String → Option Token
  find_by_refresh_token m id = find_one d m (λ t. same t.refresh_token (some id))

  unfoldable pub delete_by_refresh_token : M → (client id : String) → M
  delete_by_refresh_token m client id =
      d.destroy_all m (λ t. t.app_id == client && same t.refresh_token (some id))

  -- accessToken.delete
  unfoldable pub delete_access : M → (client id token_type : String) → M
  unfolding delete_by_refresh_token
  delete_access m client id token_type =
      if token_type == "access_token"
      then d.destroy_all m (λ t. t.app_id == client && t.id == id)
      else delete_by_refresh_token m client id

  -- refreshToken.delete
  unfoldable pub delete_refresh : M → (client id : String) → M
  delete_refresh m client id = d.destroy_all m (λ t. t.id == id && t.app_id == client)

  -- `purge` of accessTokens and of refreshTokens: `expiredAt` at most now
  unfoldable pub purge : M → ℕ → M
  purge m now = d.destroy_all m (λ t. leb t.expired_at now)

  -- accessToken._save
  unfoldable pub save_access :
      M
      → (api client : String) → Option String
      → Rows String
      → (grant : String) → Fresh
      → (refresh_id az_code : Option String) → M
  save_access m api client user scopes grant t refresh_id az_code = d.create m (record {
    id = t.id;
    api_id = api;
    app_id = client;
    user_id = user;
    secret = t.secret;
    grant = grant;
    scopes = scopes;
    refresh_token = refresh_id;
    authorization_code = az_code;
    count_down = 0;
    issued_at = t.issued_at;
    expired_at = t.expired_at;
    expires_in = (t.expired_at - t.issued_at) / 1000;
  })

  -- refreshToken._save
  unfoldable pub save_refresh :
      M → (api client : String) → Option String → Rows String → (grant : String) → Fresh → ℕ → M
  save_refresh m api client user scopes grant t count_down = d.create m (record {
    id = t.id;
    api_id = api;
    app_id = client;
    user_id = user;
    secret = t.secret;
    grant = grant;
    scopes = scopes;
    refresh_token = none;
    authorization_code = none;
    count_down = count_down;
    issued_at = t.issued_at;
    expired_at = t.expired_at;
    expires_in = (t.expired_at - t.issued_at) / 1000;
  })

module _ {M : Type 0} (d : DataModel M Code) where
  -- code.findByCode
  unfoldable pub find_code : M → (api code : String) → Option Code
  unfolding code_of_api
  find_code m api code = code_of_api api (find_one d m (λ c. c.id == code))

  -- code.delete, with or without an API
  unfoldable pub delete_code : M → Option String → String → M
  delete_code m none code = d.destroy_all m (λ c. c.id == code)
  delete_code m (some api) code = d.destroy_all m (λ c. c.id == code && c.api_id == api)

  unfoldable pub purge_codes : M → ℕ → M
  purge_codes m now = d.destroy_all m (λ c. leb c.expired_at now)

  unfoldable pub save_code :
      M
      → (api client : String) → Option String
      → (code : String) → Rows String
      → Option String
      → (iat exp : ℕ) → M
  save_code m api client user code scopes redirect_uri iat exp = d.create m (record {
    id = code;
    api_id = api;
    app_id = client;
    user_id = user;
    issued_at = iat;
    expired_at = exp;
    expires_in = (exp - iat) / 1000;
    scopes = scopes;
    redirect_uri = redirect_uri;
  })

-- The tables of the provider.
pub record Tables (A R C : Type 0) : Type 0 where
  pub access_tokens : A
  pub refresh_tokens : R
  pub codes : C

-- accessToken.save: the refresh token, where there is one, and then the access token
module _ {A R C : Type 0} (da : DataModel A Token) (dr : DataModel R Token) where
  unfoldable pub save :
      Tables A R C
      → (api client : String) → Option String
      → Rows String
      → (grant : String) → Fresh
      → (az_code : Option String) → Option (Fresh × ℕ)
      → Tables A R C
  unfolding save_access save_refresh
  save t api client user scopes grant a az_code none = record t {
    access_tokens = save_access da t.access_tokens api client user scopes grant a none az_code;
  }
  save t api client user scopes grant a az_code (some (r, count_down)) = record t {
    refresh_tokens = save_refresh dr t.refresh_tokens api client user scopes grant r count_down;
    access_tokens =
        save_access da t.access_tokens api client user scopes grant a (some r.id) az_code;
  }

-- ===== src/OAuth/Session/Login.antt =====
-- lib/oauth2/az-server/middleware/id-extractor.js: who the user of a transaction is, by the header of
-- the request, by the parameters of a redirection or by the fields of the login form. `encode` is the
-- text of a user and a password in base64.
use microgateway.Common.{
  ℕ, ◌+◌, String, Bool, true, false, not, ◌&&◌, ◌||◌, Option, none, some, truthy, get, nat_eq, ltb,
  ◌+s◌, if◌then◌else◌,
}
use microgateway.OAuth.Exchange.{value_or_empty}
use microgateway.Security.Ldap
use microgateway.Security.Basic.{
  Answer, granted, refused, Auth, SecurityDef, Services, basic_auth, credentials,
}
use microgateway.OAuth.Session.{Txn, Request, or_param, param}

-- `redirect`: the user and the confirmation of a redirection
pub from_redirect : (String → String) → Request → Option Auth
unfolding param
from_redirect encode req =
    let confirmation = param req "confirmation" in
    let username = param req "username" in
    if truthy confirmation && truthy username
    then some (record {
      scheme = "Basic";
      token = encode (value_or_empty username +s ":" +s value_or_empty confirmation);
    })
    else none

-- `formData`: the fields of the form, which may be empty
pub from_form : (String → String) → Request → Option Auth
unfolding or_param get
from_form encode req = elim (or_param (get req.body "j_username") (get req.body "username")) [
  | none ↦ none
  | some username ↦ elim (or_param (get req.body "j_password") (get req.body "password")) [
    | none ↦ none
    | some passwd ↦ some (record { scheme = "Basic"; token = encode (username +s ":" +s passwd) })
  ]
]

-- `authHdr`; `header` is 'request.authorization' of the context.
unfoldable pub auth_of : (String → String) → (header : Option Auth) → Request → Option Auth
unfolding from_redirect from_form
auth_of encode (some a) req = some a
auth_of encode none req = elim (from_redirect encode req) [
  | some a ↦ some a
  | none ↦ from_form encode req
]

-- What the handler sets in the context: 'error.status.code', and the challenge or not.
pub record Notice : Type 0 where
  pub code : ℕ
  pub challenge : Bool

-- It goes on, shows the login form again, or fails with 'authentication_error'.
pub data Extracted : Type 0 where
  passed : Extracted
  rendered : Notice → Extracted
  rejected : Notice → Extracted

-- The settings of the handler; a `retry_count` of zero is no limit.
pub record Settings : Type 0 where
  pub is_form : Bool
  pub has_render : Bool
  pub retry_count : ℕ

pub is_401 : Option ℕ → Bool
is_401 none = false
is_401 (some n) = nat_eq n 401

pub notice_of : Settings → Option ℕ → Notice
unfolding is_401
notice_of o code =
    if is_401 code
    then record { code = 401; challenge = not o.is_form }
    else record { code = 403; challenge = false }

-- the callback of `basicAuth` where it gets no error
unfoldable pub accept : String → Txn → Txn
accept user t = record t { user = some user; logined = true }

unfoldable pub refuse : Settings → Option ℕ → Txn → Extracted × Txn
unfolding notice_of
refuse o code t =
    if o.has_render && (nat_eq o.retry_count 0 || ltb (t.login_count + 1) o.retry_count)
    then (rendered (notice_of o code), record t { login_count = t.login_count + 1 })
    else (rejected (notice_of o code), record t { login_count = 0 })

module _ {P T S : Type 0} (services : Services P T) (client : Ldap.Client S) (start : S) where
  -- the first part of the decoded token
  unfoldable pub user_of : Option Auth → String
  user_of none = ""
  user_of (some a) = (credentials (services.decode a.token)).0

  unfoldable pub answered_by : Settings → Option Auth → Answer → Txn → Extracted × Txn
  unfolding accept refuse user_of
  answered_by o auth granted t = (passed, accept (user_of auth) t)
  answered_by o auth (refused code) t = refuse o code t

  -- the middleware, on the transaction of the request
  unfoldable pub id_extractor :
      Settings → (snapshot : String) → SecurityDef → Option Auth → Txn → Extracted × Txn
  unfolding answered_by
  id_extractor o snapshot def auth t =
      answered_by o auth (basic_auth services client start snapshot def auth) t

-- ===== src/OAuth/Helper.antt =====
-- lib/oauth2/oauth2-helper.js: expiry, lists of scopes, and the checks on a client's request.
-- Times are milliseconds since the epoch.
pub mod Scopes
pub mod Client
pub mod Tests
use Prim.Native.Nat.{◌*◌}
use Prim.Native.Char.{code}
use Prim.Native.String.{[], ◌∷◌}
use mathlib.Core.List.{List}
use package.text.Mathlib.Text.{starts_with}
use microgateway.Common.{
  ℕ, ◌+◌, String, Bool, true, false, not, ◌&&◌, ◌||◌, Option, none, some, ltb, leb, nat_eq, ◌==◌,
  if◌then◌else◌, ◌+s◌, all, any, contains,
}
use microgateway.OAuth.Server.{
  Server, Words, text, array, support_scope, support_response_type, support_grant_type,
}

pub record Stamps : Type 0 where
  pub issued_at : Option ℕ
  pub expired_at : Option ℕ
  pub expires_in : Option ℕ

-- `(date && date.getTime()) || -1`, where `none` stands for -1
time_of : Option ℕ → Option ℕ
time_of none = none
time_of (some t) = if nat_eq t 0 then none else some t

lifetime : Option ℕ → Option ℕ → Option ℕ
lifetime (some issued) (some expires_in) = some (issued + expires_in * 1000)
lifetime _ _ = none

expiration : Stamps → Option ℕ
unfolding time_of lifetime
expiration t = elim (time_of t.expired_at) [
  | some e ↦ some e
  | none ↦ lifetime (time_of t.issued_at) t.expires_in
]

unfoldable pub is_expired : ℕ → Stamps → Bool
unfolding expiration
is_expired now t = elim (expiration t) [ none ↦ true | some e ↦ ltb e now ]

-- the white space of `\s` in a regular expression
is_space : ℕ → Bool
is_space c =
    (leb 9 c && leb c 13)
    || nat_eq c 0x20
    || nat_eq c 0xa0
    || nat_eq c 0x1680
    || (leb 0x2000 c && leb c 0x200a)
    || nat_eq c 0x2028
    || nat_eq c 0x2029
    || nat_eq c 0x202f
    || nat_eq c 0x205f
    || nat_eq c 0x3000
    || nat_eq c 0xfeff

push_word : String → List String → List String
push_word cur rest = if cur == "" then rest else List.◌∷◌ cur rest

-- `items.split(/[\s,]+/g).filter(Boolean)`; `cur` is the word that is being read
words_from : String → String → List String
unfolding is_space push_word
words_from cur [] = push_word cur List.[]
words_from cur (c ∷ s) =
    let closed = push_word cur (words_from "" s) in
    let longer = words_from (cur +s (c ∷ [])) s in
    if is_space (code c) || nat_eq (code c) b',' then closed else longer

-- A list given as nothing, as a string or as an array.
pub data Items : Type 0 where
  missing : Items
  words : String → Items
  list : List String → Items

unfoldable pub normalize_list : Items → List String
unfolding words_from
normalize_list missing = List.[]
normalize_list (words s) = words_from "" s
normalize_list (list l) = l

is_empty : List String → Bool
is_empty List.[] = true
is_empty (List.◌∷◌ s l) = false

pub is_scope_allowed : Items → Items → Bool
unfolding normalize_list is_empty contains
is_scope_allowed allowed_scopes token_scopes =
    let allowed = normalize_list allowed_scopes in
    is_empty allowed || any (contains (normalize_list token_scopes)) allowed

pub is_scope_authorized : Items → Items → Bool
unfolding normalize_list is_empty contains
is_scope_authorized requested_scopes authorized_scopes =
    let requested = normalize_list requested_scopes in
    is_empty requested || all (contains (normalize_list authorized_scopes)) requested

-- The argument `options` of `validateClient`.
pub record Options : Type 0 where
  pub redirect_uri : Option String
  pub scope : Items
  pub response_type : Option Words
  pub grant_type : Option Words

pub data Refusal : Type 0 where
  invalid_redirect_uri : Refusal
  unrecognized_scope : Refusal
  missing_scope : Refusal
  unsupported_response_type : Refusal
  unsupported_grant_type : Refusal

-- `redirectURI.indexOf(uri) === 0`, where an `uri` that is `undefined` is read as that word
uri_or_word : Option String → String
uri_or_word none = "undefined"
uri_or_word (some uri) = uri

check_redirect : Option String → Option String → Option Refusal
unfolding uri_or_word
check_redirect client_uri none = none
check_redirect client_uri (some uri) =
    if uri == "" || starts_with uri (uri_or_word client_uri)
    then none
    else some invalid_redirect_uri

abbrev if_not : Bool → Refusal → Option Refusal
if_not true r = none
if_not false r = some r

module _ {S E : Type 0} (server : Server S E) where
  check_scope : Items → Option Refusal
  unfolding normalize_list
  check_scope missing = none
  check_scope (words s) =
      if s == ""
      then some missing_scope
      else if_not (support_scope server (array (normalize_list (words s)))) unrecognized_scope
  check_scope (list l) = if_not (support_scope server (array l)) unrecognized_scope

  check_response : Option Words → Option Refusal
  check_response none = none
  check_response (some (text s)) =
      if s == ""
      then none
      else if_not (support_response_type server (text s)) unsupported_response_type
  check_response (some (array l)) =
      if_not (support_response_type server (array l)) unsupported_response_type

  check_grant : Option Words → Option Refusal
  check_grant none = none
  check_grant (some (text s)) =
      if s == "" then none else if_not (support_grant_type server (text s)) unsupported_grant_type
  check_grant (some (array l)) = if_not (support_grant_type server (array l)) unsupported_grant_type

  -- The first refusal, or `none` where the source returns null. `client_uri` is the client's
  -- 'oauth-redirection-uri'.
  unfoldable pub validate_client : Option String → Options → Option Refusal
  unfolding check_redirect check_scope check_response check_grant
  validate_client client_uri o = elim (check_redirect client_uri o.redirect_uri) [
    | some r ↦ some r
    | none ↦ elim (check_scope o.scope) [
      | some r ↦ some r
      | none ↦ elim (check_response o.response_type) [
        | some r ↦ some r
        | none ↦ check_grant o.grant_type
      ]
    ]
  ]

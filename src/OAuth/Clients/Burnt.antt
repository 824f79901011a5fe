-- ===== src/OAuth/Clients/Burnt.antt =====
-- What becomes of the credential of a client that fails to authenticate.
use microgateway.Common.{
  ℕ, String, ◌≡◌, ◌&&◌, ◌||◌, refl, ap, sym, ◌∙◌, arith, Bool, true, false, not, Option, none, some,
  List, [], ◌∷◌, truthy, same, get, split, keep, find_first, Option-cases, Bool-cases, inl, inr,
  ◌==◌,
}
use mathlib.Core.Path.{subst}
use microgateway.OAuth.Server.{Server}
use microgateway.OAuth.Exchange.{Scope, value_or_empty}
use microgateway.OAuth.Store.{DataModel, Token, Tables, Fresh, find, find_code}
use microgateway.OAuth.Store.Lookup.{find-none, find_code-delete_code_any}
use microgateway.OAuth.Grants.{
  Client, Decoded, garbled, claims, second, by_claims, by_payload, validate_token, no_match,
  refused,
}
use microgateway.OAuth.Grants.Rotation.{grants, run}
use microgateway.OAuth.Grants.Spent.{refuses}
use microgateway.OAuth.Grants.Codes.{exchanged, unknown-refuses}
use microgateway.Security.Basic.{Auth}
use microgateway.OAuth.Clients
use microgateway.OAuth.Clients.{
  unsupported_scheme, missing_parameter, authentication_error, Creds, Setup, Refused, Ending,
  passes, throws, Presented, other_scheme, twice, no_colon, given, credential, delete_of,
  delete_refresh_token, delete_az_code, remove_credential, reject, presented, is_required, on_creds,
  on_presented, client_authenticate,
}

deleted-none :
    (id : String) (rows : List Token)
    → find_first (λ (u : Token). u.id == id) (keep (λ u. not (u.id == id)) rows) ≡ none
deleted-none id [] = refl
deleted-none id (u ∷ rows) = ground (arith, deleted-none id rows)

module _ {R C : Type 0} (x : Setup R C) where
  delete_of-lost :
      (verify : String → String → Bool) (token api : String) (c : Decoded) (m m' : R)
      → delete_of x m c ≡ some m'
      → by_claims x.claims_of verify (find x.refresh_tokens m' api) token c ≡ no_match
  unfolding delete_of by_claims
  delete_of-lost verify token api garbled m m' h = cc
  delete_of-lost verify token api (claims c) m m' h = elim (Option-cases c.jti) [
    | inl e ↦ rw e refl
    | inr (jti, e) ↦ elim (Bool-cases (jti == "")) [
      | inl f ↦ rw (e, f) refl
      | inr f ↦
          let is : x.refresh_tokens.destroy_all m (λ t. t.id == jti) ≡ m' =
            cc (rw (e, f, delete_of) at h) in
          let rows =
            ap x.refresh_tokens.rows (sym is)
            ∙ x.refresh_tokens.rows-destroy_all m (λ t. t.id == jti) in
          let gone =
            ap (find_first (λ (u : Token). u.id == jti)) rows
            ∙ deleted-none jti (x.refresh_tokens.rows m) in
          rw (e, f, find-none x.refresh_tokens m' api jti gone) refl
    ]
  ]

  delete_refresh_token-lost :
      (verify : String → String → Bool) (token api : String) (m m' : R)
      → delete_refresh_token x m token ≡ some m'
      → validate_token x.claims_of verify x.refresh_tokens m' api token ≡ no_match
  unfolding delete_refresh_token validate_token by_payload
  delete_refresh_token-lost verify token api m m' h =
      elim (Option-cases (second (split b'.' token))) [
        | inl e ↦ rw e refl
        | inr (payload, e) ↦ elim (Bool-cases (payload == "")) [
          | inl f ↦ rw (e, f) refl
          | inr f ↦
              rw (e, f)
                (delete_of-lost verify token api (x.claims_of payload) m m'
                  (rw (e, f, delete_refresh_token) at h))
        ]
      ]

  delete_az_code-lost :
      (api code : String) (m : C) → find_code x.codes (delete_az_code x m code) api code ≡ none
  unfolding delete_az_code
  delete_az_code-lost api code m = find_code-delete_code_any x.codes m api code

  module _ {A : Type 0} (t t' : Tables A R C) (e : Refused) where
    abbrev Burns : Option String → Option String → Ending × Tables A R C → Type 0
    Burns grant_type cred r =
        r ≡ (Clients.refuses e true, t') → remove_credential x grant_type cred t ≡ some t'

    reject-Burns :
        (f : Refused) (grant_type cred : Option String)
        → Burns grant_type cred (reject x f grant_type cred t)
    unfolding reject
    reject-Burns f grant_type cred h = elim (Option-cases (remove_credential x grant_type cred t)) [
      | inl k ↦ cc (rw (k, reject) at h)
      | inr (u, k) ↦ let same : u ≡ t' = cc (rw (k, reject) at h) in k ∙ ap some same
    ]

    on_creds-Burns :
        (grant_type cred secret : Option String) (o : Option Creds)
        → Burns grant_type cred (on_creds x grant_type cred secret o t)
    unfolding on_creds
    on_creds-Burns grant_type cred secret none h =
        reject-Burns authentication_error grant_type cred h
    on_creds-Burns grant_type cred secret (some c) h =
        elim (Bool-cases (truthy secret && same c.client_secret secret)) [
          | inl k ↦ cc (rw (k, on_creds) at h)
          | inr k ↦ elim (Bool-cases (not (truthy secret) && not (is_required x grant_type))) [
            | inl l ↦ cc (rw (k, l, on_creds) at h)
            | inr l ↦ reject-Burns authentication_error grant_type cred (rw (k, l, on_creds) at h)
          ]
        ]

    -- A refusal with a challenge has taken the credential away.
    on_presented-Burns :
        (grant_type cred : Option String) (p : Presented)
        → Burns grant_type cred (on_presented x grant_type cred p t)
    unfolding on_presented
    on_presented-Burns grant_type cred other_scheme h =
        reject-Burns unsupported_scheme grant_type cred h
    on_presented-Burns grant_type cred twice h = cc
    on_presented-Burns grant_type cred no_colon h = cc
    on_presented-Burns grant_type cred (given id secret) h =
        elim (Bool-cases (not (truthy id) || (not (truthy secret) && is_required x grant_type))) [
          | inl k ↦ reject-Burns missing_parameter grant_type cred (rw (k, on_presented) at h)
          | inr k ↦
              on_creds-Burns grant_type cred secret (x.get_client_creds (value_or_empty id))
                (rw (k, on_presented) at h)
        ]

    removed-refresh :
        (verify : String → String → Bool) (token api : String)
        → truthy (some token) ≡ true
        → remove_credential x (some "refresh_token") (some token) t ≡ some t'
        → validate_token x.claims_of verify x.refresh_tokens t'.refresh_tokens api token ≡ no_match
    unfolding remove_credential
    removed-refresh verify token api filled h = elim (Bool-cases (token == "")) [
      | inl k ↦ cc (rw k at filled)
      | inr k ↦ elim (Option-cases (delete_refresh_token x t.refresh_tokens token)) [
        | inl l ↦ cc (rw (k, l, remove_credential) at h)
        | inr (m, l) ↦
            let tables : record t { refresh_tokens = m } ≡ t' =
              cc (rw (k, l, remove_credential) at h) in
            subst
              (λ (u : Tables A R C).
                validate_token x.claims_of verify x.refresh_tokens u.refresh_tokens api token
                ≡ no_match)
              tables (delete_refresh_token-lost verify token api t.refresh_tokens m l)
      ]
    ]

    removed-code :
        (code api : String)
        → truthy (some code) ≡ true
        → remove_credential x (some "authorization_code") (some code) t ≡ some t'
        → find_code x.codes t'.codes api code ≡ none
    unfolding remove_credential
    removed-code code api filled h = elim (Bool-cases (code == "")) [
      | inl k ↦ cc (rw k at filled)
      | inr k ↦
          let tables : record t { codes = delete_az_code x t.codes code } ≡ t' =
            cc (rw (k, remove_credential) at h) in
          subst (λ (u : Tables A R C). find_code x.codes u.codes api code ≡ none) tables
            (delete_az_code-lost api code t.codes)
    ]

-- A refresh token whose client is refused with a challenge is spent: no exchange of it, by any client
-- and at any time, gives an access token or changes a table.
pub client_authenticate_burns_refresh :
    {R C A S E : Type 0} (x : Setup R C) (params : List (String × String)) (header : Option Auth)
    (t t' : Tables A R C) (e : Refused) (token : String)
    → get params "grant_type" ≡ some "refresh_token"
    → get params "refresh_token" ≡ some token
    → truthy (some token) ≡ true
    → client_authenticate x params header t ≡ (Clients.refuses e true, t')
    → (server : Server S E) (da : DataModel A Token) (verify : String → String → Bool) (now : ℕ)
      (api client_type : String) (access renew : List String → Fresh) (client : Client)
      (scope : Scope)
    → let again =
        run server da x.refresh_tokens x.codes x.claims_of verify now api client_type access renew
          client scope token t' in
      (grants again.0 ≡ false) × (again.1 ≡ t')
unfolding client_authenticate credential
client_authenticate_burns_refresh x params header t t' e token is_refresh is_token filled h server
      da verify now api client_type access renew client scope =
    let h' =
      on_presented-Burns x t t' e (get params "grant_type")
        (credential params (get params "grant_type")) (presented x params header) h in
    refuses server da x.refresh_tokens x.codes x.claims_of verify now api client_type access renew
      client scope token t'
      (removed-refresh x t t' e verify token client.api filled
        (rw (is_refresh, is_token, credential) at h'))

-- An authorization code whose client is refused with a challenge is spent: any exchange of it, at any
-- API, by any client and at any time, is refused and changes no table.
pub client_authenticate_burns_code :
    {R C A S E : Type 0} (x : Setup R C) (params : List (String × String)) (header : Option Auth)
    (t t' : Tables A R C) (e : Refused) (code : String)
    → get params "grant_type" ≡ some "authorization_code"
    → get params "code" ≡ some code
    → truthy (some code) ≡ true
    → client_authenticate x params header t ≡ (Clients.refuses e true, t')
    → (server : Server S E) (da : DataModel A Token) (verify : String → String → Bool) (now : ℕ)
      (api : String) (access : List String → Fresh) (renew : Option ((List String → Fresh) × ℕ))
      (client : Client) (redirect_uri : Option String)
    → exchanged server da x.refresh_tokens x.codes x.claims_of verify now api access renew client
        code redirect_uri t'
      ≡ (refused, t')
unfolding client_authenticate credential
client_authenticate_burns_code x params header t t' e code is_code is_given filled h server da
      verify now api access renew client redirect_uri =
    let h' =
      on_presented-Burns x t t' e (get params "grant_type")
        (credential params (get params "grant_type")) (presented x params header) h in
    unknown-refuses server da x.refresh_tokens x.codes x.claims_of verify now api access renew
      client code redirect_uri t'
      (removed-code x t t' e code api filled (rw (is_code, is_given, credential) at h'))

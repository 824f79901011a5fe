-- ===== src/OAuth/Exchange/Response.antt =====
-- The token response: what `issued` writes.
use microgateway.Common.{
  ℕ, String, ◌≡◌, ◌≢◌, refl, Bool-cases, ◌↔◌, ◌∙◌, true, Option, none, some, List, [], ◌∷◌, arith,
  get, put, get-put, extend, eq_iff, ◌==◌, truthy, inl, inr, nat_eq,
}
use microgateway.OAuth.Server.{report, proceed}
use microgateway.OAuth.Exchange.{
  Value, undefined, str, num, Object, route, Refresh, no_refresh, refresh, instead, Issued, Message,
  or_bearer, with_refresh, merged_params, extended, token_object, issued, authorization_code,
  refresh_token, password, client_credentials, IssueRefresh, IssuePassword, IssueClient, Issuing,
}

-- A value that counts as true.
abbrev pub IsTruthy : Value → Type 0
IsTruthy undefined = ⊥
IsTruthy (str s) = s ≢ ""
IsTruthy (num n) = n ≢ 0

bearer-ne : ◌≢◌ {A = String} "Bearer" ""
bearer-ne e = ground (arith, eq_iff "Bearer" "")

or_bearer-IsTruthy : (v : Option Value) → IsTruthy (or_bearer v)
unfolding or_bearer
or_bearer-IsTruthy none = bearer-ne
or_bearer-IsTruthy (some undefined) = bearer-ne
or_bearer-IsTruthy (some (str s)) = elim (Bool-cases (s == "")) [
  | inl e ↦ rw e bearer-ne
  | inr n ↦ rw n (λ e. cc (n, (eq_iff s "").1 e))
]
or_bearer-IsTruthy (some (num n)) = elim (Bool-cases (nat_eq n 0)) [
  | inl e ↦ rw e bearer-ne
  | inr e ↦ rw e (ground arith)
]

get-extend_other :
    (o source : Object) (k : String) → get source k ≡ none → get (extend o source) k ≡ get o k
unfolding extend get
get-extend_other o [] k h = refl
get-extend_other o ((j, v) ∷ source) k h = elim (Bool-cases (j == k)) [
  | inl e ↦ cc (rw e at h)
  | inr e ↦ get-extend_other (put o j v) source k (rw e at h) ∙ get-put o j k v ∙ rw e
]

-- Every token object says its type, by a value that counts as true.
token_object-token_type :
    (access : String) (r : Refresh) (params : Option Object)
    → (v : Value) × (get (token_object access r params) "token_type" ≡ some v) × IsTruthy v
unfolding token_object
token_object-token_type access r params =
    let tok = extended access r params in
    let v = or_bearer (get tok "token_type") in
    (v, get-put tok "token_type" "token_type" v, or_bearer-IsTruthy (get tok "token_type"))

get-with_refresh :
    (access : String) (r : Refresh)
    → get (with_refresh (put [] "access_token" (str access)) r) "access_token" ≡ some (str access)
unfolding put get
get-with_refresh access no_refresh = refl
get-with_refresh access (instead o) = refl
get-with_refresh access (refresh t) = ground arith

-- Where the provider's extra properties have no 'access_token', the token object holds the token
-- that was issued.
pub token_object-access_token :
    (access : String) (r : Refresh) (params : Option Object)
    → get (merged_params r params) "access_token" ≡ none
    → get (token_object access r params) "access_token" ≡ some (str access)
unfolding token_object
token_object-access_token access r params h =
    let tok = extended access r params in
    get-put tok "token_type" "access_token" (or_bearer (get tok "token_type"))
    ∙ get-extend_other (with_refresh (put [] "access_token" (str access)) r)
        (merged_params r params) "access_token" h
    ∙ get-with_refresh access r

-- Where the provider's error is not 'route' itself, the exchange answers 'route' exactly when no
-- error came and the token is a non-empty string; in every other case the message stays as it was.
issued-route_iff :
    (stringify : Object → String) (invalid : String) (i : Issued) (m : Message)
    → i.err ≢ some route
    → (((issued stringify invalid i m).0 ≡ report route)
        ↔ ((i.err ≡ none) × (truthy i.access_token ≡ true)))
      × ((issued stringify invalid i m).0 ≢ report route → (issued stringify invalid i m).1 ≡ m)
unfolding issued
issued-route_iff stringify invalid i m h =
    ((λ e. ground arith, λ e. ground arith), λ e. ground arith)

module _ {C W : Type 0} (stringify : Object → String) (separators : List ℕ) (client : C) where
  -- No exchange passes the request on to a later one: each reports, or leaves the request waiting.
  exchanges-ne-proceed :
      (code : C → String → Option String → W → Issuing × W) (fresh : IssueRefresh C W)
      (owner : IssuePassword C W) (own : IssueClient C W) (parameters : List (String × String))
      (w : W) (m : Message)
      → ((authorization_code stringify separators client code parameters (w, m)).0 ≢ proceed)
        × ((refresh_token stringify separators client fresh parameters (w, m)).0 ≢ proceed)
        × ((password stringify separators client owner parameters (w, m)).0 ≢ proceed)
        × ((client_credentials stringify separators client own parameters (w, m)).0 ≢ proceed)
  unfolding authorization_code refresh_token password client_credentials
  exchanges-ne-proceed code fresh owner own parameters w m =
      (λ e. ground arith, λ e. ground arith, λ e. ground arith, λ e. ground arith)

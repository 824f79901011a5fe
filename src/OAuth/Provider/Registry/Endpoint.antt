-- ===== src/OAuth/Provider/Registry/Endpoint.antt =====
-- The token endpoint on the servers of the pool.
use microgateway.Common.{
  String, ◌≡◌, refl, ◌∙◌, sym, ap, Bool, true, false, arith, get, Bool-cases, inl, inr, ◌==◌, ◌+s◌,
  contains, if◌then◌else◌, eq_refl,
}
use microgateway.OAuth.Server.{
  Server, server, scope, grant_type, Handler, Reply, report, hold, End, finished, failed, waiting,
  on_reply, exchange_type, token,
}
use microgateway.OAuth.Server.Chain.{
  exchange_type-exchange, exchange_type_none, token_failed, token_finished, token_waiting,
}
use microgateway.OAuth.Exchange.{
  Object, Failure, route, token_error, Message, Issuing, Scope, requested_scope, value_or_empty,
}
use microgateway.OAuth.Exchange.Success.{refresh_token-route, refresh_token-reports}
use microgateway.OAuth.Store.{Token, Tables}
use microgateway.OAuth.Grants.{validate_token, valid}
use microgateway.OAuth.Grants.Rotation.{grants, MayRefresh, step, run, refresh_grant_sound}
use microgateway.OAuth.Grants.Callback.{succeeds-grants, run-is_route}
use microgateway.OAuth.Provider.{Provider}
use microgateway.OAuth.Provider.Registry.{
  Settings, Request, State, base, when, build_server, separators, refresh_issue, refresh_handler,
  password_handler, application_handler, code_handler, allowed_grants,
}

-- `new TokenError('Unsupported grant type: ' + type, 'unsupported_grant_type')`
abbrev pub unsupported : String → Failure
unsupported type = token_error ("Unsupported grant type: " +s type) "unsupported_grant_type"

module _ {S : Type 0} where
  on_reply-report :
      (r : Reply Failure × S) (e : Failure)
      → r.0 ≡ report e
      → on_reply (λ s. (finished, s)) r ≡ (failed e, r.1)
  on_reply-report r e h = rw h refl

  on_reply-hold :
      (r : Reply Failure × S) → r.0 ≡ hold → on_reply (λ s. (finished, s)) r ≡ (waiting, r.1)
  on_reply-hold r h = rw h refl

unsupported-ne-route :
    ◌≡◌ {A = End Failure} (failed (unsupported "refresh_token")) (failed route) → ⊥
unsupported-ne-route h = ground arith

failed-injective : (e f : Failure) → ◌≡◌ {A = End Failure} (failed e) (failed f) → e ≡ f
failed-injective e f h = cc

waiting-ne-failed : ◌≡◌ {A = End Failure} waiting (failed route) → ⊥
waiting-ne-failed h = cc

module _ {A R C : Type 0} (p : Provider A R C) (cfg : Settings) (stringify : Object → String) where
  abbrev Runs :
      Server (State p cfg stringify) Failure
      → String
      → State p cfg stringify
      → End Failure × State p cfg stringify
      → Type 0
  Runs srv type s r = exchange_type srv type s ≡ r

  -- An exchange of another type changes nothing.
  when-other :
      (b : Bool) (t type : String) (h : Handler (State p cfg stringify) Failure)
      (srv : Server (State p cfg stringify) Failure) (s : State p cfg stringify)
      → (t == "*") ≡ false
      → (t == type) ≡ false
      → Runs srv type s (finished, s)
      → Runs (when p cfg stringify b t h srv) type s (finished, s)
  unfolding when
  when-other true t type h srv s star other r =
      rw (exchange_type-exchange srv t h type s, r, star, other) refl
  when-other false t type h srv s star other r = r

  when-own :
      (t : String) (h : Handler (State p cfg stringify) Failure)
      (srv : Server (State p cfg stringify) Failure) (s : State p cfg stringify)
      → Runs srv t s (finished, s)
      → Runs (when p cfg stringify true t h srv) t s (on_reply (λ s'. (finished, s')) (h s))
  unfolding when
  when-own t h srv s r = elim (Bool-cases (t == "*")) [
    | inl star ↦ rw (exchange_type-exchange srv t h t s, r, star) refl
    | inr star ↦ rw (exchange_type-exchange srv t h t s, r, star, eq_refl) refl
  ]

  when-type :
      (b : Bool) (t : String) (h : Handler (State p cfg stringify) Failure)
      (srv : Server (State p cfg stringify) Failure) (s : State p cfg stringify)
      → Runs srv t s (finished, s)
      → Runs
          (when p cfg stringify b t h srv)
          t
          s
          (if b then on_reply (λ s'. (finished, s')) (h s) else (finished, s))
  unfolding when
  when-type true t h srv s r = when-own t h srv s r
  when-type false t h srv s r = r

  base-other :
      (type : String) (s : State p cfg stringify) → Runs (base p cfg stringify) type s (finished, s)
  unfolding base grant_type scope server
  base-other type s = exchange_type_none (base p cfg stringify) type s refl

  module _ (request : Request) where
    -- The endpoint of the built server on the grant type of refresh tokens.
    built-refresh :
        (s : State p cfg stringify)
        → Runs (build_server p cfg stringify request) "refresh_token" s (
            if p.enable_refresh_token
            then on_reply (λ s'. (finished, s')) (refresh_handler p cfg stringify request s)
            else (finished, s))
    unfolding build_server
    built-refresh s =
        let grants = allowed_grants p cfg stringify in
        let code =
          when p cfg stringify (contains grants "accessCode") "authorization_code"
            (code_handler p cfg stringify request) (base p cfg stringify) in
        let application =
          when p cfg stringify (contains grants "application") "client_credentials"
            (application_handler p cfg stringify request) code in
        let owner =
          when p cfg stringify (contains grants "password") "password"
            (password_handler p cfg stringify request) application in
        when-type p.enable_refresh_token "refresh_token" (refresh_handler p cfg stringify request)
          owner s
          (when-other (contains grants "password") "password" "refresh_token"
            (password_handler p cfg stringify request) application s refl refl
            (when-other (contains grants "application") "client_credentials" "refresh_token"
              (application_handler p cfg stringify request) code s refl refl
              (when-other (contains grants "accessCode") "authorization_code" "refresh_token"
                (code_handler p cfg stringify request) (base p cfg stringify) s refl refl
                (base-other "refresh_token" s))))

    abbrev pub answer : State p cfg stringify → End Failure × State p cfg stringify
    answer s = token unsupported (build_server p cfg stringify request) "refresh_token" s

    -- The refresh token of the request, and its exchange with the scope that the request asks for.
    abbrev pub used_token : String
    used_token = value_or_empty (get request.parameters "refresh_token")

    abbrev pub asked_scope : Scope
    asked_scope = requested_scope (separators p cfg stringify) (get request.parameters "scope")

    abbrev pub refreshed : Tables A R C → Issuing × Tables A R C
    refreshed t =
        run (base p cfg stringify) p.access_tokens p.refresh_tokens p.codes p.claims_of p.verify
          p.now p.api p.client_type p.access p.renew request.client asked_scope used_token t

    handler-route :
        (t : Tables A R C) (m : Message)
        → (refresh_handler p cfg stringify request (t, m)).0 ≡ report route
        → (grants (refreshed t).0 ≡ true)
          × ((refresh_handler p cfg stringify request (t, m)).1.0 ≡ (refreshed t).1)
    handler-route t m h =
        let quiet =
          run-is_route (base p cfg stringify) p.access_tokens p.refresh_tokens p.codes p.claims_of
            p.verify p.now p.api p.client_type p.access p.renew request.client asked_scope
            used_token t in
        let (ok, left) =
          refresh_token-route stringify (separators p cfg stringify) request.client
            (refresh_issue p cfg stringify request) request.parameters t m quiet h in
        (succeeds-grants (refreshed t).0 ok, left)

    answer-route :
        (t : Tables A R C) (m : Message)
        → (answer (t, m)).0 ≡ failed route
        → (p.enable_refresh_token ≡ true)
          × ((refresh_handler p cfg stringify request (t, m)).0 ≡ report route)
          × ((answer (t, m)).1 ≡ (refresh_handler p cfg stringify request (t, m)).1)
    answer-route t m h =
        let s : State p cfg stringify = (t, m) in
        let srv = build_server p cfg stringify request in
        let r = refresh_handler p cfg stringify request s in
        let runs = built-refresh s in
        elim (Bool-cases p.enable_refresh_token) [
          | inr off ↦
              let gone : exchange_type srv "refresh_token" s ≡ (finished, s) = runs ∙ rw off refl in
              absurd (
                unsupported-ne-route (
                  sym (ap (λ x. x.0) (token_finished unsupported srv "refresh_token" s s gone))
                  ∙ h))
          | inl on ↦
              let own : exchange_type srv "refresh_token" s ≡ on_reply (λ s'. (finished, s')) r =
                runs ∙ rw on refl in
              elim (refresh_token-reports stringify (separators p cfg stringify) request.client
                (refresh_issue p cfg stringify request) request.parameters t m) [
                  | inl (e, k) ↦
                      let all_of =
                        token_failed unsupported srv "refresh_token" s r.1 e
                          (own ∙ on_reply-report r e k) in
                      let is : e ≡ route =
                        failed-injective e route (sym (ap (λ x. x.0) all_of) ∙ h) in
                      (on, k ∙ ap (λ f. report f) is, ap (λ x. x.1) all_of)
                  | inr k ↦
                      let waits =
                        token_waiting unsupported srv "refresh_token" s r.1
                          (own ∙ on_reply-hold r k) in
                      absurd (waiting-ne-failed (sym (ap (λ x. x.0) waits) ∙ h))
                ]
        ]

    -- A request with the grant type 'refresh_token' is answered with a token only where the provider
    -- has refresh tokens enabled, the token of the request is a valid refresh token of the API, and
    -- this is of the client that is authenticated, not expired, and has every scope that the request
    -- asks for; and the tables are then those that the rotation leaves.
    pub token-build_server :
        (t : Tables A R C) (m : Message)
        → (answer (t, m)).0 ≡ failed route
        → (p.enable_refresh_token ≡ true)
          × ((saved : Token) × (validate_token p.claims_of p.verify p.refresh_tokens
                  t.refresh_tokens request.client.api used_token
                ≡ valid saved)
              × MayRefresh p.now request.client asked_scope saved
              × ((answer (t, m)).1.0
                  ≡ (step
                      (base p cfg stringify)
                      p.access_tokens
                      p.refresh_tokens
                      p.codes
                      p.claims_of
                      p.verify
                      p.now
                      p.api
                      p.client_type
                      p.access
                      p.renew
                      request.client
                      asked_scope
                      saved
                      t).1))
    token-build_server t m h =
        let (on, k, left) = answer-route t m h in
        let (ok, tables) = handler-route t m k in
        let (saved, is, may, same) =
          refresh_grant_sound (base p cfg stringify) p.access_tokens p.refresh_tokens p.codes
            p.claims_of p.verify p.now p.api p.client_type p.access p.renew request.client
            asked_scope used_token t ok in
        (on, (saved, is, may, ap (λ x. x.0) left ∙ tables ∙ ap (λ x. x.1) same))

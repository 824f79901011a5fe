-- ===== src/OAuth/Authorization/Redirects.antt =====
-- Where the authorization endpoint redirects to, and what it has issued then.
use microgateway.Common.{
  [], ◌∷◌, ap, ◌≢◌, String, ◌≡◌, ◌⊎◌, refl, true, false, Option, none, some, truthy, inl, inr,
}
use microgateway.OAuth.Exchange.{Scope, Object, token_object, no_refresh}
use microgateway.OAuth.Authorization.{
  Urls, AzRequest, Transaction, Message, Next, routed, Answer, issues, redirect, scope_of,
  token_state, respond, code_denied, code_granted, token_denied, token_granted, code_response,
  token_response,
}
use microgateway.OAuth.Authorization.Routed.{Routed, uri-routed}
use microgateway.OAuth.Authorization.Sent.{
  Chosen, asked_state, query_of, object_of, IsToken, scope_of-Chosen, with_state-query_of,
  token_state-object_of, token_state-IsToken,
}

module _ {C U : Type 0} where
  -- A redirection, by the location that a denied and a granted transaction get.
  module _ {G W : Type 0} (Denied : Transaction C U → (uri location : String) → Type 0)
      (Granted : Transaction C U → (uri text : String) → G → (location : String) → Type 0)
      (issue : Transaction C U → AzRequest → Scope → W → Answer G × W) where
    abbrev pub Redirected : Transaction C U → W → Next × (W × Message) → Type 0
    Redirected txn w result =
        (uri : String) × (location : String) × (txn.redirect_uri ≡ some uri)
        × (uri ≢ "")
        × (result.0 ≡ routed)
        × (result.1.1
            ≡ record { headers = ("Location", location) ∷ []; status = some 302; body = none })
        × (((txn.allow ≡ false) × (result.1.0 ≡ w) × Denied txn uri location)
            ⊎ ((txn.allow ≡ true)
                × ((r : AzRequest) × (scope : Scope) × (text : String) × (g : G) × (txn.req
                      ≡ some r)
                    × Chosen txn.res_scope r.scope scope
                    × (text ≢ "")
                    × (issue txn r scope w ≡ (issues (some text) g, result.1.0))
                    × Granted txn uri text g location)))

    filled : (s : String) → truthy (some s) ≡ true → s ≢ ""
    filled s h e = cc (rw e at h)

    Routed-Redirected :
        (denied : Transaction C U → String → String)
        (granted : Transaction C U → String → String → G → String) (txn : Transaction C U) (w : W)
        (result : Next × (W × Message))
        → ((uri : String) → Denied txn uri (denied txn uri))
        → ((uri text : String) (g : G) → Granted txn uri text g (granted txn uri text g))
        → Routed denied granted issue txn w result
        → Redirected txn w result
    unfolding redirect
    Routed-Redirected denied granted txn w result d g (uri, is, full, inl (kept, e)) = (
      uri,
      denied txn uri,
      is,
      filled uri full,
      ap (λ x. x.0) e,
      ap (λ x. x.1.1) e,
      inl (kept, ap (λ x. x.1.0) e, d uri),
    )
    Routed-Redirected denied granted txn w result d g
          (uri, is, full, inr (allowed, (r, text, x, has, gives, ne, e))) =
        (
          uri,
          granted txn uri text x,
          is,
          filled uri full,
          ap (λ x. x.0) e,
          ap (λ x. x.1.1) e,
          inr (
            allowed,
            (
              r,
              scope_of txn r,
              text,
              x,
              has,
              scope_of-Chosen txn r,
              filled text ne,
              cc (gives, ap (λ x. x.1.0) e),
              g uri text x,
            ),
          ),
        )

  module _ (urls : Urls) where
    -- The query of the URI is the error, or the code, and the state of the request.
    abbrev pub CodeDenied : Transaction C U → (uri location : String) → Type 0
    CodeDenied txn uri location =
        location ≡ urls.with_query uri (query_of "error" "access_denied" (asked_state txn.req))

    abbrev pub CodeGranted :
        Transaction C U → (uri code : String) → Unit {0} → (location : String) → Type 0
    CodeGranted txn uri code u location =
        location ≡ urls.with_query uri (query_of "code" code (asked_state txn.req))

    -- The hash of the URI is the error and the state of the request, or the token object.
    abbrev pub TokenDenied : Transaction C U → (uri location : String) → Type 0
    TokenDenied txn uri location =
        location
        ≡ urls.with_hash uri
            (urls.stringify (object_of "error" "access_denied" (asked_state txn.req)))

    abbrev pub TokenGranted :
        Transaction C U → (uri access : String) → Option Object → (location : String) → Type 0
    TokenGranted txn uri access params location =
        (o : Object) × (location ≡ urls.with_hash uri (urls.stringify o))
        × IsToken access params (asked_state txn.req) o

    -- A request for a code ends in a redirection, with status 302, only where the transaction has a
    -- redirect URI. If the user did not allow it, nothing is issued, and the query of the URI is the
    -- error 'access_denied' and the state of the request, where it has one. If the user did, the
    -- query is the state and the code that was issued, which is not empty, for the scope that the
    -- transaction's result chose, or else for the one of the request.
    pub code_response-Redirected :
        {W : Type 0} (issue : Transaction C U → AzRequest → Scope → W → Answer (Unit {0}) × W)
        (txn : Transaction C U) (w : W) (m : Message)
        → (code_response urls issue txn (w, m)).0 ≡ routed
        → Redirected CodeDenied CodeGranted issue txn w (code_response urls issue txn (w, m))
    unfolding code_response respond code_denied code_granted
    code_response-Redirected issue txn w m h =
        Routed-Redirected CodeDenied CodeGranted issue (code_denied urls) (code_granted urls) txn w
          (code_response urls issue txn (w, m))
          (λ uri. ap (urls.with_query uri) (with_state-query_of txn "error" "access_denied" refl))
          (λ uri code u. ap (urls.with_query uri) (with_state-query_of txn "code" code refl))
          (uri-routed (code_denied urls) (code_granted urls) issue txn txn.redirect_uri w m h)

    -- A request for an access token ends in a redirection, with status 302, only where the
    -- transaction has a redirect URI. If the user did not allow it, nothing is issued, and the hash of
    -- the URI is the error 'access_denied' and the state of the request, where it has one. If the user
    -- did, the hash is an object with that state and the access token that was issued, which is not
    -- empty, for the scope that the transaction's result chose, or else for the one of the request;
    -- unless the provider's further parameters have an 'access_token' themselves.
    pub token_response-Redirected :
        {W : Type 0} (issue : Transaction C U → AzRequest → Scope → W → Answer (Option Object) × W)
        (txn : Transaction C U) (w : W) (m : Message)
        → (token_response urls issue txn (w, m)).0 ≡ routed
        → Redirected TokenDenied TokenGranted issue txn w (token_response urls issue txn (w, m))
    unfolding token_response respond token_denied token_granted
    token_response-Redirected issue txn w m h =
        Routed-Redirected TokenDenied TokenGranted issue (token_denied urls) (token_granted urls)
          txn w (token_response urls issue txn (w, m))
          (λ uri.
            ap (λ o. urls.with_hash uri (urls.stringify o))
              (token_state-object_of txn "error" "access_denied" refl))
          (λ uri access params. (
            token_state txn (token_object access no_refresh params),
            refl,
            token_state-IsToken txn access params,
          ))
          (uri-routed (token_denied urls) (token_granted urls) issue txn txn.redirect_uri w m h)

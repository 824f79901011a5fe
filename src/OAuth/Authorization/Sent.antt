-- ===== src/OAuth/Authorization/Sent.antt =====
-- The parameters and the token object that a redirection sends, and the scope that is asked for.
use microgateway.Common.{
  Option-cases, ◌∙◌, List, [], ◌∷◌, get, put, get-put, ◌≢◌, if◌then◌else◌, String, ◌≡◌, ◌⊎◌, refl,
  true, false, Option, none, some, ◌==◌, Bool-cases, inl, inr,
}
use microgateway.OAuth.Exchange.{
  Scope, no_scope, empty_scope, in_scopes, Object, str, token_object, no_refresh,
}
use microgateway.OAuth.Exchange.Response.{token_object-access_token}
use microgateway.OAuth.Authorization.{
  AzRequest, Transaction, scope_of, state_of, with_state, token_state,
}

-- `res.scope`, or else the scope of the request
abbrev pub Chosen : (res_scope asked : Scope) → Scope → Type 0
Chosen (in_scopes l) asked scope = scope ≡ in_scopes l
Chosen no_scope asked scope = scope ≡ asked
Chosen empty_scope asked scope = scope ≡ asked

-- the state of the request, where it has one that is not empty
abbrev pub asked_state : Option AzRequest → Option String
asked_state none = none
asked_state (some r) = elim r.state [ none ↦ none | some s ↦ if s == "" then none else some s ]

-- The query of the URI is this parameter, and the state.
abbrev pub query_of : (name value : String) → Option String → List (String × String)
query_of name value none = (name, value) ∷ []
query_of name value (some s) = (name, value) ∷ ("state", s) ∷ []

abbrev pub object_of : (name value : String) → Option String → Object
object_of name value none = (name, str value) ∷ []
object_of name value (some s) = (name, str value) ∷ ("state", str s) ∷ []

abbrev pub HasState : Object → Option String → Type 0
HasState o none = Unit
HasState o (some s) = get o "state" ≡ some (str s)

-- The object has the access token, unless the provider's `params` have one of their own, and the
-- state.
abbrev pub IsToken : (access : String) → Option Object → Option String → Object → Type 0
IsToken access none state o = (get o "access_token" ≡ some (str access)) × HasState o state
IsToken access (some params) state o =
    ((get params "access_token" ≢ none) ⊎ (get o "access_token" ≡ some (str access)))
    × HasState o state

Chosen-case :
    (res_scope : Scope) (asked : Scope)
    → Chosen res_scope asked
        (elim res_scope [ in_scopes l ↦ in_scopes l | no_scope ↦ asked | empty_scope ↦ asked ])
Chosen-case (in_scopes l) asked = refl
Chosen-case no_scope asked = refl
Chosen-case empty_scope asked = refl

module _ {C U : Type 0} where
  pub scope_of-Chosen :
      (txn : Transaction C U) (r : AzRequest) → Chosen txn.res_scope r.scope (scope_of txn r)
  unfolding scope_of
  scope_of-Chosen txn r = Chosen-case txn.res_scope r.scope

  -- the state of a transaction, by the tests that the code makes
  state_cases :
      (txn : Transaction C U)
      → ((asked_state txn.req ≡ none)
          × ((state_of txn ≡ none) ⊎ ((s : String) × (state_of txn ≡ some s) × ((s == "") ≡ true))))
        ⊎ ((s : String) × (asked_state txn.req ≡ some s)
            × (state_of txn ≡ some s)
            × ((s == "") ≡ false))
  unfolding state_of
  state_cases txn = elim (Option-cases txn.req) [
    | inl e ↦ inl (rw e refl, inl (rw e refl))
    | inr (r, e) ↦ elim (Option-cases r.state) [
      | inl k ↦ inl (rw (e, k) refl, inl (rw (e, k) refl))
      | inr (s, k) ↦ elim (Bool-cases (s == "")) [
        | inl b ↦ inl (rw (e, k, b) refl, inr (s, rw (e, k) refl, b))
        | inr b ↦ inr (s, rw (e, k, b) refl, rw (e, k) refl, b)
      ]
    ]
  ]

  pub with_state-query_of :
      (txn : Transaction C U) (name value : String)
      → (name == "state") ≡ false
      → with_state txn ((name, value) ∷ []) ≡ query_of name value (asked_state txn.req)
  unfolding with_state put
  with_state-query_of txn name value h = elim (state_cases txn) [
    | inl (a, inl k) ↦ rw (a, with_state, k) refl
    | inl (a, inr (s, k, b)) ↦ rw (a, with_state, k, b) refl
    | inr (s, a, k, b) ↦ rw (a, with_state, k, b, h) refl
  ]

  pub token_state-object_of :
      (txn : Transaction C U) (name value : String)
      → (name == "state") ≡ false
      → token_state txn ((name, str value) ∷ []) ≡ object_of name value (asked_state txn.req)
  unfolding token_state put
  token_state-object_of txn name value h = elim (state_cases txn) [
    | inl (a, inl k) ↦ rw (a, token_state, k) refl
    | inl (a, inr (s, k, b)) ↦ rw (a, token_state, k, b) refl
    | inr (s, a, k, b) ↦ rw (a, token_state, k, b, h) refl
  ]

  token_state-HasState :
      (txn : Transaction C U) (o : Object) → HasState (token_state txn o) (asked_state txn.req)
  unfolding token_state
  token_state-HasState txn o = elim (state_cases txn) [
    | inl (a, inl k) ↦ rw a tt
    | inl (a, inr (s, k, b)) ↦ rw a tt
    | inr (s, a, k, b) ↦ rw (a, token_state, k, b) (get-put o "state" "state" (str s))
  ]

  get-token_state :
      (txn : Transaction C U) (o : Object)
      → get (token_state txn o) "access_token" ≡ get o "access_token"
  unfolding token_state
  get-token_state txn o = elim (state_cases txn) [
    | inl (a, inl k) ↦ rw (token_state, k) refl
    | inl (a, inr (s, k, b)) ↦ rw (token_state, k, b) refl
    | inr (s, a, k, b) ↦ rw (token_state, k, b) (get-put o "state" "access_token" (str s))
  ]

  pub token_state-IsToken :
      (txn : Transaction C U) (access : String) (params : Option Object)
      → IsToken access params
          (asked_state txn.req)
          (token_state txn (token_object access no_refresh params))
  unfolding get
  token_state-IsToken txn access none =
      let o = token_object access no_refresh none in
      (
        get-token_state txn o ∙ token_object-access_token access no_refresh none refl,
        token_state-HasState txn o,
      )
  token_state-IsToken txn access (some p) =
      let o = token_object access no_refresh (some p) in
      (
        elim (Option-cases (get p "access_token")) [
          | inl e ↦
              inr (get-token_state txn o ∙ token_object-access_token access no_refresh (some p) e)
          | inr (v, e) ↦ inl (λ k. cc (e, k))
        ],
        token_state-HasState txn o,
      )

-- ===== src/OAuth/Helper/Client.antt =====
-- When `validateClient` accepts a request.
use package.text.Mathlib.Text.{starts_with}
use microgateway.Common.{
  ◌≡◌, ◌≢◌, ◌↔◌, ◌⊎◌, inl, inr, String, refl, Bool, true, false, Option, none, some, arith, ◌==◌,
  eq_iff, Bool-cases, split, if◌then◌else◌,
}
use microgateway.OAuth.Server.Support.{
  AllKnown, FirstKnown, support_scope_iff, support_grant_type_iff, support_response_type_iff,
}
use microgateway.OAuth.Server.{
  Server, Words, text, array, support_scope, support_response_type, support_grant_type,
}
use microgateway.OAuth.Helper.{
  Items, missing, words, list, Options, Refusal, unrecognized_scope, unsupported_response_type,
  unsupported_grant_type, if_not, normalize_list, check_redirect, check_scope, check_response,
  check_grant, validate_client,
}

abbrev pub RedirectFits : Option String → Option String → Type 0
RedirectFits client_uri none = Unit
RedirectFits none (some uri) = (uri ≡ "") ⊎ (starts_with uri "undefined" ≡ true)
RedirectFits (some c) (some uri) = (uri ≡ "") ⊎ (starts_with uri c ≡ true)

redirect_iff : (c u : Option String) → (check_redirect c u ≡ none) ↔ RedirectFits c u
unfolding check_redirect
redirect_iff c none = (λ _. tt, λ _. refl)
redirect_iff none (some uri) = ground (arith, eq_iff uri "")
redirect_iff (some c) (some uri) = ground (arith, eq_iff uri "")

-- a refusal unless a test goes well
if_not_iff : (b : Bool) (r : Refusal) → (if_not b r ≡ none) ↔ (b ≡ true)
if_not_iff true r = (λ _. refl, λ _. refl)
if_not_iff false r = (λ h. cc, λ h. cc)

through : {A B C : Type 0} → A ↔ B → B ↔ C → A ↔ C
through (f, g) (h, k) = (λ a. h (f a), λ c. g (k c))

-- a test that the empty text passes without
or_empty :
    {P : Type 0}
    → (s : String) (b : Bool) (r : Refusal) → (b ≡ true) ↔ P
    → ((if s == "" then none else if_not b r) ≡ none) ↔ ((s ≡ "") ⊎ P)
or_empty s b r (to, from) = elim (Bool-cases (s == "")) [
  | inl e ↦ rw e (λ h. inl ((eq_iff s "").0 e), λ x. refl)
  | inr e ↦ rw e (
    λ h. inr (to ((if_not_iff b r).0 h)),
    λ x. elim x [ inl k ↦ cc (e, (eq_iff s "").1 k) | inr p ↦ (if_not_iff b r).1 (from p) ],
  )
]

module _ {S E : Type 0} (server : Server S E) where
  abbrev pub ScopeFits : Items → Type 0
  ScopeFits missing = Unit
  ScopeFits (words s) = (s ≢ "") × AllKnown server.scopes (normalize_list (words s))
  ScopeFits (list l) = AllKnown server.scopes l

  abbrev pub ResponseFits : Option Words → Type 0
  ResponseFits none = Unit
  ResponseFits (some (text s)) = (s ≡ "") ⊎ FirstKnown server.response_types (split b' ' s)
  ResponseFits (some (array l)) = FirstKnown server.response_types l

  abbrev pub GrantFits : Option Words → Type 0
  GrantFits none = Unit
  GrantFits (some (text s)) = (s ≡ "") ⊎ AllKnown server.grant_types (split b' ' s)
  GrantFits (some (array l)) = AllKnown server.grant_types l

  scope_iff : (i : Items) → (check_scope server i ≡ none) ↔ ScopeFits i
  unfolding check_scope
  scope_iff missing = (λ _. tt, λ _. refl)
  scope_iff (words s) =
      let (to, from) = support_scope_iff server (array (normalize_list (words s))) in
      elim (Bool-cases (s == "")) [
        | inl b ↦ rw b (λ h. cc, λ (n, k). absurd (n ((eq_iff s "").0 b)))
        | inr b ↦
            let (up, down) =
              if_not_iff (support_scope server (array (normalize_list (words s))))
                unrecognized_scope in
            rw b (λ h. (λ e. cc (b, (eq_iff s "").1 e), to (up h)), λ (n, k). down (from k))
      ]
  scope_iff (list l) =
      through (if_not_iff (support_scope server (array l)) unrecognized_scope)
        (support_scope_iff server (array l))

  response_iff : (o : Option Words) → (check_response server o ≡ none) ↔ ResponseFits o
  unfolding check_response
  response_iff none = (λ _. tt, λ _. refl)
  response_iff (some (text s)) =
      or_empty s (support_response_type server (text s)) unsupported_response_type
        (support_response_type_iff server (text s))
  response_iff (some (array l)) =
      through (if_not_iff (support_response_type server (array l)) unsupported_response_type)
        (support_response_type_iff server (array l))

  grant_iff : (o : Option Words) → (check_grant server o ≡ none) ↔ GrantFits o
  unfolding check_grant
  grant_iff none = (λ _. tt, λ _. refl)
  grant_iff (some (text s)) =
      or_empty s (support_grant_type server (text s)) unsupported_grant_type
        (support_grant_type_iff server (text s))
  grant_iff (some (array l)) =
      through (if_not_iff (support_grant_type server (array l)) unsupported_grant_type)
        (support_grant_type_iff server (array l))

  validate_parts :
      (client_uri : Option String) (o : Options)
      → (validate_client server client_uri o ≡ none) ↔ (
          (check_redirect client_uri o.redirect_uri ≡ none)
          × (check_scope server o.scope ≡ none)
          × (check_response server o.response_type ≡ none)
          × (check_grant server o.grant_type ≡ none))
  unfolding validate_client
  validate_parts client_uri o = (λ e. ground arith, λ (a, b, c, d). ground arith)

  -- A client's request is accepted exactly when each part that it has fits. A redirect URI that is not
  -- empty begins with the registered one, or with 'undefined' where none is registered. A scope is not
  -- the empty text, and each of its words is one of the server's scopes; of a response type only the
  -- first word has to be one of the server's, and of a grant type every word. An empty response or
  -- grant type is not looked at.
  pub validate_client_iff :
      (client_uri : Option String) (o : Options)
      → (validate_client server client_uri o ≡ none) ↔ (
          RedirectFits client_uri o.redirect_uri
          × ScopeFits o.scope
          × ResponseFits o.response_type
          × GrantFits o.grant_type)
  validate_client_iff client_uri o =
      let (to, from) = validate_parts client_uri o in
      (
        λ e.
            let (a, b, c, d) = to e in
            (
              (redirect_iff client_uri o.redirect_uri).0 a,
              (scope_iff o.scope).0 b,
              (response_iff o.response_type).0 c,
              (grant_iff o.grant_type).0 d,
            ),
        λ (a, b, c, d). from (
          (redirect_iff client_uri o.redirect_uri).1 a,
          (scope_iff o.scope).1 b,
          (response_iff o.response_type).1 c,
          (grant_iff o.grant_type).1 d,
        ),
      )

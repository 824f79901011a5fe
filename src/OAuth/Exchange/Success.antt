-- ===== src/OAuth/Exchange/Success.antt =====
-- What the answer 'route' of an exchange says of the call of `issue`.
use microgateway.Common.{
  ℕ, String, ◌≡◌, refl, Bool, true, false, none, some, List, arith, get, truthy, Option-cases,
  Bool-cases, inl, inr, ◌⊎◌,
}
use microgateway.OAuth.Server.{Reply, report, hold}
use microgateway.OAuth.Exchange.{
  Object, Failure, route, token_error, other, Issuing, calls, raises, silent, Message, Scope,
  requested_scope, IssueRefresh, value_or_empty, issued, call_issue, issue_refresh, refresh_token,
  lacks,
}

-- The callback got the error 'route', or this was thrown.
abbrev pub is_route : Issuing → Bool
is_route (calls i) = elim i.err [
  | none ↦ false
  | some e ↦ elim e [ route ↦ true | token_error m c ↦ false | other s ↦ false ]
]
is_route (raises e) = elim e [ route ↦ true | token_error m c ↦ false | other s ↦ false ]
is_route silent = false

-- The callback got an access token, and no error.
abbrev pub succeeds : Issuing → Bool
succeeds (calls i) = elim i.err [ none ↦ truthy i.access_token | some e ↦ false ]
succeeds (raises e) = false
succeeds silent = false

module _ {C W : Type 0} (stringify : Object → String) (separators : List ℕ) (client : C) where
  call_issue-route :
      (invalid : String) (x : Issuing × W) (m : Message)
      → is_route x.0 ≡ false
      → (call_issue stringify separators client invalid x m).0 ≡ report route
      → (succeeds x.0 ≡ true) × ((call_issue stringify separators client invalid x m).1.0 ≡ x.1)
  unfolding call_issue issued
  call_issue-route invalid (calls i, w) m h e = (ground arith, refl)
  call_issue-route invalid (raises f, w) m h e = ground arith
  call_issue-route invalid (silent, w) m h e = cc

  call_issue-reports :
      (invalid : String) (x : Issuing × W) (m : Message)
      → ((e : Failure) × ((call_issue stringify separators client invalid x m).0 ≡ report e))
        ⊎ ((call_issue stringify separators client invalid x m).0 ≡ hold)
  unfolding call_issue issued
  call_issue-reports invalid (calls i, w) m = elim (Option-cases i.err) [
    | inl e ↦ elim (Bool-cases (truthy i.access_token)) [
      | inl t ↦ inl (route, ground arith)
      | inr t ↦ inl (token_error invalid "invalid_grant", ground arith)
    ]
    | inr (f, e) ↦ inl (f, ground arith)
  ]
  call_issue-reports invalid (raises f, w) m = inl (f, refl)
  call_issue-reports invalid (silent, w) m = inr refl

  -- The exchange of refresh tokens answers 'route' only where `issue`, called with the parameter
  -- 'refresh_token' and the requested scope, gave an access token; and the world is what that left.
  pub refresh_token-route :
      (issue : C → String → Scope → W → Issuing × W) (parameters : List (String × String)) (w : W)
      (m : Message)
      → is_route
          (issue client
            (value_or_empty (get parameters "refresh_token"))
            (requested_scope separators (get parameters "scope"))
            w).0
        ≡ false
      → (refresh_token stringify separators client (IssueRefresh.scoped issue) parameters (w, m)).0
        ≡ report route
      → (succeeds
            (issue client
              (value_or_empty (get parameters "refresh_token"))
              (requested_scope separators (get parameters "scope"))
              w).0
          ≡ true)
        × ((refresh_token stringify separators client
              (IssueRefresh.scoped issue)
              parameters
              (w, m)).1.0
            ≡ (issue client
                (value_or_empty (get parameters "refresh_token"))
                (requested_scope separators (get parameters "scope"))
                w).1)
  unfolding refresh_token lacks issue_refresh
  refresh_token-route issue parameters w m h e =
      elim (Bool-cases (truthy (get parameters "refresh_token"))) [
        | inl t ↦ rw t (
            call_issue-route "Invalid refresh token"
              (issue client (value_or_empty (get parameters "refresh_token"))
                (requested_scope separators (get parameters "scope")) w)
              m h (rw t at e))
        | inr t ↦ absurd (wrong (rw t at e))
      ]
    where
      wrong :
          ◌≡◌ {A = Reply Failure}
            (report (lacks "Missing required parameter \"refresh_token\""))
            (report route)
          → ⊥
      wrong e = ground arith

  -- It reports, or leaves the request waiting.
  pub refresh_token-reports :
      (issue : C → String → Scope → W → Issuing × W) (parameters : List (String × String)) (w : W)
      (m : Message)
      → ((e : Failure) × ((refresh_token stringify separators client
              (IssueRefresh.scoped issue)
              parameters
              (w, m)).0
            ≡ report e))
        ⊎ ((refresh_token stringify separators client
              (IssueRefresh.scoped issue)
              parameters
              (w, m)).0
            ≡ hold)
  unfolding refresh_token lacks issue_refresh
  refresh_token-reports issue parameters w m =
      elim (Bool-cases (truthy (get parameters "refresh_token"))) [
        | inl t ↦ rw t (
            call_issue-reports "Invalid refresh token"
              (issue client (value_or_empty (get parameters "refresh_token"))
                (requested_scope separators (get parameters "scope")) w)
              m)
        | inr t ↦ rw t (inl (_, refl))
      ]

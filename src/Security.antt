-- ===== src/Security.antt =====
-- lib/security-check/security.js: the evaluation of the security requirements of an operation. The
-- requirements are alternatives, and the schemes of one must all pass.
--
-- `async.forEach` is an argument, the record `ForEach`, with what its documentation says of it; an
-- iterator is a function on the variables that the callbacks share, and answers at once. The
-- handlers that `setApiKeyHandler` and the like register are one function on the definition.
pub mod Requirements
pub mod Complete
pub mod InOrder
pub mod ApiKey
pub mod Ldap
pub mod Basic
pub mod Champion
pub mod Tests
use microgateway.Common.{
  In, String, ◌≡◌, Bool, true, false, not, ◌||◌, Option, none, some, List, [], ◌∷◌, get, ◌==◌,
  if◌then◌else◌,
}
use microgateway.Api.{Requirement, Definition}

-- `async.forEach(items, iterator, callback)`: the error that the callback gets, and the shared
-- state at that time. The callback gets no error once every iterator has ended without one, and
-- otherwise the error of an iterator; and only iterators change the state.
pub record ForEach (S E : Type 0) : Type 1 where
  pub for_each : {X : Type 0} → List X → (X → S → Option E × S) → S → Option E × S
  pub done :
      {X : Type 0} (xs : List X) (f : X → S → Option E × S) (s : S)
      → (for_each xs f s).0 ≡ none
      → (x : X) → In x xs
      → (s1 : S) × ((f x s1).0 ≡ none)
  pub failed :
      {X : Type 0} (xs : List X) (f : X → S → Option E × S) (s : S) (e : E)
      → (for_each xs f s).0 ≡ some e
      → (x : X) × In x xs
        × ((s1 : S) × ((f x s1).0 ≡ some e)
            × ((J : S → Type 0)
                → ((y : X) (s2 : S) → In y xs → J s2 → J (f y s2).1)
                → J (f x s1).1
                → J (for_each xs f s).1))
  pub kept :
      {X : Type 0} (xs : List X) (f : X → S → Option E × S) (s : S) (J : S → Type 0)
      → ((y : X) (s2 : S) → In y xs → J s2 → J (f y s2).1)
      → J s
      → J (for_each xs f s).1

-- `evalResult` and `clientSecret`
pub record Shared : Type 0 where
  pub eval_result : Bool
  pub client_secret : Option String

-- An error with `break`, and the one for a scheme without a definition.
pub data Failure : Type 0 where
  breaking : Failure
  no_definition : Failure

-- the arguments of the callback of `evalSecurity`
pub record Verdict : Type 0 where
  pub err : Option Failure
  pub pass : Bool
  pub no_security_reqs : Bool
  pub client_secret : Option String

abbrev pub reqs_list : Option (List Requirement) → List Requirement
reqs_list none = []
reqs_list (some reqs) = reqs

pub no_reqs : List Requirement → Bool
no_reqs [] = true
no_reqs (r ∷ reqs) = false

abbrev pub Handler : Type 0
Handler = Requirement → Definition → Bool × Option String

-- A secret that is empty is not saved.
save_secret : Option String → Shared → Shared
save_secret none s = s
save_secret (some secret) s = if secret == "" then s else record s { client_secret = some secret }

-- the callback of a handler
pub on_answer : Bool × Option String → Shared → Option Failure × Shared
unfolding save_secret
on_answer (pass, secret) s = if pass then (none, save_secret secret s) else (some breaking, s)

pub on_definition : Handler → Requirement → Option Definition → Shared → Option Failure × Shared
unfolding on_answer
on_definition handler req none s = (some no_definition, s)
on_definition handler req (some d) s = on_answer (handler req d) s

-- the callback of the inner loop
pub on_schemes : Option Failure × Shared → Option Failure × Shared
on_schemes (none, s) = (some breaking, record s { eval_result = true })
on_schemes (some breaking, s) = (none, s)
on_schemes (some no_definition, s) = (some no_definition, s)

pub reported : Option Failure → Option Failure
reported (some breaking) = none
reported e = e

-- the callback of the outer loop
pub on_requirements : Bool → Option Failure × Shared → Verdict
unfolding reported
on_requirements no_security_reqs (e, s) = record {
  err = reported e;
  pass = s.eval_result;
  no_security_reqs = no_security_reqs;
  client_secret = s.client_secret;
}

module _ (each : ForEach Shared Failure) (handler : Handler)
    (defs : List (String × Definition)) where
  pub eval_scheme : Requirement → String → Shared → Option Failure × Shared
  unfolding on_definition
  eval_scheme req scheme s = on_definition handler req (get defs scheme) s

  pub eval_requirement : Requirement → Shared → Option Failure × Shared
  unfolding eval_scheme on_schemes
  eval_requirement req s =
      on_schemes (each.for_each req (eval_scheme req) (record s { client_secret = none }))

  unfoldable pub eval_security : Option (List Requirement) → Verdict
  unfolding eval_requirement on_requirements no_reqs
  eval_security reqs =
      let start : Shared = record {
        eval_result = no_reqs (reqs_list reqs);
        client_secret = none;
      } in
      on_requirements (no_reqs (reqs_list reqs))
        (each.for_each (reqs_list reqs) eval_requirement start)

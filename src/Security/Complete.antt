-- ===== src/Security/Complete.antt =====
-- The evaluation of security requirements passes where one of them does.
use microgateway.Common.{
  In, String, ◌≡◌, refl, sym, ◌∙◌, true, false, Option, none, some, List, get, arith, Option-cases,
  inl, inr,
}
use microgateway.Api.{Requirement, Definition}
use microgateway.Security.{
  ForEach, Shared, Failure, breaking, no_definition, reqs_list, no_reqs, Handler, on_answer,
  on_definition, on_schemes, on_requirements, eval_scheme, eval_requirement, eval_security,
}
use microgateway.Security.Requirements.{RequirementPasses, schemes-keep}

module _ (each : ForEach Shared Failure) (handler : Handler)
    (defs : List (String × Definition)) where
  abbrev pub Defined : Requirement → Type 0
  Defined req = (scheme : String) → In scheme req → (d : Definition) × (get defs scheme ≡ some d)

  scheme-error :
      (req : Requirement) (scheme : String) (s : Shared) (d : Definition) (e : Failure)
      → get defs scheme ≡ some d
      → (eval_scheme each handler defs req scheme s).0 ≡ some e
      → (e ≡ breaking) × ((handler req d).0 ≡ false)
  unfolding eval_scheme on_definition on_answer
  scheme-error req scheme s d e known h = ground arith

  schemes-error :
      (req : Requirement) (s : Shared) (e : Failure)
      → Defined req
      → (each.for_each req (eval_scheme each handler defs req) s).0 ≡ some e
      → e ≡ breaking
  schemes-error req s e known h =
      let (scheme, m, (s1, k, _)) = each.failed req (eval_scheme each handler defs req) s e h in
      let (d, is) = known scheme m in (scheme-error req scheme s1 d e is k).0

  schemes-pass :
      (req : Requirement) (s : Shared)
      → RequirementPasses each handler defs req
      → (each.for_each req (eval_scheme each handler defs req) s).0 ≡ none
  schemes-pass req s p =
      elim (Option-cases (each.for_each req (eval_scheme each handler defs req) s).0) [
        | inl e ↦ e
        | inr (e, h) ↦
            let (scheme, m, (s1, k, _)) =
              each.failed req (eval_scheme each handler defs req) s e h in
            let (d, is, passes) = p scheme m in
            cc (sym passes ∙ (scheme-error req scheme s1 d e is k).1)
      ]

  on-none :
      (r : Option Failure × Shared)
      → r.0 ≡ none
      → ((on_schemes r).0 ≡ some breaking) × ((on_schemes r).1.eval_result ≡ true)
  unfolding on_schemes
  on-none (none, s) h = (refl, refl)
  on-none (some e, s) h = cc

  on-some :
      (r : Option Failure × Shared) (e : Failure)
      → ((e' : Failure) → r.0 ≡ some e' → e' ≡ breaking)
      → (on_schemes r).0 ≡ some e
      → (e ≡ breaking) × ((on_schemes r).1.eval_result ≡ true)
  unfolding on_schemes
  on-some (none, s) e b h = (ground arith, refl)
  on-some (some breaking, s) e b h = cc
  on-some (some no_definition, s) e b h = cc (b no_definition refl)

  on-true :
      (r : Option Failure × Shared) → r.1.eval_result ≡ true → (on_schemes r).1.eval_result ≡ true
  unfolding on_schemes
  on-true (none, s) h = refl
  on-true (some breaking, s) h = h
  on-true (some no_definition, s) h = h

  requirement-true :
      (req : Requirement) (s : Shared)
      → s.eval_result ≡ true
      → (eval_requirement each handler defs req s).1.eval_result ≡ true
  unfolding eval_requirement
  requirement-true req s h =
      let cleared : Shared = record s { client_secret = none } in
      on-true (each.for_each req (eval_scheme each handler defs req) cleared)
        (schemes-keep each handler defs true req cleared h)

  requirement-error :
      (req : Requirement) (s : Shared) (e : Failure)
      → Defined req
      → (eval_requirement each handler defs req s).0 ≡ some e
      → (e ≡ breaking) × ((eval_requirement each handler defs req s).1.eval_result ≡ true)
  unfolding eval_requirement
  requirement-error req s e known h =
      let cleared : Shared = record s { client_secret = none } in
      on-some (each.for_each req (eval_scheme each handler defs req) cleared) e
        (λ e' k. schemes-error req cleared e' known k) h

  requirement-breaks :
      (req : Requirement) (s : Shared)
      → RequirementPasses each handler defs req
      → (eval_requirement each handler defs req s).0 ≡ some breaking
  unfolding eval_requirement
  requirement-breaks req s p =
      let cleared : Shared = record s { client_secret = none } in
      (on-none (each.for_each req (eval_scheme each handler defs req) cleared)
        (schemes-pass req cleared p)).0

  -- Where every scheme of the requirements has a definition, and one requirement has only schemes
  -- that pass, the evaluation passes without an error.
  pub eval_security_complete :
      (reqs : Option (List Requirement)) (req : Requirement)
      → ((r : Requirement) → In r (reqs_list reqs) → Defined r)
      → In req (reqs_list reqs)
      → RequirementPasses each handler defs req
      → ((eval_security each handler defs reqs).pass ≡ true)
        × ((eval_security each handler defs reqs).err ≡ none)
  unfolding eval_security on_requirements
  eval_security_complete reqs req known m p =
      let l = reqs_list reqs in
      let start : Shared = record { eval_result = no_reqs l; client_secret = none } in
      elim (Option-cases (each.for_each l (eval_requirement each handler defs) start).0) [
        | inl e ↦
            let (s1, k) = each.done l (eval_requirement each handler defs) start e req m in
            cc (sym k ∙ requirement-breaks req s1 p)
        | inr (e, h) ↦
            let (r, n, (s1, k, keep)) =
              each.failed l (eval_requirement each handler defs) start e h in
            let (breaks, passes) = requirement-error r s1 e (known r n) k in
            (
              keep (λ s. s.eval_result ≡ true) (λ r' s _ t. requirement-true r' s t) passes,
              rw (h, breaks) refl,
            )
      ]

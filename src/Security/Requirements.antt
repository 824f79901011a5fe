-- ===== src/Security/Requirements.antt =====
-- When the evaluation of security requirements passes.
use microgateway.Common.{
  In, String, ◌≡◌, refl, sym, ◌∙◌, Bool, true, false, Option, none, some, List, get, arith,
  Bool-cases, inl, inr, ◌⊎◌,
}
use microgateway.Api.{Requirement, Definition}
use microgateway.Security.{
  ForEach, Shared, Failure, breaking, no_definition, reqs_list, no_reqs, Handler, save_secret,
  on_answer, on_definition, on_schemes, on_requirements, eval_scheme, eval_requirement,
  eval_security,
}

module _ (each : ForEach Shared Failure) (handler : Handler)
    (defs : List (String × Definition)) where
  -- The scheme has a definition, by which the handler passes.
  abbrev pub SchemePasses : Requirement → String → Type 0
  SchemePasses req scheme =
      (d : Definition) × (get defs scheme ≡ some d) × ((handler req d).0 ≡ true)

  abbrev pub RequirementPasses : Requirement → Type 0
  RequirementPasses req = (scheme : String) → In scheme req → SchemePasses req scheme

  definition-none :
      (req : Requirement) (o : Option Definition) (s : Shared)
      → (on_definition handler req o s).0 ≡ none
      → (d : Definition) × (o ≡ some d) × ((handler req d).0 ≡ true)
  unfolding on_definition on_answer
  definition-none req none s h = cc
  definition-none req (some d) s h = (d, refl, ground arith)

  scheme-none :
      (req : Requirement) (scheme : String) (s : Shared)
      → (eval_scheme each handler defs req scheme s).0 ≡ none
      → SchemePasses req scheme
  unfolding eval_scheme
  scheme-none req scheme s h = definition-none req (get defs scheme) s h

  answer-result :
      (p : Bool × Option String) (s : Shared) → (on_answer p s).1.eval_result ≡ s.eval_result
  unfolding on_answer save_secret
  answer-result (true, none) s = refl
  answer-result (true, some secret) s = ground arith
  answer-result (false, secret) s = refl

  definition-result :
      (req : Requirement) (o : Option Definition) (s : Shared)
      → (on_definition handler req o s).1.eval_result ≡ s.eval_result
  unfolding on_definition
  definition-result req none s = refl
  definition-result req (some d) s = answer-result (handler req d) s

  -- The schemes of a requirement leave the result as it was.
  pub schemes-keep :
      (b : Bool) (req : Requirement) (s : Shared)
      → s.eval_result ≡ b
      → (each.for_each req (eval_scheme each handler defs req) s).1.eval_result ≡ b
  unfolding eval_scheme
  schemes-keep b req s h =
      each.kept req (eval_scheme each handler defs req) s (λ s'. s'.eval_result ≡ b)
        (λ scheme s' _ k. definition-result req (get defs scheme) s' ∙ k) h

  schemes-result :
      (r : Option Failure × Shared)
      → (on_schemes r).1.eval_result ≡ true
      → (r.0 ≡ none) ⊎ (r.1.eval_result ≡ true)
  unfolding on_schemes
  schemes-result (none, s) h = inl refl
  schemes-result (some breaking, s) h = inr h
  schemes-result (some no_definition, s) h = inr h

  -- After a requirement, the result is true if it was, or else the requirement passes.
  requirement-result :
      (req : Requirement) (s : Shared)
      → (eval_requirement each handler defs req s).1.eval_result ≡ true
      → (s.eval_result ≡ true) ⊎ RequirementPasses req
  unfolding eval_requirement
  requirement-result req s h =
      let cleared : Shared = record s { client_secret = none } in
      elim (schemes-result (each.for_each req (eval_scheme each handler defs req) cleared) h) [
        | inl e ↦ inr (λ scheme m.
            let (s1, k) = each.done req (eval_scheme each handler defs req) cleared e scheme m in
            scheme-none req scheme s1 k)
        | inr e ↦ inl (elim (Bool-cases s.eval_result) [
          | inl k ↦ k
          | inr k ↦ cc (sym e ∙ schemes-keep false req cleared k)
        ])
      ]

  -- What the result says once it is true.
  abbrev Backed : List Requirement → Shared → Type 0
  Backed reqs s =
      s.eval_result ≡ true
      → (no_reqs reqs ≡ true) ⊎ ((req : Requirement) × In req reqs × RequirementPasses req)

  requirement-Backed :
      (reqs : List Requirement) (req : Requirement) (s : Shared)
      → In req reqs
      → Backed reqs s
      → Backed reqs (eval_requirement each handler defs req s).1
  requirement-Backed reqs req s m b h = elim (requirement-result req s h) [
    | inl e ↦ b e
    | inr p ↦ inr (req, m, p)
  ]

  -- An evaluation that passes had no requirements, or one of them has a definition for each of its
  -- schemes, by which the handler passes.
  pub eval_security_sound :
      (reqs : Option (List Requirement))
      → (eval_security each handler defs reqs).pass ≡ true
      → (no_reqs (reqs_list reqs) ≡ true)
        ⊎ ((req : Requirement) × In req (reqs_list reqs) × RequirementPasses req)
  unfolding eval_security on_requirements
  eval_security_sound reqs h =
      let l = reqs_list reqs in
      let start : Shared = record { eval_result = no_reqs l; client_secret = none } in
      each.kept l (eval_requirement each handler defs) start (Backed l)
        (λ req s m b. requirement-Backed l req s m b) (λ e. inl e) h

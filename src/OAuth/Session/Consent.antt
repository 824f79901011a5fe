-- ===== src/OAuth/Session/Consent.antt =====
-- The decision endpoint with the code grant as the answer to a transaction: az-server/index.js gives
-- `_respond` of the server the transaction, and the grant's handler of grant/code.js reads it.
use microgateway.Common.{
  String, ◌≡◌, ◌⊎◌, refl, ap, ◌∙◌, true, false, Option, none, some, List, truthy, same, get, join,
  and_split, Option-cases, Bool-cases, inl, inr, eq_iff, if◌then◌else◌,
}
use microgateway.OAuth.Server.{Server}
use microgateway.OAuth.Exchange.{Scope, in_scopes, no_scope, empty_scope, value_or_empty}
use microgateway.OAuth.Authorization.{
  Next, failed, Answer, Urls, AzRequest, Transaction, Message, no_redirect, type_error, code_denied,
  code_granted, code_response,
}
use microgateway.OAuth.Authorization.Routed.{truthy-some, respond-denied}
use microgateway.Security.Ldap
use microgateway.Security.Basic.{Auth, Services, credentials}
use microgateway.Security.Basic.Granted.{Backed}
use microgateway.OAuth.Session
use microgateway.OAuth.Session.{
  Client, Res, Txn, Txns, Session, absent, unused, holds, Outcome, goes_on, Request, param,
  transaction_loader,
}
use microgateway.OAuth.Session.Decision.{
  no_res, Form, Ended, decision, is_of_user, is_of_request, on_scope, decided, respond_with,
  stopped, on_transaction, after_loading, decision_handlers,
}
use microgateway.OAuth.Session.Vetted.{get-Each, IsVetted, IsSound}
use microgateway.OAuth.Session.Steps.{Reached, Reached-Sound}

-- A transaction as the grants see it.
with_res : Txn → Res → Transaction Client (Option String)
with_res t res = record {
  client = t.client;
  user = t.user;
  redirect_uri = t.redirect_uri;
  allow = res.allow;
  res_scope = res.scope;
  req = some t.req;
}

-- What the form of a consent has in common with the transaction.
pub record Consents (t : Txn) (form : Form) : Type 0 where
  pub approved : form.approve ≡ some "true"
  pub owner : (user : String) × (t.user ≡ some user) × (form.resource_owner ≡ some user)
  pub redirected : form.redirect_uri ≡ t.redirect_uri
  pub scoped : (l : List String) × (t.req.scope ≡ in_scopes l) × (form.scope ≡ some (join " " l))
  pub client : form.client_id ≡ some t.req.client_id

same-eq : (a b : Option String) → same a b ≡ true → a ≡ b
same-eq none none h = refl
same-eq none (some t) h = cc
same-eq (some s) none h = cc
same-eq (some s) (some t) h = ap some ((eq_iff s t).0 h)

module _ {W : Type 0} (urls : Urls)
    (issue : Transaction Client (Option String)
      → AzRequest
      → Scope
      → W
      → Answer (Unit {0}) × W) where
  -- The handler of the code grant, on a transaction of the session; it throws without a `res`.
  unfoldable pub answer_with_code : Txn → W × Message → Next × (W × Message)
  unfolding with_res code_response
  answer_with_code t wm = elim t.res [
    | some res ↦ code_response urls issue (with_res t res) wm
    | none ↦ if truthy t.redirect_uri then (failed type_error, wm) else (failed no_redirect, wm)
  ]

  abbrev Keeps : W → Ended × (Txn × (W × Message)) → Type 0
  Keeps w x = x.1.1.0 ≡ w

  -- Without a consent the provider is not asked for a code.
  unapproved-Keeps :
      (form : Form) (t : Txn) (w : W) (m : Message)
      → same form.approve (some "true") ≡ false
      → Keeps w (respond_with answer_with_code (decided form) t (w, m))
  unfolding respond_with decided answer_with_code with_res code_response
  unapproved-Keeps form t w m e =
      rw (e, decided)
        (respond-denied (code_denied urls) (code_granted urls) issue
          (with_res (record t { res = some no_res }) no_res) w m refl)

  on_scope-Consents :
      (form : Form) (t : Txn) (scope : Scope) (w : W) (m : Message)
      → t.req.scope ≡ scope
      → is_of_user t form ≡ true
      → Keeps w (on_scope answer_with_code scope form t (w, m)) ⊎ Consents t form
  unfolding on_scope stopped is_of_user is_of_request
  on_scope-Consents form t no_scope w m is h = inl refl
  on_scope-Consents form t empty_scope w m is h = inl refl
  on_scope-Consents form t (in_scopes l) w m is h = elim (Bool-cases (is_of_request l t form)) [
    | inr e ↦ rw (e, on_scope, stopped) (inl refl)
    | inl e ↦ elim (Bool-cases (same form.approve (some "true"))) [
      | inr k ↦ rw (e, on_scope) (inl (unapproved-Keeps form t w m k))
      | inl k ↦
          let (filled, rest) = and_split _ _ h in
          let (owner, uri) = and_split _ _ rest in
          let (scope, id) = and_split _ _ e in
          let (user, named, _) = truthy-some t.user filled in
          inr (record {
            approved = same-eq form.approve (some "true") k;
            owner = (user, named, same-eq form.resource_owner t.user owner ∙ named);
            redirected = same-eq form.redirect_uri t.redirect_uri uri;
            scoped = (l, is, same-eq form.scope (some (join " " l)) scope);
            client = same-eq form.client_id (some t.req.client_id) id;
          })
    ]
  ]

  decision-Consents :
      (form : Form) (t : Txn) (w : W) (m : Message)
      → Keeps w (decision answer_with_code form t (w, m)) ⊎ Consents t form
  unfolding decision stopped
  decision-Consents form t w m = elim (Bool-cases (is_of_user t form)) [
    | inl e ↦ rw (e, decision) (on_scope-Consents form t t.req.scope w m refl e)
    | inr e ↦ rw (e, decision, stopped) (inl refl)
  ]

  module _ {S E P T L : Type 0} (server : Server S E) (get_app_info : String → Option Client)
      (services : Services P T) (client : Ldap.Client L) (start : L) where
    -- The session holds a transaction that the form consents to: a vetted one, of a user who has
    -- logged in with a basic authorization that the registry stands behind.
    abbrev pub Authentic : Session → Option String → Form → Type 0
    Authentic s named form =
        (txns : Txns) × (id : String) × (t : Txn) × (s ≡ holds txns)
        × (get txns id ≡ some t)
        × (named ≡ some id)
        × Consents t form
        × IsVetted server get_app_info services client start t
        × (a : Auth) × (t.user ≡ some (credentials (services.decode a.token)).0)
        × Backed services client start a

    known_user :
        (t : Txn) (user : String)
        → IsSound server get_app_info services client start t
        → t.user ≡ some user
        → (a : Auth) × (t.user ≡ some (credentials (services.decode a.token)).0)
          × Backed services client start a
    known_user t user (vetted, inl (_, nobody)) e = cc
    known_user t user (vetted, inr login) e = login

    loaded :
        (req : Request) (txns : Txns)
        → ((e : Session.Error) × (transaction_loader "dp-state" req (holds txns)
              ≡ Session.failed e))
          ⊎ ((id : String) × (transaction_loader "dp-state" req (holds txns) ≡ goes_on id)
              × (param req "dp-state" ≡ some id))
    unfolding transaction_loader
    loaded req txns = elim (Bool-cases (truthy (param req "dp-state"))) [
      | inr e ↦ rw (e, transaction_loader) (inl (Session.no_transaction_id, refl))
      | inl e ↦
          let (id, is, _) = truthy-some (param req "dp-state") e in
          elim (Option-cases (get txns (value_or_empty (param req "dp-state")))) [
            | inl k ↦ rw (e, transaction_loader, k) (inl (Session.no_transaction, refl))
            | inr (t, k) ↦
                rw (e, transaction_loader, k)
                  (inr (id, ap (λ o. goes_on (value_or_empty o)) is, is))
          ]
    ]

    -- In a session that began without transactions and has seen any requests, in any order: where
    -- the decision endpoint turns to the provider for a code, the session holds a transaction by
    -- the id of the request that the form consents to, in its user, redirect URI, scope and
    -- client; its client is known and the redirect URI, the scope and the response type fit it;
    -- and its user has logged in by a basic authorization that an authentication URL or an LDAP
    -- bind stands behind.
    pub decision_handlers-Authentic :
        (s : Session) (w : W) (m : Message) (req : Request) (form : Form)
        → Reached server get_app_info services client start answer_with_code (s, (w, m))
        → ((decision_handlers answer_with_code req form s (w, m)).1.1.0 ≡ w)
          ⊎ Authentic s (param req "dp-state") form
    unfolding decision_handlers after_loading on_transaction transaction_loader
    decision_handlers-Authentic absent w m req form r = inl refl
    decision_handlers-Authentic unused w m req form r = inl refl
    decision_handlers-Authentic (holds txns) w m req form r = elim (loaded req txns) [
      | inl (e, k) ↦ rw (k, after_loading) (inl refl)
      | inr (id, k, named) ↦ elim (Option-cases (get txns id)) [
        | inl e ↦ rw (k, after_loading, on_transaction, e) (inl refl)
        | inr (t, e) ↦ elim (decision-Consents form t w m) [
          | inl idle ↦ rw (k, after_loading, on_transaction, e) (inl idle)
          | inr consent ↦
              let safe =
                Reached-Sound server get_app_info services client start answer_with_code _ r in
              let fine =
                get-Each (IsSound server get_app_info services client start) txns id t safe e in
              let (user, named', _) = consent.owner in
              let (a, same_user, backed) = known_user t user fine named' in
              inr (txns, id, t, refl, e, named, consent, fine.0, a, same_user, backed)
        ]
      ]
    ]

-- ===== src/OAuth/Session/Steps.antt =====
-- The requests of a browser session in any order: what none of them breaks. `respond` is the server's
-- answer to a transaction.
use microgateway.Common.{
  String, ◌≡◌, refl, ◌∙◌, Bool, true, false, Option, some, get, put, Option-cases, inl, inr,
  if◌then◌else◌,
}
use microgateway.OAuth.Server.{Server}
use microgateway.OAuth.Exchange.{Scope, in_scopes, no_scope, empty_scope}
use microgateway.OAuth.Authorization.{Next}
use microgateway.Security.Ldap
use microgateway.Security.Basic.{Auth, SecurityDef, Services}
use microgateway.OAuth.Session
use microgateway.OAuth.Session.{
  Client, Res, Txn, Txns, Session, absent, unused, holds, Outcome, goes_on, Request, Parsed, param,
  authorization, transaction_loader,
}
use microgateway.OAuth.Session.Decision.{
  Form, Ended, decision, is_of_user, is_of_request, on_scope, decided, respond_with, stopped,
  authenticated_handler, is_authorized_handler, on_transaction, after_loading, decision_handlers,
}
use microgateway.OAuth.Session.Login.{Settings, id_extractor}
use microgateway.OAuth.Session.Asked.{FromParser, authorization-Sound}
use microgateway.OAuth.Session.Vetted.{get-Each, IsSound, Sound, put-Sound, id_extractor-Sound}

-- The client, the user and the redirect URI of a transaction, which no answer changes.
abbrev Alike : Txn → Txn → Type 0
Alike t u =
    (u.client ≡ t.client)
    × (u.type ≡ t.type)
    × (u.req ≡ t.req)
    × (u.redirect_uri ≡ t.redirect_uri)
    × (u.logined ≡ t.logined)
    × (u.user ≡ t.user)

module _ {W : Type 0} (respond : Txn → W → Next × W) where
  if-Alike :
      (t : Txn) (b : Bool) (x y : Ended × (Txn × W))
      → Alike t x.1.0
      → Alike t y.1.0
      → Alike t (if b then x else y).1.0
  if-Alike t true x y h k = h
  if-Alike t false x y h k = k

  respond_with-Alike : (res : Res) (t : Txn) (w : W) → Alike t (respond_with respond res t w).1.0
  unfolding respond_with
  respond_with-Alike res t w = (refl, refl, refl, refl, refl, refl)

  on_scope-Alike :
      (l : Scope) (form : Form) (t : Txn) (w : W) → Alike t (on_scope respond l form t w).1.0
  unfolding on_scope stopped
  on_scope-Alike no_scope form t w = (refl, refl, refl, refl, refl, refl)
  on_scope-Alike empty_scope form t w = (refl, refl, refl, refl, refl, refl)
  on_scope-Alike (in_scopes l) form t w =
      if-Alike t (is_of_request l t form) _ _ (respond_with-Alike (decided form) t w)
        (refl, refl, refl, refl, refl, refl)

  decision-Alike : (form : Form) (t : Txn) (w : W) → Alike t (decision respond form t w).1.0
  unfolding decision stopped
  decision-Alike form t w =
      if-Alike t (is_of_user t form) _ _ (on_scope-Alike t.req.scope form t w)
        (refl, refl, refl, refl, refl, refl)

  authenticated-Alike : (t : Txn) (w : W) → Alike t (authenticated_handler respond t w).1.0
  unfolding authenticated_handler
  authenticated-Alike t w =
      if-Alike t t.logined _ _
        (respond_with-Alike (record { allow = true; scope = t.req.scope }) t w)
        (refl, refl, refl, refl, refl, refl)

  is_authorized-Alike :
      (authorized again : Bool) (t : Txn) (w : W)
      → Alike t (is_authorized_handler respond authorized again t w).1.0
  unfolding is_authorized_handler
  is_authorized-Alike true true t w = (refl, refl, refl, refl, refl, refl)
  is_authorized-Alike true false t w =
      respond_with-Alike (record { allow = true; scope = t.req.scope }) t w
  is_authorized-Alike false again t w = (refl, refl, refl, refl, refl, refl)

module _ {S E P T L : Type 0} (server : Server S E) (get_app_info : String → Option Client)
    (services : Services P T) (client : Ldap.Client L) (start : L) where
  abbrev IsFine : Txn → Type 0
  IsFine = IsSound server get_app_info services client start

  abbrev Safe : Session → Type 0
  Safe = Sound server get_app_info services client start

  Alike-IsSound : (t u : Txn) → Alike t u → IsFine t → IsFine u
  Alike-IsSound t u (a, b, c, d, e, f) ((known, (uri, is, filled, fits), supported), login) =
      ((rw (a, c) known, (uri, d ∙ is, filled, rw a fits), rw (a, b, c) supported), rw (e, f) login)

  module _ {W : Type 0} (respond : Txn → W → Next × W) where
    on_transaction-Sound :
        (handler : Txn → W → Ended × (Txn × W)) (txns : Txns) (id : String) (w : W)
        → ((t : Txn) → Alike t (handler t w).1.0)
        → Safe (holds txns)
        → Safe (on_transaction respond handler txns id w).1.0
    unfolding on_transaction
    on_transaction-Sound handler txns id w alike h = elim (Option-cases (get txns id)) [
      | inl e ↦ rw (e, on_transaction) h
      | inr (t, e) ↦
          let fine = Alike-IsSound t (handler t w).1.0 (alike t) (get-Each IsFine txns id t h e) in
          rw (e, on_transaction)
            (put-Sound server get_app_info services client start txns id (handler t w).1.0 h fine)
    ]

    after_loading-Sound :
        (handler : Txn → W → Ended × (Txn × W)) (o : Outcome) (s : Session) (w : W)
        → ((t : Txn) → Alike t (handler t w).1.0)
        → Safe s
        → Safe (after_loading respond handler o s w).1.0
    unfolding after_loading
    after_loading-Sound handler (Session.failed e) s w alike h = h
    after_loading-Sound handler (goes_on id) absent w alike h = tt
    after_loading-Sound handler (goes_on id) unused w alike h = tt
    after_loading-Sound handler (goes_on id) (holds txns) w alike h =
        on_transaction-Sound handler txns id w alike h

    -- What a request can do to a session and to the provider's world.
    pub data Step : Session × W → Session × W → Type 0 where
      asks :
          (uid : String) (req : Request) (p : Parsed) (s : Session) (w : W)
          → FromParser p
          → Step (s, w) ((authorization server get_app_info uid req p s).1, w)
      logs_in :
          (o : Settings) (snapshot : String) (def : SecurityDef) (auth : Option Auth) (txns : Txns)
          (id : String) (t : Txn) (w : W)
          → get txns id ≡ some t
          → Step
              (holds txns, w)
              (holds (put txns id (id_extractor services client start o snapshot def auth t).1), w)
      answers :
          (field : String) (req : Request) (s : Session) (w : W)
          → Step
              (s, w)
              (after_loading respond
                (authenticated_handler respond)
                (transaction_loader field req s)
                s
                w).1
      permits :
          (authorized again : Bool) (field : String) (req : Request) (s : Session) (w : W)
          → Step
              (s, w)
              (after_loading respond
                (is_authorized_handler respond authorized again)
                (transaction_loader field req s)
                s
                w).1
      decides :
          (req : Request) (form : Form) (s : Session) (w : W)
          → Step (s, w) (decision_handlers respond req form s w).1

    -- What requests have made of a session that held no transactions.
    pub data Reached : Session × W → Type 0 where
      begins : (w : W) → Reached (unused, w)
      steps : (x y : Session × W) → Reached x → Step x y → Reached y

    Step-Sound : (x y : Session × W) → Step x y → Safe x.0 → Safe y.0
    unfolding decision_handlers
    Step-Sound x y (asks uid req p s w from) h =
        authorization-Sound server get_app_info services client start uid req p s from h
    Step-Sound x y (logs_in o snapshot def auth txns id t w e) h =
        put-Sound server get_app_info services client start txns id _ h (
          id_extractor-Sound server get_app_info services client start o snapshot def auth t
            (get-Each IsFine txns id t h e))
    Step-Sound x y (answers field req s w) h =
        after_loading-Sound (authenticated_handler respond) (transaction_loader field req s) s w
          (λ t. authenticated-Alike respond t w) h
    Step-Sound x y (permits authorized again field req s w) h =
        after_loading-Sound (is_authorized_handler respond authorized again)
          (transaction_loader field req s) s w
          (λ t. is_authorized-Alike respond authorized again t w) h
    Step-Sound x y (decides req form s w) h =
        after_loading-Sound (decision respond form) (transaction_loader "dp-state" req s) s w
          (λ t. decision-Alike respond form t w) h

    -- In a session that requests have made, every transaction is sound.
    pub Reached-Sound : (x : Session × W) → Reached x → Safe x.0
    Reached-Sound x (begins w) = tt
    Reached-Sound y (steps x _ r s) = Step-Sound x y s (Reached-Sound x r)

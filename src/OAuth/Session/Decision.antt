-- ===== src/OAuth/Session/Decision.antt =====
-- lib/oauth2/az-server/middleware/decision.js, and the handlers of az-server/index.js that answer a
-- request for authorization. `respond` is the server's `_respond` on the transaction: what it calls
-- back with, and the provider's world `W` after it; `routed` is also a callback without an error.
use microgateway.Common.{
  String, Bool, true, false, ◌&&◌, Option, none, some, List, [], ◌∷◌, truthy, same, get, put, split,
  join, ◌==◌, if◌then◌else◌,
}
use microgateway.OAuth.Exchange.{Scope, no_scope, empty_scope, in_scopes, value_or_empty}
use microgateway.OAuth.Authorization.{Next, routed, Failure, AzRequest}
use microgateway.OAuth.Authorization
use microgateway.OAuth.Session.{
  Txn, Txns, Res, Error, forbidden, type_error, not_authenticated, Request, Session, absent, unused,
  holds, Outcome, failed, goes_on, transaction_loader,
}

-- `body.selectedscope`
pub data Selected : Type 0 where
  unselected : Selected
  one : String → Selected
  many : List String → Selected

-- the fields of the consent form
pub record Form : Type 0 where
  pub resource_owner : Option String
  pub redirect_uri : Option String
  pub scope : Option String
  pub client_id : Option String
  pub approve : Option String
  pub selected : Selected

-- What a handler calls: `next()`, `next` with an error, or nothing.
pub data Ended : Type 0 where
  continued : Ended
  erred : Error → Ended
  broke : Failure → Ended
  waiting : Ended

unfoldable pub ended_by : Next → Ended
ended_by routed = continued
ended_by (Authorization.failed e) = broke e
ended_by Authorization.waits = waiting

-- the comparisons before that with the scope
unfoldable pub is_of_user : Txn → Form → Bool
is_of_user t form =
    truthy t.user && (same form.resource_owner t.user && same form.redirect_uri t.redirect_uri)

-- the comparisons from that with the scope on
unfoldable pub is_of_request : List String → Txn → Form → Bool
is_of_request l t form =
    same form.scope (some (join " " l)) && same form.client_id (some t.req.client_id)

pub selected_scope : Form → List String
selected_scope form = elim form.selected [
  | unselected ↦ split b' ' (value_or_empty form.scope)
  | one s ↦ if s == "" then split b' ' (value_or_empty form.scope) else split b' ' s
  | many [] ↦ split b' ' (value_or_empty form.scope)
  | many (s ∷ l) ↦ s ∷ l
]

abbrev pub no_res : Res
no_res = record { allow = false; scope = no_scope }

-- `oauth2.res`
unfoldable pub decided : Form → Res
unfolding selected_scope
decided form =
    if same form.approve (some "true")
    then record { allow = true; scope = in_scopes (selected_scope form) }
    else no_res

module _ {W : Type 0} (respond : Txn → W → Next × W) where
  -- the answer with a `res`, and the transaction with it
  unfoldable pub respond_with : Res → Txn → W → Ended × (Txn × W)
  unfolding ended_by
  respond_with res t w =
      let (n, w') = respond (record t { res = some res }) w in
      (ended_by n, (record t { res = some res }, w'))

  unfoldable pub stopped : Error → Txn → W → Ended × (Txn × W)
  stopped e t w = (erred e, (record t { res = some no_res }, w))

  -- the rest of the comparisons, by the scope of the request; a scope that is no list has no `join`
  unfoldable pub on_scope : Scope → Form → Txn → W → Ended × (Txn × W)
  unfolding is_of_request respond_with stopped decided
  on_scope no_scope form t w = stopped type_error t w
  on_scope empty_scope form t w = stopped type_error t w
  on_scope (in_scopes l) form t w =
      if is_of_request l t form then respond_with (decided form) t w else stopped forbidden t w

  unfoldable pub decision : Form → Txn → W → Ended × (Txn × W)
  unfolding is_of_user on_scope
  decision form t w =
      if is_of_user t form then on_scope t.req.scope form t w else stopped forbidden t w

  -- authorizationAuthenticatedHandler and redirectAuthorizationHandler
  unfoldable pub authenticated_handler : Txn → W → Ended × (Txn × W)
  unfolding respond_with
  authenticated_handler t w =
      if t.logined
      then respond_with (record { allow = true; scope = t.req.scope }) t w
      else (erred not_authenticated, (t, w))

  -- isAuthorizedHandler, for what the look-up of the permission has given, without an error
  unfoldable pub is_authorized_handler :
      (authorized consent_again : Bool) → Txn → W → Ended × (Txn × W)
  unfolding respond_with
  is_authorized_handler authorized consent_again t w =
      let res : Res = record { allow = true; scope = t.req.scope } in
      if authorized
      then (if consent_again
          then (continued, (record t { res = some res }, w))
          else respond_with res t w)
      else (continued, (t, w))

  -- a handler on the transaction that the loader found
  unfoldable pub on_transaction :
      (Txn → W → Ended × (Txn × W)) → (txns : Txns) → (id : String) → W → Ended × (Session × W)
  unfolding put
  on_transaction handler txns id w = elim (get txns id) [
    | none ↦ (continued, (holds txns, w))
    | some t ↦ let (e, (t', w')) = handler t w in (e, (holds (put txns id t'), w'))
  ]

  unfoldable pub after_loading :
      (Txn → W → Ended × (Txn × W)) → Outcome → Session → W → Ended × (Session × W)
  unfolding on_transaction
  after_loading handler (failed e) s w = (erred e, (s, w))
  after_loading handler (goes_on id) absent w = (continued, (absent, w))
  after_loading handler (goes_on id) unused w = (continued, (unused, w))
  after_loading handler (goes_on id) (holds txns) w = on_transaction handler txns id w

  -- `decisionHandlers`
  unfoldable pub decision_handlers : Request → Form → Session → W → Ended × (Session × W)
  unfolding after_loading transaction_loader decision
  decision_handlers req form s w =
      after_loading (decision form) (transaction_loader "dp-state" req s) s w

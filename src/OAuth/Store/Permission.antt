-- ===== src/OAuth/Store/Permission.antt =====
-- lib/oauth2/models/index.js: the permissions that users give to clients. Beside the operations of
-- `DataModel` the table has `updateAttributes` on the row that a `findOne` gave. A permission has no
-- `expiredAt` of its own; LoopBack finds no row by a comparison with a missing field.
pub mod Granted
use microgateway.Common.{
  ℕ, String, ◌≡◌, Bool, true, false, ◌&&◌, Option, none, some, List, [], ◌∷◌, leb, find_first, ◌==◌,
  if◌then◌else◌,
}
use microgateway.OAuth.Helper.{Items, list, normalize_list, is_scope_authorized}
use microgateway.OAuth.Store.{DataModel}

pub record Permission : Type 0 where
  pub api_id : String
  pub app_id : String
  pub user_id : String
  pub scopes : Items
  pub issued_at : ℕ
  pub expired_at : Option ℕ

-- The list with the first row that passes replaced.
abbrev pub update_first : {R : Type 0} → (R → Bool) → (R → R) → List R → List R
update_first p f [] = []
update_first p f (r ∷ rs) = if p r then f r ∷ rs else r ∷ update_first p f rs

pub record Editable (M R : Type 0) : Type 0 where
  pub model : DataModel M R
  pub update : M → (R → Bool) → (R → R) → M
  pub rows-update :
      (m : M) (p : R → Bool) (f : R → R)
      → model.rows (update m p f) ≡ update_first p f (model.rows m)

abbrev pub is_of : (api app user : String) → Permission → Bool
is_of api app user p = p.api_id == api && (p.app_id == app && p.user_id == user)

module _ {M : Type 0} (d : Editable M Permission) where
  -- permission.find
  unfoldable pub find_permission : M → (api app user : String) → Option Permission
  find_permission m api app user = find_first (is_of api app user) (d.model.rows m)

  -- permission.isAuthorized
  unfoldable pub is_authorized : M → (api app user : String) → Items → Bool
  unfolding find_permission
  is_authorized m api app user scopes = elim (find_permission m api app user) [
    | none ↦ false
    | some p ↦ is_scope_authorized scopes p.scopes
  ]

  is_past : ℕ → Permission → Bool
  is_past now p = elim p.expired_at [ none ↦ false | some e ↦ leb e now ]

  -- permission.purge
  unfoldable pub purge_permissions : M → ℕ → M
  unfolding is_past
  purge_permissions m now = d.model.destroy_all m (is_past now)

  -- permission.addPermission
  unfoldable pub add_permission : M → (api app user : String) → Items → (now : ℕ) → M
  unfolding find_permission
  add_permission m api app user scopes now = elim (find_permission m api app user) [
    | none ↦ d.model.create m (record {
      api_id = api;
      app_id = app;
      user_id = user;
      scopes = scopes;
      issued_at = now;
      expired_at = none;
    })
    | some p ↦
        if is_scope_authorized scopes p.scopes
        then m
        else d.update m (is_of api app user)
            (λ (r : Permission). record r { scopes = list (normalize_list scopes) })
  ]

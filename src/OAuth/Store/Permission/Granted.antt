-- ===== src/OAuth/Store/Permission/Granted.antt =====
-- What a user permitted is authorized.
use microgateway.Common.{
  ℕ, String, ◌≡◌, refl, Bool, true, none, some, List, [], ◌∷◌, ◌++◌, arith, find_first,
  Option-cases, Bool-cases, inl, inr, eq_refl,
}
use microgateway.OAuth.Helper.{Items, list, normalize_list, is_scope_authorized}
use microgateway.OAuth.Helper.Scopes.{is_scope_authorized_iff}
use microgateway.OAuth.Store.Permission.{
  Permission, update_first, Editable, is_of, find_permission, is_authorized, add_permission,
}

authorized_itself : (scopes : Items) → is_scope_authorized scopes scopes ≡ true
authorized_itself scopes = (is_scope_authorized_iff scopes scopes).1 (λ s m. m)

authorized_list :
    (scopes : Items) → is_scope_authorized scopes (list (normalize_list scopes)) ≡ true
unfolding normalize_list
authorized_list scopes =
    (is_scope_authorized_iff scopes (list (normalize_list scopes))).1 (λ s m. m)

found-append :
    {R : Type 0} (p : R → Bool) (rs : List R) (r : R)
    → find_first p rs ≡ none
    → p r ≡ true
    → find_first p (rs ++ r ∷ []) ≡ some r
found-append p [] r h k = rw k refl
found-append p (q ∷ rs) r h k = ground (arith, found-append p rs r)

found-update :
    {R : Type 0} (p : R → Bool) (f : R → R) (rs : List R) (r : R)
    → ((q : R) → p (f q) ≡ p q)
    → find_first p rs ≡ some r
    → find_first p (update_first p f rs) ≡ some (f r)
found-update p f [] r h k = cc
found-update p f (q ∷ rs) r h k = elim (Bool-cases (p q)) [
  | inl e ↦ let same : q ≡ r = ground arith in rw (e, h q, e, same) refl
  | inr e ↦ rw (e, e) (found-update p f rs r h (rw e at k))
]

authorized-found :
    {M : Type 0} (d : Editable M Permission) (m : M) (api app user : String) (scopes : Items)
    (p : Permission)
    → find_permission d m api app user ≡ some p
    → is_scope_authorized scopes p.scopes ≡ true
    → is_authorized d m api app user scopes ≡ true
unfolding is_authorized
authorized-found d m api app user scopes p e k = rw (e, is_authorized) k

-- After a user's permission for some scopes is added, the client is authorized for these scopes.
pub is_authorized-add_permission :
    {M : Type 0} (d : Editable M Permission) (m : M) (api app user : String) (scopes : Items)
    (now : ℕ)
    → is_authorized d (add_permission d m api app user scopes now) api app user scopes ≡ true
unfolding add_permission find_permission
is_authorized-add_permission d m api app user scopes now =
    let rows = d.model.rows m in
    let m' = add_permission d m api app user scopes now in
    elim (Option-cases (find_first (is_of api app user) rows)) [
      | inl e ↦
          let p : Permission = record {
            api_id = api;
            app_id = app;
            user_id = user;
            scopes = scopes;
            issued_at = now;
            expired_at = none;
          } in
          let made : m' ≡ d.model.create m p = rw (e, add_permission) refl in
          authorized-found d m' api app user scopes p
            (rw (made, d.model.rows-create)
              (found-append (is_of api app user) rows p e (rw (eq_refl, eq_refl, eq_refl) refl)))
            (authorized_itself scopes)
      | inr (p, e) ↦ elim (Bool-cases (is_scope_authorized scopes p.scopes)) [
        | inl k ↦
            let made : m' ≡ m = rw (e, add_permission, k) refl in
            authorized-found d m' api app user scopes p (rw made e) k
        | inr k ↦
            let widen : Permission → Permission =
              λ (r : Permission). record r { scopes = list (normalize_list scopes) } in
            let made : m' ≡ d.update m (is_of api app user) widen =
              rw (e, add_permission, k) refl in
            authorized-found d m' api app user scopes (widen p)
              (rw (made, d.rows-update)
                (found-update (is_of api app user) widen rows p (λ q. refl) e))
              (authorized_list scopes)
      ]
    ]

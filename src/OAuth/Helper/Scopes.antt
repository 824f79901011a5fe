-- ===== src/OAuth/Helper/Scopes.antt =====
-- Expiry and the two tests on scopes, against membership.
use mathlib.Core.List.{Mem}
use microgateway.Common.{
  ℕ, ◌≤◌, ◌≡◌, ◌↔◌, String, refl, true, ◌||◌, List, [], ◌∷◌, arith, contains, all,
}
use microgateway.Common.Words.{all-contains→Mem, Mem→all-contains}
use microgateway.OAuth.Helper.{
  Stamps, is_expired, Items, normalize_list, is_empty, is_scope_authorized,
}

-- What has expired stays expired.
is_expired_mono :
    (now later : ℕ) (t : Stamps) → now ≤ later → is_expired now t ≡ true → is_expired later t ≡ true
unfolding is_expired
is_expired_mono now later t h e = ground arith

authorized_lists :
    (requested authorized : List String)
    → (is_empty requested || all (contains authorized) requested)
      ≡ all (contains authorized) requested
unfolding is_empty
authorized_lists [] authorized = refl
authorized_lists (s ∷ l) authorized = refl

-- Requested scopes are authorized exactly when each word of the request is an authorized scope,
-- whether the lists come as strings or as arrays.
pub is_scope_authorized_iff :
    (requested authorized : Items)
    → (is_scope_authorized requested authorized ≡ true)
      ↔ ((s : String) → Mem s (normalize_list requested) → Mem s (normalize_list authorized))
unfolding is_scope_authorized
is_scope_authorized_iff requested authorized =
    rw (authorized_lists (normalize_list requested) (normalize_list authorized)) (
      (λ h s m. all-contains→Mem (normalize_list requested) (normalize_list authorized) s h m),
      (λ h. Mem→all-contains (normalize_list requested) (normalize_list authorized) h),
    )

-- ===== src/Policies/Loader/Tests.antt =====
-- Two versions of one policy, the later one older, and the theorem on its default.
use microgateway.Common.{
  ℕ, ◌≡◌, refl, Bool, true, false, not, ◌&&◌, none, some, [], ◌∷◌, get, put, ◌==◌, All,
  if◌then◌else◌,
}
use microgateway.Policies.Loader.{Described, Files, implementation, policy_index, policy_loader}
use microgateway.Policies.Loader.Added.{IsOrder, Loads, greatest}
use microgateway.Policies.Loader.Default.{of_described, policy_loader-get}

-- The version "2" is above all others.
abbrev below_two : Bool → Bool → Bool
below_two a b = not a && b

two-asymmetric : (a b : Bool) → below_two a b ≡ true → below_two b a ≡ false
two-asymmetric true b h = cc
two-asymmetric false true h = refl
two-asymmetric false false h = cc

two-below : (a b c : Bool) → below_two a c ≡ true → below_two b c ≡ false → below_two a b ≡ true
two-below true b c h k = cc
two-below false true c h k = refl
two-below false false true h k = cc
two-below false false false h k = cc

abbrev files : Files Unit ℕ
files = record {
  is_readable = λ path. true;
  is_directory = λ path. true;
  local_config = λ path. none;
  empty_config = tt;
  load = λ path g. some (if path == "/b" then 2 else 1);
  lt = λ a b. below_two (a == "2") (b == "2");
  eq = λ a b. a == b;
}

order : IsOrder files.lt
order = record {
  asymmetric = λ a b h. two-asymmetric (a == "2") (b == "2") h;
  below = λ a b c h k. two-below (a == "2") (b == "2") (c == "2") h k;
}

abbrev newer : Described
newer = record { path = "/a"; name = "invoke"; version = "2" }

abbrev older : Described
older = record { path = "/b"; name = "invoke"; version = "1" }

abbrev impl : Described → ℕ
impl p = if p.path == "/b" then 2 else 1

loads : All (Loads files impl "invoke") (newer ∷ older ∷ [])
unfolding implementation policy_index
loads = ((refl, refl, refl, refl), ((refl, refl, refl, refl), tt))

stands_for_newer : get (policy_loader files true (newer ∷ older ∷ [])).policies "invoke" ≡ some 1
unfolding policy_loader get put policy_index
stands_for_newer = refl

policy_loader-get_example :
    get (policy_loader files true (newer ∷ older ∷ [])).policies "invoke"
    ≡ of_described files impl "invoke" (greatest files impl "invoke" none (newer ∷ older ∷ []))
policy_loader-get_example = policy_loader-get files impl "invoke" order (newer ∷ older ∷ []) loads

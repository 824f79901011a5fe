-- ===== src/Policies/Loader/Added.antt =====
-- The default of a name after some policies, and what one more policy makes of it.
use microgateway.Common.{
  String, ◌≡◌, refl, ap, ◌∙◌, arith, Bool, true, false, not, ◌&&◌, Option, none, some, List, [],
  ◌∷◌, ◌++◌, get, get-put, ◌==◌, all, if◌then◌else◌,
}
use microgateway.Policies.Loader.{
  Described, Files, Loader, policy_index, implementation, with_version, with_policy, implemented,
  is_kept, add_policy,
}

-- The order of versions.
pub record IsOrder (lt : String → String → Bool) : Type 0 where
  pub asymmetric : (a b : String) → lt a b ≡ true → lt b a ≡ false
  pub below : (a b c : String) → lt a c ≡ true → lt b c ≡ false → lt a b ≡ true

and_assoc : (a b c : Bool) → (a && (b && c)) ≡ ((a && b) && c)
and_assoc true b c = refl
and_assoc false b c = refl

pub and_true : (b : Bool) → (b && true) ≡ b
and_true true = refl
and_true false = refl

pub and_false : (b : Bool) → (b && false) ≡ false
and_false true = refl
and_false false = refl

module _ {G I : Type 0} (files : Files G I) (impl : Described → I) (name : String) where
  abbrev pub better : Option Described → Described → Option Described
  better none p = if p.name == name then some p else none
  better (some b) p =
      if p.name == name && not (files.lt p.version b.version) then some p else some b

  -- The last of the greatest versions with the name.
  abbrev pub greatest : Option Described → List Described → Option Described
  greatest best [] = best
  greatest best (p ∷ ps) = greatest (better best p) ps

  -- The files are there, the module is an implementation, and the name is no index of this policy.
  abbrev pub Loads : Described → Type 0
  Loads p =
      (files.is_readable p.path ≡ true)
      × (files.is_directory p.path ≡ true)
      × (implementation files true p ≡ some (impl p))
      × ((policy_index p == name) ≡ false)

  -- The name stands for the greatest version so far, and the versions below are no defaults.
  abbrev pub Holds : Loader I → Option Described → Type 0
  Holds l none = (get l.policies name ≡ none) × (get l.versions name ≡ none)
  Holds l (some b) =
      (get l.policies name ≡ some (impl b))
      × (vs : List String) × (get l.versions name ≡ some vs)
      × ((x : String) → all (λ v. not (files.lt x v)) vs ≡ not (files.lt x b.version))

  all-append :
      (f : String → Bool) (vs : List String) (v : String) → all f (vs ++ v ∷ []) ≡ (all f vs && f v)
  all-append f [] v = ground arith
  all-append f (u ∷ vs) v = rw (all-append f vs v) (and_assoc (f u) (all f vs) (f v))

  is_kept-true : (o : Option I) → is_kept files true o ≡ false
  unfolding is_kept
  is_kept-true none = refl
  is_kept-true (some i) = refl

  policies-add_policy :
      (p : Described) (default : Bool) (l : Loader I)
      → Loads p
      → get (add_policy files true p default l).policies name
        ≡ (if p.name == name && default then some (impl p) else get l.policies name)
  unfolding add_policy implemented with_policy
  policies-add_policy p true l (r, d, i, n) =
      rw
        (
          is_kept-true (get l.policies (policy_index p)),
          d,
          i,
          get-put,
          get-put,
          n,
          and_true (p.name == name),
        )
        refl
  policies-add_policy p false l (r, d, i, n) =
      rw
        (
          is_kept-true (get l.policies (policy_index p)),
          d,
          i,
          get-put,
          n,
          and_false (p.name == name),
        )
        refl

  versions-add_policy :
      (p : Described) (default : Bool) (l : Loader I)
      → Loads p
      → (add_policy files true p default l).versions ≡ l.versions
  unfolding add_policy implemented with_policy
  versions-add_policy p default l (r, d, i, n) =
      rw (is_kept-true (get l.policies (policy_index p)), d, i) refl

  Holds-same :
      (l k : Loader I) (best : Option Described)
      → get k.policies name ≡ get l.policies name
      → get k.versions name ≡ get l.versions name
      → Holds l best
      → Holds k best
  Holds-same l k none e f (h, g) = (e ∙ h, f ∙ g)
  Holds-same l k (some b) e f (h, vs, g, all_of) = (e ∙ h, vs, f ∙ g, all_of)

  -- A policy of another name leaves the default and the versions of the name.
  pub other-Holds :
      (p : Described) (default : Bool) (vs : List String) (l : Loader I) (best : Option Described)
      → Loads p
      → (p.name == name) ≡ false
      → Holds l best
      → Holds (add_policy files true p default (with_version files true p vs l)) best
  unfolding with_version
  other-Holds p default vs l best loads e h =
      let k = with_version files true p vs l in
      let versions : get k.versions name ≡ get l.versions name = rw (get-put, e) refl in
      Holds-same l (add_policy files true p default k) best
        (policies-add_policy p default k loads ∙ rw e refl)
        (ap (λ m. get m name) (versions-add_policy p default k loads) ∙ versions) h

  -- A policy of the name, after these versions of it.
  pub same-Holds :
      (p b : Described) (default : Bool) (vs : List String) (l : Loader I)
      → Loads p
      → (p.name == name) ≡ true
      → (if default then some (impl p) else get l.policies name) ≡ some (impl b)
      → ((x : String)
          → (all (λ v. not (files.lt x v)) vs && not (files.lt x p.version))
            ≡ not (files.lt x b.version))
      → Holds (add_policy files true p default (with_version files true p vs l)) (some b)
  unfolding with_version
  same-Holds p b default vs l loads e is bound =
      let k = with_version files true p vs l in
      let versions : get k.versions name ≡ some (vs ++ p.version ∷ []) = rw (get-put, e) refl in
      (
        policies-add_policy p default k loads ∙ rw e is,
        vs ++ p.version ∷ [],
        ap (λ m. get m name) (versions-add_policy p default k loads) ∙ versions,
        λ x. all-append (λ v. not (files.lt x v)) vs p.version ∙ bound x,
      )

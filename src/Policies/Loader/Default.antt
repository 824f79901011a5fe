-- ===== src/Policies/Loader/Default.antt =====
-- Which version of a policy its name alone stands for.
use microgateway.Common.{
  String, ◌≡◌, refl, ap, sym, ◌∙◌, true, false, not, ◌&&◌, Option, none, some, List, [], ◌∷◌, get,
  eq_iff, ◌==◌, all, All, Bool-cases, inl, inr, if◌then◌else◌,
}
use mathlib.Core.Path.{subst}
use microgateway.Policies.Loader.{
  Described, Files, Loader, is_default, is_duplicate, with_versions, load_policy, load_all,
  policy_loader,
}
use microgateway.Policies.Loader.Added.{
  IsOrder, better, greatest, Loads, Holds, other-Holds, same-Holds, and_true,
}

module _ {G I : Type 0} (files : Files G I) (impl : Described → I) (name : String) where
  better-other :
      (best : Option Described) (p : Described)
      → (p.name == name) ≡ false
      → better files impl name best p ≡ best
  better-other none p e = rw e refl
  better-other (some b) p e = rw e refl

  loaded :
      (p : Described) (o : Option (List String)) (l : Loader I)
      → Loads files impl name p
      → get l.versions p.name ≡ o
      → load_policy files true p l ≡ with_versions files true p o l
  unfolding load_policy
  loaded p o l (r, d, i, n) e = rw (load_policy, r, e) refl

  other-step :
      (p : Described) (o : Option (List String)) (l : Loader I) (best : Option Described)
      → Loads files impl name p
      → (p.name == name) ≡ false
      → Holds files impl name l best
      → Holds files impl name (with_versions files true p o l) best
  unfolding with_versions is_duplicate
  other-step p none l best loads e h = other-Holds files impl name p true [] l best loads e h
  other-step p (some vs) l best loads e h =
      other-Holds files impl name p (is_default files true p vs) vs l best loads e h

  first-step :
      (p : Described) (l : Loader I)
      → Loads files impl name p
      → (p.name == name) ≡ true
      → Holds files impl name (with_versions files true p none l) (some p)
  unfolding with_versions
  first-step p l loads e = same-Holds files impl name p p true [] l loads e refl (λ x. refl)

  later-step :
      IsOrder files.lt
      → (p b : Described) (vs : List String) (l : Loader I) → Loads files impl name p
      → (p.name == name) ≡ true
      → get l.policies name ≡ some (impl b)
      → ((x : String) → all (λ v. not (files.lt x v)) vs ≡ not (files.lt x b.version))
      → Holds files impl name
          (with_versions files true p (some vs) l)
          (if not (files.lt p.version b.version) then some p else some b)
  unfolding with_versions is_duplicate is_default
  later-step order p b vs l loads e is bound = elim (Bool-cases (files.lt p.version b.version)) [
    | inl less ↦
        let default : all (λ v. not (files.lt p.version v)) vs ≡ false =
          bound p.version ∙ rw less refl in
        rw (less) (
          same-Holds files impl name p b (all (λ v. not (files.lt p.version v)) vs) vs l loads e
            (rw default is) (λ x. rw (bound x) (keeps x less)))
    | inr more ↦
        let default : all (λ v. not (files.lt p.version v)) vs ≡ true =
          bound p.version ∙ rw more refl in
        rw (more) (
          same-Holds files impl name p p (all (λ v. not (files.lt p.version v)) vs) vs l loads e
            (rw default refl) (λ x. rw (bound x) (takes x more)))
  ]
    where
      keeps :
          (x : String)
          → files.lt p.version b.version ≡ true
          → (not (files.lt x b.version) && not (files.lt x p.version)) ≡ not (files.lt x b.version)
      keeps x less = elim (Bool-cases (files.lt x p.version)) [
        | inr k ↦ rw k (and_true (not (files.lt x b.version)))
        | inl k ↦
            rw (k, order.below x b.version p.version k (order.asymmetric p.version b.version less))
              refl
      ]

      takes :
          (x : String)
          → files.lt p.version b.version ≡ false
          → (not (files.lt x b.version) && not (files.lt x p.version)) ≡ not (files.lt x p.version)
      takes x more = elim (Bool-cases (files.lt x b.version)) [
        | inr k ↦ rw k refl
        | inl k ↦ rw (k, order.below x p.version b.version k more) refl
      ]

  step-Holds :
      IsOrder files.lt
      → (p : Described) (l : Loader I) (best : Option Described) → Loads files impl name p
      → Holds files impl name l best
      → Holds files impl name (load_policy files true p l) (better files impl name best p)
  step-Holds order p l none loads (h, g) = elim (Bool-cases (p.name == name)) [
    | inr e ↦ rw (e) (
        subst (λ (k : Loader I). Holds files impl name k none)
          (sym (loaded p (get l.versions p.name) l loads refl))
          (other-step p (get l.versions p.name) l none loads e (h, g)))
    | inl e ↦
        let same = (eq_iff p.name name).0 e in
        let versions = ap (λ n. get l.versions n) same ∙ g in
        rw (e) (
          subst (λ (k : Loader I). Holds files impl name k (some p))
            (sym (loaded p none l loads versions)) (first-step p l loads e))
  ]
  step-Holds order p l (some b) loads (h, vs, g, bound) = elim (Bool-cases (p.name == name)) [
    | inr e ↦ rw (e) (
        subst (λ (k : Loader I). Holds files impl name k (some b))
          (sym (loaded p (get l.versions p.name) l loads refl))
          (other-step p (get l.versions p.name) l (some b) loads e (h, vs, g, bound)))
    | inl e ↦
        let same = (eq_iff p.name name).0 e in
        let versions = ap (λ n. get l.versions n) same ∙ g in
        rw (e) (
          subst
            (λ (k : Loader I).
              Holds files impl name k
                (if not (files.lt p.version b.version) then some p else some b))
            (sym (loaded p (some vs) l loads versions)) (later-step order p b vs l loads e h bound))
  ]

  load_all-Holds :
      IsOrder files.lt
      → (ps : List Described) (l : Loader I) (best : Option Described)
      → All (Loads files impl name) ps
      → Holds files impl name l best
      → Holds files impl name (load_all files true ps l) (greatest files impl name best ps)
  unfolding load_all
  load_all-Holds order [] l best loads h = h
  load_all-Holds order (p ∷ ps) l best (a, as_) h =
      load_all-Holds order ps (load_policy files true p l) (better files impl name best p) as_
        (step-Holds order p l best a h)

  abbrev pub of_described : Option Described → Option I
  of_described none = none
  of_described (some p) = some (impl p)

  Holds-policies :
      (l : Loader I) (best : Option Described)
      → Holds files impl name l best
      → get l.policies name ≡ of_described best
  Holds-policies l none (h, g) = h
  Holds-policies l (some b) (h, vs, g, bound) = h

  -- Where versions are ordered, every policy can be loaded, later ones replace earlier ones, and
  -- no index of a policy is the name: the name stands for the last of the greatest versions of the
  -- policies that have it, and for nothing where none has.
  pub policy_loader-get :
      IsOrder files.lt
      → (ps : List Described) → All (Loads files impl name) ps
      → get (policy_loader files true ps).policies name
        ≡ of_described (greatest files impl name none ps)
  unfolding policy_loader
  policy_loader-get order ps loads =
      let start : Loader I = record { policies = []; versions = []; paths = [] } in
      Holds-policies (load_all files true ps start) (greatest files impl name none ps)
        (load_all-Holds order ps start none loads (refl, refl))

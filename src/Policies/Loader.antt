-- ===== src/Policies/Loader.antt =====
-- lib/policy-loader.js: the policies that are loaded from directories, by name and by version. What the
-- file system, `require` and the package semver give is the record `Files`: `load` is none where the
-- module of a policy throws, and `local_config` where there is no policy-config.json.
pub mod Added
pub mod Default
pub mod Tests
use microgateway.Common.{
  String, Bool, true, false, not, ◌&&◌, Option, none, some, List, [], ◌∷◌, ◌++◌, get, put, all, any,
  truthy, ◌+s◌, if◌then◌else◌,
}

pub record Described : Type 0 where
  pub path : String
  pub name : String
  pub version : String

pub record Files (G I : Type 0) : Type 0 where
  pub is_readable : (path : String) → Bool
  pub is_directory : (path : String) → Bool
  pub local_config : (path : String) → Option G
  pub empty_config : G
  pub load : (path : String) → G → Option I
  pub lt : String → String → Bool
  pub eq : String → String → Bool

-- `_policies`, `policyVersions` and `paths`
pub record Loader (I : Type 0) : Type 0 where
  pub policies : List (String × I)
  pub versions : List (String × List String)
  pub paths : List String

unfoldable pub policy_index : Described → String
policy_index p = if truthy (some p.version) then p.name +s ":" +s p.version else p.name

-- `policyCfg`: an object without properties counts as true, so that this is the local one.
pub config_of : {G : Type 0} → G → Option G → G
config_of empty none = empty
config_of empty (some g) = g

module _ {G I : Type 0} (files : Files G I) (override : Bool) where
  -- what the policy's module gives
  unfoldable pub implementation : Described → Option I
  unfolding config_of
  implementation p = files.load p.path (config_of files.empty_config (files.local_config p.path))

  -- `makePolicyDefault` and `exactMatchFound`, for the versions of the same name
  unfoldable pub is_default : Described → List String → Bool
  is_default p vs = all (λ v. not (files.lt p.version v)) vs

  pub is_duplicate : Described → List String → Bool
  is_duplicate p vs =
      not override && any (λ v. not (files.lt p.version v) && files.eq p.version v) vs

  -- the version and the path of a policy that is no duplicate
  pub with_version : Described → List String → Loader I → Loader I
  unfolding put
  with_version p vs l = record {
    policies = l.policies;
    versions = put l.versions p.name (vs ++ p.version ∷ []);
    paths = l.paths ++ p.path ∷ [];
  }

  pub with_policy : Described → Bool → I → Loader I → Loader I
  unfolding put policy_index
  with_policy p default i l =
      let named = put l.policies (policy_index p) i in
      record {
        policies = if default then put named p.name i else named;
        versions = l.versions;
        paths = l.paths;
      }

  pub implemented : Described → Bool → Option I → Loader I → Loader I
  unfolding with_policy
  implemented p default none l = l
  implemented p default (some i) l = with_policy p default i l

  pub is_kept : Option I → Bool
  is_kept none = false
  is_kept (some i) = not override

  pub add_policy : Described → Bool → Loader I → Loader I
  unfolding implemented implementation is_kept policy_index get
  add_policy p default l =
      if is_kept (get l.policies (policy_index p))
      then l
      else if files.is_directory p.path
      then implemented p default (implementation p) l
      else l

  pub with_versions : Described → Option (List String) → Loader I → Loader I
  unfolding add_policy with_version is_default is_duplicate
  with_versions p none l = add_policy p true (with_version p [] l)
  with_versions p (some vs) l =
      if is_duplicate p vs then l else add_policy p (is_default p vs) (with_version p vs l)

  -- one run of the loop
  pub load_policy : Described → Loader I → Loader I
  unfolding with_versions get
  load_policy p l =
      if files.is_readable p.path then with_versions p (get l.versions p.name) l else l

  unfoldable pub load_all : List Described → Loader I → Loader I
  unfolding load_policy
  load_all [] l = l
  load_all (p ∷ ps) l = load_all ps (load_policy p l)

  -- `PolicyLoader`
  unfoldable pub policy_loader : List Described → Loader I
  unfolding load_all
  policy_loader ps = load_all ps (record { policies = []; versions = []; paths = [] })

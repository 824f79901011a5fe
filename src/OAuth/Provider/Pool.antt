-- ===== src/OAuth/Provider/Pool.antt =====
-- `ServerPool` of lib/oauth2/az-server/index.js: the servers by snapshot and API. `build` makes a new
-- server for an API document of the type `D`.
use text.Mathlib.Text.{starts_with}
use text.Mathlib.TextPositions.{starts_with-append}
use microgateway.Common.{
  String, ◌≡◌, refl, ◌∙◌, Bool, not, Option, none, some, List, [], ◌∷◌, arith, get, put, keep,
  Option-cases, Bool-cases, inl, inr, ◌+s◌, ◌==◌, eq_iff, eq_refl, if◌then◌else◌,
}

module _ {D V : Type 0} (build : D → V) where
  abbrev pub Pool : Type 0
  Pool = List (String × V)

  pub pool_key : (snap api : String) → String
  pool_key snap api = snap +s ":" +s api

  -- `getServer`: the server, and the pool it leaves
  pub get_server : Pool → (snap api : String) → D → V × Pool
  unfolding pool_key
  get_server pool snap api doc = elim (get pool (pool_key snap api)) [
    | none ↦ (build doc, put pool (pool_key snap api) (build doc))
    | some v ↦ (v, pool)
  ]

  -- `cleanUp`: everything, or the keys that begin with the snapshot
  unfoldable pub clean_up : Option String → Pool → Pool
  clean_up none pool = []
  clean_up (some snap) pool = keep (λ (s : String × V). not (starts_with s.0 snap)) pool

  get-keep :
      (p : String → Bool) (pool : Pool) (k : String)
      → get (keep (λ (s : String × V). p s.0) pool) k ≡ (if p k then get pool k else none)
  unfolding get
  get-keep p [] k = elim (Bool-cases (p k)) [ inl e ↦ rw e refl | inr e ↦ rw e refl ]
  get-keep p ((j, v) ∷ pool) k = elim (Bool-cases (j == k)) [
    | inl e ↦ let same = (eq_iff j k).0 e in rw same (ground (arith, get-keep p pool k, eq_refl k))
    | inr e ↦ ground (arith, get-keep p pool k)
  ]

  get_server-any :
      (pool : Pool) (snap snap' api : String) (doc : D)
      → (get_server (clean_up (some snap) pool) snap' api doc).0 ≡ (
          if starts_with (pool_key snap' api) snap
          then build doc
          else (get_server pool snap' api doc).0)
  unfolding get_server clean_up
  get_server-any pool snap snap' api doc =
      let kept = get-keep (λ k. not (starts_with k snap)) pool (pool_key snap' api) in
      elim (Bool-cases (starts_with (pool_key snap' api) snap)) [
        | inl e ↦ rw (kept, e, get_server) refl
        | inr e ↦ elim (Option-cases (get pool (pool_key snap' api))) [
          | inl g ↦ rw (kept, e, g, get_server) refl
          | inr (v, g) ↦ rw (kept, e, g, get_server) refl
        ]
      ]

  -- After a snapshot is cleaned up, the server of an API is a new one, built from the document that is
  -- given, for every key that begins with the snapshot, as all keys of the snapshot do; and otherwise
  -- it is the one that the pool gave before.
  pub get_server-clean_up :
      (pool : Pool) (snap : String)
      → ((api : String) (doc : D)
          → (get_server (clean_up (some snap) pool) snap api doc).0 ≡ build doc)
        × ((snap' api : String) (doc : D)
            → (get_server (clean_up (some snap) pool) snap' api doc).0 ≡ (
                if starts_with (pool_key snap' api) snap
                then build doc
                else (get_server pool snap' api doc).0))
  unfolding pool_key
  get_server-clean_up pool snap = (
    λ api doc.
        get_server-any pool snap snap api doc ∙ rw (starts_with-append snap (":" +s api)) refl,
    λ snap' api doc. get_server-any pool snap snap' api doc,
  )

-- ===== src/OAuth/Session/Vetted.antt =====
-- What is true of every transaction that a session holds, whatever requests it has seen.
use microgateway.Common.{
  ℕ, ◌+◌, ◌||◌, nat_eq, ltb, String, ◌≡◌, ◌⊎◌, refl, true, false, ◌&&◌, Option, none, some, [], ◌∷◌,
  truthy, same, get, put, All, and_split, Bool-cases, inl, inr, ◌==◌,
}
use mathlib.Core.Path.{subst}
use microgateway.OAuth.Server.{Server}
use microgateway.OAuth.Helper.{validate_client}
use microgateway.OAuth.Authorization.{AzRequest}
use microgateway.Security.Ldap
use microgateway.Security.Basic.{
  Auth, granted, SecurityDef, Services, basic_auth, credentials, Answer, refused,
}
use microgateway.Security.Basic.Granted.{Backed, basic_auth-Backed}
use microgateway.OAuth.Session.{
  Client, Txn, Txns, Session, absent, unused, holds, same_request, search_tx_data, redirect_options,
  request_options, txns_of,
}
use microgateway.OAuth.Session.Login.{Settings, id_extractor, answered_by, refuse}

first_same : (r s : AzRequest) → same_request r s ≡ true → (r.client_id == s.client_id) ≡ true
unfolding same_request
first_same r s h = (and_split _ _ h).0

answer_cases : (a : Answer) → (a ≡ granted) ⊎ ((code : Option ℕ) × (a ≡ refused code))
answer_cases granted = inl refl
answer_cases (refused code) = inr (code, refl)

-- Every property of an object of transactions.
abbrev pub Each : (Txn → Type 0) → Txns → Type 0
Each P txns = All (λ p. P p.1) txns

module _ (P : Txn → Type 0) where
  pub put-Each : (txns : Txns) (id : String) (t : Txn) → Each P txns → P t → Each P (put txns id t)
  unfolding put
  put-Each [] id t h p = (p, tt)
  put-Each ((k, u) ∷ txns) id t (h, hs) p = elim (Bool-cases (k == id)) [
    | inl e ↦ rw e (p, hs)
    | inr e ↦ rw e (h, put-Each txns id t hs p)
  ]

  pub get-Each : (txns : Txns) (id : String) (t : Txn) → Each P txns → get txns id ≡ some t → P t
  unfolding get
  get-Each [] id t h e = cc
  get-Each ((k, u) ∷ txns) id t (h, hs) e = elim (Bool-cases (k == id)) [
    | inl f ↦ let same : u ≡ t = cc (rw (f, get) at e) in subst P same h
    | inr f ↦ get-Each txns id t hs (rw (f, get) at e)
  ]

  pub search_tx_data-Each :
      (txns : Txns) (type : Option String) (r : AzRequest) (id : String) (t : Txn)
      → Each P txns
      → search_tx_data txns type r ≡ some (id, t)
      → P t × ((t.req.client_id == r.client_id) ≡ true)
  unfolding search_tx_data same_request
  search_tx_data-Each [] type r id t h e = cc
  search_tx_data-Each ((k, u) ∷ txns) type r id t (h, hs) e =
      elim (Bool-cases (same u.type type && same_request u.req r)) [
        | inl f ↦
            let found : u ≡ t = cc (rw (f, search_tx_data) at e) in
            let (types, requests) = and_split (same u.type type) (same_request u.req r) f in
            (
              subst P found h,
              subst (λ x. (x.req.client_id == r.client_id) ≡ true) found
                  (first_same u.req r requests),
            )
        | inr f ↦ search_tx_data-Each txns type r id t hs (rw (f, search_tx_data) at e)
      ]

module _ {S E P T L : Type 0} (server : Server S E) (get_app_info : String → Option Client)
    (services : Services P T) (client : Ldap.Client L) (start : L) where
  -- A client that the data store knows under the id of the request, with a redirect URI that fits it,
  -- and a request with a scope and a type that the server supports.
  abbrev pub IsVetted : Txn → Type 0
  IsVetted t =
      (get_app_info t.req.client_id ≡ some t.client)
      × ((uri : String) × (t.redirect_uri ≡ some uri)
          × (truthy (some uri) ≡ true)
          × (validate_client server t.client.redirection_uri (redirect_options uri) ≡ none))
      × (validate_client server t.client.redirection_uri (request_options t.type t.req) ≡ none)

  -- Nobody has logged in, or somebody by a basic authorization that the registry stands behind.
  abbrev pub IsKnown : Txn → Type 0
  IsKnown t =
      ((t.logined ≡ false) × (t.user ≡ none))
      ⊎ ((a : Auth) × (t.user ≡ some (credentials (services.decode a.token)).0)
          × Backed services client start a)

  abbrev pub IsSound : Txn → Type 0
  IsSound t = IsVetted t × IsKnown t

  abbrev pub Sound : Session → Type 0
  Sound absent = Unit
  Sound unused = Unit
  Sound (holds txns) = Each IsSound txns

  pub Sound-txns_of : (s : Session) → Sound s → Each IsSound (txns_of s)
  unfolding txns_of
  Sound-txns_of absent h = tt
  Sound-txns_of unused h = tt
  Sound-txns_of (holds txns) h = h

  -- A handler that leaves a transaction sound leaves a session so.
  pub put-Sound :
      (txns : Txns) (id : String) (t : Txn)
      → Sound (holds txns)
      → IsSound t
      → Sound (holds (put txns id t))
  put-Sound txns id t h k = put-Each IsSound txns id t h k

  refuse-Sound :
      (o : Settings) (code : Option ℕ) (t : Txn) → IsSound t → IsSound (refuse o code t).1
  unfolding refuse
  refuse-Sound o code t h =
      elim (Bool-cases
        (o.has_render && (nat_eq o.retry_count 0 || ltb (t.login_count + 1) o.retry_count))) [
          | inl e ↦ rw (e, refuse) h
          | inr e ↦ rw (e, refuse) h
        ]

  pub id_extractor-Sound :
      (o : Settings) (snapshot : String) (def : SecurityDef) (auth : Option Auth) (t : Txn)
      → IsSound t
      → IsSound (id_extractor services client start o snapshot def auth t).1
  unfolding id_extractor answered_by
  id_extractor-Sound o snapshot def auth t (vetted, login) =
      elim (answer_cases (basic_auth services client start snapshot def auth)) [
        | inr (code, e) ↦ rw (e, id_extractor, answered_by) (refuse-Sound o code t (vetted, login))
        | inl e ↦
            let (a, is, basic, backed) =
              basic_auth-Backed services client start snapshot def auth e in
            rw (e, id_extractor, answered_by, is) (vetted, inr (a, refl, backed))
      ]

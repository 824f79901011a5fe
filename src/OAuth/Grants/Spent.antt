-- ===== src/OAuth/Grants/Spent.antt =====
-- A refresh token serves once, and refreshes come to an end.
use Prim.Native.Nat.{◌/◌}
use microgateway.Common.{
  ℕ, ◌+◌, ◌-◌, ◌≤◌, ◌<◌, String, ◌≡◌, refl, sym, ap, ◌∙◌, Bool, true, false, not, ◌&&◌, Option,
  none, some, List, [], ◌∷◌, ◌++◌, arith, ltb, Option-cases, Bool-cases, inl, inr, All, keep,
  keep-append, find_first, ◌==◌, eq_iff, append-nil,
}
use microgateway.OAuth.Server.{Server}
use microgateway.OAuth.Helper.{validate_client}
use microgateway.OAuth.Store.{
  Token, Code, DataModel, Fresh, Tables, find, delete_refresh, save, save_refresh,
}
use microgateway.OAuth.Store.Lookup.{
  weight, budget, budget-append, budget-keep-le, budget-delete, Unique, find_first-delete,
  find-found, find_first_sound, find_first-All, find_first-append_none, find-none,
}
use microgateway.OAuth.Exchange.{Scope}
use microgateway.OAuth.Grants.{
  Client, Decoded, no_match, validate_token, asked, next_count, rotate, after_validation,
  refresh_grant, options_for,
}
use microgateway.OAuth.Grants.Rotation.{grants, step, run, refresh_grant_sound}
use microgateway.OAuth.Grants.Valid.{validate_token-valid}

module _ {S E A R C : Type 0} (server : Server S E) (da : DataModel A Token)
    (dr : DataModel R Token) (dc : DataModel C Code) (claims_of : String → Decoded)
    (verify : String → String → Bool) (now : ℕ) (api client_type : String)
    (access renew : List String → Fresh) (client : Client) (scope : Scope) where
  abbrev pub after : String → Tables A R C → List Token
  after token t =
      dr.rows
        (run server da dr dc claims_of verify now api client_type access renew client scope token
          t).1.refresh_tokens

  -- The row of a new refresh token, where there is one.
  abbrev renewed : Token → Option (Fresh × ℕ) → List Token
  renewed saved none = []
  renewed saved (some (r, n)) =
      record {
        id = r.id;
        api_id = api;
        app_id = client.client_id;
        user_id = saved.user_id;
        secret = r.secret;
        grant = "refreshToken";
        scopes = asked scope saved.scopes;
        refresh_token = none;
        authorization_code = none;
        count_down = n;
        issued_at = r.issued_at;
        expired_at = r.expired_at;
        expires_in = (r.expired_at - r.issued_at) / 1000;
      }
      ∷ []

  save-rows :
      (saved : Token) (t : Tables A R C) (o : Option (Fresh × ℕ)) (a : Fresh)
      → dr.rows
          (save da dr t api client.client_id saved.user_id
            (asked scope saved.scopes)
            "refreshToken"
            a
            none
            o).refresh_tokens
        ≡ dr.rows t.refresh_tokens ++ renewed saved o
  unfolding save save_refresh
  save-rows saved t none a = sym (append-nil (dr.rows t.refresh_tokens))
  save-rows saved t (some (r, n)) a = dr.rows-create t.refresh_tokens _

  abbrev stays : Token → Token → Bool
  stays saved u = not (u.id == saved.id && u.app_id == client.client_id)

  abbrev next : Token → Option (Fresh × ℕ)
  next saved = next_count saved.count_down renew (asked scope saved.scopes)

  step-rows :
      (saved : Token) (t : Tables A R C)
      → dr.rows
          (step server da dr dc claims_of verify now api client_type access renew client scope saved
            t).1.refresh_tokens
        ≡ keep (stays saved) (dr.rows t.refresh_tokens ++ renewed saved (next saved))
  unfolding rotate delete_refresh
  step-rows saved t =
      rw (dr.rows-destroy_all, save-rows saved t (next saved) (access (asked scope saved.scopes)))
        refl

  -- A row of the client that `find` gives is the first with its id, and goes with the step.
  owned :
      (t : Tables A R C) (saved : Token) (id : String)
      → find dr t.refresh_tokens client.api id ≡ some saved
      → saved.app_id ≡ client.client_id
      → (find_first (λ (u : Token). u.id == id) (dr.rows t.refresh_tokens) ≡ some saved)
        × (id ≡ saved.id)
        × (stays saved saved ≡ false)
  owned t saved id found owner =
      let (first, _) = find-found dr t.refresh_tokens client.api id saved found in
      let named : saved.id ≡ id =
        (eq_iff saved.id id).0
          (find_first_sound (λ (u : Token). u.id == id) (dr.rows t.refresh_tokens) saved first) in
      (
        first,
        sym named,
        rw ((eq_iff saved.id saved.id).1 refl, (eq_iff saved.app_id client.client_id).1 owner) refl,
      )

  renewed-budget : (saved : Token) → budget (renewed saved (next saved)) < weight saved
  unfolding next_count
  renewed-budget saved = elim (Bool-cases (ltb 1 saved.count_down)) [
    | inl e ↦ rw (e, next_count) (ground arith)
    | inr e ↦ rw (e, next_count) (omega arith)
  ]

  step-budget :
      (saved : Token) (rows : List Token)
      → budget (keep (stays saved) rows) + weight saved ≤ budget rows
      → budget (keep (stays saved) (rows ++ renewed saved (next saved))) < budget rows
  step-budget saved rows h =
      rw (keep-append, budget-append)
        (omega (
          arith,
          h,
          renewed-budget saved,
          budget-keep-le (stays saved) (renewed saved (next saved)),
        ))

  -- Each refresh that gives an access token takes from the budget of the table, where a row counts
  -- for the refreshes that it allows: its count, and 1 at least.
  pub refresh_grant-budget :
      (token : String) (t : Tables A R C)
      → grants
          (run server da dr dc claims_of verify now api client_type access renew client scope token
            t).0
        ≡ true
      → budget (after token t) < budget (dr.rows t.refresh_tokens)
  refresh_grant-budget token t h =
      let (saved, ok, may, same) =
        refresh_grant_sound server da dr dc claims_of verify now api client_type access renew client
          scope token t h in
      let (id, found, _, _) =
        validate_token-valid claims_of verify dr t.refresh_tokens client.api token saved ok in
      let (first, _, goes) = owned t saved id found may.owner in
      let left : budget (after token t)
          ≡ budget (keep (stays saved) (dr.rows t.refresh_tokens ++ renewed saved (next saved))) =
        ap (λ r. budget (dr.rows r.1.refresh_tokens)) same ∙ ap budget (step-rows saved t) in
      omega (
        arith,
        left,
        step-budget saved (dr.rows t.refresh_tokens) (
            budget-delete (λ (u : Token). u.id == id) (stays saved) (dr.rows t.refresh_tokens) saved
              first goes),
      )

  renewed-other :
      (saved : Token) (id : String)
      → ((scopes : List String) → ((renew scopes).id == id) ≡ false)
      → find_first (λ (u : Token). u.id == id) (keep (stays saved) (renewed saved (next saved)))
        ≡ none
  unfolding next_count
  renewed-other saved id new = elim (Bool-cases (ltb 1 saved.count_down)) [
    | inl e ↦ rw (e, next_count) (ground (arith, new (asked scope saved.scopes)))
    | inr e ↦ rw (e, next_count) refl
  ]

  step-lost :
      (saved : Token) (t : Tables A R C) (id : String)
      → id ≡ saved.id
      → find_first (λ (u : Token). u.id == id) (dr.rows t.refresh_tokens) ≡ some saved
      → stays saved saved ≡ false
      → Unique (dr.rows t.refresh_tokens)
      → All
          (λ u. (scopes : List String) → ((renew scopes).id == u.id) ≡ false)
          (dr.rows t.refresh_tokens)
      → find_first
          (λ (u : Token). u.id == id)
          (keep (stays saved) (dr.rows t.refresh_tokens ++ renewed saved (next saved)))
        ≡ none
  step-lost saved t id named first goes unique new =
      let rows = dr.rows t.refresh_tokens in
      rw (keep-append) (
        find_first-append_none (λ (u : Token). u.id == id) (keep (stays saved) rows)
          (keep (stays saved) (renewed saved (next saved)))
          (find_first-delete id (stays saved) rows saved unique first goes)
          (renewed-other saved id (
            rw named (
              find_first-All (λ u. (scopes : List String) → ((renew scopes).id == u.id) ≡ false)
                (λ (u : Token). u.id == id) rows saved first new))))

  pub refuses :
      (token : String) (t : Tables A R C)
      → validate_token claims_of verify dr t.refresh_tokens client.api token ≡ no_match
      → (grants
            (run server da dr dc claims_of verify now api client_type access renew client scope
              token t).0
          ≡ false)
        × ((run server da dr dc claims_of verify now api client_type access renew client scope token
              t).1
            ≡ t)
  unfolding refresh_grant after_validation
  refuses token t h =
      elim (Option-cases
        (validate_client server client.redirection_uri (options_for scope "refreshToken"))) [
          | inl e ↦ rw (e, refresh_grant, h) (refl, refl)
          | inr (r, e) ↦ rw (e, refresh_grant) (refl, refl)
        ]

  spends :
      (token : String) (t : Tables A R C)
      → Unique (dr.rows t.refresh_tokens)
      → All
          (λ u. (scopes : List String) → ((renew scopes).id == u.id) ≡ false)
          (dr.rows t.refresh_tokens)
      → grants
          (run server da dr dc claims_of verify now api client_type access renew client scope token
            t).0
        ≡ true
      → validate_token claims_of verify dr
          (run server da dr dc claims_of verify now api client_type access renew client scope token
            t).1.refresh_tokens
          client.api
          token
        ≡ no_match
  spends token t unique new h =
      let (saved, ok, may, same) =
        refresh_grant_sound server da dr dc claims_of verify now api client_type access renew client
          scope token t h in
      let (id, found, _, lost) =
        validate_token-valid claims_of verify dr t.refresh_tokens client.api token saved ok in
      let (first, named, goes) = owned t saved id found may.owner in
      let rows = ap (λ r. dr.rows r.1.refresh_tokens) same ∙ step-rows saved t in
      let m' =
        (run server da dr dc claims_of verify now api client_type access renew client scope token
          t).1.refresh_tokens in
      lost m' (
        find-none dr m' client.api id (
          ap (find_first (λ (u : Token). u.id == id)) rows
          ∙ step-lost saved t id named first goes unique new))

-- A refresh token serves once: after a refresh with it that gives an access token, any exchange of
-- the same token by a client of the same API, at any time, gives no access token and changes no
-- table; where ids are the key of the table, and a new refresh token takes none of them.
pub refresh_grant-once :
    {S E A R C : Type 0} (server : Server S E) (da : DataModel A Token) (dr : DataModel R Token)
    (dc : DataModel C Code) (claims_of : String → Decoded) (verify : String → String → Bool)
    (now : ℕ) (api client_type : String) (access renew : List String → Fresh) (client : Client)
    (scope : Scope) (token : String) (t : Tables A R C)
    → Unique (dr.rows t.refresh_tokens)
    → All
        (λ u. (scopes : List String) → ((renew scopes).id == u.id) ≡ false)
        (dr.rows t.refresh_tokens)
    → grants
        (run server da dr dc claims_of verify now api client_type access renew client scope token
          t).0
      ≡ true
    → (now' : ℕ) (api' client_type' : String) (access' renew' : List String → Fresh)
      (client' : Client) (scope' : Scope)
    → client'.api ≡ client.api
    → let t' =
        (run server da dr dc claims_of verify now api client_type access renew client scope token
          t).1 in
      let again =
        run server da dr dc claims_of verify now' api' client_type' access' renew' client' scope'
          token t' in
      (grants again.0 ≡ false) × (again.1 ≡ t')
refresh_grant-once server da dr dc claims_of verify now api client_type access renew client scope
      token t unique new h now' api' client_type' access' renew' client' scope' same =
    let t' =
      (run server da dr dc claims_of verify now api client_type access renew client scope token
        t).1 in
    refuses server da dr dc claims_of verify now' api' client_type' access' renew' client' scope'
      token t'
      (rw same (
        spends server da dr dc claims_of verify now api client_type access renew client scope token
          t unique new h))

-- ===== src/Security/ApiKey/Passing.antt =====
-- Which keys the handler lets pass, and with which secret.
use microgateway.Common.{
  String, ◌≡◌, ◌≢◌, ◌↔◌, if◌then◌else◌, Option-cases, refl, ap, ◌∙◌, Bool, true, false, Option,
  none, some, same, to_lower, ◌==◌, ◌⊎◌, inl, inr, Bool-cases, eq_iff,
}
use microgateway.Api.{Definition, Entry}
use microgateway.Security.ApiKey.{secret_check, in_header, given, in_query, eval_apikey}
use microgateway.Security.ApiKey.Checks.{
  same_iff, untold, told, IsSecret, id_check_iff, secret_check_iff,
}

module _ (digest : String → String) (headers query : String → Option String) (entry : Entry) where
  -- the kind of the key is not told
  abbrev pub IsUntold : Definition → Type 0
  IsUntold d = (d.apikey ≢ some "clientid") × (d.apikey ≢ some "clientsecret")

  -- Which header passes for a definition, by what, and the secret that is passed on.
  pub data HeaderPasses (d : Definition) (secret : Option String) : Type 0 where
    told_id :
        d.apikey ≡ some "clientid"
        → headers (to_lower d.name) ≡ entry.client_id
        → secret ≡ none
        → HeaderPasses d secret
    told_secret :
        d.apikey ≡ some "clientsecret"
        → IsSecret digest headers query entry (headers (to_lower d.name))
        → secret ≡ headers (to_lower d.name)
        → HeaderPasses d secret
    fixed_id :
        IsUntold d
        → d.name ≡ "X-IBM-Client-Id"
        → headers "x-ibm-client-id" ≡ entry.client_id
        → secret ≡ none
        → HeaderPasses d secret
    fixed_secret :
        IsUntold d
        → d.name ≡ "X-IBM-Client-Secret"
        → IsSecret digest headers query entry (headers "x-ibm-client-secret")
        → secret ≡ headers "x-ibm-client-secret"
        → HeaderPasses d secret

  -- The same of a query parameter.
  pub data QueryPasses (d : Definition) (secret : Option String) : Type 0 where
    told_id :
        d.apikey ≡ some "clientid"
        → query d.name ≡ entry.client_id
        → secret ≡ none
        → QueryPasses d secret
    told_secret :
        (s : String)
        → d.apikey ≡ some "clientsecret"
        → query d.name ≡ some s
        → s ≢ ""
        → entry.client_secret ≡ some (digest s)
        → secret ≡ some s
        → QueryPasses d secret
    fixed_id :
        IsUntold d
        → d.name ≡ "client_id"
        → query "client_id" ≡ entry.client_id
        → secret ≡ none
        → QueryPasses d secret
    fixed_secret :
        IsUntold d
        → d.name ≡ "client_secret"
        → IsSecret digest headers query entry (query "client_secret")
        → secret ≡ entry.client_secret
        → QueryPasses d secret

  abbrev pub Passes : Definition → Option String → Type 0
  Passes d secret =
      ((d.location ≡ "header") × HeaderPasses d secret)
      ⊎ ((d.location ≡ "query") × QueryPasses d secret)

  header_iff :
      (d : Definition) (secret : Option String)
      → (in_header digest headers query entry d ≡ (true, secret)) ↔ HeaderPasses d secret
  unfolding in_header
  header_iff d secret =
      let value = headers (to_lower d.name) in
      let id = headers "x-ibm-client-id" in
      let key = headers "x-ibm-client-secret" in
      (
        λ h. elim (Bool-cases (same d.apikey (some "clientid"))) [
          | inl a ↦
              let (x, y) =
                (id_check_iff digest headers query entry value secret).0 (rw (in_header, a) at h) in
              told_id ((same_iff d.apikey (some "clientid")).0 a) x y
          | inr a ↦ elim (Bool-cases (same d.apikey (some "clientsecret"))) [
            | inl b ↦
                let (x, y) =
                  (secret_check_iff digest headers query entry value value secret).0
                    (rw (in_header, a, b) at h) in
                told_secret ((same_iff d.apikey (some "clientsecret")).0 b) x y
            | inr b ↦
                let free : IsUntold d =
                  (told d.apikey "clientid" a, told d.apikey "clientsecret" b) in
                elim (Bool-cases (d.name == "X-IBM-Client-Id")) [
                  | inl c ↦
                      let (x, y) =
                        (id_check_iff digest headers query entry id secret).0
                          (rw (in_header, a, b, c) at h) in
                      fixed_id free ((eq_iff d.name "X-IBM-Client-Id").0 c) x y
                  | inr c ↦ elim (Bool-cases (d.name == "X-IBM-Client-Secret")) [
                    | inl e ↦
                        let (x, y) =
                          (secret_check_iff digest headers query entry key key secret).0
                            (rw (in_header, a, b, c, e) at h) in
                        fixed_secret free ((eq_iff d.name "X-IBM-Client-Secret").0 e) x y
                    | inr e ↦ cc (ap (λ x. x.0) (rw (in_header, a, b, c, e) at h))
                  ]
                ]
          ]
        ],
        λ (p : HeaderPasses d secret). elim p [
          | told_id k x y ↦
              rw (in_header, k) ((id_check_iff digest headers query entry value secret).1 (x, y))
          | told_secret k x y ↦
              rw (in_header, k)
                ((secret_check_iff digest headers query entry value value secret).1 (x, y))
          | fixed_id (a, b) k x y ↦
              rw (in_header, untold d.apikey "clientid" a, untold d.apikey "clientsecret" b, k)
                ((id_check_iff digest headers query entry id secret).1 (x, y))
          | fixed_secret (a, b) k x y ↦
              rw (in_header, untold d.apikey "clientid" a, untold d.apikey "clientsecret" b, k)
                ((secret_check_iff digest headers query entry key key secret).1 (x, y))
        ],
      )

  filled : (s : String) → s ≢ "" → (s == "") ≡ false
  filled s n = elim (Bool-cases (s == "")) [ inl b ↦ absurd (n ((eq_iff s "").0 b)) | inr b ↦ b ]

  given_secret :
      (d : Definition) (secret : Option String)
      → d.apikey ≡ some "clientsecret"
      → (if given digest headers query entry (query d.name)
          then secret_check digest headers query entry (query d.name) (query d.name)
          else (false, none))
        ≡ (true, secret)
      → QueryPasses d secret
  unfolding given
  given_secret d secret k h = elim (Option-cases (query d.name)) [
    | inl e ↦ cc (ap (λ x. x.0) (rw (e, given) at h))
    | inr (s, e) ↦ elim (Bool-cases (s == "")) [
      | inl b ↦ cc (ap (λ x. x.0) (rw (e, given, b) at h))
      | inr b ↦
          let (x, y) =
            (secret_check_iff digest headers query entry (some s) (some s) secret).0
              (rw (e, given, b) at h) in
          elim x [ inl (z, _) ↦ cc (b, (eq_iff s "").1 z) | inr (n, is) ↦ told_secret s k e n is y ]
    ]
  ]

  given_query :
      (d : Definition) (secret : Option String) (s : String)
      → d.apikey ≡ some "clientsecret"
      → query d.name ≡ some s
      → s ≢ ""
      → secret_check digest headers query entry (some s) (some s) ≡ (true, secret)
      → in_query digest headers query entry d ≡ (true, secret)
  unfolding in_query given
  given_query d secret s k v n h =
      let check : Option String → Bool × Option String = λ o.
        if given digest headers query entry o
        then secret_check digest headers query entry o o
        else (false, none) in
      let kind : in_query digest headers query entry d ≡ check (query d.name) =
        rw (in_query, k) refl in
      let full : given digest headers query entry (some s) ≡ true = rw (given, filled s n) refl in
      let found : check (some s) ≡ secret_check digest headers query entry (some s) (some s) =
        rw full refl in
      kind ∙ ap check v ∙ found ∙ h

  query_iff :
      (d : Definition) (secret : Option String)
      → (in_query digest headers query entry d ≡ (true, secret)) ↔ QueryPasses d secret
  unfolding in_query given
  query_iff d secret =
      let value = query d.name in
      let id = query "client_id" in
      let key = query "client_secret" in
      (
        λ h. elim (Bool-cases (same d.apikey (some "clientid"))) [
          | inl a ↦
              let (x, y) =
                (id_check_iff digest headers query entry value secret).0 (rw (in_query, a) at h) in
              told_id ((same_iff d.apikey (some "clientid")).0 a) x y
          | inr a ↦ elim (Bool-cases (same d.apikey (some "clientsecret"))) [
            | inl b ↦
                given_secret d secret ((same_iff d.apikey (some "clientsecret")).0 b)
                  (rw (in_query, a, b) at h)
            | inr b ↦
                let free : IsUntold d =
                  (told d.apikey "clientid" a, told d.apikey "clientsecret" b) in
                elim (Bool-cases (d.name == "client_id")) [
                  | inl c ↦
                      let (x, y) =
                        (id_check_iff digest headers query entry id secret).0
                          (rw (in_query, a, b, c) at h) in
                      fixed_id free ((eq_iff d.name "client_id").0 c) x y
                  | inr c ↦ elim (Bool-cases (d.name == "client_secret")) [
                    | inl e ↦
                        let (x, y) =
                          (secret_check_iff digest headers query entry key entry.client_secret
                              secret).0
                            (rw (in_query, a, b, c, e) at h) in
                        fixed_secret free ((eq_iff d.name "client_secret").0 e) x y
                    | inr e ↦ cc (ap (λ x. x.0) (rw (in_query, a, b, c, e) at h))
                  ]
                ]
          ]
        ],
        λ (p : QueryPasses d secret). elim p [
          | told_id k x y ↦
              rw (in_query, k) ((id_check_iff digest headers query entry value secret).1 (x, y))
          | told_secret s k v n x y ↦ given_query d secret s k v n (
              (secret_check_iff digest headers query entry (some s) (some s) secret).1
                (inr (n, x), y))
          | fixed_id (a, b) k x y ↦
              rw (in_query, untold d.apikey "clientid" a, untold d.apikey "clientsecret" b, k)
                ((id_check_iff digest headers query entry id secret).1 (x, y))
          | fixed_secret (a, b) k x y ↦
              rw (in_query, untold d.apikey "clientid" a, untold d.apikey "clientsecret" b, k)
                ((secret_check_iff digest headers query entry key entry.client_secret secret).1
                  (x, y))
        ],
      )

  -- A definition passes, and passes a secret on, exactly as the kind and the name that it gives say: a
  -- key of the headers by one header, a key of the query by one parameter, and no other key. With the
  -- kind 'clientid', and else under the fixed name of a client id, the value has to be the client id
  -- of the entry, and no secret is passed on; with the kind 'clientsecret', and else under the fixed
  -- name of a client secret, it has to hash to the client secret. A value that is missing passes
  -- where the entry has none either, but not as a query parameter of the kind 'clientsecret'.
  pub eval_apikey_iff :
      (d : Definition) (secret : Option String)
      → (eval_apikey digest headers query entry d ≡ (true, secret)) ↔ Passes d secret
  unfolding eval_apikey
  eval_apikey_iff d secret = (
    λ h. elim (Bool-cases (d.location == "header")) [
      | inl a ↦
          inl ((eq_iff d.location "header").0 a, (header_iff d secret).0 (rw (eval_apikey, a) at h))
      | inr a ↦ elim (Bool-cases (d.location == "query")) [
        | inl b ↦
            inr (
              (eq_iff d.location "query").0 b,
              (query_iff d secret).0 (rw (eval_apikey, a, b) at h),
            )
        | inr b ↦ cc (ap (λ x. x.0) (rw (eval_apikey, a, b) at h))
      ]
    ],
    λ (p : Passes d secret). elim p [
      | inl (k, x) ↦ rw (eval_apikey, k) ((header_iff d secret).1 x)
      | inr (k, x) ↦ rw (eval_apikey, k) ((query_iff d secret).1 x)
    ],
  )

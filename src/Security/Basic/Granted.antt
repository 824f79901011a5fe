-- ===== src/Security/Basic/Granted.antt =====
-- What stands behind a basic authentication that passes, and what a client without one is told.
use microgateway.Common.{
  ℕ, String, ◌≡◌, ◌⊎◌, refl, true, false, ◌||◌, Option, none, some, List, [], ◌∷◌, ltb, nat_eq,
  ◌+s◌, ◌==◌, eq_iff, Option-cases, Bool-cases, inl, inr, if◌then◌else◌,
}
use microgateway.Security.Ldap.{
  Client, Config, Failure, Result, ok, error, auth_function, authenticate,
}
use microgateway.Security.Ldap.Bound.{Bound, authenticate-Bound}
use microgateway.Security.Ldap.Names.{begins_with}
use microgateway.Security.Basic.{
  Answer, granted, refused, Auth, Setting, missing, text, other, UrlSetting, SecurityDef, Registry,
  Fetched, found, not_array, rejected, Tls, by_default, configured, unchecked, HttpOptions, Reply,
  status, broken, Services, http_answer, http_options, credentials, user_registries, ldap_answer,
  is_ldap, http_basic_auth, with_profiles, https_basic_auth, ldap_basic_auth, secured,
  with_registry, with_registries, registry_basic_auth, url_basic_auth, other_basic_auth,
  by_definition, basic_auth, Context, answered, eval_basic,
}

reply_cases : (r : Reply) → (r ≡ broken) ⊎ ((n : ℕ) × (r ≡ status n))
reply_cases broken = inl refl
reply_cases (status n) = inr (n, refl)

ldap_answer-granted : (r : Result Unit Failure) → ldap_answer r ≡ granted → r ≡ ok tt
unfolding ldap_answer
ldap_answer-granted (ok tt) h = refl
ldap_answer-granted (error e) h = elim (Option-cases e.code) [
  | inl k ↦ cc (rw (k, ldap_answer) at h)
  | inr (n, k) ↦ elim (Bool-cases (nat_eq n 49 || nat_eq n 32)) [
    | inl l ↦ cc (rw (k, ldap_answer, l) at h)
    | inr l ↦ cc (rw (k, ldap_answer, l) at h)
  ]
]

setting_cases : (x : Setting) → (x ≡ missing) ⊎ ((x ≡ other) ⊎ ((s : String) × (x ≡ text s)))
setting_cases missing = inl refl
setting_cases other = inr (inl refl)
setting_cases (text s) = inr (inr (s, refl))

answered-true : (x : Answer) (ctx : Context) → (answered x ctx).0 ≡ true → x ≡ granted
unfolding answered
answered-true granted ctx h = refl
answered-true (refused none) ctx h = cc
answered-true (refused (some n)) ctx h = elim (Bool-cases (nat_eq n 401)) [
  | inl e ↦ cc (rw (e, answered) at h)
  | inr e ↦ cc (rw (e, answered) at h)
]

module _ {P T S : Type 0} (services : Services P T) (client : Client S) (start : S) where
  -- A server answered the credentials with a status below 400, or a bind with the password went well.
  abbrev pub Backed : Auth → Type 0
  Backed a =
      ((o : HttpOptions T) × (n : ℕ) × (services.request o ≡ status n)
        × (ltb n 400 ≡ true)
        × (o.authorization ≡ a.scheme +s " " +s a.token))
      ⊎ Bound client (credentials (services.decode a.token)).1

  http-Backed :
      (a : Auth) (url : String) (tls : Tls T)
      → http_answer (services.request (http_options services client start a url tls)) ≡ granted
      → Backed a
  unfolding http_answer http_options
  http-Backed a url tls h =
      elim (reply_cases (services.request (http_options services client start a url tls))) [
        | inl e ↦ cc (rw (e, http_answer) at h)
        | inr (n, e) ↦ elim (Bool-cases (ltb n 400)) [
          | inl k ↦ inl (http_options services client start a url tls, n, e, k, refl)
          | inr k ↦ cc (rw (e, http_answer, k) at h)
        ]
      ]

  with_profiles-Backed :
      (a : Auth) (url : String) (ps : Fetched P)
      → with_profiles services client start a url ps ≡ granted
      → Backed a
  unfolding with_profiles
  with_profiles-Backed a url (found []) h = cc
  with_profiles-Backed a url (found (p ∷ ps)) h = elim (Option-cases (services.configure_tls p)) [
    | inl e ↦ cc (rw (e, with_profiles) at h)
    | inr (t, e) ↦ http-Backed a url (configured t) (rw (e, with_profiles) at h)
  ]
  with_profiles-Backed a url not_array h = cc
  with_profiles-Backed a url (rejected code) h = cc

  https-Backed :
      (snapshot : String) (profile : Option String) (a : Auth) (url : String)
      → https_basic_auth services client start snapshot profile a url ≡ granted
      → Backed a
  unfolding https_basic_auth
  https-Backed snapshot none a url h = http-Backed a url unchecked h
  https-Backed snapshot (some name) a url h = elim (Bool-cases (name == "")) [
    | inl e ↦ http-Backed a url unchecked (rw (e, https_basic_auth) at h)
    | inr e ↦
        with_profiles-Backed a url (services.get_tls_profile snapshot name)
          (rw (e, https_basic_auth) at h)
  ]

  ldap-Backed :
      (a : Auth) (c : Config) → ldap_basic_auth services client start a c ≡ granted → Backed a
  unfolding ldap_basic_auth ldap_answer
  ldap-Backed a c h = elim (Option-cases (auth_function c.auth_method)) [
    | inl e ↦ cc (rw (e, ldap_basic_auth) at h)
    | inr (m, e) ↦
        let (user, pass) = credentials (services.decode a.token) in
        let is =
          ldap_answer-granted (authenticate client c user pass start).0
            (rw (e, ldap_basic_auth) at h) in
        inr (authenticate-Bound client c user pass start is)
  ]

  secured-Backed :
      (a : Auth) (c : Config) (ps : Fetched P)
      → secured services client start a c ps ≡ granted
      → Backed a
  unfolding secured
  secured-Backed a c (found []) h = cc
  secured-Backed a c (found (p ∷ ps)) h = elim (Option-cases (services.configure_tls p)) [
    | inl e ↦ cc (rw (e, secured) at h)
    | inr (t, e) ↦ ldap-Backed a c (rw (e, secured) at h)
  ]
  secured-Backed a c not_array h = cc
  secured-Backed a c (rejected code) h = cc

  -- the branch for a secured registry
  profile-Backed :
      (snapshot : String) (a : Auth) (c : Config) (profile : Option String)
      → elim profile as (λ x. Answer) [
        | none ↦ refused (some 500)
        | some name ↦
            if name == ""
            then refused (some 500)
            else secured services client start a c (services.get_tls_profile snapshot name)
      ]
        ≡ granted
      → Backed a
  profile-Backed snapshot a c none h = cc
  profile-Backed snapshot a c (some name) h = elim (Bool-cases (name == "")) [
    | inl e ↦ cc (rw e at h)
    | inr e ↦ secured-Backed a c (services.get_tls_profile snapshot name) (rw e at h)
  ]

  with_registry-Backed :
      (snapshot : String) (a : Auth) (rs : List (Registry × Config))
      → with_registry services client start snapshot a rs ≡ granted
      → Backed a
  unfolding with_registry
  with_registry-Backed snapshot a [] h = cc
  with_registry-Backed snapshot a ((r, c) ∷ rs) h = elim (Option-cases r.type) [
    | inl e ↦ cc (rw (e, with_registry) at h)
    | inr (t, e) ↦ elim (Bool-cases (t == "ldap")) [
      | inl k ↦ elim (Bool-cases c.ssl) [
        | inl l ↦ profile-Backed snapshot a c r.tls_profile (rw (e, with_registry, k, l) at h)
        | inr l ↦ ldap-Backed a (record c { ssl = false }) (rw (e, with_registry, k, l) at h)
      ]
      | inr k ↦ cc (rw (e, with_registry, k) at h)
    ]
  ]

  with_registries-Backed :
      (snapshot : String) (a : Auth) (rs : Fetched Registry)
      → with_registries services client start snapshot a rs ≡ granted
      → Backed a
  unfolding with_registries
  with_registries-Backed snapshot a (found []) h = cc
  with_registries-Backed snapshot a (found (r ∷ rs)) h =
      with_registry-Backed snapshot a (user_registries (r ∷ rs)) h
  with_registries-Backed snapshot a not_array h = cc
  with_registries-Backed snapshot a (rejected code) h = cc

  text_url-Backed :
      (snapshot : String) (a : Auth) (u : UrlSetting) (url : String)
      → u.url ≡ text url
      → url_basic_auth services client start snapshot a u ≡ granted
      → Backed a
  unfolding url_basic_auth http_basic_auth
  text_url-Backed snapshot a u url is h = elim (Bool-cases (url == "")) [
    | inl e ↦ cc (rw (is, url_basic_auth, e) at h)
    | inr e ↦ elim (Bool-cases (is_ldap url)) [
      | inl f ↦ cc (rw (is, url_basic_auth, e, f) at h)
      | inr f ↦ elim (Bool-cases (begins_with "http://" url)) [
        | inl g ↦ http-Backed a url by_default (rw (is, url_basic_auth, e, f, g) at h)
        | inr g ↦ elim (Bool-cases (begins_with "https://" url)) [
          | inl k ↦
              https-Backed snapshot u.tls_profile a url (rw (is, url_basic_auth, e, f, g, k) at h)
          | inr k ↦ cc (rw (is, url_basic_auth, e, f, g, k) at h)
        ]
      ]
    ]
  ]

  url-Backed :
      (snapshot : String) (a : Auth) (u : UrlSetting)
      → url_basic_auth services client start snapshot a u ≡ granted
      → Backed a
  unfolding url_basic_auth
  url-Backed snapshot a u h = elim (setting_cases u.url) [
    | inl e ↦ cc (rw (e, url_basic_auth) at h)
    | inr (inl e) ↦ cc (rw (e, url_basic_auth) at h)
    | inr (inr (url, e)) ↦ text_url-Backed snapshot a u url e h
  ]

  other-Backed :
      (snapshot : String) (def : SecurityDef) (a : Auth)
      → other_basic_auth services client start snapshot def a ≡ granted
      → Backed a
  unfolding other_basic_auth
  other-Backed snapshot def a h = elim (Option-cases def.authentication_url) [
    | inl e ↦ cc (rw (e, other_basic_auth) at h)
    | inr (u, e) ↦ url-Backed snapshot a u (rw (e, other_basic_auth) at h)
  ]

  definition-Backed :
      (snapshot : String) (def : SecurityDef) (a : Auth)
      → by_definition services client start snapshot def a ≡ granted
      → Backed a
  unfolding by_definition registry_basic_auth
  definition-Backed snapshot def a h = elim (setting_cases def.registry) [
    | inl e ↦
        other-Backed snapshot (record def { registry = missing }) a (rw (e, by_definition) at h)
    | inr (inl e) ↦ cc (rw (e, by_definition) at h)
    | inr (inr (name, e)) ↦ elim (Bool-cases (name == "")) [
      | inl k ↦
          other-Backed snapshot (record def { registry = text name }) a
            (rw (e, by_definition, k) at h)
      | inr k ↦
          with_registries-Backed snapshot a (services.get_registry snapshot name)
            (rw (e, by_definition, k) at h)
    ]
  ]

  pub basic_auth-Backed :
      (snapshot : String) (def : SecurityDef) (auth : Option Auth)
      → basic_auth services client start snapshot def auth ≡ granted
      → (a : Auth) × (auth ≡ some a) × ((a.scheme == "Basic") ≡ true) × Backed a
  unfolding basic_auth
  basic_auth-Backed snapshot def none h = cc
  basic_auth-Backed snapshot def (some a) h = elim (Bool-cases (a.scheme == "Basic")) [
    | inl e ↦ (a, refl, e, definition-Backed snapshot def a (rw (e, basic_auth) at h))
    | inr e ↦ cc (rw (e, basic_auth) at h)
  ]

  -- A basic authentication passes only for a definition of the type 'basic' and a request with a basic
  -- authorization; and then a server has answered a request with this authorization by a status below
  -- 400, or a bind to the directory with the password of its token has gone well.
  pub eval_basic-Backed :
      (snapshot : String) (def : SecurityDef) (auth : Option Auth) (ctx : Context)
      → (eval_basic services client start snapshot def auth ctx).0 ≡ true
      → (def.type ≡ "basic") × (a : Auth) × (auth ≡ some a) × (a.scheme ≡ "Basic") × Backed a
  unfolding eval_basic
  eval_basic-Backed snapshot def auth ctx h = elim (Bool-cases (def.type == "basic")) [
    | inl e ↦
        let answer = basic_auth services client start snapshot def auth in
        let (a, is, basic, backed) =
          basic_auth-Backed snapshot def auth
            (answered-true answer ctx (rw (e, eval_basic) at h)) in
        ((eq_iff def.type "basic").0 e, a, is, (eq_iff a.scheme "Basic").0 basic, backed)
    | inr e ↦ cc (rw (e, eval_basic) at h)
  ]

-- Without a basic authorization the check for a definition of the type 'basic' fails, and the client
-- is asked for one with status 401, whatever the definition says.
eval_basic-challenge :
    {P T S : Type 0} (services : Services P T) (client : Client S) (start : S) (snapshot : String)
    (def : SecurityDef) (auth : Option Auth) (ctx : Context)
    → def.type ≡ "basic"
    → (auth ≡ none) ⊎ ((a : Auth) × (auth ≡ some a) × ((a.scheme == "Basic") ≡ false))
    → eval_basic services client start snapshot def auth ctx
      ≡ (false, record { error_code = some 401; challenge = some "Basic realm=\"apim\"" })
unfolding eval_basic basic_auth answered
eval_basic-challenge services client start snapshot def auth ctx is (inl e) =
    rw ((eq_iff def.type "basic").1 is, e, basic_auth) refl
eval_basic-challenge services client start snapshot def auth ctx is (inr (a, e, not_basic)) =
    rw ((eq_iff def.type "basic").1 is, e, basic_auth, not_basic) refl

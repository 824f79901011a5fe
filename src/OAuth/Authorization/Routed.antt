-- ===== src/OAuth/Authorization/Routed.antt =====
-- The runs of the responses of both grants that end in a redirection.
use microgateway.Common.{
  String, ◌≡◌, ◌⊎◌, refl, Bool, true, false, Option, none, some, truthy, ◌==◌, Bool-cases, inl, inr,
}
use microgateway.OAuth.Exchange.{Scope}
use microgateway.OAuth.Authorization.{
  AzRequest, Transaction, Message, Next, routed, Answer, errs, issues, throws, silent, redirect,
  scope_of, on_answer, on_decision, on_uri, respond,
}

pub truthy-some :
    (o : Option String) → truthy o ≡ true → (s : String) × (o ≡ some s) × (truthy (some s) ≡ true)
truthy-some none h = cc
truthy-some (some s) h = (s, refl, h)

module _ {C U G W : Type 0} (denied : Transaction C U → String → String)
    (granted : Transaction C U → String → String → G → String)
    (issue : Transaction C U → AzRequest → Scope → W → Answer G × W) where
  -- the call of `issue` gives a text that is not empty, and the redirection is made of it
  abbrev pub Issued : Transaction C U → String → W → Next × (W × Message) → Type 0
  Issued txn uri w result =
      (r : AzRequest) × (text : String) × (g : G) × (txn.req ≡ some r)
      × ((issue txn r (scope_of txn r) w).0 ≡ issues (some text) g)
      × (truthy (some text) ≡ true)
      × (result ≡ (routed, ((issue txn r (scope_of txn r) w).1, redirect (granted txn uri text g))))

  abbrev pub Routed : Transaction C U → W → Next × (W × Message) → Type 0
  Routed txn w result =
      (uri : String) × (txn.redirect_uri ≡ some uri)
      × (truthy (some uri) ≡ true)
      × (((txn.allow ≡ false) × (result ≡ (routed, (w, redirect (denied txn uri)))))
          ⊎ ((txn.allow ≡ true) × Issued txn uri w result))

  uri-denied :
      (txn : Transaction C U) (uri : Option String) (w : W) (m : Message)
      → txn.allow ≡ false
      → (on_uri denied granted issue txn uri (w, m)).1.0 ≡ w
  unfolding on_uri on_decision
  uri-denied txn none w m h = refl
  uri-denied txn (some uri) w m h = elim (Bool-cases (uri == "")) [
    | inl e ↦ rw (e, on_uri) refl
    | inr e ↦ rw (e, on_uri, h) refl
  ]

  -- A transaction that is not allowed leaves the provider as it is.
  pub respond-denied :
      (txn : Transaction C U) (w : W) (m : Message)
      → txn.allow ≡ false
      → (respond denied granted issue txn (w, m)).1.0 ≡ w
  unfolding respond
  respond-denied txn w m h = uri-denied txn txn.redirect_uri w m h

  answer-routed :
      (txn : Transaction C U) (r : AzRequest) (uri : String) (w : W) (m : Message) (a : Answer G)
      (w' : W)
      → (on_answer denied granted issue txn uri (a, w') m).0 ≡ routed
      → (text : String) × (g : G) × (a ≡ issues (some text) g)
        × (truthy (some text) ≡ true)
        × (on_answer denied granted issue txn uri (a, w') m
            ≡ (routed, (w', redirect (granted txn uri text g))))
  unfolding on_answer
  answer-routed txn r uri w m (errs e) w' h = cc
  answer-routed txn r uri w m (issues none g) w' h = cc
  answer-routed txn r uri w m (issues (some text) g) w' h = elim (Bool-cases (truthy (some text))) [
    | inl e ↦ (text, g, refl, e, rw e refl)
    | inr e ↦ cc (rw (e, on_answer) at h)
  ]
  answer-routed txn r uri w m (throws e) w' h = cc
  answer-routed txn r uri w m silent w' h = cc

  -- what a decision leads to, where it ends in a redirection
  decision-routed :
      (txn : Transaction C U) (uri : String) (allow : Bool) (req : Option AzRequest) (w : W)
      (m : Message)
      → (on_decision denied granted issue txn uri allow req (w, m)).0 ≡ routed
      → ((allow ≡ false)
          × (on_decision denied granted issue txn uri allow req (w, m)
              ≡ (routed, (w, redirect (denied txn uri)))))
        ⊎ ((allow ≡ true)
            × ((r : AzRequest) × (text : String) × (g : G) × (req ≡ some r)
                × ((issue txn r (scope_of txn r) w).0 ≡ issues (some text) g)
                × (truthy (some text) ≡ true)
                × (on_decision denied granted issue txn uri allow req (w, m) ≡ (
                  routed,
                  ((issue txn r (scope_of txn r) w).1, redirect (granted txn uri text g)),
                ))))
  unfolding on_decision
  decision-routed txn uri false req w m h = inl (refl, refl)
  decision-routed txn uri true none w m h = cc
  decision-routed txn uri true (some r) w m h =
      let (a, w') = issue txn r (scope_of txn r) w in
      let (text, g, is, filled, same) = answer-routed txn r uri w m a w' h in
      inr (refl, (r, text, g, refl, is, filled, same))

  pub uri-routed :
      (txn : Transaction C U) (o : Option String) (w : W) (m : Message)
      → (on_uri denied granted issue txn o (w, m)).0 ≡ routed
      → (uri : String) × (o ≡ some uri)
        × (truthy (some uri) ≡ true)
        × (((txn.allow ≡ false)
              × (on_uri denied granted issue txn o (w, m)
                  ≡ (routed, (w, redirect (denied txn uri)))))
            ⊎ ((txn.allow ≡ true) × Issued txn uri w (on_uri denied granted issue txn o (w, m))))
  unfolding on_uri
  uri-routed txn none w m h = cc
  uri-routed txn (some uri) w m h = elim (Bool-cases (uri == "")) [
    | inl e ↦ cc (rw (e, on_uri) at h)
    | inr e ↦ (
      uri,
      refl,
      rw e refl,
      rw (e, on_uri) (decision-routed txn uri txn.allow txn.req w m (rw (e, on_uri) at h)),
    )
  ]

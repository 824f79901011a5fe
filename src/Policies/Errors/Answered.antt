-- ===== src/Policies/Errors/Answered.antt =====
-- That an error is answered.
use microgateway.Common.{
  String, ◌≡◌, ◌⊎◌, refl, Bool, true, false, ◌&&◌, Option, some, List, get, ◌==◌, Option-cases,
  Bool-cases, inl, inr, if◌then◌else◌,
}
use microgateway.OAuth.Authorization.{Urls}
use microgateway.Security.Ldap.Names.{begins_with}
use microgateway.Policies.Errors.{
  Err, Oauth, Input, Response, Handled, sent, not_done, either_text, has_infix, told, token_error,
  plain_error, redirect_error, is_redirected, typed_error, oauth2_error, is_oauth2, error_handler,
}

module _ (urls : Urls) (stringify : List (String × Option String) → String) where
  -- The handler does not throw: it sends a response, or is not done.
  abbrev Goes : Handled → Type 0
  Goes h = ((r : Response) × (h ≡ sent r)) ⊎ (h ≡ not_done)

  sent-Goes : (r : Response) → Goes (sent r)
  sent-Goes r = inl (r, refl)

  chosen-Goes : (b : Bool) (r s : Response) → Goes (if b then sent r else sent s)
  chosen-Goes true r s = sent-Goes r
  chosen-Goes false r s = sent-Goes s

  redirect_error-Goes :
      (i : Input) (o : Oauth) (err : Err) (type : String)
      → either_text (get i.query "response_type") o.response_type ≡ some type
      → Goes (redirect_error urls stringify i o err)
  unfolding redirect_error
  redirect_error-Goes i o err type e = elim (Option-cases o.redirect_uri) [
    | inl k ↦ rw (k, redirect_error) (sent-Goes (told urls stringify err))
    | inr (uri, k) ↦ elim (Bool-cases (uri == "")) [
      | inl f ↦ rw (k, redirect_error, f) (sent-Goes (told urls stringify err))
      | inr f ↦ rw (k, redirect_error, f, e) (chosen-Goes (has_infix "token" type) _ _)
    ]
  ]

  typed_error-Goes :
      (i : Input) (o : Oauth) (type : String) (err : Err) (response : String)
      → either_text (get i.query "response_type") o.response_type ≡ some response
      → Goes (typed_error urls stringify i o type err)
  unfolding typed_error
  typed_error-Goes i o type err response e = elim (Bool-cases (type == "token")) [
    | inl f ↦ rw (f, typed_error) (sent-Goes (token_error urls stringify i err))
    | inr f ↦ elim (Bool-cases (begins_with "AZ" type && is_redirected urls stringify err)) [
      | inl g ↦ rw (f, typed_error, g) (redirect_error-Goes i o err response e)
      | inr g ↦ rw (f, typed_error, g) (inr refl)
    ]
  ]

  -- what an OAuth request carries: its type, and the response type by its query or its transaction
  abbrev pub HasTypes : Input → Type 0
  HasTypes i =
      (o : Oauth) × (type : String) × (response : String) × (i.oauth2 ≡ some o)
      × (o.type ≡ some type)
      × ((type == "") ≡ false)
      × (either_text (get i.query "response_type") o.response_type ≡ some response)

  oauth2_error-Goes :
      (i : Input) (err : Err) → HasTypes i → Goes (oauth2_error urls stringify i err)
  unfolding oauth2_error
  oauth2_error-Goes i err (o, type, response, e, f, g, h) =
      rw (e, oauth2_error, f, g) (typed_error-Goes i o type err response h)

  -- The handler answers every error of a request that does not concern OAuth, and every error of an
  -- OAuth request that has a type and a response type.
  pub error_handler-some :
      (i : Input) (err : Err)
      → (is_oauth2 urls stringify i ≡ false) ⊎ HasTypes i
      → (r : Response) × (error_handler urls stringify i err ≡ some r)
  unfolding error_handler
  error_handler-some i err (inl e) = rw (e, error_handler) (plain_error urls stringify i err, refl)
  error_handler-some i err (inr types) = elim (Bool-cases (is_oauth2 urls stringify i)) [
    | inr e ↦ rw (e, error_handler) (plain_error urls stringify i err, refl)
    | inl e ↦ elim (oauth2_error-Goes i err types) [
      | inl (r, k) ↦ rw (e, error_handler, k) (r, refl)
      | inr k ↦ rw (e, error_handler, k) (plain_error urls stringify i err, refl)
    ]
  ]

-- ===== src/Policies/Errors.antt =====
-- lib/error-handler.js, with `redirectError` of lib/oauth2/oauth2-helper.js, and the policy
-- policies/throw/index.js. Where the code reads a property of `undefined`, the handler throws; the
-- response it has begun by then is left out. `stringify` is `JSON.stringify` on an object of texts.
pub mod Answered
use Prim.Native.String
use microgateway.Common.{
  ℕ, zero, suc, String, ◌≡◌, Bool, true, false, ◌||◌, ◌&&◌, Option, none, some, List, [], ◌∷◌, ◌++◌,
  truthy, get, extend, ◌==◌, if◌then◌else◌, not,
}
use microgateway.OAuth.Authorization.{Urls}
use microgateway.OAuth.Exchange.{Object, str}
use microgateway.Security.Ldap.Names.{begins_with}

-- The error that the handler is called with: whether it is an `Error`, or a plain object, and its
-- properties.
pub record Err : Type 0 where
  pub is_error : Bool
  pub is_plain : Bool
  pub name : Option String
  pub message : Option String
  pub code : Option String
  pub uri : Option String
  pub status : Option ℕ

pub record Status : Type 0 where
  pub code : Option ℕ
  pub reason : Option String

abbrev pub Headers : Type 0
Headers = List (String × String)

-- `ctx.error`
pub record CtxError : Type 0 where
  pub type : Option String
  pub status : Option Status
  pub headers : Option Headers
  pub body : Option String

-- `req.oauth2`, with `state` and `type` of its request
pub record Oauth : Type 0 where
  pub type : Option String
  pub redirect_uri : Option String
  pub state : Option String
  pub response_type : Option String

-- What the handler reads of the request: whether its API is a provider, and the parameters of the
-- query.
pub record Input : Type 0 where
  pub is_provider : Bool
  pub error : Option CtxError
  pub oauth2 : Option Oauth
  pub query : List (String × String)
  pub message_headers : Headers

pub data Body : Type 0 where
  object : List (String × Option String) → Body
  raw : Option String → Body

pub record Response : Type 0 where
  pub status : Option ℕ
  pub reason : Option String
  pub headers : Headers
  pub body : Body

-- `true` with the response, `false`, or a TypeError
pub data Handled : Type 0 where
  sent : Response → Handled
  not_done : Handled
  crashed : Handled

-- `v || d`
pub or_text : Option String → String → String
or_text none d = d
or_text (some s) d = if s == "" then d else s

pub or_code : Option ℕ → ℕ → ℕ
or_code none d = d
or_code (some zero) d = d
or_code (some (suc n)) d = suc n

-- the first of two texts that is not empty
unfoldable pub either_text : Option String → Option String → Option String
either_text a b = if truthy a then a else if truthy b then b else none

-- a property that is set where its value is not empty
pub with_text : String → Option String → List (String × String) → List (String × String)
with_text key none q = q
with_text key (some s) q = if s == "" then q else q ++ (key, s) ∷ []

pub has_infix : String → String → Bool
unfolding begins_with
has_infix p Prim.Native.String.[] = begins_with p ""
has_infix p (Prim.Native.String.◌∷◌ c s) =
    begins_with p (Prim.Native.String.◌∷◌ c s) || has_infix p s

-- the parameters that tell of an error
pub error_params : Err → Option String → List (String × String)
unfolding with_text or_text
error_params err state = with_text "state" state (
    with_text "error_uri" err.uri
      (with_text "error_description" err.message (("error", or_text err.code "server_error") ∷ [])))

abbrev pub as_object : List (String × String) → Object
as_object [] = []
as_object ((k, v) ∷ q) = (k, str v) ∷ as_object q

pub powered : Headers
powered = ("X-Powered-By", "IBM API Connect MicroGateway") ∷ []

pub set_headers : Option Headers → Headers
unfolding powered extend
set_headers none = powered
set_headers (some h) = extend powered h

module _ (urls : Urls) (stringify : List (String × Option String) → String) where
  -- `redirectError` without a redirect URI
  pub told : Err → Response
  unfolding powered
  told err =
      let said = if truthy err.message then ("err_description", err.message) ∷ [] else [] in
      let body = raw (some (stringify (("error", err.code) ∷ said))) in
      elim err.status [
        | none ↦ record {
          status = some 400;
          reason = some "Bad Request";
          headers = powered;
          body = body;
        }
        | some zero ↦ record {
          status = some 400;
          reason = some "Bad Request";
          headers = powered;
          body = body;
        }
        | some (suc n) ↦ record {
          status = some (suc n);
          reason = none;
          headers = powered;
          body = body;
        }
      ]

  pub located : String → Response
  unfolding set_headers
  located uri = record {
    status = some 302;
    reason = some "Found";
    headers = set_headers (some (("Location", uri) ∷ []));
    body = raw none;
  }

  -- `redirectError`, and the response that is made of the message
  pub redirect_error : Input → Oauth → Err → Handled
  unfolding told located error_params either_text has_infix
  redirect_error i o err =
      let params = error_params err (either_text (get i.query "state") o.state) in
      elim o.redirect_uri [
        | none ↦ sent (told err)
        | some uri ↦
            if uri == ""
            then sent (told err)
            else elim (either_text (get i.query "response_type") o.response_type) [
              | none ↦ crashed
              | some type ↦
                  if has_infix "token" type
                  then sent (located (urls.with_hash uri (urls.stringify (as_object params))))
                  else sent (located (urls.with_query uri params))
            ]
      ]

  pub token_error : Input → Err → Response
  unfolding set_headers or_text or_code
  token_error i err = record {
    status = some (or_code err.status 400);
    reason = none;
    headers = set_headers (some i.message_headers);
    body = object (
        ("error", some (or_text err.code "invalid_request"))
        ∷ (if truthy err.message then ("error_description", err.message) ∷ [] else []));
  }

  -- the error of the resource server
  pub resource_error : CtxError → Handled
  unfolding set_headers
  resource_error e = elim e.status [
    | none ↦ crashed
    | some s ↦ sent (record {
      status = s.code;
      reason = s.reason;
      headers = set_headers e.headers;
      body = raw e.body;
    })
  ]

  pub is_redirected : Err → Bool
  is_redirected err =
      truthy err.code && (if or_text err.code "" == "authentication_error" then false else true)

  pub is_resource : CtxError → Bool
  is_resource e = or_text e.type "" == "oauth2:resource"

  -- `_oauth2ErrorHandler`, for a type of request, or for none
  pub typed_error : Input → Oauth → String → Err → Handled
  unfolding token_error redirect_error is_redirected
  typed_error i o type err =
      if type == "token"
      then sent (token_error i err)
      else if begins_with "AZ" type && is_redirected err
      then redirect_error i o err
      else not_done

  pub untyped_error : Input → Handled
  unfolding resource_error is_resource
  untyped_error i = elim i.error [
    | none ↦ crashed
    | some e ↦ if is_resource e then resource_error e else not_done
  ]

  pub oauth2_error : Input → Err → Handled
  unfolding typed_error untyped_error
  oauth2_error i err = elim i.oauth2 [
    | none ↦ untyped_error i
    | some o ↦ elim o.type [
      | none ↦ untyped_error i
      | some type ↦ if type == "" then untyped_error i else typed_error i o type err
    ]
  ]

  pub is_oauth2 : Input → Bool
  is_oauth2 i =
      i.is_provider
      || (elim i.error [ none ↦ false | some e ↦ begins_with "oauth2" (or_text e.type "") ])

  pub status_of : Option CtxError → Status
  unfolding or_code
  status_of none = record { code = some 500; reason = none }
  status_of (some e) = elim e.status [
    | none ↦ record { code = some 500; reason = none }
    | some s ↦ record { code = some (or_code s.code 500); reason = s.reason }
  ]

  -- only errors in the gateway's own form are told
  pub body_of : Err → Body
  body_of err =
      if err.is_error || (err.is_plain && truthy err.name)
      then object (("name", err.name) ∷ ("message", err.message) ∷ [])
      else object (("name", some "GatewayError") ∷ ("message", some "Internal Server Error") ∷ [])

  pub plain_error : Input → Err → Response
  unfolding status_of body_of set_headers
  plain_error i err = record {
    status = (status_of i.error).code;
    reason = (status_of i.error).reason;
    headers = set_headers (elim i.error [ none ↦ none | some e ↦ e.headers ]);
    body = body_of err;
  }

  -- `errorHandler`: the response, or `none` where it throws
  unfoldable pub error_handler : Input → Err → Option Response
  unfolding oauth2_error is_oauth2 plain_error
  error_handler i err =
      if is_oauth2 i
      then elim (oauth2_error i err) [
        | sent r ↦ some r
        | not_done ↦ some (plain_error i err)
        | crashed ↦ none
      ]
      else some (plain_error i err)

-- policies/throw: the error that the flow fails with, its name and its message
pub thrown : (name message : Option String) → String × Option String
unfolding or_text
thrown name message = (or_text name "ThrowError", if truthy message then message else none)

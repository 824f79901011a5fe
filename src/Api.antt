-- ===== src/Api.antt =====
-- The API entries that the datastore hands to the gateway, in `req.ctx._apis`: the fields that
-- lib/api-matcher and lib/security-check read, under the datastore's names in antt's spelling.
-- A field that may be `undefined` is an `Option`.
use microgateway.Common.{ℕ, String, Bool, Option, List}

-- a Swagger security requirement: the names of its schemes
abbrev pub Requirement : Type 0
Requirement = List String

-- `type` of a securityDefinition, in Swagger 2.0
pub data Kind : Type 0 where
  api_key : Kind
  basic : Kind
  oauth2 : Kind

-- a Swagger securityDefinition: `type`, `in`, `name` and `x-ibm-apikey`
pub record Definition : Type 0 where
  pub kind : Kind
  pub location : String
  pub name : String
  pub apikey : Option String

-- an element of 'path-methods'
pub record MethodObj : Type 0 where
  pub method : String
  pub operation_id : Option String
  pub security_reqs : Option (List Requirement)
  pub security_defs : List (String × Definition)
  pub rate_limit_scope : String

-- an element of 'api-paths'
pub record PathObj : Type 0 where
  pub path : String
  pub path_regex : String
  pub path_methods : List MethodObj
  pub matching_score : ℕ

-- `id` tells the entry objects apart. `test_app_cid_sec` and `subscription_active` are the truth
-- values of those fields; `cors` is `none` where the document has no `cors` object, and otherwise
-- the truth value of its `enabled`.
pub record Entry : Type 0 where
  pub id : ℕ
  pub api_name : String
  pub api_state : String
  pub test_app_cid_sec : Bool
  pub cors : Option Bool
  pub api_paths : List PathObj
  pub plan_id : String
  pub client_id : Option String
  pub client_secret : Option String
  pub subscription_active : Bool
  pub subscription_app_state : Option String

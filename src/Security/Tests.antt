-- ===== src/Security/Tests.antt =====
-- An operation that asks for an API key, and instances of the theorems on the security check.
use mathlib.Core.List.{Mem}
use microgateway.Common.{
  ◌↔◌, In, String, ◌≡◌, refl, Bool, true, false, Option, none, some, List, [], ◌∷◌, get, inl, inr,
  ◌⊎◌, ◌==◌, if◌then◌else◌, to_lower,
}
use microgateway.Api.{Requirement, Definition, api_key, MethodObj, PathObj, Entry}
use microgateway.Matcher.{Candidate}
use microgateway.Security.{no_reqs, Handler, eval_security}
use microgateway.Security.Requirements.{RequirementPasses, eval_security_sound}
use microgateway.Security.Complete.{eval_security_complete}
use microgateway.Security.InOrder.{in_order}
use microgateway.Security.ApiKey.{eval_apikey}
use microgateway.Security.ApiKey.Passing.{Passes, eval_apikey_iff}
use microgateway.Security.Champion.{
  Match, Settled, chosen, inactive, security_check, build_match, is_inactive,
}
use microgateway.Security.Champion.Choice.{Fits, security_check_sound}

abbrev id_header : Definition
id_header = record { kind = api_key; location = "header"; name = "X-IBM-Client-Id"; apikey = none }

abbrev secret_query : Definition
secret_query = record { kind = api_key; location = "query"; name = "client_secret"; apikey = none }

abbrev defs : List (String × Definition)
defs = ("id", id_header) ∷ ("secret", secret_query) ∷ []

abbrev get_items : MethodObj
get_items = record {
  method = "GET";
  operation_id = none;
  security_reqs = some (("id" ∷ "secret" ∷ []) ∷ ("id" ∷ []) ∷ []);
  security_defs = defs;
  rate_limit_scope = "plan";
}

abbrev items : PathObj
items = record {
  path = "/items";
  path_regex = "/items";
  path_methods = get_items ∷ [];
  matching_score = 1;
}

abbrev shop : Bool → Entry
shop active = record {
  id = 7;
  api_name = "shop";
  api_state = "running";
  test_app_cid_sec = true;
  cors = none;
  api_paths = items ∷ [];
  plan_id = "gold";
  client_id = some "app";
  client_secret = some "digest";
  subscription_active = active;
  subscription_app_state = some "ACTIVE";
}

abbrev candidate : Bool → Candidate
candidate active = record {
  score = 1;
  entry = shop active;
  pathobj = items;
  mm = some get_items;
  allow_methods = "GET";
}

-- A request with the client id and a wrong secret.
abbrev headers : String → Option String
headers name = if name == "x-ibm-client-id" then some "app" else none

abbrev query : String → Option String
query name = if name == "client_secret" then some "wrong" else none

abbrev handler : Entry → Handler
handler entry req d = eval_apikey (λ s. "?") headers query entry d

keys :
    (eval_apikey (λ s. "?") headers query (shop true) id_header ≡ (true, none))
    × (eval_apikey (λ s. "?") headers query (shop true) secret_query ≡ (false, none))
unfolding eval_apikey to_lower
keys = (refl, refl)

eval_apikey_iff_example :
    (eval_apikey (λ s. "?") headers query (shop true) id_header ≡ (true, none))
    ↔ Passes (λ s. "?") headers query (shop true) id_header none
eval_apikey_iff_example = eval_apikey_iff (λ s. "?") headers query (shop true) id_header none

passes : (eval_security in_order (handler (shop true)) defs get_items.security_reqs).pass ≡ true
unfolding eval_security eval_apikey get
passes = refl

eval_security_sound_example :
    (no_reqs (("id" ∷ "secret" ∷ []) ∷ ("id" ∷ []) ∷ []) ≡ true)
    ⊎ ((req : Requirement) × In req (("id" ∷ "secret" ∷ []) ∷ ("id" ∷ []) ∷ [])
        × RequirementPasses in_order (handler (shop true)) defs req)
eval_security_sound_example =
    eval_security_sound in_order (handler (shop true)) defs get_items.security_reqs passes

id_is_known : get defs "id" ≡ some id_header
unfolding get
id_is_known = refl

secret_is_known : get defs "secret" ≡ some secret_query
unfolding get
secret_is_known = refl

abbrev either : List Requirement
either = ("secret" ∷ []) ∷ ("id" ∷ []) ∷ []

all_known :
    (r : Requirement)
    → In r either
    → (scheme : String) → In scheme r
    → (d : Definition) × (get defs scheme ≡ some d)
all_known r (inl e) scheme m = elim (rw e at m) [
  | inl k ↦ (secret_query, rw k secret_is_known)
  | inr n ↦ absurd n
]
all_known r (inr (inl e)) scheme m = elim (rw e at m) [
  | inl k ↦ (id_header, rw k id_is_known)
  | inr n ↦ absurd n
]
all_known r (inr (inr n)) scheme m = absurd n

id_passes : RequirementPasses in_order (handler (shop true)) defs ("id" ∷ [])
id_passes scheme (inl e) = (id_header, rw e id_is_known, λ i. (keys.0 i).0)
id_passes scheme (inr n) = absurd n

eval_security_complete_example :
    ((eval_security in_order (handler (shop true)) defs (some either)).pass ≡ true)
    × ((eval_security in_order (handler (shop true)) defs (some either)).err ≡ none)
eval_security_complete_example =
    eval_security_complete in_order (handler (shop true)) defs (some either) ("id" ∷ []) all_known
      (inr (inl refl)) id_passes

abbrev checked : Bool → Settled
checked active =
    (security_check in_order handler none none
      (λ n. some (("x-ibm-unnamed-rate-limit", "100/1hour") ∷ [])) (candidate active ∷ [])).0

abbrev expected : Match
expected = record {
  candidate = candidate true;
  authenticated = some true;
  no_security_reqs = false;
  client_secret = none;
  rate_limit = some "100/1hour";
  rate_limits = none;
}

choices : (checked true ≡ chosen expected) × (checked false ≡ inactive)
unfolding security_check build_match eval_security eval_apikey get
choices = (refl, refl)

security_check_sound_example :
    Mem (candidate true) (candidate true ∷ [])
    × Fits in_order handler expected
    × (is_inactive expected ≡ false)
    × ((expected.candidate.entry.api_state == "suspended") ≡ false)
security_check_sound_example =
    security_check_sound in_order handler none none
      (λ n. some (("x-ibm-unnamed-rate-limit", "100/1hour") ∷ [])) (candidate true ∷ []) expected
      choices.0

-- ===== src/Matcher/Tests.antt =====
-- Runs of the matcher on a small catalogue, and instances of its theorems.
use microgateway.Common.{
  ℕ, ◌≤◌, String, ◌≡◌, ◌↔◌, refl, Bool, true, none, some, List, [], ◌∷◌, arith, ◌==◌, split, All,
  join,
}
use microgateway.Api.{MethodObj, PathObj, Entry}
use microgateway.Matcher.{
  Current, reached, candidate_of, max_value, request_path, find_matches, api_matcher, narrowed,
  not_found,
}
use microgateway.Matcher.Lowest.{lowest, scored}
use microgateway.Matcher.Selection.{eligible, find_matches_lem, api_matcher-not_found_iff}

abbrev verb : String → MethodObj
verb method = record {
  method = method;
  operation_id = none;
  security_reqs = none;
  security_defs = [];
  rate_limit_scope = "plan";
}

abbrev path_of : String → ℕ → List MethodObj → PathObj
path_of path score methods = record {
  path = path;
  path_regex = path;
  path_methods = methods;
  matching_score = score;
}

abbrev shop : Entry
shop = record {
  id = 0;
  api_name = "shop";
  api_state = "running";
  test_app_cid_sec = true;
  cors = none;
  api_paths =
      path_of "/items" 3 (verb "GET" ∷ verb "POST" ∷ [])
      ∷ path_of "/items" 1 (verb "GET" ∷ [])
      ∷ path_of "/items" 1 (verb "PUT" ∷ [])
      ∷ [];
  plan_id = "gold";
  client_id = some "app";
  client_secret = none;
  subscription_active = true;
  subscription_app_state = some "ACTIVE";
}

-- Regular expressions with no special characters, anchored at both ends.
abbrev plain_test : String → String → Bool
plain_test regex path = regex == path

abbrev get_items : Current
get_items = record { method = "GET"; path = "/items" }

runs :
    (api_matcher plain_test "GET" "/items" (shop ∷ [])
      ≡ narrowed (candidate_of get_items shop (path_of "/items" 1 (verb "GET" ∷ [])) ∷ []))
    × (api_matcher plain_test "GET" "/nothing" (shop ∷ []) ≡ not_found)
    × (api_matcher plain_test "DELETE" "/items" (shop ∷ []) ≡ not_found)
    × (request_path "/a//b/" ≡ "/a//b/")
unfolding api_matcher candidate_of split join
runs = (refl, refl, refl, refl)

preflight :
    (candidate_of
      (record { method = "OPTIONS"; path = "/items" })
      shop
      (path_of "/items" 3 (verb "GET" ∷ verb "POST" ∷ []))).allow_methods
    ≡ "GET,POST,OPTIONS"
unfolding candidate_of join
preflight = refl

find_matches_lem_example :
    find_matches plain_test get_items (shop ∷ [])
    ≡ scored
        (lowest max_value (eligible plain_test get_items (shop ∷ [])))
        (eligible plain_test get_items (shop ∷ []))
find_matches_lem_example = find_matches_lem plain_test get_items (shop ∷ [])

scores :
    All
      (λ c. c.score ≤ max_value)
      (eligible plain_test (record { method = "GET"; path = request_path "/items" }) (shop ∷ []))
unfolding eligible request_path split reached candidate_of max_value
scores = omega arith

api_matcher-not_found_iff_example :
    (api_matcher plain_test "GET" "/items" (shop ∷ []) ≡ not_found) ↔ (
      eligible plain_test (record { method = "GET"; path = request_path "/items" }) (shop ∷ [])
      ≡ [])
api_matcher-not_found_iff_example =
    api_matcher-not_found_iff plain_test "GET" "/items" (shop ∷ []) scores

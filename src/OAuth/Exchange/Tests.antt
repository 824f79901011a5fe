-- ===== src/OAuth/Exchange/Tests.antt =====
-- A provider that answers every code, and instances of the theorems on the exchanges.
use microgateway.Common.{ℕ, String, ◌≡◌, ◌≢◌, refl, Option, none, some, [], ◌∷◌, get}
use microgateway.OAuth.Server.{report}
use microgateway.OAuth.Exchange.{
  str, num, Object, route, token_error, no_refresh, refresh, Issued, Issuing, calls, Message,
  IssueRefresh, IssuePassword, IssueClient, merged_params, token_object, scope_list,
  authorization_code,
}

abbrev quiet : Message
quiet = record { headers = []; body = none }

abbrev shown : Object → String
shown o = "json"

abbrev good : Issued
good = record {
  err = none;
  access_token = some "abc";
  refresh_token = no_refresh;
  params = some (("expires_in", num 3600) ∷ []);
}

abbrev give : ℕ → String → Option String → ℕ → Issuing × ℕ
give client code uri w = (calls good, w)

runs :
    ((authorization_code shown (b' ' ∷ []) 7 give (("code", "x") ∷ []) (0, quiet)).0 ≡ report route)
    × ((authorization_code shown (b' ' ∷ []) 7 give [] (0, quiet)).0
        ≡ report (token_error "Missing required parameter \"code\"" "invalid_request"))
    × (token_object "abc" (refresh "r") good.params
        ≡ ("access_token", str "abc")
          ∷ ("refresh_token", str "r")
          ∷ ("expires_in", num 3600)
          ∷ ("token_type", str "Bearer")
          ∷ [])
    × (scope_list (b' ' ∷ b',' ∷ []) "a,b" ≡ "a" ∷ "b" ∷ [])
unfolding authorization_code token_object scope_list
runs = (refl, refl, refl, refl)

no_access : get (merged_params no_refresh good.params) "access_token" ≡ none
unfolding get
no_access = refl

no_error : good.err ≢ some route
no_error e = cc

abbrev no_scope : IssueRefresh ℕ ℕ
no_scope = IssueRefresh.unscoped (λ client token w. (calls good, w))

abbrev by_password : IssuePassword ℕ ℕ
by_password = IssuePassword.unscoped (λ client username passwd w. (calls good, w))

abbrev by_client : IssueClient ℕ ℕ
by_client = IssueClient.unscoped (λ client w. (calls good, w))

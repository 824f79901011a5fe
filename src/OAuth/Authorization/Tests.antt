-- ===== src/OAuth/Authorization/Tests.antt =====
-- A transaction that a user allows, and instances of the theorems on redirections.
use microgateway.Common.{
  ℕ, ◌≡◌, refl, suc, true, Option, none, some, [], ◌∷◌, get, ◌+s◌, split, split_from,
}
use microgateway.OAuth.Exchange.{Scope, no_scope, in_scopes, Object, scope_list}
use microgateway.OAuth.Authorization.{
  Urls, AzRequest, Transaction, Message, Answer, issues, routed, respond, parse_request,
  code_response, token_response,
}
use microgateway.OAuth.Authorization.Redirects.{
  Redirected, CodeDenied, CodeGranted, TokenDenied, TokenGranted, code_response-Redirected,
  token_response-Redirected,
}

-- the first parameter of a query, after the URI
abbrev urls : Urls
urls = record {
  with_query = λ uri q. elim q [ [] ↦ uri | p ∷ ps ↦ uri +s "?" +s p.0 +s "=" +s p.1 ];
  with_hash = λ uri hash. uri +s "#" +s hash;
  stringify = λ o. "token";
}

abbrev req : AzRequest
req = record {
  client_id = "app";
  redirect_uri = some "https://a.org";
  scope = in_scopes ("read" ∷ []);
  api_id = "7";
  state = none;
}

reads :
    parse_request
      (b' ' ∷ [])
      (λ name.
        get
          (("client_id", "app") ∷ ("redirect_uri", "https://a.org") ∷ ("scope", "read") ∷ [])
          name)
      "7"
    ≡ some req
unfolding parse_request get split split_from scope_list
reads = refl

abbrev txn : Transaction ℕ ℕ
txn = record {
  client = 1;
  user = 2;
  redirect_uri = some "https://a.org";
  allow = true;
  res_scope = no_scope;
  req = some req;
}

abbrev message : Message
message = record { headers = []; status = none; body = none }

abbrev issue_code : Transaction ℕ ℕ → AzRequest → Scope → ℕ → Answer (Unit {0}) × ℕ
issue_code t r scope w = (issues (some "c0de") tt, suc w)

abbrev issue_token : Transaction ℕ ℕ → AzRequest → Scope → ℕ → Answer (Option Object) × ℕ
issue_token t r scope w = (issues (some "t0ken") none, suc w)

code_routed : (code_response urls issue_code txn (0, message)).0 ≡ routed
unfolding code_response respond
code_routed = refl

token_routed : (token_response urls issue_token txn (0, message)).0 ≡ routed
unfolding token_response respond
token_routed = refl

code_response-Redirected_example :
    Redirected
      (CodeDenied urls)
      (CodeGranted urls)
      issue_code
      txn
      0
      (code_response urls issue_code txn (0, message))
code_response-Redirected_example =
    code_response-Redirected urls issue_code txn 0 message code_routed

token_response-Redirected_example :
    Redirected
      (TokenDenied urls)
      (TokenGranted urls)
      issue_token
      txn
      0
      (token_response urls issue_token txn (0, message))
token_response-Redirected_example =
    token_response-Redirected urls issue_token txn 0 message token_routed

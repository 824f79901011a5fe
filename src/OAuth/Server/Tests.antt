-- ===== src/OAuth/Server/Tests.antt =====
-- A server with two exchanges, and instances of the theorems on the registry.
use microgateway.Common.{
  ℕ, ◌+◌, String, ◌≡◌, refl, true, false, ◌||◌, none, some, [], ◌∷◌, all, contains, split, extend,
  not, ◌==◌, if◌then◌else◌,
}
use microgateway.OAuth.UnorderedList.{of_string, equal_to}
use microgateway.OAuth.Server.{
  Server, server, text, response_type, supports, exchange, exchange_type, token, parse, parsed,
  fields, grant, Handler, finished, failed, report, proceed, is_type, on_reply,
}
use microgateway.OAuth.Server.Chain.{then_run, exchange_type-exchange}

-- A handler that counts its calls, and answers 'route'.
abbrev routed : Handler ℕ String
routed n = (report "route", n + 1)

abbrev passing : Handler ℕ String
passing n = (proceed, n + 10)

abbrev blank : Server ℕ String
blank = server

abbrev two : Server ℕ String
two = exchange (exchange blank "*" passing) "password" routed

runs :
    (exchange_type two "password" 0 ≡ (failed "route", 11))
    × (exchange_type two "refresh_token" 0 ≡ (finished, 10))
    × (token (λ t. t) two "refresh_token" 0 ≡ (failed "refresh_token", 10))
unfolding exchange_type exchange token server
runs = (refl, refl, refl)

parses :
    parse
      (grant blank "code"
        (some (λ n. (fields (("clientID", "app") ∷ []), n)))
        none
        (some (text "code")))
      "code"
      0
    ≡ (parsed (("type", "code") ∷ ("clientID", "app") ∷ []), 0)
unfolding parse grant server equal_to of_string split contains extend
parses = refl

abbrev coded : Server ℕ String
coded = response_type blank (text "code")

code_known :
    (contains coded.response_types "code" ≡ true)
    × (supports coded.response_types ("token" ∷ []) ≡ false)
unfolding response_type server contains supports split
code_known = (refl, refl)

exchange_type-exchange_example :
    exchange_type (exchange blank "password" routed) "password" 0
    ≡ then_run (exchange_type blank "password" 0) (λ n.
      if "password" == "*" || "password" == "password"
      then on_reply (λ m. (finished, m)) (routed n)
      else (finished, n))
exchange_type-exchange_example = exchange_type-exchange blank "password" routed "password" 0

nothing_applies :
    all (λ l. not (is_type "implicit" l.type)) (exchange blank "password" routed).exchanges ≡ true
unfolding exchange server
nothing_applies = refl

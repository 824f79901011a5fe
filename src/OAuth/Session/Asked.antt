-- ===== src/OAuth/Session/Asked.antt =====
-- What the authorization middleware puts into a session.
use microgateway.Common.{
  ℕ, String, ◌≡◌, refl, ap, sym, ◌∙◌, true, Option, none, some, List, truthy, Option-cases,
  Bool-cases, inl, inr, eq_iff,
}
use mathlib.Core.Path.{subst}
use microgateway.OAuth.Server.{Server}
use microgateway.OAuth.Helper.{validate_client}
use microgateway.OAuth.Exchange.{value_or_empty}
use microgateway.OAuth.Authorization.{AzRequest, parse_request}
use microgateway.Security.Ldap
use microgateway.Security.Basic.{Services}
use microgateway.OAuth.Session.{
  Client, Txn, Txns, Session, absent, unused, holds, Outcome, failed, Request, Parsed, parsed,
  unparsed, empty, only_type, search_tx_data, create_tx_data, redirect_options, request_options,
  with_tx, for_request, validated, with_client, on_parsed, authorization, unsupported_type, txns_of,
  or_param, redirect_uri_of, param,
}
use microgateway.OAuth.Session.Vetted.{
  Each, put-Each, search_tx_data-Each, IsSound, Sound, Sound-txns_of,
}

truthy-value_or_empty :
    (o : Option String) → truthy o ≡ true → truthy (some (value_or_empty o)) ≡ true
truthy-value_or_empty none h = cc
truthy-value_or_empty (some s) h = h

parse_request-filled :
    (separators : List ℕ) (get_param : String → Option String) (api_id : String) (r : AzRequest)
    → parse_request separators get_param api_id ≡ some r
    → truthy (some r.client_id) ≡ true
unfolding parse_request
parse_request-filled separators get_param api_id r e =
    elim (Bool-cases (truthy (get_param "client_id"))) [
      | inr k ↦ cc (rw (k, parse_request) at e)
      | inl k ↦
          let made = rw (k, parse_request) at e in
          let ids =
            ap
              (λ (o : Option AzRequest). elim o as (λ x. String) [
                | none ↦ ""
                | some x ↦ x.client_id
              ])
              made in
          subst (λ s. truthy (some s) ≡ true) ids (truthy-value_or_empty (get_param "client_id") k)
    ]

or_param-first : (a b : Option String) → truthy a ≡ true → or_param a b ≡ a
unfolding or_param
or_param-first a b h = rw h refl

-- What `_parse` gives where it gives a request: that of a parser, which has a client id.
abbrev pub FromParser : Parsed → Type 0
FromParser (unparsed e) = Unit
FromParser empty = Unit
FromParser (only_type type) = Unit
FromParser (parsed type r) =
    (separators : List ℕ) × (get_param : String → Option String) × (api_id : String)
    × (parse_request separators get_param api_id ≡ some r)

module _ {S E P T L : Type 0} (server : Server S E) (get_app_info : String → Option Client)
    (services : Services P T) (client : Ldap.Client L) (start : L) (uid : String) where
  abbrev IsFine : Txn → Type 0
  IsFine = IsSound server get_app_info services client start

  abbrev Safe : Session → Type 0
  Safe = Sound server get_app_info services client start

  with_tx-Sound :
      (c : Client) (uri : String) (type : Option String) (r : AzRequest) (txns : Txns)
      → get_app_info r.client_id ≡ some c
      → truthy (some uri) ≡ true
      → validate_client server c.redirection_uri (redirect_options uri) ≡ none
      → validate_client server c.redirection_uri (request_options type r) ≡ none
      → Each IsFine txns
      → Each IsFine (with_tx server get_app_info uid c uri type r txns).1
  unfolding with_tx create_tx_data
  with_tx-Sound c uri type r txns known filled fits supported h =
      elim (Option-cases (search_tx_data txns type r)) [
        | inl e ↦
            rw (e, with_tx)
              (put-Each IsFine txns uid _ h
                ((known, (uri, refl, filled, fits), supported), inl (refl, refl)))
        | inr ((id, t), e) ↦
            let (((known', redirected, supported'), login), ids) =
              search_tx_data-Each IsFine txns type r id t h e in
            let same_id : t.req.client_id ≡ r.client_id =
              (eq_iff t.req.client_id r.client_id).0 ids in
            let same_client : some t.client ≡ some c =
              sym known' ∙ ap get_app_info same_id ∙ known in
            let clients : c ≡ t.client = cc same_client in
            let fits' =
              subst
                (λ (x : Client).
                  validate_client server x.redirection_uri (redirect_options uri) ≡ none)
                clients fits in
            rw (e, with_tx)
              (put-Each IsFine txns id (record t { redirect_uri = some uri }) h
                ((known', (uri, refl, filled, fits'), supported'), login))
      ]

  for_request-Sound :
      (c : Client) (uri : String) (type : Option String) (r : AzRequest) (s : Session)
      → get_app_info r.client_id ≡ some c
      → truthy (some uri) ≡ true
      → validate_client server c.redirection_uri (redirect_options uri) ≡ none
      → Safe s
      → Safe (for_request server get_app_info uid c uri type r s).1
  unfolding for_request
  for_request-Sound c uri type r s known filled fits h =
      elim (Option-cases (validate_client server c.redirection_uri (request_options type r))) [
        | inr (e, k) ↦ rw (k, for_request) h
        | inl k ↦
            rw (k, for_request)
              (with_tx-Sound c uri type r (txns_of s) known filled fits k
                (Sound-txns_of server get_app_info services client start s h))
      ]

  -- What is done for a client and a URI keeps sessions sound where these two fit.
  abbrev Keeps : (Client → String → Session → Outcome × Session) → String → Type 0
  Keeps next id =
      (c : Client) (uri : String) (s : Session)
      → get_app_info id ≡ some c
      → truthy (some uri) ≡ true
      → validate_client server c.redirection_uri (redirect_options uri) ≡ none
      → Safe s
      → Safe (next c uri s).1

  validated-Sound :
      (c : Client) (req : Request) (uri : Option String) (id : String)
      (next : Client → String → Session → Outcome × Session) (s : Session)
      → get_app_info id ≡ some c
      → Keeps next id
      → Safe s
      → Safe (validated server get_app_info uid c req uri (next c) s).1
  unfolding validated
  validated-Sound c req uri id next s known keeps h =
      let found = redirect_uri_of server get_app_info uid c req uri in
      elim (Bool-cases (truthy found)) [
        | inr e ↦ rw (e, validated) h
        | inl e ↦
            elim (Option-cases (
              validate_client server c.redirection_uri (redirect_options (value_or_empty found)))) [
                | inr (r, k) ↦ rw (e, validated, k) h
                | inl k ↦
                    rw (e, validated, k)
                      (keeps c (value_or_empty found) s known (truthy-value_or_empty found e) k h)
              ]
      ]

  with_client-Sound :
      (id : Option String) (req : Request) (uri : Option String)
      (next : Client → String → Session → Outcome × Session) (s : Session)
      → Keeps next (value_or_empty id)
      → Safe s
      → Safe (with_client server get_app_info uid id req uri next s).1
  unfolding with_client
  with_client-Sound id req uri next s keeps h = elim (Bool-cases (truthy id)) [
    | inr e ↦ rw (e, with_client) h
    | inl e ↦ elim (Option-cases (get_app_info (value_or_empty id))) [
      | inl k ↦ rw (e, with_client, k) h
      | inr (c, k) ↦
          rw (e, with_client, k) (validated-Sound c req uri (value_or_empty id) next s k keeps h)
    ]
  ]

  on_parsed-Sound :
      (req : Request) (p : Parsed) (s : Session)
      → FromParser p
      → Safe s
      → Safe (on_parsed server get_app_info uid req p s).1
  unfolding on_parsed
  on_parsed-Sound req (unparsed e) s from h = h
  on_parsed-Sound req empty s from h = h
  on_parsed-Sound req (only_type type) s from h =
      with_client-Sound (param req "client_id") req none (λ c uri s1. (failed unsupported_type, s1))
        s (λ c uri s1 known filled fits k. k) h
  on_parsed-Sound req (parsed type r) s (separators, get_param, api_id, from) h =
      let filled = parse_request-filled separators get_param api_id r from in
      rw (or_param-first (some r.client_id) (param req "client_id") filled) (
        with_client-Sound (some r.client_id) req r.redirect_uri
          (λ c uri s1. for_request server get_app_info uid c uri type r s1) s
          (λ c uri s1 known full fits k. for_request-Sound c uri type r s1 known full fits k) h)

  pub authorization-Sound :
      (req : Request) (p : Parsed) (s : Session)
      → FromParser p
      → Safe s
      → Safe (authorization server get_app_info uid req p s).1
  unfolding authorization
  authorization-Sound req p absent from h = tt
  authorization-Sound req p unused from h = on_parsed-Sound req p unused from h
  authorization-Sound req p (holds txns) from h = on_parsed-Sound req p (holds txns) from h

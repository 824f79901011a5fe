-- ===== src/OAuth/Session/Tests.antt =====
-- A session in which a user asks for a code, logs in and consents, and the theorem on it.
use microgateway.Common.{
  ℕ, suc, String, ◌≡◌, ◌⊎◌, refl, true, false, Option, if◌then◌else◌, none, some, List, [], ◌∷◌,
  get, put, join, contains, split, split_from, same,
}
use microgateway.OAuth.Server.{Server, support_scope, support_response_type}
use microgateway.OAuth.Helper.{validate_client}
use microgateway.OAuth.Exchange.{Scope, in_scopes, scope_list}
use microgateway.OAuth.Authorization.{
  Urls, AzRequest, Transaction, Message, Answer, issues, parse_request, code_response, respond,
}
use microgateway.Security.Ldap
use microgateway.Security.Basic.{
  Auth, SecurityDef, Services, text, found, broken, basic_auth, registry_basic_auth,
  ldap_basic_auth, credentials,
}
use microgateway.OAuth.Session.{
  Client, Txn, Session, unused, holds, Request, parsed, param, authorization,
}
use microgateway.OAuth.Session.Decision.{Form, unselected, decision_handlers}
use microgateway.OAuth.Session.Login.{Settings, id_extractor}
use microgateway.OAuth.Session.Steps.{Reached, begins, steps, asks, logs_in}
use microgateway.OAuth.Session.Consent.{answer_with_code, Authentic, decision_handlers-Authentic}

abbrev provider : Server ℕ String
provider = record {
  req_parsers = [];
  res_handlers = [];
  exchanges = [];
  scopes = "read" ∷ "write" ∷ [];
  response_types = "code" ∷ [];
  grant_types = [];
}

abbrev app : Client
app = record { id = "app"; title = "App"; redirection_uri = some "https://app.org" }

abbrev get_app_info : String → Option Client
get_app_info id = get (("app", app) ∷ []) id

-- A directory that lets in whoever has the password.
abbrev directory : Ldap.Client Unit
directory = record {
  bind = λ dn pass s.
      if same pass (some "secret") then (none, s) else (some (record { code = some 49 }), s);
  search = λ q s. (Ldap.ok [], s);
}

abbrev config : Ldap.Config
config = record {
  host = "ldap";
  port = "389";
  ssl = false;
  time_limit = none;
  auth_method = some "composeDN";
  authenticated_bind = false;
  admin_dn = none;
  admin_password = none;
  search_prefix = none;
  search_suffix = none;
  search_base = none;
  search_scope = none;
  bind_prefix = some "uid=";
  bind_suffix = some ",dc=org";
  group_method = none;
  dynamic_filter = none;
  search_filter = none;
  static_prefix = none;
  static_suffix = none;
  static_dn = none;
  static_scope = none;
}

abbrev services : Services Unit Unit
services = record {
  get_tls_profile = λ snapshot name. found [];
  get_registry = λ snapshot name.
      found (record { type = some "ldap"; ldap_config = some config; tls_profile = none } ∷ []);
  configure_tls = λ p. none;
  request = λ o. broken;
  decode = λ token. token;
}

abbrev query : List (String × String)
query = ("client_id", "app") ∷ ("scope", "read write") ∷ []

abbrev areq : AzRequest
areq = record {
  client_id = "app";
  redirect_uri = none;
  scope = in_scopes ("read" ∷ "write" ∷ []);
  api_id = "7";
  state = none;
}

reads : parse_request (b' ' ∷ []) (get query) "7" ≡ some areq
unfolding parse_request get split split_from scope_list
reads = refl

abbrev asked : Txn
asked = record {
  client = app;
  logined = false;
  login_count = 0;
  type = some "code";
  req = areq;
  redirect_uri = some "https://app.org";
  user = none;
  res = none;
}

abbrev request : Request
request = record { query = query; body = [] }

abbrev auth : Auth
auth = record { scheme = "Basic"; token = "ann:secret" }

abbrev def : SecurityDef
def = record { type = "basic"; registry = text "staff"; authentication_url = none }

abbrev settings : Settings
settings = record { is_form = false; has_render = false; retry_count = 0 }

abbrev known : Txn
known = record asked { logined = true; user = some "ann" }

asks_once :
    (authorization provider get_app_info "t1" request (parsed (some "code") areq) unused).1
    ≡ holds (("t1", asked) ∷ [])
unfolding authorization get validate_client support_scope support_response_type contains split
asks_once = refl

lets_in : (id_extractor services directory tt settings "1" def (some auth) asked).1 ≡ known
unfolding id_extractor basic_auth registry_basic_auth ldap_basic_auth credentials split split_from
    Ldap.authenticate
lets_in = refl

abbrev form : Form
form = record {
  resource_owner = some "ann";
  redirect_uri = some "https://app.org";
  scope = some "read write";
  client_id = some "app";
  approve = some "true";
  selected = unselected;
}

abbrev urls : Urls
urls = record { with_query = λ uri q. uri; with_hash = λ uri hash. uri; stringify = λ o. "token" }

abbrev issue : Transaction Client (Option String) → AzRequest → Scope → ℕ → Answer (Unit {0}) × ℕ
issue t r scope w = (issues (some "c0de") tt, suc w)

abbrev message : Message
message = record { headers = []; status = none; body = none }

abbrev world : ℕ × Message
world = (0, message)

abbrev logged_in : Session
logged_in = holds (("t1", known) ∷ [])

abbrev consent_request : Request
consent_request = record { query = []; body = ("dp-state", "t1") ∷ [] }

logged_in-Reached :
    Reached provider get_app_info services directory tt
      (answer_with_code urls issue)
      (logged_in, world)
unfolding put get id_extractor basic_auth registry_basic_auth ldap_basic_auth credentials split
    split_from Ldap.authenticate authorization validate_client support_scope support_response_type
    contains
logged_in-Reached =
    steps _ _
      (steps _ _ (begins world) (
        asks "t1" request (parsed (some "code") areq) unused world
          (b' ' ∷ [], get query, "7", reads)))
      (logs_in settings "1" def (some auth) (("t1", asked) ∷ []) "t1" asked world refl)

gives_a_code :
    (decision_handlers (answer_with_code urls issue) consent_request form logged_in world).1.1.0 ≡ 1
unfolding decision_handlers answer_with_code code_response respond get put join
gives_a_code = refl

decision_handlers-Authentic_example :
    ((decision_handlers (answer_with_code urls issue) consent_request form logged_in world).1.1.0
      ≡ 0)
    ⊎ Authentic urls issue provider get_app_info services directory tt logged_in
        (param consent_request "dp-state")
        form
decision_handlers-Authentic_example =
    decision_handlers-Authentic urls issue provider get_app_info services directory tt logged_in 0
      message consent_request form logged_in-Reached

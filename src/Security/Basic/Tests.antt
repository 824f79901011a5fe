-- ===== src/Security/Basic/Tests.antt =====
-- A registry of the method composeDN with groups, and instances of the theorems on it.
use microgateway.Common.{
  String, ◌≡◌, ◌↔◌, refl, true, false, none, some, [], ◌∷◌, same, split, split_from, if◌then◌else◌,
}
use microgateway.Security.Ldap.{
  Client, Config, User, Method, ok, authenticate, group_auth, parse_group_options,
}
use microgateway.Security.Ldap.Confirmed.{IsNamed, Confirmed, authenticate-Confirmed}
use microgateway.Security.Ldap.Bound.{GroupsAnswer, group_auth-ok_iff}
use microgateway.Security.Basic.{
  Auth, text, SecurityDef, Registry, found, broken, Services, Context, credentials, answered,
  registry_basic_auth, ldap_basic_auth, basic_auth, eval_basic,
}
use microgateway.Security.Basic.Granted.{Backed, eval_basic-Backed}

-- A directory that lets in whoever has the password, and finds nobody.
abbrev directory : Client Unit
directory = record {
  bind = λ dn pass s.
      if same pass (some "secret") then (none, s) else (some (record { code = some 49 }), s);
  search = λ q s. (ok [], s);
}

abbrev config : Config
config = record {
  host = "ldap";
  port = "389";
  ssl = false;
  time_limit = none;
  auth_method = some "composeDN";
  authenticated_bind = false;
  admin_dn = some "cn=admin";
  admin_password = some "secret";
  search_prefix = none;
  search_suffix = none;
  search_base = none;
  search_scope = none;
  bind_prefix = some "uid=";
  bind_suffix = some ",dc=org";
  group_method = some "staticAuth";
  dynamic_filter = none;
  search_filter = none;
  static_prefix = some "(&(member=";
  static_suffix = some "))";
  static_dn = some "ou=staff";
  static_scope = some "sub";
}

abbrev ann : User
ann = record {
  bind_dn = "uid=ann,dc=org";
  bind_credentials = some "secret";
  search_base = some "uid=ann,dc=org";
  filter_prefix = "";
  scope = "";
}

abbrev registry : Registry
registry = record { type = some "ldap"; ldap_config = some config; tls_profile = none }

abbrev services : Services Unit Unit
services = record {
  get_tls_profile = λ snapshot name. found [];
  get_registry = λ snapshot name. found (registry ∷ []);
  configure_tls = λ p. none;
  request = λ o. broken;
  decode = λ token. token;
}

abbrev def : SecurityDef
def = record { type = "basic"; registry = text "staff"; authentication_url = none }

abbrev auth : Auth
auth = record { scheme = "Basic"; token = "ann:secret" }

abbrev ctx : Context
ctx = record { error_code = none; challenge = none }

lets_in : (authenticate directory config "ann" (some "secret") tt).0 ≡ ok tt
unfolding authenticate
lets_in = refl

authenticate-Confirmed_example :
    (name : String) × (m : Method) × (u : User) × (s' : Unit) × (config.auth_method ≡ some name)
    × IsNamed m name
    × Confirmed directory m config "ann" (some "secret") tt s' u
    × GroupsAnswer directory (parse_group_options config u) s'
authenticate-Confirmed_example =
    authenticate-Confirmed directory config "ann" (some "secret") tt lets_in

group_auth-ok_iff_example :
    ((group_auth directory config ann tt).0 ≡ ok tt)
    ↔ GroupsAnswer directory (parse_group_options config ann) tt
group_auth-ok_iff_example = group_auth-ok_iff directory config ann tt

passes : (eval_basic services directory tt "1" def (some auth) ctx).0 ≡ true
unfolding eval_basic basic_auth answered registry_basic_auth ldap_basic_auth credentials split
    split_from authenticate
passes = refl

eval_basic-Backed_example :
    (def.type ≡ "basic")
    × (a : Auth) × (some auth ≡ some a)
    × (a.scheme ≡ "Basic")
    × Backed services directory tt a
eval_basic-Backed_example = eval_basic-Backed services directory tt "1" def (some auth) ctx passes

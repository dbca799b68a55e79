-- ===== src/Tests/Application.antt =====
-- A file with the required settings, and one certificate named by a relative path.
use secarch_tickets.Base.{
  ◌++◌, ◌≡◌, refl, Text, codes, [], ◌∷◌, some, ok, true, false, has_prefix, list_eq, nat_eq, trim,
  is_space, ok-injective,
}
use secarch_tickets.Auth.Settings.{completed, defaults}
use secarch_tickets.App.{Config, Input, Packages, TlsConfig, ProxyConfig, load, db_with, cmdb_with}
use secarch_tickets.App.Loaded.{IsReady, load-IsReady}
use secarch_tickets.Tests.{ascii}
use secarch_tickets.Tests.Settings.{database, raw, prepared, section, parsers, parse_https}

abbrev no_proxies : ProxyConfig
no_proxies = record {
  http_proxy = codes "proxy.example:3128";
  https_proxy = [];
  no_proxy = [];
  cmdb_enabled = false;
}

abbrev input : Input
input = record {
  server = record { environment = codes " QA"; listen_addr = [] };
  tls = record {
    server_cert = [];
    server_key = [];
    client_cert = codes "client.pem";
    client_key = codes "/tls/client.key";
    ca_cert = [];
  };
  db = database;
  cmdb = raw;
  oidc = codes "{}";
  proxy = no_proxies;
}

abbrev packages : Packages
packages = record {
  decode = λ path. ok (some input);
  splits = λ address. true;
  directory = λ path. ok (codes "/etc/tickets");
  is_abs = λ path. has_prefix path (codes "/");
  join_path = λ base path. base ++ (codes "/" ++ path);
  parse_browse = parse_https;
  parse_proxy = λ u. some (codes "http", codes "proxy.example");
  oidc = parsers;
}

abbrev tls : TlsConfig
tls = record {
  server_cert = codes "/d/d1/secarch-tickets/tls/tls.pem";
  server_key = codes "/d/d1/secarch-tickets/tls/tls.key";
  client_cert = codes "/etc/tickets/client.pem";
  client_key = codes "/tls/client.key";
  ca_cert = codes "/etc/pki/ca-trust/source/anchors/katello-server-ca.pem";
}

abbrev loaded : Config
loaded = record {
  server = record { environment = codes "qa"; listen_addr = codes ":8443" };
  tls = tls;
  db = db_with packages tls database;
  cmdb = cmdb_with packages tls prepared;
  oidc = completed section defaults.session_ttl;
  proxy = no_proxies;
}

loaded_run : load packages (codes "app.json") ≡ ok loaded
unfolding load trim is_space
loaded_run = refl

found_abs :
    (path base : Text) → ok (codes "/etc/tickets") ≡ ok base → has_prefix base (codes "/") ≡ true
found_abs path base h = rw (← ok-injective h) refl

joined_abs :
    (base path : Text)
    → has_prefix base (codes "/") ≡ true
    → has_prefix (base ++ (codes "/" ++ path)) (codes "/") ≡ true
joined_abs [] path h = refl
joined_abs (c ∷ base) path h = h

load-IsReady_example : IsReady packages (λ s. refl) found_abs joined_abs loaded
load-IsReady_example =
    load-IsReady packages (λ s. refl) found_abs joined_abs (codes "app.json") loaded loaded_run

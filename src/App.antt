-- ===== src/App.antt =====
-- internal/appconfig/config.go: Load, with the resolver of proxies of internal/httpclient/proxy.go. JSON
-- and the packages net, net/url and path/filepath are parameters.
pub mod Loaded
use Prim.Native.String.{String}
use secarch_tickets.Base.{
  ℕ, ◌++◌, ◌≡◌, Bool, true, false, ◌||◌, ◌&&◌, not, Text, codes, List, [], ◌∷◌, Option, none, some,
  list_eq, nat_eq, ◌==◌, Result, ok, err, failed, wrap_err, ◌>>=◌, if◌then◌else◌, is_empty,
  trim_space, has_prefix, to_lower, CaseTables, require_all,
}
use secarch_tickets.Connection
use secarch_tickets.Cmdb
use secarch_tickets.Auth
use secarch_tickets.Auth.Settings.{Parsers, parse_config}

pub record ServerConfig : Type 0 where
  pub environment : Text
  pub listen_addr : Text

pub record TlsConfig : Type 0 where
  pub server_cert : Text
  pub server_key : Text
  pub client_cert : Text
  pub client_key : Text
  pub ca_cert : Text

-- The embedded httpclient.ProxyConfig, and whether the CMDB is asked through it.
pub record ProxyConfig : Type 0 where
  pub http_proxy : Text
  pub https_proxy : Text
  pub no_proxy : Text
  pub cmdb_enabled : Bool

pub record Config : Type 0 where
  pub server : ServerConfig
  pub tls : TlsConfig
  pub db : Connection.Config
  pub cmdb : Cmdb.Settings.Config
  pub oidc : Auth.Config
  pub proxy : ProxyConfig

-- What the decoder reads of the file; the section oidc is kept as it stands.
pub record Input : Type 0 where
  pub server : ServerConfig
  pub tls : TlsConfig
  pub db : Connection.Config
  pub cmdb : Cmdb.Settings.Config
  pub oidc : Text
  pub proxy : ProxyConfig

pub record Packages : Type 0 where
  -- Opening and decoding the file: none where more than one JSON value stands in it.
  pub decode : Text → Result (Option Input)
  -- Whether net.SplitHostPort accepts an address.
  pub splits : Text → Bool
  -- filepath.Abs(filepath.Dir(path)), filepath.IsAbs and filepath.Join
  pub directory : Text → Result Text
  pub is_abs : Text → Bool
  pub join_path : Text → Text → Text
  -- url.Parse with the scheme and the host of the URL, and with Scheme and Hostname() for a proxy
  pub parse_browse : Text → Option (Text × Text)
  pub parse_proxy : Text → Option (Text × Text)
  pub oidc : Parsers

-- strings.Contains
abbrev pub contains : Text → Text → Bool
contains [] sub = is_empty sub
contains (c ∷ s) sub = has_prefix (c ∷ s) sub || contains s sub

module _ ⦃c : CaseTables⦄ (lib : Packages) where
  abbrev pub is_proxy_scheme : Text → Bool
  is_proxy_scheme s =
      (s == codes "http") || (s == codes "https") || (s == codes "socks5") || (s == codes "socks5h")

  abbrev pub is_proxy_url : Option (Text × Text) → Bool
  is_proxy_url none = false
  is_proxy_url (some (scheme, host)) = not (is_empty host) && is_proxy_scheme scheme

  -- The check of one proxy: no proxy, or a URL, over HTTP where it names no scheme.
  abbrev pub is_proxy : Text → Bool
  is_proxy v =
      let value = trim_space v in
      let full = if contains value (codes "://") then value else codes "http://" ++ value in
      if is_empty value then true else is_proxy_url (lib.parse_proxy full)

  -- Resolver, of which the settings are kept that it hands to the library.
  unfoldable pub resolver : ProxyConfig → Result ProxyConfig
  resolver p =
      require_all
        ((is_proxy p.http_proxy, "proxy.%s must be a valid proxy URL")
          ∷ (is_proxy p.https_proxy, "proxy.%s must be a valid proxy URL")
          ∷ [])
        (record p {
          http_proxy = trim_space p.http_proxy;
          https_proxy = trim_space p.https_proxy;
          no_proxy = trim_space p.no_proxy;
        })

  abbrev pub environment_of : Text → Text
  environment_of v =
      let environment = to_lower (trim_space v) in
      if is_empty environment then codes "qa" else environment

  abbrev pub listen_addr_of : Text → Text
  listen_addr_of v =
      let address = trim_space v in if is_empty address then codes ":8443" else address

  abbrev pub server_of : ServerConfig → ServerConfig
  server_of s = record {
    environment = environment_of s.environment;
    listen_addr = listen_addr_of s.listen_addr;
  }

  abbrev pub server_checks : ServerConfig → List (Bool × String)
  server_checks s =
      (
        (s.environment == codes "qa") || (s.environment == codes "prod"),
        "server.environment must be qa or prod",
      )
      ∷ (
        lib.splits s.listen_addr,
        "server.listen_addr must contain a host and port, for example :8443",
      )
      ∷ []

  -- One path of the loop over the certificates.
  abbrev pub path_of : Text → Text → Text → Text
  path_of base fallback v =
      let path = trim_space v in
      if is_empty path then fallback else if lib.is_abs path then path else lib.join_path base path

  abbrev pub tls_of : Text → Text → TlsConfig → TlsConfig
  tls_of base environment t =
      let client_base = codes "/d/d1/secarch-tickets/tls/itsm_jsm_" ++ environment in
      record {
        server_cert = path_of base (codes "/d/d1/secarch-tickets/tls/tls.pem") t.server_cert;
        server_key = path_of base (codes "/d/d1/secarch-tickets/tls/tls.key") t.server_key;
        client_cert = path_of base (client_base ++ codes ".pem") t.client_cert;
        client_key = path_of base (client_base ++ codes ".key") t.client_key;
        ca_cert =
            path_of base (codes "/etc/pki/ca-trust/source/anchors/katello-server-ca.pem") t.ca_cert;
      }

  abbrev pub single_object : Option Input → Result Input
  single_object none = err (failed "app configuration must contain exactly one JSON object")
  single_object (some input) = ok input

  -- The certificates of the file are those of the database and of the CMDB.
  abbrev pub db_with : TlsConfig → Connection.Config → Connection.Config
  db_with t cfg = record cfg {
    ssl_root_cert = t.ca_cert;
    ssl_cert = t.client_cert;
    ssl_key = t.client_key;
  }

  abbrev pub cmdb_with : TlsConfig → Cmdb.Settings.Config → Cmdb.Settings.Config
  cmdb_with t cfg = record cfg {
    ca_cert_path = t.ca_cert;
    client_cert_path = t.client_cert;
    client_key_path = t.client_key;
  }

  unfoldable pub load : Text → Result Config
  unfolding Connection.prepare_config Cmdb.Settings.prepare_config parse_config resolver
  load path = do
    decoded ← wrap_err "decode app configuration" (lib.decode path)
    input ← single_object decoded
    server ← require_all (server_checks (server_of input.server)) (server_of input.server)
    base ← wrap_err "resolve app configuration directory" (lib.directory path)
    db ← wrap_err "db configuration" (Connection.prepare_config input.db)
    cmdb ← wrap_err "cmdb configuration" (Cmdb.Settings.prepare_config lib.parse_browse input.cmdb)
    oidc ← parse_config lib.oidc input.oidc
    resolved ← resolver input.proxy
    ok (record {
      server = server;
      tls = tls_of base server.environment input.tls;
      db = db_with (tls_of base server.environment input.tls) db;
      cmdb = cmdb_with (tls_of base server.environment input.tls) cmdb;
      oidc = oidc;
      proxy = input.proxy;
    })

-- ===== src/Tests/Settings.antt =====
-- Settings that are accepted, and the connection string of one that needs its quotation marks.
use secarch_tickets.Cmdb.Settings.{prepare_config}
use secarch_tickets.Base.Int.{pos}
use secarch_tickets.Base.{
  ℕ, ◌*◌, ◌^◌, ◌≤◌, ◌<◌, ◌≡◌, refl, Text, codes, [], ◌∷◌, Option, some, none, ok, false, arith,
  trim, is_space,
}
use secarch_tickets.Connection
use secarch_tickets.Connection.Reading.{read_settings}
use secarch_tickets.Connection.Settings.{settings_of, read_settings-connection_string}
use secarch_tickets.Cmdb
use secarch_tickets.Cmdb.Policy.{policy_of-IsSound}
use secarch_tickets.Refresh.{RefreshPolicy}
use secarch_tickets.Refresh.Runs.{IsSound, pause}
use secarch_tickets.Auth
use secarch_tickets.Auth.Settings.{Parsers, defaults, parse_config, completed}

-- A database name with a quotation mark, a backslash and what looks like a setting.
abbrev pub database : Connection.Config
database = record {
  servers = codes "db1.example" ∷ codes "db2.example" ∷ [];
  port = pos 5051;
  db_name = codes "it's \\ host=evil";
  user = codes "tickets";
  ssl_mode = codes "verify-full";
  ssl_cert = codes "/tls/client.pem";
  ssl_key = [];
  ssl_root_cert = [];
  target_session_attrs = codes "read-write";
  max_conns = pos 10;
  connect_timeout_seconds = pos 5;
}

read_settings-connection_string_example :
    read_settings (Connection.connection_string database) ≡ some (settings_of database)
read_settings-connection_string_example = read_settings-connection_string database

abbrev pub parse_https : Text → Option (Text × Text)
parse_https u = some (codes "https", codes "cmdb.example")

abbrev pub raw : Cmdb.Settings.Config
raw = record {
  ticket_api_url = codes "https://cmdb.example/api";
  ticket_browse_url = codes " https://cmdb.example/browse/ ";
  objects_api_url = codes "https://cmdb.example/objects";
  page_size = pos 0;
  object_batch_size = pos 0;
  object_max_concurrency = pos 0;
  http_timeout_seconds = pos 0;
  refresh_success_cooldown_seconds = pos 0;
  refresh_failure_backoff_seconds = pos 0;
  refresh_failure_backoff_multiplier = pos 0;
  refresh_circuit_breaker_threshold = pos 0;
  refresh_circuit_open_seconds = pos 0;
  ca_cert_path = [];
  client_cert_path = [];
  client_key_path = [];
}

abbrev pub prepared : Cmdb.Settings.Config
prepared = record raw {
  ticket_browse_url = codes "https://cmdb.example/browse";
  page_size = pos 100;
  object_batch_size = pos 50;
  object_max_concurrency = pos 2;
  http_timeout_seconds = pos 60;
  refresh_success_cooldown_seconds = pos 5;
  refresh_failure_backoff_seconds = pos 10;
  refresh_failure_backoff_multiplier = pos 2;
  refresh_circuit_breaker_threshold = pos 3;
  refresh_circuit_open_seconds = pos 300;
}

prepared_run : Cmdb.Settings.prepare_config parse_https raw ≡ ok prepared
unfolding prepare_config trim is_space
prepared_run = refl

policy_of-IsSound_example :
    (p : RefreshPolicy) × (Cmdb.Settings.policy_of prepared ≡ some p)
    × (1_000_000_000 ≤ pause p)
    × (0 < p.timeout)
    × (0 < p.ticket_key_batch_size)
    × (((k : ℕ)
          → k < p.circuit_breaker_threshold
          → p.failure_backoff * p.failure_backoff_multiplier ^ k ≤ 2 ^ 53)
        → IsSound p)
policy_of-IsSound_example =
    policy_of-IsSound parse_https raw prepared prepared_run (λ n h. ground arith)
      (λ n h. ground arith) (λ n h. ground arith) (λ n h. ground arith)

-- A section with the required settings alone, over the defaults.
abbrev pub section : Auth.Config
section = record defaults {
  issuer_url = codes "https://login.example";
  client_id = codes "tickets";
  client_secret = codes "secret";
  redirect_url = codes "https://tickets.example/auth/callback";
  session_secret = codes "0123456789abcdef0123456789abcdef";
}

abbrev pub parsers : Parsers
parsers = record {
  decode_switch = λ text. some none;
  decode_file = λ text base. ok (section, []);
  parse_duration = λ text. none;
  parse_url = λ u. some (record {
    scheme = codes "https";
    host = codes "tickets.example";
    has_user = false;
    path = codes "/auth/callback";
    raw_query = [];
    fragment = [];
  });
}

section_run : parse_config parsers (codes "{}") ≡ ok (completed section defaults.session_ttl)
unfolding parse_config trim is_space
section_run = refl

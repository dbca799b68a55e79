-- ===== src/Connection.antt =====
-- internal/db/client.go and types.go: the settings of the PostgreSQL connection, the connection string
-- made of them, and the pool. The driver pgx is a parameter.
pub mod Settings
pub mod Reading
pub mod Values
use Prim.Native.String.{String}
use secarch_tickets.Base.Int.{ℤ, pos, negsuc, default_int}
use secarch_tickets.Base.Floats.{second}
use secarch_tickets.Base.{
  ℕ, zero, suc, ◌+◌, ◌*◌, ◌/◌, ◌%◌, ◌++◌, ◌≡◌, refl, Bool, true, false, ◌&&◌, ◌||◌, not, Text,
  codes, List, [], ◌∷◌, map, nat_eq, list_eq, ◌==◌, ltb, Result, ok, err, failed, wrap_err, ◌>>=◌,
  length, if◌then◌else◌, is_empty, trim_space, contains_char, join, all, require_all, some,
}

pub record Config : Type 0 where
  pub servers : List Text
  pub port : ℤ
  pub db_name : Text
  pub user : Text
  pub ssl_mode : Text
  pub ssl_cert : Text
  pub ssl_key : Text
  pub ssl_root_cert : Text
  pub target_session_attrs : Text
  pub max_conns : ℤ
  pub connect_timeout_seconds : ℤ

abbrev pub int_beq : ℤ → ℕ → Bool
int_beq (pos n) m = n == m
int_beq (negsuc n) m = false

-- Each server is required, and is one server.
abbrev pub server_checks : List Text → List (Bool × String)
server_checks [] = []
server_checks (s ∷ ss) =
    (not (is_empty s), "db_servers[%d] is required")
    ∷ (not (contains_char s b','), "db_servers[%d] must contain exactly one server")
    ∷ server_checks ss

abbrev pub setting_checks : Config → List (Bool × String)
setting_checks cfg =
    (int_beq cfg.port 5051, "db_port must be 5051")
    ∷ (not (is_empty cfg.db_name), "db_name is required")
    ∷ (not (is_empty cfg.user), "db_user is required")
    ∷ (not (is_empty cfg.ssl_mode), "ssl_mode is required")
    ∷ (cfg.ssl_mode == codes "verify-full", "ssl_mode must be verify-full")
    ∷ (not (is_empty cfg.target_session_attrs), "target_session_attrs is required")
    ∷ (cfg.target_session_attrs == codes "read-write", "target_session_attrs must be read-write")
    ∷ []

abbrev pub validate : Config → Result Config
validate cfg =
    require_all
      ((not (is_empty cfg.servers), "db_servers must contain at least one server")
          ∷ server_checks cfg.servers
        ++ setting_checks cfg)
      cfg

-- The defaults of PrepareConfig.
abbrev pub with_defaults : Config → Config
with_defaults cfg = record cfg {
  max_conns = default_int cfg.max_conns 10;
  connect_timeout_seconds = default_int cfg.connect_timeout_seconds 5;
  target_session_attrs =
      if is_empty (trim_space cfg.target_session_attrs)
      then codes "read-write"
      else cfg.target_session_attrs;
  servers = map trim_space cfg.servers;
}

unfoldable pub prepare_config : Config → Result Config
prepare_config cfg = validate (with_defaults cfg)

-- strings.ReplaceAll of one character.
abbrev pub replace_char : ℕ → Text → Text → Text
replace_char c new [] = []
replace_char c new (d ∷ s) =
    let rest = replace_char c new s in if d == c then new ++ rest else d ∷ rest

-- quoteConnStringValue: a backslash before each backslash, then one before each quotation mark.
unfoldable pub quote_value : Text → Text
quote_value v =
    let doubled = replace_char 92 (92 ∷ 92 ∷ []) v in
    39 ∷ (replace_char 39 (92 ∷ 39 ∷ []) doubled ++ (39 ∷ []))

-- %d; the number itself is enough fuel for its digits.
abbrev pub digits : ℕ → ℕ → Text
digits zero n = (48 + n % 10) ∷ []
digits (suc fuel) n =
    let front = digits fuel (n / 10) in
    if ltb n 10 then (48 + n) ∷ [] else front ++ ((48 + n % 10) ∷ [])

unfoldable pub format_int : ℤ → Text
format_int (pos n) = digits n n
format_int (negsuc n) = 45 ∷ digits (suc n) (suc n)

-- The certificates are given only where they are set.
abbrev pub optional_param : String → Text → List Text
optional_param key value = if is_empty value then [] else (codes key ++ quote_value value) ∷ []

unfoldable pub build_params : Config → List Text
unfolding quote_value format_int
build_params cfg =
    (codes "host=" ++ quote_value (join cfg.servers (codes ",")))
      ∷ (codes "port=" ++ format_int cfg.port)
      ∷ (codes "user=" ++ quote_value cfg.user)
      ∷ (codes "dbname=" ++ quote_value cfg.db_name)
      ∷ (codes "sslmode=" ++ quote_value cfg.ssl_mode)
      ∷ (codes "target_session_attrs=" ++ quote_value cfg.target_session_attrs)
      ∷ (codes "connect_timeout=" ++ format_int cfg.connect_timeout_seconds)
      ∷ optional_param "sslcert=" cfg.ssl_cert
    ++ (optional_param "sslkey=" cfg.ssl_key ++ optional_param "sslrootcert=" cfg.ssl_root_cert)

unfoldable pub connection_string : Config → Text
unfolding build_params
connection_string cfg = join (build_params cfg) (codes " ")

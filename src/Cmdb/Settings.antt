-- ===== src/Cmdb/Settings.antt =====
-- internal/cmdb/client.go and types.go: the settings of the CMDB client and the durations they stand
-- for; with them the refresh policy that Run of web/server.go makes of them. url.Parse is a parameter.
use Prim.Native.String.{String}
use secarch_tickets.Base.Int.{ℤ, pos, negsuc, negative, default_int, seconds, natural, wrap64-fits}
use secarch_tickets.Base.{
  ℕ, zero, suc, ◌*◌, ◌≤◌, ◌<◌, ◌≡◌, refl, Bool, false, ◌&&◌, not, Text, codes, List, [], ◌∷◌,
  Option, none, some, nat_eq, list_eq, ◌==◌, Result, ok, require_all, require_all-ok, if◌then◌else◌,
  is_empty, trim_space, trim_right, arith,
}
use secarch_tickets.Refresh.{RefreshPolicy}

pub record Config : Type 0 where
  pub ticket_api_url : Text
  pub ticket_browse_url : Text
  pub objects_api_url : Text
  pub page_size : ℤ
  pub object_batch_size : ℤ
  pub object_max_concurrency : ℤ
  pub http_timeout_seconds : ℤ
  pub refresh_success_cooldown_seconds : ℤ
  pub refresh_failure_backoff_seconds : ℤ
  pub refresh_failure_backoff_multiplier : ℤ
  pub refresh_circuit_breaker_threshold : ℤ
  pub refresh_circuit_open_seconds : ℤ
  pub ca_cert_path : Text
  pub client_cert_path : Text
  pub client_key_path : Text

-- strings.TrimRight(strings.TrimSpace(u), "/")
unfoldable pub browse_url : Text → Text
unfolding trim_right
browse_url u = trim_right (λ c. c == b'/') (trim_space u)

-- The scheme and the host of a parsed URL; both are empty where it has none.
abbrev pub is_https : Option (Text × Text) → Bool
is_https none = false
is_https (some (scheme, host)) = (scheme == codes "https") && not (is_empty host)

abbrev is_zero : ℤ → Bool
is_zero (pos n) = n == 0
is_zero (negsuc n) = false

unfoldable pub with_defaults : Config → Config
unfolding browse_url
with_defaults cfg = record cfg {
  ticket_browse_url = browse_url cfg.ticket_browse_url;
  page_size = default_int cfg.page_size 100;
  object_batch_size = default_int cfg.object_batch_size 50;
  object_max_concurrency = default_int cfg.object_max_concurrency 2;
  http_timeout_seconds = default_int cfg.http_timeout_seconds 60;
  refresh_success_cooldown_seconds =
      if is_zero cfg.refresh_success_cooldown_seconds
      then pos 5
      else cfg.refresh_success_cooldown_seconds;
  refresh_failure_backoff_seconds = default_int cfg.refresh_failure_backoff_seconds 10;
  refresh_failure_backoff_multiplier = default_int cfg.refresh_failure_backoff_multiplier 2;
  refresh_circuit_breaker_threshold = default_int cfg.refresh_circuit_breaker_threshold 3;
  refresh_circuit_open_seconds = default_int cfg.refresh_circuit_open_seconds 300;
}

module _ (parse_url : Text → Option (Text × Text)) where
  abbrev pub checks : Config → List (Bool × String)
  checks cfg =
      (not (is_empty cfg.ticket_api_url), "ticket_api_url is empty")
      ∷ (not (is_empty cfg.ticket_browse_url), "ticket_browse_url is empty")
      ∷ (
        is_https (parse_url cfg.ticket_browse_url),
        "ticket_browse_url must be an absolute HTTPS URL",
      )
      ∷ (not (is_empty cfg.objects_api_url), "objects_api_url is empty")
      ∷ (
        not (negative cfg.refresh_success_cooldown_seconds),
        "refresh_success_cooldown_seconds cannot be negative",
      )
      ∷ []

  -- PrepareConfig; a default does not change what is checked after it.
  unfoldable pub prepare_config : Config → Result Config
  unfolding with_defaults
  prepare_config cfg = require_all (checks (with_defaults cfg)) (with_defaults cfg)

abbrev pub http_timeout : Config → ℤ
http_timeout cfg = seconds cfg.http_timeout_seconds

abbrev pub refresh_success_cooldown : Config → ℤ
refresh_success_cooldown cfg = seconds cfg.refresh_success_cooldown_seconds

abbrev pub refresh_failure_backoff : Config → ℤ
refresh_failure_backoff cfg = seconds cfg.refresh_failure_backoff_seconds

abbrev pub refresh_circuit_open_duration : Config → ℤ
refresh_circuit_open_duration cfg = seconds cfg.refresh_circuit_open_seconds

infixl 5 ◌>>=◌
abbrev ◌>>=◌ : {A B : Type 0} → Option A → (A → Option B) → Option B
none >>= next = none
some a >>= next = next a

-- The policy of NewTicketService in Run, with the batch size that it replaces if it is not positive.
-- It is none where a number is negative, which of a prepared configuration only the overflow of a
-- duration of more than 292 years is.
unfoldable pub policy_of : Config → Option RefreshPolicy
policy_of cfg = do
  timeout ← natural (http_timeout cfg)
  cooldown ← natural (refresh_success_cooldown cfg)
  backoff ← natural (refresh_failure_backoff cfg)
  multiplier ← natural cfg.refresh_failure_backoff_multiplier
  threshold ← natural cfg.refresh_circuit_breaker_threshold
  opened ← natural (refresh_circuit_open_duration cfg)
  size ← natural (default_int cfg.object_batch_size 50)
  some (record {
    timeout = timeout;
    success_cooldown = cooldown;
    failure_backoff = backoff;
    failure_backoff_multiplier = multiplier;
    circuit_breaker_threshold = threshold;
    circuit_open_duration = opened;
    ticket_key_batch_size = size;
  })

-- A positive number, or a number of seconds, that has a duration in 64 bits.
pub record IsNumber (i : ℤ) : Type 0 where
  pub number : ℕ
  pub is_pos : i ≡ pos number
  pub positive : 0 < number

abbrev pub IsRepresentable : ℤ → Type 0
IsRepresentable i = (n : ℕ) → i ≡ pos n → n ≤ 9_223_372_036

-- The numbers that PrepareConfig leaves.
pub record IsPrepared (cfg : Config) : Type 0 where
  pub http_timeout : IsNumber cfg.http_timeout_seconds
  pub success_cooldown : IsNumber cfg.refresh_success_cooldown_seconds
  pub failure_backoff : IsNumber cfg.refresh_failure_backoff_seconds
  pub multiplier : IsNumber cfg.refresh_failure_backoff_multiplier
  pub threshold : IsNumber cfg.refresh_circuit_breaker_threshold
  pub circuit_open : IsNumber cfg.refresh_circuit_open_seconds
  pub batch_size : IsNumber cfg.object_batch_size
  pub page_size : IsNumber cfg.page_size
  pub max_concurrency : IsNumber cfg.object_max_concurrency

default_int-IsNumber : (i : ℤ) (n : ℕ) → 0 < n → IsNumber (default_int i n)
default_int-IsNumber (pos zero) n h = record { number = n; is_pos = refl; positive = h }
default_int-IsNumber (pos (suc m)) n h = record {
  number = suc m;
  is_pos = refl;
  positive = omega arith;
}
default_int-IsNumber (negsuc m) n h = record { number = n; is_pos = refl; positive = h }

cooldown-IsNumber :
    (i : ℤ)
    → negative (if is_zero i then pos 5 else i) ≡ false
    → IsNumber (if is_zero i then pos 5 else i)
cooldown-IsNumber (pos zero) h = record { number = 5; is_pos = refl; positive = omega arith }
cooldown-IsNumber (pos (suc m)) h = record {
  number = suc m;
  is_pos = ground arith;
  positive = omega arith;
}
cooldown-IsNumber (negsuc m) h = absurd (ground arith)

pub seconds-IsNumber :
    (i : ℤ) (k : IsNumber i) → IsRepresentable i → seconds i ≡ pos (k.number * 1_000_000_000)
seconds-IsNumber i k fits =
    let n = k.number in
    let small = fits n k.is_pos in rw k.is_pos (wrap64-fits (n * 1_000_000_000) (omega arith))

module _ (parse_url : Text → Option (Text × Text)) where
  pub prepare_config-IsPrepared :
      (raw cfg : Config) → prepare_config parse_url raw ≡ ok cfg → IsPrepared cfg
  unfolding prepare_config
  prepare_config-IsPrepared raw cfg h =
      let (same, (_, (_, (_, (_, (cooled, _)))))) =
        require_all-ok (checks parse_url (with_defaults raw)) (with_defaults raw) cfg h in
      rw same (record {
        http_timeout = default_int-IsNumber raw.http_timeout_seconds 60 (omega arith);
        success_cooldown = cooldown-IsNumber raw.refresh_success_cooldown_seconds (ground arith);
        failure_backoff = default_int-IsNumber raw.refresh_failure_backoff_seconds 10 (omega arith);
        multiplier = default_int-IsNumber raw.refresh_failure_backoff_multiplier 2 (omega arith);
        threshold = default_int-IsNumber raw.refresh_circuit_breaker_threshold 3 (omega arith);
        circuit_open = default_int-IsNumber raw.refresh_circuit_open_seconds 300 (omega arith);
        batch_size = default_int-IsNumber raw.object_batch_size 50 (omega arith);
        page_size = default_int-IsNumber raw.page_size 100 (omega arith);
        max_concurrency = default_int-IsNumber raw.object_max_concurrency 2 (omega arith);
      })

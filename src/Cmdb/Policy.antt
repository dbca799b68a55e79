-- ===== src/Cmdb/Policy.antt =====
-- The refresh policy that a prepared configuration of internal/cmdb yields is one that the refresh
-- control can work with.
use secarch_tickets.Base.Int.{ℤ, pos, default_int}
use secarch_tickets.Base.{ℕ, ◌*◌, ◌^◌, ◌≤◌, ◌<◌, ◌≡◌, refl, Text, Option, some, ok, arith}
use secarch_tickets.Refresh.{RefreshPolicy}
use secarch_tickets.Refresh.Runs.{IsSound, pause}
use secarch_tickets.Cmdb.Settings.{
  Config, policy_of, prepare_config, IsNumber, IsPrepared, IsRepresentable, seconds-IsNumber,
  prepare_config-IsPrepared,
}

abbrev policy_from : (cfg : Config) → IsPrepared cfg → RefreshPolicy
policy_from cfg q = record {
  timeout = q.http_timeout.number * 1_000_000_000;
  success_cooldown = q.success_cooldown.number * 1_000_000_000;
  failure_backoff = q.failure_backoff.number * 1_000_000_000;
  failure_backoff_multiplier = q.multiplier.number;
  circuit_breaker_threshold = q.threshold.number;
  circuit_open_duration = q.circuit_open.number * 1_000_000_000;
  ticket_key_batch_size = q.batch_size.number;
}

default_int-positive : (i : ℤ) (k : IsNumber i) (n : ℕ) → default_int i n ≡ pos k.number
default_int-positive i k n = let positive = k.positive in rw k.is_pos (ground arith)

module _ (parse_url : Text → Option (Text × Text)) (raw cfg : Config)
    (prepared : prepare_config parse_url raw ≡ ok cfg)
    (timeout_fits : IsRepresentable cfg.http_timeout_seconds)
    (cooldown_fits : IsRepresentable cfg.refresh_success_cooldown_seconds)
    (backoff_fits : IsRepresentable cfg.refresh_failure_backoff_seconds)
    (open_fits : IsRepresentable cfg.refresh_circuit_open_seconds) where
  policy_of-policy_from : (q : IsPrepared cfg) → policy_of cfg ≡ some (policy_from cfg q)
  unfolding policy_of
  policy_of-policy_from q =
      rw (seconds-IsNumber cfg.http_timeout_seconds q.http_timeout timeout_fits) (
        rw (seconds-IsNumber cfg.refresh_success_cooldown_seconds q.success_cooldown cooldown_fits)
          (rw (seconds-IsNumber cfg.refresh_failure_backoff_seconds q.failure_backoff backoff_fits)
            (rw q.multiplier.is_pos (
              rw q.threshold.is_pos (
                rw (seconds-IsNumber cfg.refresh_circuit_open_seconds q.circuit_open open_fits)
                  (rw (default_int-positive cfg.object_batch_size q.batch_size 50) refl))))))

  -- The policy made of a configuration that was prepared, whose durations fit in 64 bits, exists, waits
  -- for at least a second between two synchronizations, gives each a positive timeout and batches of
  -- at least one ticket, and is sound for the refresh control if the delays below the threshold are
  -- exact.
  pub policy_of-IsSound :
      (p : RefreshPolicy) × (policy_of cfg ≡ some p)
      × (1_000_000_000 ≤ pause p)
      × (0 < p.timeout)
      × (0 < p.ticket_key_batch_size)
      × (((k : ℕ)
            → k < p.circuit_breaker_threshold
            → p.failure_backoff * p.failure_backoff_multiplier ^ k ≤ 2 ^ 53)
          → IsSound p)
  policy_of-IsSound =
      let q = prepare_config-IsPrepared parse_url raw cfg prepared in
      let h1 = q.http_timeout.positive in
      let h2 = q.success_cooldown.positive in
      let h3 = q.failure_backoff.positive in
      let h4 = q.circuit_open.positive in
      (
        policy_from cfg q,
        policy_of-policy_from q,
        omega arith,
        omega arith,
        q.batch_size.positive,
        λ exact. record {
          threshold = q.threshold.positive;
          multiplier = q.multiplier.positive;
          representable = exact;
        },
      )

-- ===== src/Tests/Control.antt =====
-- The refresh control on a policy with three failures to the circuit.
use secarch_tickets.Base.{
  ℕ, zero, suc, ◌+◌, ◌-◌, ◌*◌, ◌^◌, ◌≤◌, ◌<◌, ◌≡◌, ◌↔◌, refl, arith, some, [], ◌∷◌, true, false,
  ltb, if◌then◌else◌, length, Result, err, failed,
}
use secarch_tickets.Base.Floats.{second}
use secarch_tickets.Refresh.{
  Time, RefreshPolicy, Coordinator, initial, circuit_open, cooldown, bootstrap_done,
  record_refresh_success, record_refresh_failure, reject_refresh, refresh_open_tickets_once,
  record_outcome, sync_status,
}
use secarch_tickets.Refresh.Invariant.{IsConsistent}
use secarch_tickets.Refresh.Waiting.{deadline, sync_status_ready_iff}
use secarch_tickets.Refresh.Runs.{IsSound, booted, pause, deadline-failure, attempt_spaced}
use secarch_tickets.Refresh.Circuit.{fail_at, opens_at_threshold, retry_after_exact}
use secarch_tickets.Tests.{exact}

abbrev pub policy : RefreshPolicy
policy = record {
  timeout = 20 * second;
  success_cooldown = 60 * second;
  failure_backoff = 30 * second;
  failure_backoff_multiplier = 2;
  circuit_breaker_threshold = 3;
  circuit_open_duration = 300 * second;
  ticket_key_batch_size = 50;
}

policy-IsSound : IsSound policy
policy-IsSound = record { threshold = omega arith; multiplier = omega arith; representable = small }
  where
    small : (k : ℕ) → k < 3 → 30 * second * 2 ^ k ≤ 2 ^ 53
    small zero h = omega arith
    small (suc zero) h = omega arith
    small (suc (suc zero)) h = omega arith
    small (suc (suc (suc k))) h = absurd (omega arith)

-- The world is a clock that gains ten seconds each time it is read.
abbrev pub clock : ℕ → Time × ℕ
clock w = (second * (w + 1), w + 10)

abbrev pub down : ℕ → Result ℕ × ℕ
down w = (err (failed "CMDB is down"), w)

abbrev pub boot : Coordinator
boot = record {
  last_success_at = some second;
  next_allowed_at = 61 * second;
  circuit_open_until = 0;
  consecutive_failures = 0;
  status = cooldown;
}

boot-IsConsistent : IsConsistent policy boot
boot-IsConsistent = ground arith

abbrev tripped : Coordinator
tripped = record {
  last_success_at = some second;
  next_allowed_at = 0;
  circuit_open_until = 400 * second;
  consecutive_failures = 3;
  status = circuit_open;
}

tripped-IsConsistent : IsConsistent policy tripped
tripped-IsConsistent = ground arith

once :
    (refresh_open_tickets_once clock down policy
      (bootstrap_done policy initial second)
      100).0.0.attempted
    ≡ true
unfolding refresh_open_tickets_once bootstrap_done reject_refresh record_outcome
    record_refresh_failure
once = refl

attempt_spaced_example : second + pause policy ≤ 101 * second
attempt_spaced_example =
    attempt_spaced clock down policy policy-IsSound (λ w. omega arith) 100 (booted second) once

opens_at_threshold_example :
    (((fail_at policy (70 ∷ 80 ∷ 90 ∷ []) (record_refresh_success policy boot 60 4).1).status
        ≡ circuit_open)
      ↔ (3 ≤ length {A = ℕ} (70 ∷ 80 ∷ 90 ∷ [])))
    × ((fail_at policy
          (70 ∷ 80 ∷ 90 ∷ [])
          (record_refresh_success policy boot 60 4).1).consecutive_failures
        ≡ length {A = ℕ} (70 ∷ 80 ∷ 90 ∷ []))
opens_at_threshold_example = opens_at_threshold policy boot 60 4 (70 ∷ 80 ∷ 90 ∷ []) (omega arith)

deadline-failure_example :
    deadline (record_refresh_failure policy boot (100 * second)).1
    ≡ 100 * second + (if ltb 1 3 then 30 * second * 2 ^ 0 else 300 * second)
deadline-failure_example =
    deadline-failure policy policy-IsSound boot (100 * second) boot-IsConsistent (omega arith)

sync_status_ready_iff_example :
    ((sync_status boot (2 * second)).0.retry_after_seconds ≡ 0)
    ↔ ((reject_refresh boot (2 * second)).1 ≡ false)
sync_status_ready_iff_example =
    sync_status_ready_iff policy boot (2 * second) boot-IsConsistent (λ h. absurd (omega arith))

rejected : (reject_refresh boot (2 * second)).1 ≡ true
unfolding reject_refresh
rejected = refl

retry_after_exact_example :
    let wait = (reject_refresh boot (2 * second)).0.sync.retry_after_seconds in
    ((reject_refresh (reject_refresh boot (2 * second)).2 (2 * second + wait * second)).1 ≡ false)
    × ((reject_refresh (reject_refresh boot (2 * second)).2 (2 * second + (wait - 1) * second)).1
        ≡ true)
retry_after_exact_example =
    retry_after_exact policy boot (2 * second) boot-IsConsistent (omega arith) rejected

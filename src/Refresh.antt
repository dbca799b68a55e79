-- ===== src/Refresh.antt =====
-- The refresh control of internal/secarch/ticket_sync.go: cooldown, backoff and circuit breaker.
-- Instants are nanoseconds since Go's zero time, so that 0 is the zero time; the mutex makes each
-- function here one step.
pub mod Invariant
pub mod Waiting
pub mod Runs
pub mod Circuit
pub mod Flight
use secarch_tickets.Base.{
  ℕ, zero, suc, ◌+◌, ◌-◌, ◌≡◌, Bool, true, false, Option, none, some, ◌!=◌, nat_eq, ltb, leb,
  if◌then◌else◌, Error, sentinel, err_refresh_rejected, Result, ok, err, not, ◌&&◌, ◌||◌,
}
use secarch_tickets.Base.Int.{ℤ, add_duration}
use secarch_tickets.Base.Floats.{Floats}

abbrev pub Time : Type 0
Time = ℕ

-- The values of the status string; `unset` is the empty string.
pub data Status : Type 0 where
  unset ready cooldown backoff circuit_open half_open : Status

pub record RefreshPolicy : Type 0 where
  pub timeout : ℕ
  pub success_cooldown : ℕ
  pub failure_backoff : ℕ
  pub failure_backoff_multiplier : ℕ
  pub circuit_breaker_threshold : ℕ
  pub circuit_open_duration : ℕ
  pub ticket_key_batch_size : ℕ

pub record SyncStatus : Type 0 where
  pub status : Status
  pub last_success_at : Option Time
  pub consecutive_failures : ℕ
  pub retry_after_seconds : ℕ

pub record RefreshResult : Type 0 where
  pub sync : SyncStatus
  pub attempted : Bool
  pub updated_count : ℕ

pub record Coordinator : Type 0 where
  pub last_success_at : Option Time
  pub next_allowed_at : Time
  pub circuit_open_until : Time
  pub consecutive_failures : ℕ
  pub status : Status

-- The zero value of refreshCoordinator.
abbrev pub initial : Coordinator
initial = record {
  last_success_at = none;
  next_allowed_at = 0;
  circuit_open_until = 0;
  consecutive_failures = 0;
  status = unset;
}

-- RefreshResult{}
abbrev pub no_result : RefreshResult
no_result = record {
  sync = record {
    status = unset;
    last_success_at = none;
    consecutive_failures = 0;
    retry_after_seconds = 0;
  };
  attempted = false;
  updated_count = 0;
}

abbrev pub default_status : Status → Status
default_status unset = ready
default_status s = s

abbrev pub is_circuit_open : Status → Bool
is_circuit_open circuit_open = true
is_circuit_open s = false

-- status == "cooldown" || status == "backoff"
abbrev pub is_waiting : Status → Bool
is_waiting cooldown = true
is_waiting backoff = true
is_waiting s = false

-- SyncStatus() first replaces a status whose time has run out, in two steps.
unfoldable pub expire_circuit : Coordinator → Time → Coordinator
expire_circuit c now =
    if is_circuit_open c.status && not (ltb now c.circuit_open_until)
    then record c { status = half_open }
    else c

unfoldable pub expire_waiting : Coordinator → Time → Coordinator
expire_waiting c now =
    if is_waiting c.status && not (ltb now c.next_allowed_at)
    then record c { status = ready }
    else c

module _ ⦃f : Floats⦄ where
  unfoldable pub sync_status_locked : Coordinator → Time → SyncStatus
  sync_status_locked c now =
      let retry_at = if is_circuit_open c.status then c.circuit_open_until else c.next_allowed_at in
      record {
        status = default_status c.status;
        last_success_at = c.last_success_at;
        consecutive_failures = c.consecutive_failures;
        retry_after_seconds = if ltb now retry_at then f.ceil_seconds (retry_at - now) else 0;
      }

  -- The result, whether the refresh is rejected, and the state after.
  unfoldable pub reject_refresh : Coordinator → Time → RefreshResult × Bool × Coordinator
  unfolding sync_status_locked
  reject_refresh c now =
      let opened = record c { status = circuit_open } in
      let probing = record c { status = half_open } in
      let waiting = record c {
        status = if ltb 0 c.consecutive_failures then backoff else cooldown;
      } in
      if c.circuit_open_until != 0
      then (if ltb now c.circuit_open_until
          then (record no_result { sync = sync_status_locked opened now }, true, opened)
          else (no_result, false, probing))
      else if ltb now c.next_allowed_at
      then (record no_result { sync = sync_status_locked waiting now }, true, waiting)
      else (no_result, false, c)

  unfoldable pub record_refresh_success :
      RefreshPolicy → Coordinator → Time → ℕ → RefreshResult × Coordinator
  unfolding sync_status_locked
  record_refresh_success p c now updated =
      let c' : Coordinator = record {
        last_success_at = some now;
        next_allowed_at = now + p.success_cooldown;
        circuit_open_until = 0;
        consecutive_failures = 0;
        status = cooldown;
      } in
      (record { sync = sync_status_locked c' now; attempted = true; updated_count = updated }, c')

  unfoldable pub record_refresh_failure :
      RefreshPolicy → Coordinator → Time → RefreshResult × Coordinator
  unfolding sync_status_locked
  record_refresh_failure p c now =
      let failures = c.consecutive_failures + 1 in
      let tripped = record c {
        consecutive_failures = failures;
        status = circuit_open;
        circuit_open_until = now + p.circuit_open_duration;
        next_allowed_at = 0;
      } in
      let delayed = record c {
        consecutive_failures = failures;
        status = backoff;
        next_allowed_at =
            add_duration now
              (f.scaled p.failure_backoff p.failure_backoff_multiplier (failures - 1));
      } in
      let c' = if leb p.circuit_breaker_threshold failures then tripped else delayed in
      (record { sync = sync_status_locked c' now; attempted = true; updated_count = 0 }, c')

  unfoldable pub sync_status : Coordinator → Time → SyncStatus × Coordinator
  unfolding sync_status_locked expire_circuit expire_waiting
  sync_status c now =
      let c' = expire_waiting (expire_circuit c now) now in (sync_status_locked c' now, c')

-- What Bootstrap sets after a synchronization that succeeded.
unfoldable pub bootstrap_done : RefreshPolicy → Coordinator → Time → Coordinator
bootstrap_done p c now = record c {
  last_success_at = some now;
  next_allowed_at = now + p.success_cooldown;
  consecutive_failures = 0;
  status = cooldown;
}

-- The service's clock and synchronization, over the rest of the world.
module _ ⦃f : Floats⦄ {W : Type 0} (clock : W → Time × W) (sync : W → Result ℕ × W)
    (p : RefreshPolicy) where
  -- What follows the synchronization: the clock is read again, and the outcome recorded.
  unfoldable pub record_outcome :
      Result ℕ → Coordinator → W → (RefreshResult × Option Error) × (Coordinator × W)
  record_outcome (err e) c w =
      let (completed_at, w') = clock w in
      let (result, c') = record_refresh_failure p c completed_at in ((result, some e), (c', w'))
  record_outcome (ok updated) c w =
      let (completed_at, w') = clock w in
      let (result, c') = record_refresh_success p c completed_at updated in
      ((result, none), (c', w'))

  unfoldable pub refresh_open_tickets_once :
      Coordinator → W → (RefreshResult × Option Error) × (Coordinator × W)
  refresh_open_tickets_once c w =
      let (now, w1) = clock w in
      let (result, rejected, c1) = reject_refresh c now in
      if rejected
      then ((result, some (sentinel err_refresh_rejected)), (c1, w1))
      else (let (outcome, w2) = sync w1 in record_outcome outcome c1 w2)

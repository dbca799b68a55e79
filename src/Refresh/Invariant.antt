-- ===== src/Refresh/Invariant.antt =====
-- The well-formedness of the refresh control, kept by each of its operations.
use secarch_tickets.Base.{ℕ, ◌≤◌, ◌<◌, ◌≡◌, arith, nat_eq}
use secarch_tickets.Base.Floats.{Floats}
use secarch_tickets.Refresh.{
  Time, circuit_open, half_open, RefreshPolicy, Coordinator, initial, reject_refresh,
  record_refresh_success, record_refresh_failure, sync_status, bootstrap_done,
}

-- A circuit that was opened has seen as many failures as the threshold and no other deadline; a
-- closed one has seen fewer. A status that speaks of the circuit is shown only while it is open.
pub record IsConsistent (p : RefreshPolicy) (c : Coordinator) : Type 0 where
  pub tripped :
      0 < c.circuit_open_until
      → (p.circuit_breaker_threshold ≤ c.consecutive_failures) × (c.next_allowed_at ≡ 0)
  pub closed : c.circuit_open_until ≡ 0 → c.consecutive_failures < p.circuit_breaker_threshold
  pub open_status : c.status ≡ circuit_open → 0 < c.circuit_open_until
  pub probe_status : c.status ≡ half_open → 0 < c.circuit_open_until

module _ (p : RefreshPolicy) (threshold : 0 < p.circuit_breaker_threshold) where
  pub IsConsistent-initial : IsConsistent p initial
  IsConsistent-initial = ground arith

  pub bootstrap_done-IsConsistent : (now : Time) → IsConsistent p (bootstrap_done p initial now)
  unfolding bootstrap_done
  bootstrap_done-IsConsistent now = ground arith

module _ ⦃f : Floats⦄ (p : RefreshPolicy) where
  pub reject_refresh-IsConsistent :
      (c : Coordinator) (now : Time) → IsConsistent p c → IsConsistent p (reject_refresh c now).2
  unfolding reject_refresh
  reject_refresh-IsConsistent c now h = ground arith

  pub sync_status-IsConsistent :
      (c : Coordinator) (now : Time) → IsConsistent p c → IsConsistent p (sync_status c now).1
  unfolding sync_status
  sync_status-IsConsistent c now h = ground arith

  pub record_refresh_success-IsConsistent :
      (c : Coordinator) (now : Time) (updated : ℕ)
      → 0 < p.circuit_breaker_threshold
      → IsConsistent p (record_refresh_success p c now updated).1
  unfolding record_refresh_success
  record_refresh_success-IsConsistent c now updated t = ground arith

  pub record_refresh_failure-IsConsistent :
      (c : Coordinator) (now : Time)
      → 0 < now
      → IsConsistent p c
      → IsConsistent p (record_refresh_failure p c now).1
  unfolding record_refresh_failure
  record_refresh_failure-IsConsistent c now t h = ground arith

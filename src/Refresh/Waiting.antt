-- ===== src/Refresh/Waiting.antt =====
-- When a refresh is let through, and what a rejected caller is told.
use secarch_tickets.Base.{
  ◌-◌, ◌≤◌, ◌<◌, ◌≡◌, ◌↔◌, true, false, max, arith, nat_eq, ltb, if◌then◌else◌, ◌&&◌,
}
use secarch_tickets.Base.Floats.{Floats}
use secarch_tickets.Refresh.{
  Time, circuit_open, RefreshPolicy, Coordinator, reject_refresh, sync_status, expire_waiting,
  expire_circuit, is_circuit_open, sync_status_locked,
}
use secarch_tickets.Refresh.Invariant.{IsConsistent}

-- The instant from which a refresh is let through.
abbrev pub deadline : Coordinator → Time
deadline c = max c.circuit_open_until c.next_allowed_at

module _ ⦃f : Floats⦄ (p : RefreshPolicy) (c : Coordinator) (now : Time)
    (h : IsConsistent p c) where
  -- In a consistent state a refresh is rejected exactly before the later of the two deadlines.
  pub reject_refresh_iff : ((reject_refresh c now).1 ≡ true) ↔ (now < deadline c)
  unfolding reject_refresh
  reject_refresh_iff = ground arith

  pub deadline-reject_refresh : deadline (reject_refresh c now).2 ≡ deadline c
  unfolding reject_refresh
  deadline-reject_refresh = ground arith

  pub deadline-sync_status : deadline (sync_status c now).1 ≡ deadline c
  unfolding sync_status
  deadline-sync_status = ground arith

  -- A rejected caller is told a positive wait in whole seconds: the one computed from what is left.
  pub retry-reject_refresh :
      (reject_refresh c now).1 ≡ true
      → (reject_refresh c now).0.sync.retry_after_seconds ≡ f.ceil_seconds (deadline c - now)
  unfolding reject_refresh sync_status_locked
  retry-reject_refresh r = ground arith

module _ ⦃f : Floats⦄ (c : Coordinator) (now : Time) where
  retry_zero_iff :
      ((sync_status_locked c now).retry_after_seconds ≡ 0)
      ↔ ((if is_circuit_open c.status then c.circuit_open_until else c.next_allowed_at) ≤ now)
  unfolding sync_status_locked
  retry_zero_iff = ground (
    arith,
    f.ceil_positive (c.circuit_open_until - now),
    f.ceil_positive (c.next_allowed_at - now),
  )

  retry_at-expire :
      (if is_circuit_open (expire_waiting (expire_circuit c now) now).status
        then (expire_waiting (expire_circuit c now) now).circuit_open_until
        else (expire_waiting (expire_circuit c now) now).next_allowed_at)
      ≡ (if is_circuit_open c.status && ltb now c.circuit_open_until
          then c.circuit_open_until
          else c.next_allowed_at)
  unfolding expire_waiting expire_circuit
  retry_at-expire = ground arith

module _ ⦃f : Floats⦄ (p : RefreshPolicy) (c : Coordinator) (now : Time)
    (h : IsConsistent p c) where
  -- What the status endpoint reports is what a refresh at that instant would meet: no wait exactly
  -- if it would be let through, where a status that is open or waiting matches its deadline.
  pub sync_status_ready_iff :
      (now < c.circuit_open_until → c.status ≡ circuit_open)
      → ((sync_status c now).0.retry_after_seconds ≡ 0) ↔ ((reject_refresh c now).1 ≡ false)
  unfolding sync_status
  sync_status_ready_iff k =
      let z =
        rw (retry_at-expire c now) at
          (retry_zero_iff (expire_waiting (expire_circuit c now) now) now) in
      ground (arith, z, reject_refresh_iff p c now h)

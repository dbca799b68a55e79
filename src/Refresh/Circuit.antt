-- ===== src/Refresh/Circuit.antt =====
-- The circuit breaker: how failures open it, what a probe does, and the wait that callers are told.
use secarch_tickets.Base.{
  ℕ, ◌+◌, ◌*◌, ◌^◌, ◌-◌, ◌/◌, ◌≤◌, ◌<◌, ◌≡◌, ◌↔◌, true, false, some, arith, nat_eq, Result, ok, err,
  Error, List, [], ◌∷◌, length, refl,
}
use secarch_tickets.Base.Floats.{Floats, second}
use secarch_tickets.Refresh.{
  Time, circuit_open, RefreshPolicy, Coordinator, reject_refresh, record_refresh_success,
  record_refresh_failure, refresh_open_tickets_once, record_outcome,
}
use secarch_tickets.Refresh.Invariant.{IsConsistent, reject_refresh-IsConsistent}
use secarch_tickets.Refresh.Waiting.{
  deadline, reject_refresh_iff, deadline-reject_refresh, retry-reject_refresh,
}

module _ ⦃f : Floats⦄ (p : RefreshPolicy) where
  -- A row of failed synchronizations, by the instants at which they end.
  pub fail_at : List Time → Coordinator → Coordinator
  fail_at [] c = c
  fail_at (t ∷ ts) c = fail_at ts (record_refresh_failure p c t).1

  failure-status :
      (c : Coordinator) (t : Time)
      → ((record_refresh_failure p c t).1.status ≡ circuit_open)
        ↔ (p.circuit_breaker_threshold ≤ c.consecutive_failures + 1)
  unfolding record_refresh_failure
  failure-status c t = ground arith

  failure-count :
      (c : Coordinator) (t : Time)
      → (record_refresh_failure p c t).1.consecutive_failures ≡ c.consecutive_failures + 1
  unfolding record_refresh_failure
  failure-count c t = ground arith

  fail_at-count :
      (ts : List Time) (c : Coordinator)
      → (fail_at ts c).consecutive_failures ≡ c.consecutive_failures + length ts
  unfolding fail_at
  fail_at-count [] c = omega arith
  fail_at-count (t ∷ ts) c =
      omega (arith, fail_at-count ts (record_refresh_failure p c t).1, failure-count c t)

  fail_at-status :
      (ts : List Time) (c : Coordinator)
      → ((c.status ≡ circuit_open) ↔ (p.circuit_breaker_threshold ≤ c.consecutive_failures))
      → ((fail_at ts c).status ≡ circuit_open)
        ↔ (p.circuit_breaker_threshold ≤ c.consecutive_failures + length ts)
  unfolding fail_at
  fail_at-status [] c h = ground arith
  fail_at-status (t ∷ ts) c h =
      let c' = (record_refresh_failure p c t).1 in
      let ih = fail_at-status ts c' (ground (arith, failure-status c t, failure-count c t)) in
      ground (arith, ih, failure-count c t)

  success-closed :
      (c : Coordinator) (t : Time) (updated : ℕ)
      → 0 < p.circuit_breaker_threshold
      → ((record_refresh_success p c t updated).1.status ≡ circuit_open) ↔ (
          p.circuit_breaker_threshold
          ≤ (record_refresh_success p c t updated).1.consecutive_failures)
  unfolding record_refresh_success
  success-closed c t updated h = ground arith

  success-count :
      (c : Coordinator) (t : Time) (updated : ℕ)
      → (record_refresh_success p c t updated).1.consecutive_failures ≡ 0
  unfolding record_refresh_success
  success-count c t updated = refl

  -- After a success, a row of failures opens the circuit exactly if it is as long as the threshold,
  -- and the counter shown to users is its length.
  pub opens_at_threshold :
      (c : Coordinator) (t : Time) (updated : ℕ) (ts : List Time)
      → 0 < p.circuit_breaker_threshold
      → (((fail_at ts (record_refresh_success p c t updated).1).status ≡ circuit_open)
          ↔ (p.circuit_breaker_threshold ≤ length ts))
        × ((fail_at ts (record_refresh_success p c t updated).1).consecutive_failures ≡ length ts)
  opens_at_threshold c t updated ts h =
      let c' = (record_refresh_success p c t updated).1 in
      ground (
        arith,
        fail_at-status ts c' (success-closed c t updated h),
        fail_at-count ts c',
        success-count c t updated,
      )

module _ ⦃f : Floats⦄ (p : RefreshPolicy) (c : Coordinator) (now : Time) (h : IsConsistent p c)
    (near : deadline c ≤ now + 2 ^ 22 * second) (rejected : (reject_refresh c now).1 ≡ true) where
  abbrev wait : ℕ
  wait = (reject_refresh c now).0.sync.retry_after_seconds

  wait-eq : wait ≡ (deadline c - now + 999_999_999) / second
  wait-eq =
      rw (retry-reject_refresh p c now h rejected) (f.ceil_exact (deadline c - now) (omega arith))

  -- The wait told to a rejected caller is exact in whole seconds: a refresh after that wait is let
  -- through, one after a second less is rejected again.
  pub retry_after_exact :
      ((reject_refresh (reject_refresh c now).2 (now + wait * second)).1 ≡ false)
      × ((reject_refresh (reject_refresh c now).2 (now + (wait - 1) * second)).1 ≡ true)
  retry_after_exact =
      let c' = (reject_refresh c now).2 in
      let h' = reject_refresh-IsConsistent p c now h in
      let same = deadline-reject_refresh p c now h in
      let ahead = (reject_refresh_iff p c now h).0 rejected in
      let late : deadline c' ≤ now + wait * second = omega (arith, same, wait-eq) in
      let early : now + (wait - 1) * second < deadline c' = omega (arith, same, wait-eq) in
      (
        ground (arith, late, reject_refresh_iff p c' (now + wait * second) h'),
        (reject_refresh_iff p c' (now + (wait - 1) * second) h').1 early,
      )

module _ ⦃f : Floats⦄ {W : Type 0} (clock : W → Time × W) (sync : W → Result ℕ × W)
    (p : RefreshPolicy) where
  abbrev end_of : W → Time
  end_of w = (clock (sync (clock w).1).1).0

  probe_outcome :
      (r : Result ℕ) (e : Error) (c : Coordinator) (w : W)
      → IsConsistent p c
      → 0 < c.circuit_open_until
      → r ≡ err e
      → ((record_outcome clock sync p r c w).1.0.status ≡ circuit_open)
        × ((record_outcome clock sync p r c w).1.0.circuit_open_until
            ≡ (clock w).0 + p.circuit_open_duration)
        × ((record_outcome clock sync p r c w).0.1 ≡ some e)
  unfolding record_outcome record_refresh_failure
  probe_outcome (ok n) e c w h t q = cc
  probe_outcome (err e') e c w h t q = ground (arith, h.tripped t)

  -- Where the circuit's time has run out, one refresh is let through as a probe; if its
  -- synchronization fails, the circuit is open again for the full duration and the caller has the error.
  pub probe_failure :
      (c : Coordinator) (w : W) (e : Error)
      → IsConsistent p c
      → 0 < c.circuit_open_until
      → c.circuit_open_until ≤ (clock w).0
      → (sync (clock w).1).0 ≡ err e
      → ((refresh_open_tickets_once clock sync p c w).1.0.status ≡ circuit_open)
        × ((refresh_open_tickets_once clock sync p c w).1.0.circuit_open_until
            ≡ end_of w + p.circuit_open_duration)
        × ((refresh_open_tickets_once clock sync p c w).0.1 ≡ some e)
  unfolding refresh_open_tickets_once
  probe_failure c w e h t past failed =
      let h' = reject_refresh-IsConsistent p c (clock w).0 h in
      let admitted : (reject_refresh c (clock w).0).1 ≡ false =
        unfold reject_refresh in ground arith in
      let kept : 0 < (reject_refresh c (clock w).0).2.circuit_open_until =
        unfold reject_refresh in ground arith in
      rw admitted (
        probe_outcome (sync (clock w).1).0 e (reject_refresh c (clock w).0).2 (sync (clock w).1).1
          h' kept failed)

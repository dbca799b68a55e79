-- ===== src/Refresh/Runs.antt =====
-- Any interleaving of refreshes and status requests after Bootstrap, with the completion of the
-- last synchronization that reached the CMDB.
use secarch_tickets.Base.{
  ℕ, zero, suc, ◌+◌, ◌*◌, ◌^◌, ◌-◌, ◌≤◌, ◌<◌, ◌≡◌, true, false, min, Option, arith, nat_eq, ltb,
  if◌then◌else◌, Bool-cases, inl, inr, Result, ok, err, Error,
}
use native.Mathlib.Nat.{pow-suc, pow-zero}
use secarch_tickets.Base.Floats.{Floats}
use secarch_tickets.Refresh.{
  Time, RefreshPolicy, Coordinator, RefreshResult, reject_refresh, initial, record_refresh_success,
  record_refresh_failure, sync_status, bootstrap_done, refresh_open_tickets_once, record_outcome,
}
use secarch_tickets.Refresh.Invariant.{
  IsConsistent, record_refresh_success-IsConsistent, record_refresh_failure-IsConsistent,
  reject_refresh-IsConsistent, sync_status-IsConsistent, bootstrap_done-IsConsistent,
}
use secarch_tickets.Refresh.Waiting.{
  deadline, reject_refresh_iff, deadline-reject_refresh, deadline-sync_status,
}

-- The settings that PrepareConfig produces: a positive threshold and multiplier, and delays that a
-- float64 holds for every failure below the threshold.
pub record IsSound (p : RefreshPolicy) : Type 0 where
  pub threshold : 0 < p.circuit_breaker_threshold
  pub multiplier : 0 < p.failure_backoff_multiplier
  pub representable :
      (k : ℕ)
      → k < p.circuit_breaker_threshold
      → p.failure_backoff * p.failure_backoff_multiplier ^ k ≤ 2 ^ 53

-- The shortest pause that any outcome imposes.
abbrev pub pause : RefreshPolicy → ℕ
pause p = min p.success_cooldown (min p.failure_backoff p.circuit_open_duration)

mul_pos : (a b : ℕ) → 0 < a → 0 < b → 0 < a * b
mul_pos a b h k = grind arith

pow_pos : (b k : ℕ) → 0 < b → 0 < b ^ k
pow_pos b zero h = rw pow-zero (omega arith)
pow_pos b (suc k) h = rw pow-suc (mul_pos (b ^ k) b (pow_pos b k h) h)

attempted-reject_refresh :
    ⦃f : Floats⦄ (c : Coordinator) (now : Time) → (reject_refresh c now).0.attempted ≡ false
unfolding reject_refresh
attempted-reject_refresh c now = ground arith

module _ ⦃f : Floats⦄ (p : RefreshPolicy) where
  deadline-success :
      (c : Coordinator) (now : Time) (updated : ℕ)
      → deadline (record_refresh_success p c now updated).1 ≡ now + p.success_cooldown
  unfolding record_refresh_success
  deadline-success c now updated = ground arith

  -- The k-th consecutive failure below the threshold delays the next refresh by the configured
  -- backoff times the multiplier to the power k - 1; at the threshold the circuit opens.
  pub deadline-failure :
      IsSound p
      → (c : Coordinator) (now : Time) → IsConsistent p c
      → 0 < now
      → deadline (record_refresh_failure p c now).1
        ≡ now
          + (if ltb (c.consecutive_failures + 1) p.circuit_breaker_threshold
              then p.failure_backoff * p.failure_backoff_multiplier ^ c.consecutive_failures
              else p.circuit_open_duration)
  unfolding record_refresh_failure
  deadline-failure s c now h t =
      elim (Bool-cases (ltb (c.consecutive_failures + 1) p.circuit_breaker_threshold)) [
        | inl below ↦
            let e : c.consecutive_failures + 1 - 1 ≡ c.consecutive_failures = omega arith in
            let lt : c.consecutive_failures < p.circuit_breaker_threshold = ground arith in
            let exact =
              f.scaled_exact p.failure_backoff p.failure_backoff_multiplier c.consecutive_failures
                (s.representable c.consecutive_failures lt) in
            rw (e, exact) (ground arith)
        | inr reached ↦ ground arith
      ]

  -- What every state after a synchronization that ended at `last` satisfies.
  pub record Tracks (c : Coordinator) (last : Time) : Type 0 where
    pub consistent : IsConsistent p c
    pub rests : last + pause p ≤ deadline c

  record_refresh_success-Tracks :
      IsSound p
      → (c : Coordinator) (now : Time) (updated : ℕ)
      → Tracks (record_refresh_success p c now updated).1 now
  record_refresh_success-Tracks s c now updated = record {
    consistent = record_refresh_success-IsConsistent p c now updated s.threshold;
    rests = omega (arith, deadline-success c now updated);
  }

  backoff_grows :
      (s : IsSound p) (k : ℕ)
      → p.failure_backoff ≤ p.failure_backoff * p.failure_backoff_multiplier ^ k
  backoff_grows s k = let h = pow_pos p.failure_backoff_multiplier k s.multiplier in grind arith

  record_refresh_failure-Tracks :
      IsSound p
      → (c : Coordinator) (now : Time) → IsConsistent p c
      → 0 < now
      → Tracks (record_refresh_failure p c now).1 now
  record_refresh_failure-Tracks s c now h t = record {
    consistent = record_refresh_failure-IsConsistent p c now t h;
    rests = ground (arith, deadline-failure s c now h t, backoff_grows s c.consecutive_failures);
  }

module _ ⦃f : Floats⦄ {W : Type 0} (clock : W → Time × W) (sync : W → Result ℕ × W)
    (p : RefreshPolicy) where
  abbrev once : Coordinator → W → (RefreshResult × Option Error) × (Coordinator × W)
  once = refresh_open_tickets_once clock sync p

  -- When the synchronization of a refresh ended, or the time before if it was rejected.
  abbrev pub ended : Coordinator → Time → W → Time
  ended c last w = if (reject_refresh c (clock w).0).1 then last else (clock (sync (clock w).1).1).0

  -- The states that Bootstrap, any number of status requests and refreshes lead to.
  pub data Run : Coordinator → Time → Type 0 where
    booted : (now : Time) → Run (bootstrap_done p initial now) now
    asked :
        {c : Coordinator} {last : Time} (now : Time) → Run c last → Run (sync_status c now).1 last
    refreshed :
        {c : Coordinator} {last : Time} (w : W)
        → Run c last
        → Run (refresh_open_tickets_once clock sync p c w).1.0 (ended c last w)

  module _ (s : IsSound p) (ticks : (w : W) → 0 < (clock w).0) where
    record_outcome-Tracks :
        (r : Result ℕ) (c : Coordinator) (w : W)
        → IsConsistent p c
        → Tracks p (record_outcome clock sync p r c w).1.0 (clock w).0
    unfolding record_outcome
    record_outcome-Tracks (ok updated) c w h =
        record_refresh_success-Tracks p s c (clock w).0 updated
    record_outcome-Tracks (err e) c w h =
        record_refresh_failure-Tracks p s c (clock w).0 h (ticks w)

    once-Tracks :
        (c : Coordinator) (last : Time) (w : W)
        → Tracks p c last
        → Tracks p (refresh_open_tickets_once clock sync p c w).1.0 (ended c last w)
    unfolding refresh_open_tickets_once
    once-Tracks c last w h = elim (Bool-cases (reject_refresh c (clock w).0).1) [
      | inl rejected ↦ rw rejected (record {
        consistent = reject_refresh-IsConsistent p c (clock w).0 h.consistent;
        rests = omega (arith, h.rests, deadline-reject_refresh p c (clock w).0 h.consistent);
      })
      | inr admitted ↦ rw admitted (
          record_outcome-Tracks (sync (clock w).1).0 (reject_refresh c (clock w).0).2
            (sync (clock w).1).1 (reject_refresh-IsConsistent p c (clock w).0 h.consistent))
    ]

    Run-Tracks : {c : Coordinator} {last : Time} → Run c last → Tracks p c last
    Run-Tracks (booted now) = record {
      consistent = bootstrap_done-IsConsistent p s.threshold now;
      rests = unfold bootstrap_done in omega arith;
    }
    Run-Tracks (asked {c} {last} now r) =
        let h = Run-Tracks r in
        record {
          consistent = sync_status-IsConsistent p c now h.consistent;
          rests = omega (arith, h.rests, deadline-sync_status p c now h.consistent);
        }
    Run-Tracks (refreshed {c} {last} w r) = once-Tracks c last w (Run-Tracks r)

    -- A refresh reaches the CMDB only after the shortest pause since the last synchronization ended.
    pub attempt_spaced :
        {c : Coordinator} {last : Time} (w : W)
        → Run c last
        → (once c w).0.0.attempted ≡ true
        → last + pause p ≤ (clock w).0
    unfolding refresh_open_tickets_once
    attempt_spaced {c} {last} w r a =
        let h = Run-Tracks r in
        ground (
          arith,
          h.rests,
          reject_refresh_iff p c (clock w).0 h.consistent,
          attempted-reject_refresh c (clock w).0,
        )

-- ===== src/Refresh/Flight/Control.antt =====
-- The refresh control while calls of RefreshOpenTickets, their synchronizations and requests for the status
-- overlap.
use secarch_tickets.Base.{ℕ, ◌<◌, Option, none, some, Result, ok, err}
use secarch_tickets.Base.Floats.{Floats}
use secarch_tickets.Refresh.{
  Time, RefreshPolicy, Coordinator, initial, bootstrap_done, sync_status, record_outcome,
}
use secarch_tickets.Refresh.Invariant.{
  IsConsistent, record_refresh_success-IsConsistent, record_refresh_failure-IsConsistent,
  reject_refresh-IsConsistent, sync_status-IsConsistent, bootstrap_done-IsConsistent,
}
use secarch_tickets.Refresh.Flight.{
  Service, Step, enters, checks, completes, finishes, receives, cancels, entered,
}
use secarch_tickets.Refresh.Flight.Progress.{at_start}

module _ ⦃fl : Floats⦄ {W : Type 0} (clock : W → Time × W) (sync : W → Result ℕ × W)
    (p : RefreshPolicy) where
  -- The states from the end of Bootstrap on: after any steps of any calls, with requests for the
  -- status in between, also while a synchronization runs.
  pub data Reached : Service W → Type 0 where
    booted : (now : Time) (w : W) → Reached (at_start (bootstrap_done p initial now) w)
    stepped : {s t : Service W} → Reached s → Step clock sync p s t → Reached t
    asked :
        {s : Service W} (now : Time)
        → Reached s
        → Reached (record s { coordinator = (sync_status s.coordinator now).1 })

  module _ (threshold : 0 < p.circuit_breaker_threshold) (ticks : (w : W) → 0 < (clock w).0) where
    record_outcome-IsConsistent :
        (r : Result ℕ) (c : Coordinator) (w : W)
        → IsConsistent p c
        → IsConsistent p (record_outcome clock sync p r c w).1.0
    unfolding record_outcome
    record_outcome-IsConsistent (ok updated) c w h =
        record_refresh_success-IsConsistent p c (clock w).0 updated threshold
    record_outcome-IsConsistent (err e) c w h =
        record_refresh_failure-IsConsistent p c (clock w).0 (ticks w) h

    entered-IsConsistent :
        (s : Service W) (i : ℕ) (o : Option ℕ)
        → IsConsistent p s.coordinator
        → IsConsistent p (entered clock sync p s i o).coordinator
    entered-IsConsistent s i none h = h
    entered-IsConsistent s i (some f) h = h

    Step-IsConsistent :
        {s t : Service W}
        → Step clock sync p s t
        → IsConsistent p s.coordinator
        → IsConsistent p t.coordinator
    Step-IsConsistent {s} (enters i e) h = entered-IsConsistent s i s.in_flight h
    Step-IsConsistent {s} (checks i f e) h =
        reject_refresh-IsConsistent p s.coordinator (clock s.world).0 h
    Step-IsConsistent {s} (completes i f e) h =
        record_outcome-IsConsistent (sync s.world).0 s.coordinator (sync s.world).1 h
    Step-IsConsistent (finishes i f o e) h = h
    Step-IsConsistent (receives i f o e k) h = h
    Step-IsConsistent {s} (cancels i f e) h =
        sync_status-IsConsistent p s.coordinator (clock s.world).0 h

    -- With a positive threshold and clock, every state of the service after Bootstrap, also while a
    -- synchronization runs or calls wait, has a consistent refresh control: a circuit is open only after
    -- as many failures in a row as the threshold, and then no other deadline is set; a closed one has
    -- seen fewer; and the status speaks of the circuit only while it is open.
    pub Reached-IsConsistent : {s : Service W} → Reached s → IsConsistent p s.coordinator
    Reached-IsConsistent (booted now w) = bootstrap_done-IsConsistent p threshold now
    Reached-IsConsistent (stepped r k) = Step-IsConsistent k (Reached-IsConsistent r)
    Reached-IsConsistent (asked {s} now r) =
        sync_status-IsConsistent p s.coordinator now (Reached-IsConsistent r)

-- ===== src/Tests/Flights.antt =====
-- Two calls of a refresh that overlap.
use secarch_tickets.Base.{ℕ, ◌*◌, ◌≡◌, refl, some, none, arith}
use secarch_tickets.Base.Floats.{second}
use secarch_tickets.Refresh.{
  initial, bootstrap_done, sync_status, reject_refresh, refresh_open_tickets_once,
}
use secarch_tickets.Refresh.Invariant.{IsConsistent}
use secarch_tickets.Refresh.Flight.Control.{Reached, booted, stepped, asked, Reached-IsConsistent}
use secarch_tickets.Refresh.Flight.{
  Outcome, Service, enter, check, complete, waiting, syncing, returned, enters, checks, completes,
  Steps, stays, then_step, update,
}
use secarch_tickets.Refresh.Flight.Invariant.{leads}
use secarch_tickets.Refresh.Flight.Progress.{
  at_start, single_flight, CanReturn, waiter_returns, solo_call-once,
}
use secarch_tickets.Tests.{exact}
use secarch_tickets.Tests.Control.{policy, clock, down, boot}

abbrev started : Service ℕ
started = at_start boot 0

-- The first call leads, the second joins it.
abbrev overlapping : Service ℕ
overlapping = enter clock down policy (enter clock down policy started 0) 1

overlap : Steps clock down policy started overlapping
unfolding update
overlap = then_step (then_step stays (enters 0 refl)) (enters 1 refl)

second_waits : overlapping.calls 1 ≡ waiting 0
unfolding update
second_waits = refl

single_flight_example :
    ((i j f g : ℕ)
      → leads (overlapping.calls i) ≡ some f
      → leads (overlapping.calls j) ≡ some g
      → (i ≡ j) × (f ≡ g))
    × ((i j f : ℕ) (o r : Outcome)
        → overlapping.calls i ≡ returned f o
        → overlapping.calls j ≡ returned f r
        → o ≡ r)
single_flight_example = single_flight clock down policy boot 0 overlapping overlap

waiter_returns_example : CanReturn clock down policy overlapping 1 0
waiter_returns_example =
    waiter_returns clock down policy boot 0 overlapping overlap 1 0 second_waits

solo_call-once_example :
    (t : Service ℕ) × Steps clock down policy started t
    × (t.calls 0 ≡ returned 0 (refresh_open_tickets_once clock down policy boot 0).0)
    × (t.coordinator ≡ (refresh_open_tickets_once clock down policy boot 0).1.0)
    × (t.world ≡ (refresh_open_tickets_once clock down policy boot 0).1.1)
    × (t.in_flight ≡ none)
solo_call-once_example = solo_call-once clock down policy started 0 refl refl

-- A refresh after Bootstrap that another call joins, and a request for the status while it synchronizes.
abbrev two_calls : Service ℕ
two_calls =
    enter clock down policy
      (enter clock down policy (at_start (bootstrap_done policy initial second) 100) 0) 1

abbrev synchronizing : Service ℕ
synchronizing = check clock down policy two_calls 0 0

abbrev read_status : Service ℕ
read_status = record synchronizing {
  coordinator = (sync_status synchronizing.coordinator (110 * second)).1;
}

synchronizing-Reached : Reached clock down policy synchronizing
unfolding update
synchronizing-Reached =
    stepped (stepped (stepped (booted second 100) (enters 0 refl)) (enters 1 refl))
      (checks 0 0 refl)

leader_syncs : read_status.calls 0 ≡ syncing 0
unfolding update reject_refresh bootstrap_done
leader_syncs = refl

Reached-IsConsistent_example :
    IsConsistent policy (complete clock down policy read_status 0 0).coordinator
Reached-IsConsistent_example =
    Reached-IsConsistent clock down policy (omega arith) (λ w. omega arith)
      (stepped (asked (110 * second) synchronizing-Reached) (completes 0 0 leader_syncs))

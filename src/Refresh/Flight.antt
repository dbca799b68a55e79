-- ===== src/Refresh/Flight.antt =====
-- RefreshOpenTickets of internal/secarch/ticket_sync.go: concurrent calls share one synchronization. A
-- step of the relation is one call's passage of the mutex, its synchronization, or its wait that ends.
pub mod Invariant
pub mod Progress
pub mod Control
use secarch_tickets.Base.{
  ℕ, suc, ◌≡◌, Bool, true, false, Option, none, some, ◌==◌, nat_eq, option_eq, if◌then◌else◌, Error,
  sentinel, err_refresh_rejected, err_context_done, Result,
}
use secarch_tickets.Base.Floats.{Floats}
use secarch_tickets.Refresh.{
  Time, RefreshPolicy, Coordinator, RefreshResult, reject_refresh, record_outcome, sync_status,
}

abbrev pub Outcome : Type 0
Outcome = RefreshResult × Option Error

-- Where a call of RefreshOpenTickets stands. The leader of a flight is before its check, in its
-- synchronization, or about to close the flight; another call waits for a flight.
pub data Call : Type 0 where
  idle : Call
  leading : ℕ → Call
  syncing : ℕ → Call
  worked : ℕ → Outcome → Call
  waiting : ℕ → Call
  returned : ℕ → Outcome → Call
  cancelled : Outcome → Call

-- The flights are numbered in the order of their start; `results` has those that are closed.
pub record Service (W : Type 0) : Type 0 where
  pub in_flight : Option ℕ
  pub next_flight : ℕ
  pub results : ℕ → Option Outcome
  pub calls : ℕ → Call
  pub coordinator : Coordinator
  pub world : W

unfoldable pub update : {A : Type 0} → (ℕ → A) → ℕ → A → ℕ → A
update f i a j = if i == j then a else f j

module _ ⦃fl : Floats⦄ {W : Type 0} (clock : W → Time × W) (sync : W → Result ℕ × W)
    (p : RefreshPolicy) where
  abbrev pub entered : Service W → ℕ → Option ℕ → Service W
  entered s i none = record s {
    in_flight = some s.next_flight;
    next_flight = suc s.next_flight;
    calls = update s.calls i (leading s.next_flight);
  }
  entered s i (some f) = record s { calls = update s.calls i (waiting f) }

  -- The first passage of the mutex: the call joins the flight that there is, or starts one.
  abbrev pub enter : Service W → ℕ → Service W
  enter s i = entered s i s.in_flight

  -- refreshOpenTicketsOnce: rejectRefresh, and where it lets the call through, the synchronization
  -- with what is recorded of it, on the coordinator as it is then.
  abbrev pub check : Service W → ℕ → ℕ → Service W
  check s i f =
      let (now, w1) = clock s.world in
      let (result, rejected, c1) = reject_refresh s.coordinator now in
      record s {
        coordinator = c1;
        world = w1;
        calls = update s.calls i (
            if rejected
            then worked f (result, some (sentinel err_refresh_rejected))
            else syncing f);
      }

  abbrev pub complete : Service W → ℕ → ℕ → Service W
  complete s i f =
      let (outcome, w1) = sync s.world in
      let (o, (c, w)) = record_outcome clock sync p outcome s.coordinator w1 in
      record s { coordinator = c; world = w; calls = update s.calls i (worked f o) }

  -- The last passage of the mutex: the flight has its result and is closed.
  abbrev pub finish : Service W → ℕ → ℕ → Outcome → Service W
  finish s i f o = record s {
    results = update s.results f (some o);
    in_flight = if s.in_flight == some f then none else s.in_flight;
    calls = update s.calls i (returned f o);
  }

  -- waitForRefresh, where the flight is closed, and where the caller's context ends.
  abbrev pub receive : Service W → ℕ → ℕ → Outcome → Service W
  receive s i f o = record s { calls = update s.calls i (returned f o) }

  abbrev pub cancel : Service W → ℕ → Service W
  cancel s i =
      let (now, w1) = clock s.world in
      let (status, c1) = sync_status s.coordinator now in
      record s {
        coordinator = c1;
        world = w1;
        calls = update s.calls i (
            cancelled (
              record { sync = status; attempted = false; updated_count = 0 },
              some (sentinel err_context_done),
            ));
      }

  pub data Step (s : Service W) : Service W → Type 0 where
    enters : (i : ℕ) → s.calls i ≡ idle → Step s (enter s i)
    checks : (i f : ℕ) → s.calls i ≡ leading f → Step s (check s i f)
    completes : (i f : ℕ) → s.calls i ≡ syncing f → Step s (complete s i f)
    finishes : (i f : ℕ) (o : Outcome) → s.calls i ≡ worked f o → Step s (finish s i f o)
    receives :
        (i f : ℕ) (o : Outcome)
        → s.calls i ≡ waiting f
        → s.results f ≡ some o
        → Step s (receive s i f o)
    cancels : (i f : ℕ) → s.calls i ≡ waiting f → Step s (cancel s i)

  -- Any number of steps.
  pub data Steps (s : Service W) : Service W → Type 0 where
    stays : Steps s s
    then_step : {t u : Service W} → Steps s t → Step t u → Steps s u

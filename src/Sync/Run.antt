-- ===== src/Sync/Run.antt =====
-- syncTickets and Bootstrap.
pub mod Outcome
use secarch_tickets.Base.{
  ℕ, Bool, true, false, Text, List, [], ◌∷◌, ◌++◌, Option, none, some, Map, Result, ok, err, Error,
  failed, wrapped, if◌then◌else◌, ◌==◌, nat_eq, list_eq, any, not, keep, CaseTables,
}
use secarch_tickets.Calendar.{Date}
use secarch_tickets.Calendar.Expected.{default_expected_date}
use secarch_tickets.Cmdb.Types.{Time, Ticket}
use secarch_tickets.Cmdb.Jql.{sec_arch_ticket_jql}
use secarch_tickets.Store.{Database}
use secarch_tickets.Store.Persist.{
  TicketOwnershipRepair, TicketSyncPersistenceResult, persist_ticket_sync,
}
use secarch_tickets.Store.Queries.{
  QueryFault, list_ticket_ownership_candidates, list_open_ticket_numbers, list_known_departments,
}
use secarch_tickets.Refresh.{RefreshPolicy, Coordinator, bootstrap_done}
use secarch_tickets.Sync.World.{World, Exec, pure, lift, continue, ◌>>=◌}
use secarch_tickets.Sync.Repairs.{prepare_stored_ticket_ownership_repairs}
use secarch_tickets.Sync.Tracked.{fetch_missing_tracked_tickets}
use secarch_tickets.Sync.Departments.{attach_departments}

-- The numbers of the tickets of the queue; a nil ticket would end the run in a panic.
unfoldable pub queue_numbers : List (Option Ticket) → Result (List Text)
queue_numbers [] = ok []
queue_numbers (none ∷ ts) = err (failed "panic: nil pointer dereference")
queue_numbers (some t ∷ ts) = elim (queue_numbers ts) [
  | ok ns ↦ ok (t.ticket_number ∷ ns)
  | err e ↦ err e
]

unfoldable pub missing_from : List Text → List Text → List Text
missing_from open_before open_keys = keep (λ key. not (any (λ k. k == key) open_keys)) open_before

-- What is handed to persistTicketSync.
pub record Prepared : Type 0 where
  pub tickets : List (Option Ticket)
  pub repairs : List TicketOwnershipRepair
  pub expected : Date
  pub now : Time

module _ ⦃c : CaseTables⦄ {W : Type 0} (world : World W) (p : RefreshPolicy) where
  -- One query of the tables.
  abbrev pub ask : {A : Type 0} → (Option QueryFault → Result A) → Exec W A
  ask read w = let (fault, w') = world.query w in (read fault, w')

  abbrev pub read_clock : Exec W Time
  read_clock w = let (now, w') = world.clock w in (ok now, w')

  -- What only the synchronization of open tickets reads.
  unfoldable pub read_before : Bool → Database → Exec W (List Text × Map Text Text)
  read_before true db = do
    open_before ← ask (λ fault. list_open_ticket_numbers fault db)
    known ← ask (λ fault. list_known_departments fault db)
    pure (open_before, known)
  read_before false db = pure ([], [])

  unfoldable pub add_tracked :
      Bool → List Text → List (Option Ticket) → Exec W (List (Option Ticket))
  unfolding fetch_missing_tracked_tickets queue_numbers missing_from
  add_tracked true open_before tickets = do
    open_keys ← lift (queue_numbers tickets)
    tracked ←
        fetch_missing_tracked_tickets world p.ticket_key_batch_size
          (missing_from open_before open_keys)
    pure (tickets ++ tracked)
  add_tracked false open_before tickets = pure tickets

  -- The steps up to the transaction.
  unfoldable pub prepare_sync : Bool → Bool → Database → Exec W Prepared
  unfolding read_before add_tracked attach_departments prepare_stored_ticket_ownership_repairs
  prepare_sync open_only resolve_all db = do
    candidates ← ask (λ fault. list_ticket_ownership_candidates fault open_only db)
    (open_before, known) ← read_before open_only db
    queue ← world.list_tickets (sec_arch_ticket_jql open_only)
    listed ← add_tracked open_only open_before queue
    tickets ← attach_departments world resolve_all known listed
    repairs ← prepare_stored_ticket_ownership_repairs world candidates
    now ← read_clock
    server_now ← read_clock
    pure (record {
      tickets = tickets;
      repairs = repairs;
      expected = default_expected_date now;
      now = server_now;
    })

  abbrev pub updated_count : Result TicketSyncPersistenceResult → Result ℕ
  updated_count (ok r) = ok r.updated_count
  updated_count (err e) = err e

  -- The transaction, on the tables as the other requests left them.
  unfoldable pub persist_prepared : Database → Result Prepared × W → Result ℕ × (Database × W)
  unfolding persist_ticket_sync
  persist_prepared db (err e, w) = (err e, (world.others w db, w))
  persist_prepared db (ok x, w) =
      let (server, w') = world.server w in
      let (result, db') =
        persist_ticket_sync server x.now x.tickets x.expected x.repairs (world.others w db) in
      (updated_count result, (db', w'))

  unfoldable pub sync_tickets : Bool → Bool → Database × W → Result ℕ × (Database × W)
  unfolding persist_prepared prepare_sync
  sync_tickets open_only resolve_all (db, w) =
      persist_prepared db (prepare_sync open_only resolve_all db w)

  -- The end of Bootstrap.
  abbrev pub after_bootstrap :
      Coordinator → Result ℕ × (Database × W) → Option Error × Coordinator × (Database × W)
  after_bootstrap coordinator (err e, s) =
      (some (wrapped "bootstrap CMDB synchronization" e), coordinator, s)
  after_bootstrap coordinator (ok n, (db, w)) =
      let (now, w') = world.clock w in (none, bootstrap_done p coordinator now, (db, w'))

  unfoldable pub bootstrap :
      Coordinator → Database × W → Option Error × Coordinator × (Database × W)
  unfolding sync_tickets
  bootstrap coordinator s = after_bootstrap coordinator (sync_tickets false true s)

-- ===== src/Sync/Run/Outcome.antt =====
-- What a synchronization does to the tables, on every outcome.
use secarch_tickets.Base.{
  ℕ, ◌≡◌, ◌⊎◌, inl, inr, refl, Bool, true, Text, List, Option, none, some, Map, Result, ok, err,
  Error, returns, CaseTables, Result-cases, arith,
}
use secarch_tickets.Calendar.{Date}
use secarch_tickets.Store.{Database}
use secarch_tickets.Store.Persist.{TicketSyncPersistenceResult}
use secarch_tickets.Store.Queries.{
  QueryFault, at_query, at_scan, at_rows, list_known_departments, list_open_ticket_numbers,
  list_ticket_ownership_candidates,
}
use secarch_tickets.Store.Keeps.{Extends, Extends-refl, ReplyLost, persist-Extends, persist_atomic}
use secarch_tickets.Store.Intact.{IsIntact, Extends-HasNotes}
use secarch_tickets.Store.Integrity.{IsValid, persist-IsValid}
use secarch_tickets.Store.Known.{Agree, list_known_departments_iff}
use secarch_tickets.Refresh.{RefreshPolicy}
use secarch_tickets.Sync.World.{World}
use secarch_tickets.Sync.Run.{
  Prepared, prepare_sync, persist_prepared, sync_tickets, read_before, updated_count,
}

module _ ⦃c : CaseTables⦄ {W : Type 0} (world : World W) (p : RefreshPolicy) where
  -- The tables as the other requests leave them while a synchronization asks the CMDB.
  abbrev pub meanwhile : Bool → Bool → Database × W → Database
  meanwhile open_only resolve_all (db, w) =
      world.others (prepare_sync world p open_only resolve_all db w).1 db

  -- The server that the transaction of a synchronization meets.
  abbrev pub CommitLost : Bool → Bool → Database × W → Type 0
  CommitLost open_only resolve_all (db, w) =
      ReplyLost (world.server (prepare_sync world p open_only resolve_all db w).1).0.commit

  count-err :
      (r : Result TicketSyncPersistenceResult) (e : Error)
      → updated_count world p r ≡ err e
      → r ≡ err e
  count-err (ok r) e h = absurd (ground arith)
  count-err (err x) e h = ground arith

  persist-unchanged :
      (x : Result Prepared × W) (db : Database) (e : Error)
      → (persist_prepared world p db x).0 ≡ err e
      → ((persist_prepared world p db x).1.0.tickets ≡ (world.others x.1 db).tickets)
        ⊎ ReplyLost (world.server x.1).0.commit
  unfolding persist_prepared
  persist-unchanged (err y, w) db e h = inl refl
  persist-unchanged (ok x, w) db e h =
      persist_atomic (world.server w).0 x.now x.tickets x.expected x.repairs (world.others w db) e
        (count-err _ e h)

  -- A synchronization that fails, wherever it does, leaves the tickets as the other requests left
  -- them, unless its transaction was committed and only the server's reply was lost.
  pub sync_tickets-unchanged :
      (open_only resolve_all : Bool) (s : Database × W) (e : Error)
      → (sync_tickets world p open_only resolve_all s).0 ≡ err e
      → ((sync_tickets world p open_only resolve_all s).1.0.tickets
          ≡ (meanwhile open_only resolve_all s).tickets)
        ⊎ CommitLost open_only resolve_all s
  unfolding sync_tickets
  sync_tickets-unchanged open_only resolve_all (db, w) e h = persist-unchanged _ db e h

  persist_prepared-IsValid :
      (x : Result Prepared × W) (db : Database)
      → IsValid (world.others x.1 db)
      → IsValid (persist_prepared world p db x).1.0
  unfolding persist_prepared
  persist_prepared-IsValid (err y, w) db v = v
  persist_prepared-IsValid (ok x, w) db v =
      persist-IsValid (world.server w).0 x.now x.tickets x.expected x.repairs (world.others w db) v

  persist_prepared-Extends :
      (x : Result Prepared × W) (db : Database)
      → (d : Date) × Extends d (world.others x.1 db) (persist_prepared world p db x).1.0
  unfolding persist_prepared
  persist_prepared-Extends (err y, w) db = (
    record { year = 0; month = 0; day = 0 },
    Extends-refl _ (world.others w db) (world.others w db) refl refl refl,
  )
  persist_prepared-Extends (ok x, w) db = (
    x.expected,
    persist-Extends x.expected (world.server w).0 x.now x.tickets x.repairs (world.others w db),
  )

  -- On every outcome a synchronization keeps each stored row's id, number, expected date and
  -- creation time and every note, and gives all the rows that it adds one and the same expected date.
  pub sync_tickets-Extends :
      (open_only resolve_all : Bool) (s : Database × W)
      → (d : Date) × Extends d
          (meanwhile open_only resolve_all s)
          (sync_tickets world p open_only resolve_all s).1.0
  unfolding sync_tickets
  sync_tickets-Extends open_only resolve_all (db, w) = persist_prepared-Extends _ db

  -- Whatever the CMDB and the server answer, a synchronization keeps the integrity of both tables as
  -- the other requests left them: the numbers of the tickets are unique and not blank, their ids
  -- unique and below the sequence, and so are the ids of the notes, each of which belongs to a stored
  -- ticket and has an allowed content. The notes and their sequence are as they were.
  pub sync_tickets-IsIntact :
      (open_only resolve_all : Bool) (s : Database × W)
      → IsIntact (meanwhile open_only resolve_all s)
      → IsIntact (sync_tickets world p open_only resolve_all s).1.0
        × ((sync_tickets world p open_only resolve_all s).1.0.updates
            ≡ (meanwhile open_only resolve_all s).updates)
        × ((sync_tickets world p open_only resolve_all s).1.0.next_update_id
            ≡ (meanwhile open_only resolve_all s).next_update_id)
  unfolding sync_tickets
  sync_tickets-IsIntact open_only resolve_all (db, w) (valid, notes) =
      let (d, kept) =
        persist_prepared-Extends (prepare_sync world p open_only resolve_all db w) db in
      (
        (persist_prepared-IsValid _ db valid, Extends-HasNotes d _ _ kept notes),
        kept.notes,
        kept.note_ids,
      )

  known-Agree :
      (fault : Option QueryFault) (db : Database) (m : Map Text Text)
      → list_known_departments fault db ≡ ok m
      → Agree db.tickets
  unfolding list_known_departments
  known-Agree none db m h = (list_known_departments_iff db).0 (returns m h)
  known-Agree (some (at_query e)) db m h = absurd (ground arith)
  known-Agree (some (at_scan e)) db m h = absurd (ground arith)
  known-Agree (some (at_rows e)) db m h = absurd (ground arith)

  read_before-Agree :
      (db : Database) (w : W) (b : List Text × Map Text Text)
      → (read_before world p true db w).0 ≡ ok b
      → Agree db.tickets
  unfolding read_before
  read_before-Agree db w b h =
      let (fault, w') = world.query (world.query w).1 in
      elim (Result-cases (list_known_departments fault db)) [
        | inl (m, known) ↦ known-Agree fault db m known
        | inr (e, bad) ↦ elim (Result-cases (list_open_ticket_numbers (world.query w).0 db)) [
          | inl (ns, listed) ↦ absurd (ground arith)
          | inr (x, failed) ↦ absurd (ground arith)
        ]
      ]

  prepare_sync-Agree :
      (resolve_all : Bool) (db : Database) (w : W) (x : Prepared)
      → (prepare_sync world p true resolve_all db w).0 ≡ ok x
      → Agree db.tickets
  unfolding prepare_sync
  prepare_sync-Agree resolve_all db w x h =
      let (fault, w') = world.query w in
      elim (Result-cases (read_before world p true db w').0) [
        | inl (b, before) ↦ read_before-Agree db w' b before
        | inr (e, bad) ↦ elim (Result-cases (list_ticket_ownership_candidates fault true db)) [
          | inl (cs, listed) ↦ absurd (ground arith)
          | inr (y, failed) ↦ absurd (ground arith)
        ]
      ]

  persist_prepared-prepared :
      (r : Result Prepared) (w : W) (db : Database) (n : ℕ)
      → (persist_prepared world p db (r, w)).0 ≡ ok n
      → (x : Prepared) × (r ≡ ok x)
  unfolding persist_prepared
  persist_prepared-prepared (ok x) w db n h = (x, refl)
  persist_prepared-prepared (err e) w db n h = absurd (ground arith)

  -- A refresh of the open tickets succeeds only on tables whose rows agree about the Department of
  -- every System: while two rows give a System different Departments of their own, every refresh fails.
  pub sync_tickets-Agree :
      (resolve_all : Bool) (db : Database) (w : W) (n : ℕ)
      → (sync_tickets world p true resolve_all (db, w)).0 ≡ ok n
      → Agree db.tickets
  unfolding sync_tickets
  sync_tickets-Agree resolve_all db w n h =
      let (x, e) = persist_prepared-prepared _ _ db n h in prepare_sync-Agree resolve_all db w x e

-- ===== src/Store/Persist.antt =====
-- persistTicketSync: one transaction of upserts and ownership repairs.
use secarch_tickets.Base.{
  ℕ, ◌+◌, Bool, Text, Option, none, some, List, [], ◌∷◌, ◌++◌, ◌==◌, ◌!=◌, ◌&&◌, ◌||◌, nat_eq,
  list_eq, option_eq, if◌then◌else◌, Error, failed, wrapped, Result, ok, err, length, trim_space,
  is_empty, ltb,
}
use secarch_tickets.Calendar.{Date}
use secarch_tickets.Cmdb.Types.{Time, Slice, Ticket}
use secarch_tickets.Store.{Row, Database, update_where, upsert, has_number}

pub record TicketOwnershipRepair : Type 0 where
  pub ticket_number : Text
  pub expected_cmdb_system_name : Slice
  pub expected_cmdb_system_key : Text
  pub expected_department : Text
  pub cmdb_system_name : Slice
  pub cmdb_system_key : Text
  pub department : Text

pub record TicketSyncPersistenceResult : Type 0 where
  pub updated_count : ℕ
  pub applied_repair_count : ℕ
  pub skipped_repair_tickets : List Text

-- The repair's WHERE: the row is as it was when the repair was prepared, and the repair changes it.
unfoldable pub repair_applies : TicketOwnershipRepair → Row → Bool
unfolding has_number
repair_applies p r =
    has_number p.ticket_number r
    && (r.cmdb_system_name == p.expected_cmdb_system_name)
    && (r.cmdb_system_key == p.expected_cmdb_system_key)
    && (r.department == p.expected_department)
    && ((r.cmdb_system_name != p.cmdb_system_name)
        || (r.cmdb_system_key != p.cmdb_system_key)
        || (r.department != p.department))

unfoldable pub apply_repair : Time → TicketOwnershipRepair → Row → Row
apply_repair now p r = record r {
  cmdb_system_name = p.cmdb_system_name;
  cmdb_system_key = p.cmdb_system_key;
  department = p.department;
  updated_at = now;
}

unfoldable pub run_repair : Time → TicketOwnershipRepair → Database → ℕ × Database
unfolding update_where
run_repair now p db =
    let (n, rows) = update_where (repair_applies p) (apply_repair now p) db.tickets in
    (n, record db { tickets = rows })

-- What the database server does with the calls of one transaction, by the number of the statement.
pub data Commit : Type 0 where
  committed : Commit
  rolled_back : Error → Commit
  -- the transaction took effect, but its reply was lost
  reply_lost : Error → Commit

pub record Server : Type 0 where
  pub begin : Option Error
  pub exec : ℕ → Option Error
  pub commit : Commit

-- updatedTickets, a set of numbers.
abbrev pub add_number : Text → List Text → List Text
add_number n [] = n ∷ []
add_number n (m ∷ ms) = if m == n then m ∷ ms else m ∷ add_number n ms

-- A failed step leaves the database of the transaction as it stands there.
abbrev pub Tx : Type 0 → Type 0
Tx A = Result A × Database

-- The loop over the tickets; `i` counts the statements sent.
unfoldable pub upsert_all :
    Server → Time → Date → ℕ → List (Option Ticket) → List Text → Database → Tx (ℕ × List Text)
unfolding upsert
upsert_all s now expected i [] updated db = (ok (i, updated), db)
upsert_all s now expected i (none ∷ rest) updated db =
    (err (failed "cannot upsert ticket with an empty key"), db)
upsert_all s now expected i (some t ∷ rest) updated db =
    let (affected, db') = upsert now expected t db in
    let updated' = if ltb 0 affected then add_number t.ticket_number updated else updated in
    let later = upsert_all s now expected (i + 1) rest updated' db' in
    if is_empty (trim_space t.ticket_number)
    then (err (failed "cannot upsert ticket with an empty key"), db)
    else elim (s.exec i) [ some e ↦ (err (wrapped "upsert ticket" e), db) | none ↦ later ]

unfoldable pub repair_all :
    Server
    → Time
    → ℕ
    → List TicketOwnershipRepair
    → List Text
    → TicketSyncPersistenceResult
    → Database
    → Tx (List Text × TicketSyncPersistenceResult)
unfolding run_repair
repair_all s now i [] updated result db = (ok (updated, result), db)
repair_all s now i (p ∷ rest) updated result db =
    let (affected, db') = run_repair now p db in
    let skipped = record result {
      skipped_repair_tickets = result.skipped_repair_tickets ++ p.ticket_number ∷ [];
    } in
    let applied = record result { applied_repair_count = result.applied_repair_count + 1 } in
    let none_affected = affected == 0 in
    let updated' = if none_affected then updated else add_number p.ticket_number updated in
    let result' = if none_affected then skipped else applied in
    let later = repair_all s now (i + 1) rest updated' result' db' in
    elim (s.exec i) [ some e ↦ (err (wrapped "repair ticket ownership" e), db) | none ↦ later ]

abbrev no_persistence : TicketSyncPersistenceResult
no_persistence = record { updated_count = 0; applied_repair_count = 0; skipped_repair_tickets = [] }

-- A transaction that is rolled back leaves no trace but in the sequence.
abbrev pub roll_back : Database → Database → Database
roll_back db tx = record db { next_ticket_id = tx.next_ticket_id }

-- The end of the transaction: the commit, or the deferred rollback.
unfoldable pub finish :
    Commit
    → Database
    → Tx (List Text × TicketSyncPersistenceResult)
    → Tx TicketSyncPersistenceResult
finish c db (err e, tx) = (err e, roll_back db tx)
finish committed db (ok (updated, result), tx) =
    (ok (record result { updated_count = length updated }), tx)
finish (rolled_back e) db (ok _, tx) =
    (err (wrapped "commit ticket synchronization" e), roll_back db tx)
finish (reply_lost e) db (ok _, tx) = (err (wrapped "commit ticket synchronization" e), tx)

-- The repairs follow the upserts in the same transaction.
unfoldable pub then_repair :
    Server
    → Time
    → List TicketOwnershipRepair
    → Tx (ℕ × List Text)
    → Tx (List Text × TicketSyncPersistenceResult)
unfolding repair_all
then_repair s now repairs (err e, tx) = (err e, tx)
then_repair s now repairs (ok (i, updated), tx) =
    repair_all s now i repairs updated no_persistence tx

-- A transaction that cannot be begun changes nothing.
unfoldable pub start :
    Option Error → Database → Tx TicketSyncPersistenceResult → Tx TicketSyncPersistenceResult
start (some e) db tx = (err (wrapped "begin ticket synchronization" e), db)
start none db tx = tx

unfoldable pub persist_ticket_sync :
    Server
    → Time
    → List (Option Ticket)
    → Date
    → List TicketOwnershipRepair
    → Database
    → Tx TicketSyncPersistenceResult
unfolding start upsert_all then_repair finish
persist_ticket_sync s now tickets expected repairs db =
    let upserted = upsert_all s now expected 0 tickets [] db in
    start s.begin db (finish s.commit db (then_repair s now repairs upserted))

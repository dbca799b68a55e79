-- ===== src/Tests/Tables.antt =====
-- The transaction and the reads on a small database.
use secarch_tickets.Base.{
  nat_eq, list_eq, ◌≡◌, ◌⊎◌, refl, arith, codes, some, none, List, [], ◌∷◌, true, false, ok, err,
  failed, wrapped, sentinel, err_ticket_not_found, returns, In, here, trim, is_space,
}
use secarch_tickets.Access.{TicketAccess, query_arguments}
use secarch_tickets.Store.{Row, has_number}
use secarch_tickets.Store.Persist.{TicketOwnershipRepair, Server, rolled_back, persist_ticket_sync}
use secarch_tickets.Store.Queries.{StoredTicket, known_pair, update_expected_date}
use secarch_tickets.Store.Keeps.{ReplyLost, persist_atomic}
use secarch_tickets.Store.Integrity.{IsValid}
use secarch_tickets.Store.Intact.{HasNotes}
use secarch_tickets.Store.Elsewhere.{Works}
use secarch_tickets.Store.Repeat.{persist_again}
use secarch_tickets.Store.Reads.{MayAccess}
use secarch_tickets.Store.Dates.{Redated, update_expected_date-effect}
use secarch_tickets.Tests.{ascii, ticket, row, database, april, works, ann}

-- A server that fails at the commit.
abbrev broken : Server
broken = record { begin = none; exec = λ i. none; commit = rolled_back (failed "disk full") }

broken_run :
    (persist_ticket_sync broken 9000 (some ticket ∷ []) april [] database).0
    ≡ err (wrapped "commit ticket synchronization" (failed "disk full"))
unfolding persist_ticket_sync trim is_space
broken_run = refl

persist_atomic_example :
    ((persist_ticket_sync broken 9000 (some ticket ∷ []) april [] database).1.tickets ≡ row ∷ [])
    ⊎ ReplyLost (rolled_back (failed "disk full"))
persist_atomic_example =
    persist_atomic broken 9000 (some ticket ∷ []) april [] database _ broken_run

works-Works : Works works
works-Works = record { begins = refl; execs = λ i. refl; commits = refl }

-- A repair of another ticket than the one that is listed.
abbrev elsewhere : TicketOwnershipRepair
elsewhere = record {
  ticket_number = codes "SEC-9";
  expected_cmdb_system_name = none;
  expected_cmdb_system_key = codes "SYS-1";
  expected_department = codes "Audit";
  cmdb_system_name = none;
  cmdb_system_key = codes "SYS-2";
  department = codes "Payments";
}

persist_again_example :
    let after =
      (persist_ticket_sync works 9000 (some ticket ∷ []) april (elsewhere ∷ []) database).1 in
    ((persist_ticket_sync works 9500 (some ticket ∷ []) april [] after).0
      ≡ ok (record { updated_count = 0; applied_repair_count = 0; skipped_repair_tickets = [] }))
    × ((persist_ticket_sync works 9500 (some ticket ∷ []) april [] after).1.tickets ≡ after.tickets)
unfolding trim is_space
persist_again_example =
    persist_again works works 9000 9500 april april (ticket ∷ []) (elsewhere ∷ []) database
      works-Works works-Works (refl, tt, tt) (((λ e. ground arith), tt), tt)

pub database-IsValid : IsValid database
unfolding trim is_space
database-IsValid = record { unique = (tt, tt); below = (omega arith, tt); named = (refl, tt) }

pub database-HasNotes : HasNotes database
unfolding trim
database-HasNotes = record {
  distinct = (tt, tt);
  below = (omega arith, tt);
  owned = (here refl, tt);
  allowed = (refl, tt);
}

row_known : known_pair row ≡ true
unfolding known_pair
row_known = refl

ann_granted : query_arguments ann ≡ ok (false, codes "ann")
unfolding query_arguments trim is_space
ann_granted = refl

ann_list : List StoredTicket
ann_list = record { row = row; update_count = 1; latest_update_at = some 7000 } ∷ []

update_expected_date-effect_example :
    let after = update_expected_date 9000 (codes "SEC-1") april ann none database in
    ((after.0 ≡ ok tt)
      × ((r : Row) × In r (row ∷ [])
          × (has_number (codes "SEC-1") r ≡ true)
          × MayAccess ann r.reporter)
      × Redated 9000 (codes "SEC-1") april ann (row ∷ []) after.1.tickets)
    ⊎ ((after.0 ≡ err (sentinel err_ticket_not_found))
        × (¬ (
            (r : Row) × In r (row ∷ [])
            × (has_number (codes "SEC-1") r ≡ true)
            × MayAccess ann r.reporter))
        × (after.1 ≡ database))
update_expected_date-effect_example =
    update_expected_date-effect 9000 (codes "SEC-1") april ann database (returns _ ann_granted)

abbrev nobody : TicketAccess
nobody = record { all = false; reporter = codes "  " }

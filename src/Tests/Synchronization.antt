-- ===== src/Tests/Synchronization.antt =====
-- A synchronization on a small database, and its parts.
use secarch_tickets.Base.Sorting.{sort_by}
use secarch_tickets.Base.{
  ◌+◌, ◌*◌, ◌≡◌, ◌⊎◌, refl, min, Text, codes, some, none, [], ◌∷◌, true, false, Map, ok, err,
  failed, All, List, trim, is_space, In,
}
use secarch_tickets.Base.Floats.{second}
use secarch_tickets.Calendar.{Date}
use secarch_tickets.Calendar.Expected.{day_length, default_expected_date, days_in_month}
use secarch_tickets.Calendar.Expected.Dates.{IsDate, today, default_expected_date-IsDate}
use secarch_tickets.Cmdb.Types.{Ticket}
use secarch_tickets.Store.{is_changed}
use secarch_tickets.Store.Keeps.{Extends}
use secarch_tickets.Store.Intact.{IsIntact}
use secarch_tickets.Store.Known.{Agree}
use secarch_tickets.Cmdb.Types.{SystemReference}
use secarch_tickets.Store.Persist.{TicketOwnershipRepair}
use secarch_tickets.Store.Queries.{
  TicketOwnershipCandidate, candidate_of, list_ticket_ownership_candidates,
  list_open_ticket_numbers, list_known_departments,
}
use secarch_tickets.Sync.World.{World}
use secarch_tickets.Sync.Isolate.{resolve_departments_isolated}
use secarch_tickets.Sync.Departments.{attach_departments, values, collect_references}
use secarch_tickets.Sync.Departments.Settled.{AllPlaced, attach_departments-AllPlaced}
use secarch_tickets.Sync.Repairs.{repairs_for}
use secarch_tickets.Sync.Repairs.Applies.{Fits, NeedsRepair, Repairs, repairs_for-Fits}
use secarch_tickets.Sync.Run.{sync_tickets}
use secarch_tickets.Sync.Run.Outcome.{
  meanwhile, CommitLost, sync_tickets-unchanged, sync_tickets-IsIntact, sync_tickets-Extends,
  sync_tickets-Agree,
}
use secarch_tickets.Tests.{ascii, ticket, row, database, works}
use secarch_tickets.Tests.Control.{policy}
use secarch_tickets.Tests.Tables.{database-IsValid, database-HasNotes}

-- A CMDB with one open ticket and one System.
abbrev reachable : World (Unit {0})
reachable = record {
  get_ticket = λ k w. (ok ticket, w);
  list_tickets = λ q w. (ok (some ticket ∷ []), w);
  resolve_departments = λ rs w. (ok ((codes "SYS-7", codes "Payments") ∷ []), w);
  ctx_err = λ w. none;
  clock = λ w. (9000, w);
  query = λ w. (none, w);
  server = λ w. (works, w);
  others = λ w db. db;
}

-- A CMDB whose queue cannot be read.
abbrev queue_down : World (Unit {0})
queue_down = record reachable { list_tickets = λ q w. (err (failed "status 503"), w) }

down_run : (sync_tickets queue_down policy true false (database, tt)).0 ≡ err (failed "status 503")
unfolding sync_tickets list_ticket_ownership_candidates list_open_ticket_numbers
    list_known_departments
down_run = refl

sync_tickets-unchanged_example :
    ((sync_tickets queue_down policy true false (database, tt)).1.0.tickets
      ≡ (meanwhile queue_down policy true false (database, tt)).tickets)
    ⊎ CommitLost queue_down policy true false (database, tt)
sync_tickets-unchanged_example =
    sync_tickets-unchanged queue_down policy true false (database, tt) _ down_run

sync_tickets-IsIntact_example :
    IsIntact (sync_tickets reachable policy true false (database, tt)).1.0
    × ((sync_tickets reachable policy true false (database, tt)).1.0.updates ≡ database.updates)
    × ((sync_tickets reachable policy true false (database, tt)).1.0.next_update_id
        ≡ database.next_update_id)
sync_tickets-IsIntact_example =
    sync_tickets-IsIntact reachable policy true false (database, tt)
      (database-IsValid, database-HasNotes)

sync_tickets-Extends_example :
    (d : Date) × Extends d
      (meanwhile reachable policy true false (database, tt))
      (sync_tickets reachable policy true false (database, tt)).1.0
sync_tickets-Extends_example = sync_tickets-Extends reachable policy true false (database, tt)

good_run : (sync_tickets reachable policy true false (database, tt)).0 ≡ ok 1
unfolding sync_tickets list_ticket_ownership_candidates list_open_ticket_numbers
    list_known_departments sort_by trim is_space is_changed
good_run = refl

sync_tickets-Agree_example : Agree (row ∷ [])
sync_tickets-Agree_example = sync_tickets-Agree reachable policy false database tt 1 good_run

abbrev blank : Ticket
blank = record ticket { department = [] }

attach_run :
    (attach_departments reachable true [] (some blank ∷ none ∷ []) tt).0
    ≡ ok (some ticket ∷ none ∷ [])
unfolding attach_departments sort_by
attach_run = refl

attach_departments-AllPlaced_example :
    (resolved : Map Text Text) × ((resolve_departments_isolated reachable
        (values (collect_references true [] (some blank ∷ none ∷ []) []))
        tt).0
      ≡ ok resolved)
    × AllPlaced true [] resolved (some blank ∷ none ∷ []) (some ticket ∷ none ∷ [])
attach_departments-AllPlaced_example =
    attach_departments-AllPlaced reachable true [] (some blank ∷ none ∷ [])
      (some ticket ∷ none ∷ []) tt attach_run

abbrev payments : Map Text Text
payments = (codes "SYS-7", codes "Payments") ∷ []

abbrev renamed : List (TicketOwnershipCandidate × SystemReference)
renamed = (candidate_of row, record { key = codes "SYS-7"; name = codes "Ledger" }) ∷ []

repairs_for-Fits_example :
    All (Fits payments renamed) (repairs_for payments renamed)
    × ((item : TicketOwnershipCandidate × SystemReference)
        → In item renamed
        → NeedsRepair payments item
        → (p : TicketOwnershipRepair) × In p (repairs_for payments renamed)
          × Repairs payments item p)
repairs_for-Fits_example = repairs_for-Fits payments renamed

default_expected_date-IsDate_example :
    let e = default_expected_date (1_000_000 * second) in
    IsDate e
    × (12 * e.year + e.month
        ≡ 12 * (today (1_000_000 * second)).year + (today (1_000_000 * second)).month + 1)
    × (e.day ≡ min (today (1_000_000 * second)).day (days_in_month e.year e.month))
default_expected_date-IsDate_example = default_expected_date-IsDate (1_000_000 * second)

-- 31 January 2026, 10:00 UTC.
end_of_january :
    default_expected_date (739_646 * day_length + 10 * 3_600_000_000_000)
    ≡ record { year = 2026; month = 2; day = 28 }
unfolding default_expected_date
end_of_january = refl

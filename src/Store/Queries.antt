-- ===== src/Store/Queries.antt =====
-- The reads of ticket_store.go, and UpdateExpectedDate: their SQL as functions on the tables.
use Prim.Native.String.{String}
use secarch_tickets.Base.{
  ℕ, Bool, true, false, Text, Option, none, some, List, [], ◌∷◌, ◌==◌, ◌!=◌, ◌&&◌, ◌||◌, nat_eq,
  list_eq, option_eq, if◌then◌else◌, Error, failed, wrapped, sentinel, err_ticket_not_found, Result,
  ok, err, ◌>>=◌, length, is_empty, ltb, leb, btrim, keep, map, not, Map, lookup, insert,
  CaseTables, max,
}
use secarch_tickets.Base.Sorting.{sort_by, text_leb}
use secarch_tickets.Access.{TicketAccess, query_arguments, row_visible}
use secarch_tickets.Calendar.{Date, date_leb, date_eq}
use secarch_tickets.Cmdb.Types.{Time, Slice, unassigned_department}
use secarch_tickets.Store.{Row, UpdateRow, Database, update_where, has_number}

-- Where a query of several rows can fail.
pub data QueryFault : Type 0 where
  at_query at_scan at_rows : Error → QueryFault

-- The rows of a query, unless it fails; the labels are those of the three messages.
abbrev pub query_rows {ℓ} :
    {A : Type ℓ} → (String × String × String) → Option QueryFault → A → Result A
query_rows labels none rows = ok rows
query_rows labels (some (at_query e)) rows = err (wrapped labels.0 e)
query_rows labels (some (at_scan e)) rows = err (wrapped labels.1 e)
query_rows labels (some (at_rows e)) rows = err (wrapped labels.2 e)

pub record StoredTicket : Type 0 where
  pub row : Row
  pub update_count : ℕ
  pub latest_update_at : Option Time

-- MAX(created_at)
abbrev latest : List UpdateRow → Option Time
latest [] = none
latest (u ∷ us) = some (elim (latest us) [ none ↦ u.created_at | some t ↦ max u.created_at t ])

abbrev notes_of : ℕ → List UpdateRow → List UpdateRow
notes_of id us = keep (λ u. u.ticket_id == id) us

unfoldable pub stored : List UpdateRow → Row → StoredTicket
stored us r = record {
  row = r;
  update_count = length (notes_of r.id us);
  latest_update_at = latest (notes_of r.id us);
}

-- ORDER BY expected_date ASC NULLS LAST, updated_at ASC
abbrev pub listed_before : Row → Row → Bool
listed_before a b =
    if a.expected_date == b.expected_date
    then leb a.updated_at b.updated_at
    else date_leb a.expected_date b.expected_date

-- A statement that is run only for a caller whose access is known.
abbrev pub with_access :
    {A : Type 0}
    → Result (Bool × Text)
    → Database
    → (Bool × Text → Result A × Database)
    → Result A × Database
with_access (err e) db run = (err e, db)
with_access (ok args) db run = run args

module _ ⦃t : CaseTables⦄ where
  -- list_secarch_tickets.sql
  unfoldable pub select_tickets : Bool × Text → Database → List StoredTicket
  unfolding stored
  select_tickets args db =
      map (stored db.updates)
        (sort_by listed_before (keep (λ r. row_visible args r.reporter) db.tickets))

  unfoldable pub list_tickets :
      TicketAccess → Option QueryFault → Database → Result (List StoredTicket)
  unfolding select_tickets
  list_tickets access fault db = do
    args ← query_arguments access
    query_rows ("query tickets", "scan ticket row", "iterate ticket rows") fault
        (select_tickets args db)

  -- count_closed_tickets.sql
  abbrev pub closed_within : Time → Time → Option Time → Bool
  closed_within start end none = false
  closed_within start end (some c) = leb start c && ltb c end

  unfoldable pub count_closed_tickets :
      Time → Time → TicketAccess → Option Error → Database → Result ℕ
  count_closed_tickets start end_exclusive access fault db = do
    args ← query_arguments access
    let counted =
        keep
          (λ (r : Row).
            closed_within start end_exclusive r.ticket_closed_at && row_visible args r.reporter)
          db.tickets
    elim fault [ none ↦ ok (length counted) | some e ↦ err (wrapped "count Closed tickets" e) ]

  -- The UPDATE of ticket_store.go, once the caller's access is known.
  unfoldable pub run_update_expected_date :
      Time → Text → Date → Option Error → Database → Bool × Text → Result (Unit {0}) × Database
  unfolding update_where
  run_update_expected_date now number expected (some e) db args = (err e, db)
  run_update_expected_date now number expected none db args =
      let hit = λ (r : Row). has_number number r && row_visible args r.reporter in
      let (affected, rows) =
        update_where hit (λ r. record r { expected_date = expected; updated_at = now })
          db.tickets in
      if affected == 0
      then (err (sentinel err_ticket_not_found), db)
      else (ok tt, record db { tickets = rows })

  unfoldable pub update_expected_date :
      Time → Text → Date → TicketAccess → Option Error → Database → Result (Unit {0}) × Database
  unfolding run_update_expected_date
  update_expected_date now number expected access fault db =
      with_access (query_arguments access) db
        (run_update_expected_date now number expected fault db)

-- The pairs that ListKnownDepartments reads; GROUP BY drops repetitions, which the loop ignores too.
unfoldable pub known_pair : Row → Bool
known_pair r =
    not (is_empty r.cmdb_system_key)
    && not (is_empty r.department)
    && (r.department != unassigned_department)

-- existing, ok := known[key]; ok && existing != department
abbrev pub conflicts : Option Text → Text → Bool
conflicts none d = false
conflicts (some e) d = e != d

unfoldable pub collect_known : List Row → Map Text Text → Result (Map Text Text)
unfolding known_pair
collect_known [] known = ok known
collect_known (r ∷ rows) known =
    let conflict = conflicts (lookup r.cmdb_system_key known) r.department in
    let known' = if known_pair r then insert r.cmdb_system_key r.department known else known in
    let rest = collect_known rows known' in
    if known_pair r && conflict then err (failed "System has inconsistent Departments") else rest

unfoldable pub list_known_departments : Option QueryFault → Database → Result (Map Text Text)
unfolding collect_known
list_known_departments fault db = do
  rows ←
      query_rows
        (
          "query known System Departments", "scan known System Department",
          "iterate known System Departments",
        )
        fault db.tickets
  collect_known rows []

abbrev pub is_open : Row → Bool
is_open r = elim r.ticket_closed_at [ none ↦ true | some t ↦ false ]

abbrev by_number : Row → Row → Bool
by_number a b = text_leb a.ticket_number b.ticket_number

unfoldable pub list_open_ticket_numbers : Option QueryFault → Database → Result (List Text)
list_open_ticket_numbers fault db =
    query_rows
      ("query Open ticket numbers", "scan Open ticket number", "iterate Open ticket numbers") fault
      (map (λ r. r.ticket_number) (sort_by by_number (keep is_open db.tickets)))

pub record TicketOwnershipCandidate : Type 0 where
  pub ticket_number : Text
  pub cmdb_system_name : Slice
  pub cmdb_system_key : Text
  pub department : Text

abbrev pub cardinality : Slice → ℕ
cardinality none = 0
cardinality (some l) = length l

-- The key or the Department still has to be found, and there is a key or a name to find it by.
unfoldable pub needs_repair : Bool → Row → Bool
needs_repair open_only r =
    (is_empty (btrim r.cmdb_system_key)
      || is_empty (btrim r.department)
      || (r.department == unassigned_department))
    && (not (is_empty (btrim r.cmdb_system_key)) || ltb 0 (cardinality r.cmdb_system_name))
    && (not open_only || is_open r)

abbrev pub candidate_of : Row → TicketOwnershipCandidate
candidate_of r = record {
  ticket_number = r.ticket_number;
  cmdb_system_name = r.cmdb_system_name;
  cmdb_system_key = r.cmdb_system_key;
  department = r.department;
}

unfoldable pub list_ticket_ownership_candidates :
    Option QueryFault → Bool → Database → Result (List TicketOwnershipCandidate)
unfolding needs_repair
list_ticket_ownership_candidates fault open_only db =
    query_rows
      (
        "query ticket ownership repair candidates", "scan ticket ownership repair candidate",
        "iterate ticket ownership repair candidates",
      )
      fault (map candidate_of (sort_by by_number (keep (needs_repair open_only) db.tickets)))

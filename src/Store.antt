-- ===== src/Store.antt =====
-- internal/secarch/ticket_store.go with the SQL of internal/db/sql: the two tables, and the
-- statements as functions on them.
pub mod Persist
pub mod Queries
pub mod Rows
pub mod Keeps
pub mod Integrity
pub mod Intact
pub mod Again
pub mod Elsewhere
pub mod Repeat
pub mod Known
pub mod Reads
pub mod Dates
use secarch_tickets.Base.{
  ℕ, ◌+◌, ◌*◌, ◌/◌, Bool, true, false, Text, Option, List, [], ◌∷◌, ◌++◌, ◌==◌, ◌!=◌, ◌&&◌, ◌||◌,
  nat_eq, list_eq, option_eq, any, if◌then◌else◌, Option, none, some, map,
}
use secarch_tickets.Calendar.{Date}
use secarch_tickets.Cmdb.Types.{Time, Slice, Ticket}

-- A row of secarch_tickets.tickets.
pub record Row : Type 0 where
  pub id : ℕ
  pub ticket_number : Text
  pub summary : Text
  pub reporter : Text
  pub assignee : Option Text
  pub cmdb_system_name : Slice
  pub cmdb_system_key : Text
  pub department : Text
  pub ticket_created_at : Time
  pub ticket_closed_at : Option Time
  pub expected_date : Date
  pub created_at : Time
  pub updated_at : Time

-- A row of secarch_tickets.ticket_updates.
pub record UpdateRow : Type 0 where
  pub id : ℕ
  pub ticket_id : ℕ
  pub content : Text
  pub created_at : Time

-- The tables and the sequences of their BIGSERIAL keys.
pub record Database : Type 0 where
  pub tickets : List Row
  pub updates : List UpdateRow
  pub next_ticket_id : ℕ
  pub next_update_id : ℕ

-- A TIMESTAMPTZ holds whole microseconds; the driver cuts the rest off.
abbrev pub stored_time : Time → Time
stored_time t = t / 1000 * 1000

abbrev pub stored_time? : Option Time → Option Time
stored_time? none = none
stored_time? (some t) = some (stored_time t)

-- UPDATE … SET f WHERE p: how many rows it affects, and the table after.
unfoldable pub update_where : (Row → Bool) → (Row → Row) → List Row → ℕ × List Row
update_where p f [] = (0, [])
update_where p f (r ∷ rows) =
    let (n, rest) = update_where p f rows in if p r then (n + 1, f r ∷ rest) else (n, r ∷ rest)

-- The columns that a conflict overwrites; expected_date and created_at are not among them.
unfoldable pub overwrite : Time → Ticket → Row → Row
overwrite now t r = record r {
  summary = t.summary;
  reporter = t.reporter;
  assignee = t.assignee;
  cmdb_system_name = t.cmdb_system_name;
  cmdb_system_key = t.cmdb_system_key;
  department = t.department;
  ticket_created_at = stored_time t.ticket_created_at;
  ticket_closed_at = stored_time? t.ticket_closed_at;
  updated_at = now;
}

-- The WHERE of the conflict: some column IS DISTINCT FROM its new value.
unfoldable pub is_changed : Ticket → Row → Bool
is_changed t r =
    (r.summary != t.summary)
    || (r.reporter != t.reporter)
    || (r.assignee != t.assignee)
    || (r.cmdb_system_name != t.cmdb_system_name)
    || (r.cmdb_system_key != t.cmdb_system_key)
    || (r.department != t.department)
    || (r.ticket_created_at != stored_time t.ticket_created_at)
    || (r.ticket_closed_at != stored_time? t.ticket_closed_at)

unfoldable pub has_number : Text → Row → Bool
has_number n r = r.ticket_number == n

unfoldable pub new_row : ℕ → Time → Date → Ticket → Row
new_row id now expected t = record {
  id = id;
  ticket_number = t.ticket_number;
  summary = t.summary;
  reporter = t.reporter;
  assignee = t.assignee;
  cmdb_system_name = t.cmdb_system_name;
  cmdb_system_key = t.cmdb_system_key;
  department = t.department;
  ticket_created_at = stored_time t.ticket_created_at;
  ticket_closed_at = stored_time? t.ticket_closed_at;
  expected_date = expected;
  created_at = now;
  updated_at = now;
}

-- upsert_secarch_ticket.sql. The sequence moves on whether a row is inserted or not.
unfoldable pub upsert : Time → Date → Ticket → Database → ℕ × Database
unfolding update_where has_number
upsert now expected t db =
    let matching = λ (r : Row). has_number t.ticket_number r && is_changed t r in
    let (affected, changed) = update_where matching (overwrite now t) db.tickets in
    let added = db.tickets ++ new_row db.next_ticket_id now expected t ∷ [] in
    let db' = record db { next_ticket_id = db.next_ticket_id + 1 } in
    if any (has_number t.ticket_number) db.tickets
    then (affected, record db' { tickets = changed })
    else (1, record db' { tickets = added })

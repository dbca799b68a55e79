-- ===== src/Store/Rows.antt =====
-- What an UPDATE does to a column of the table, and an upsert to the columns that it never sets.
use mathlib.Core.List.{append-nil, map-append}
use secarch_tickets.Base.{
  ℕ, ◌≡◌, refl, sym, ◌∙◌, Bool, Text, List, [], ◌∷◌, ◌++◌, nat_eq, list_eq, option_eq,
  if◌then◌else◌, map, any, Bool-cases, inl, inr,
}
use secarch_tickets.Calendar.{Date}
use secarch_tickets.Cmdb.Types.{Time, Ticket}
use secarch_tickets.Store.{Row, Database, update_where, upsert, has_number, overwrite, new_row}
use secarch_tickets.Store.Persist.{TicketOwnershipRepair, run_repair, apply_repair}

module _ {A : Type 0} (column : Row → A) (p : Row → Bool) (f : Row → Row)
    (keeps : (r : Row) → column (f r) ≡ column r) where
  pub map-update_where : (rows : List Row) → map column (update_where p f rows).1 ≡ map column rows
  unfolding update_where
  map-update_where [] = refl
  map-update_where (r ∷ rows) = elim (Bool-cases (p r)) [
    | inl hit ↦ rw hit (rw (keeps r, map-update_where rows) refl)
    | inr miss ↦ rw miss (rw (map-update_where rows) refl)
  ]

-- The part of a row that belongs to the service, not to the CMDB.
pub record Local : Type 0 where
  pub id : ℕ
  pub ticket_number : Text
  pub expected_date : Date
  pub created_at : Time

abbrev pub local_part : Row → Local
local_part r = record {
  id = r.id;
  ticket_number = r.ticket_number;
  expected_date = r.expected_date;
  created_at = r.created_at;
}

local_part-overwrite :
    (now : Time) (t : Ticket) (r : Row) → local_part (overwrite now t r) ≡ local_part r
unfolding overwrite
local_part-overwrite now t r = refl

local_part-apply_repair :
    (now : Time) (p : TicketOwnershipRepair) (r : Row)
    → local_part (apply_repair now p r) ≡ local_part r
unfolding apply_repair
local_part-apply_repair now p r = refl

-- The local parts of the rows that an upsert adds: one if no row has the number, else none.
abbrev pub added : Time → Date → Ticket → Database → List Local
added now expected t db =
    if any (has_number t.ticket_number) db.tickets
    then []
    else record {
      id = db.next_ticket_id;
      ticket_number = t.ticket_number;
      expected_date = expected;
      created_at = now;
    }
      ∷ []

pub local-upsert :
    (now : Time) (expected : Date) (t : Ticket) (db : Database)
    → map local_part (upsert now expected t db).1.tickets
      ≡ map local_part db.tickets ++ added now expected t db
unfolding upsert new_row
local-upsert now expected t db = elim (Bool-cases (any (has_number t.ticket_number) db.tickets)) [
  | inl old ↦
      rw old (
        map-update_where local_part _ _ (local_part-overwrite now t) db.tickets
        ∙ sym (append-nil _))
  | inr new ↦ rw new (rw map-append refl)
]

pub local-run_repair :
    (now : Time) (p : TicketOwnershipRepair) (db : Database)
    → map local_part (run_repair now p db).1.tickets ≡ map local_part db.tickets
unfolding run_repair
local-run_repair now p db =
    map-update_where local_part _ _ (local_part-apply_repair now p) db.tickets

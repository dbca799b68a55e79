-- ===== src/Store/Intact.antt =====
-- The integrity of the notes table, ticket_updates, against the tickets that its foreign key refers to.
use secarch_tickets.Base.{
  ℕ, ◌<◌, ◌≡◌, ◌≢◌, true, List, [], ◌∷◌, ◌++◌, map, All, All-mono, In, In-append_left,
}
use mathlib.Core.List.{map-append}
use secarch_tickets.Calendar.{Date}
use secarch_tickets.Store.{UpdateRow, Database}
use secarch_tickets.Store.Rows.{Local, local_part}
use secarch_tickets.Store.Keeps.{Extends}
use secarch_tickets.Store.Integrity.{IsValid}
use secarch_tickets.Notes.{content_allowed}

abbrev pub Distinct : List ℕ → Type 0
Distinct [] = Unit
Distinct (n ∷ ns) = All (λ (m : ℕ). m ≢ n) ns × Distinct ns

abbrev note_id : UpdateRow → ℕ
note_id u = u.id

abbrev local_id : Local → ℕ
local_id l = l.id

-- The ids of the notes are unique and below their sequence, each note belongs to a stored ticket, and
-- its content meets the CHECK of the table.
pub record HasNotes (db : Database) : Type 0 where
  pub distinct : Distinct (map note_id db.updates)
  pub below : All (λ (u : UpdateRow). u.id < db.next_update_id) db.updates
  pub owned :
      All (λ (u : UpdateRow). In u.ticket_id (map local_id (map local_part db.tickets))) db.updates
  pub allowed : All (λ (u : UpdateRow). content_allowed u.content ≡ true) db.updates

-- Both tables.
abbrev pub IsIntact : Database → Type 0
IsIntact db = IsValid db × HasNotes db

-- What keeps the notes and the ids of the tickets keeps the integrity of the notes.
pub Extends-HasNotes :
    (expected : Date) (db tx : Database) → Extends expected db tx → HasNotes db → HasNotes tx
Extends-HasNotes expected db tx e h = record {
  distinct = rw e.notes h.distinct;
  below = rw (e.notes, e.note_ids) h.below;
  owned =
      rw (e.notes, e.rows, map-append)
        (All-mono (λ (u : UpdateRow). In u.ticket_id (map local_id (map local_part db.tickets)))
          (λ (u : UpdateRow).
            In u.ticket_id (map local_id (map local_part db.tickets) ++ map local_id e.fresh))
          (λ u i. In-append_left _ (map local_id e.fresh) i) db.updates h.owned);
  allowed = rw e.notes h.allowed;
}

-- ===== src/Notes.antt =====
-- internal/secarch/ticket_update.go with create_ticket_update.sql and list_ticket_updates.sql: the
-- local progress notes on a ticket.
pub mod Kept
pub mod Listed
use secarch_tickets.Base.{
  ℕ, suc, ◌+◌, Bool, true, false, Text, Option, none, some, List, [], ◌∷◌, ◌++◌, ◌==◌, ◌&&◌, ◌||◌,
  nat_eq, if◌then◌else◌, Error, sentinel, failed, wrapped, err_ticket_not_found,
  err_update_content_required, err_update_content_too_long, Result, ok, err, ◌>>=◌, length,
  is_empty, trim_space, btrim, ltb, leb, keep, any, CaseTables,
}
use secarch_tickets.Base.Sorting.{sort_by}
use secarch_tickets.Access.{TicketAccess, query_arguments, row_visible}
use secarch_tickets.Cmdb.Types.{Time}
use secarch_tickets.Store.{Row, UpdateRow, Database, has_number}
use secarch_tickets.Store.Queries.{with_access, QueryFault, query_rows}

-- TicketUpdateMaxLength
abbrev pub ticket_update_max_length : ℕ
ticket_update_max_length = 500

pub record TicketUpdate : Type 0 where
  pub id : ℕ
  pub content : Text
  pub created_at : Time

-- utf8.RuneCountInString is the length of the list of code points.
unfoldable pub normalize_ticket_update_content : Text → Result Text
normalize_ticket_update_content content =
    let trimmed = trim_space content in
    if is_empty trimmed
    then err (sentinel err_update_content_required)
    else if ltb ticket_update_max_length (length trimmed)
    then err (sentinel err_update_content_too_long)
    else ok trimmed

-- CHECK (CHAR_LENGTH(BTRIM(content)) BETWEEN 1 AND 500) of schema_secarch_ticket.sql
abbrev pub content_allowed : Text → Bool
content_allowed content = leb 1 (length (btrim content)) && leb (length (btrim content)) 500

-- What an INSERT that selected the tickets with these ids adds, in their order.
abbrev pub inserted : Time → Text → ℕ → List Row → List UpdateRow
inserted now content next [] = []
inserted now content next (r ∷ rows) =
    record { id = next; ticket_id = r.id; content = content; created_at = now }
    ∷ inserted now content (next + 1) rows

abbrev pub ticket_update : UpdateRow → TicketUpdate
ticket_update u = record { id = u.id; content = u.content; created_at = u.created_at }

-- What QueryRow and Scan make of the rows returned.
abbrev first_update : List UpdateRow → Database → Database → Result TicketUpdate × Database
first_update [] before after = (err (sentinel err_ticket_not_found), before)
first_update (u ∷ us) before after = (ok (ticket_update u), after)

-- ORDER BY created_at DESC, id DESC
abbrev pub newer_first : UpdateRow → UpdateRow → Bool
newer_first a b = ltb b.created_at a.created_at || ((a.created_at == b.created_at) && leb b.id a.id)

module _ ⦃t : CaseTables⦄ where
  abbrev pub selected : Bool × Text → Text → Database → List Row
  selected args number db =
      keep (λ r. has_number number r && row_visible args r.reporter) db.tickets

  unfoldable pub run_create_ticket_update :
      Time → Text → Text → Option Error → Database → Bool × Text → Result TicketUpdate × Database
  run_create_ticket_update now number content (some e) db args =
      (err (wrapped "create update for ticket" e), db)
  run_create_ticket_update now number content none db args =
      let rows = selected args number db in
      let added = inserted now content db.next_update_id rows in
      let after = record db {
        updates = db.updates ++ added;
        next_update_id = db.next_update_id + length rows;
      } in
      if content_allowed content || is_empty rows
      then first_update added db after
      else (err (wrapped "create update for ticket" (failed "ticket_updates_content_length")), db)

  unfoldable pub create_ticket_update :
      Time → Text → Text → TicketAccess → Option Error → Database → Result TicketUpdate × Database
  unfolding run_create_ticket_update
  create_ticket_update now number content access fault db =
      with_access (query_arguments access) db (run_create_ticket_update now number content fault db)

  -- What follows the check of the content.
  abbrev create_normalized :
      Time
      → Text
      → Result Text
      → TicketAccess
      → Option Error
      → Database
      → Result TicketUpdate × Database
  create_normalized now number (err e) access fault db = (err e, db)
  create_normalized now number (ok content) access fault db =
      create_ticket_update now number content access fault db

  unfoldable pub add_ticket_update :
      Time → Text → Text → TicketAccess → Option Error → Database → Result TicketUpdate × Database
  unfolding create_ticket_update normalize_ticket_update_content
  add_ticket_update now number content access fault db =
      let trimmed = trim_space number in
      if is_empty trimmed
      then (err (sentinel err_ticket_not_found), db)
      else create_normalized now trimmed (normalize_ticket_update_content content) access fault db

  -- list_ticket_updates.sql: the notes joined with the visible ticket of the number.
  abbrev joined : Bool × Text → Text → Database → List UpdateRow
  joined args number db =
      keep (λ u. any (λ r. r.id == u.ticket_id) (selected args number db)) db.updates

  -- The two queries of listTicketUpdates, either of which can fail.
  unfoldable pub list_updates :
      Text → TicketAccess → Option Error → Option QueryFault → Database → Result (List UpdateRow)
  list_updates number access exists_fault fault db = do
    args ← query_arguments access
    exists ← elim exists_fault [
      | none ↦ ok (any (λ r. has_number number r && row_visible args r.reporter) db.tickets)
      | some e ↦ err (wrapped "check ticket" e)
    ]
    if exists
        then query_rows
            ("query updates for ticket", "scan update for ticket", "iterate updates for ticket")
            fault (sort_by newer_first (joined args number db))
        else err (sentinel err_ticket_not_found)

  unfoldable pub list_ticket_updates :
      Text → TicketAccess → Option Error → Option QueryFault → Database → Result (List UpdateRow)
  unfolding list_updates
  list_ticket_updates number access exists_fault fault db =
      let trimmed = trim_space number in
      if is_empty trimmed
      then err (sentinel err_ticket_not_found)
      else list_updates trimmed access exists_fault fault db

-- ===== src/Api.antt =====
-- internal/api: the handlers, as the replies they make of a request and of the service's answer.
-- Decoding JSON and time.Parse of a date are parameters.
pub mod Replies
pub mod Statistics
use Prim.Native.String.{String}
use secarch_tickets.Base.{
  ℕ, ◌+◌, ◌*◌, ltb, Bool, true, false, Text, List, [], Option, none, some, Result, ok, err, Error,
  errors_is, err_refresh_rejected, err_ticket_not_found, err_update_content_required,
  err_update_content_too_long, if◌then◌else◌, is_empty, map, trim_space, ◌&&◌, ◌||◌, not,
  CaseTables,
}
use secarch_tickets.Calendar.{Date, date_leb}
use secarch_tickets.Access.{TicketAccess}
use secarch_tickets.Auth.{Principal}
use secarch_tickets.Cmdb.Types.{Time}
use secarch_tickets.Store.{Database, UpdateRow}
use secarch_tickets.Store.Queries.{
  QueryFault, StoredTicket, list_tickets, update_expected_date, count_closed_tickets,
}
use secarch_tickets.Notes.{TicketUpdate, ticket_update, add_ticket_update, list_ticket_updates}
use secarch_tickets.Refresh.{SyncStatus, RefreshResult, is_circuit_open}

abbrev pub access_for_principal : Principal → TicketAccess
access_for_principal p = record { all = p.is_admin; reporter = p.username }

abbrev pub ticket_access : Option Principal → TicketAccess
ticket_access none = record { all = false; reporter = [] }
ticket_access (some p) = access_for_principal p

pub data Body : Type 0 where
  message : String → Body
  tickets : List StoredTicket → SyncStatus → Body
  refreshed : RefreshResult → Body
  not_refreshed : String → SyncStatus → Body
  dated : Text → Body
  counted : Text → Text → ℕ → Body
  updates : List TicketUpdate → Body
  created : TicketUpdate → Body

-- The status code, the Retry-After header and the body.
pub record Reply : Type 0 where
  pub status : ℕ
  pub retry_after : Option ℕ
  pub body : Body

abbrev pub reply : ℕ → Body → Reply
reply status body = record { status = status; retry_after = none; body = body }

abbrev pub internal_error : Reply
internal_error = reply 500 (message "internal error")

abbrev pub not_found : Reply
not_found = reply 404 (message "ticket not found")

unfoldable pub list_tickets_reply : Result (List StoredTicket) → SyncStatus → Reply
list_tickets_reply (err e) sync = internal_error
list_tickets_reply (ok ts) sync = reply 200 (tickets ts sync)

-- The reply to a refresh that returned an error.
unfoldable pub refresh_error_reply : RefreshResult → Error → Reply
refresh_error_reply result e =
    let rejected = errors_is e err_refresh_rejected in
    let opened = is_circuit_open result.sync.status in
    let code =
      if opened
      then "cmdb_sync_circuit_open"
      else if rejected
      then "refresh_cooldown"
      else "cmdb_sync_failed" in
    record {
      status = if opened then 503 else if rejected then 429 else 502;
      retry_after =
          if ltb 0 result.sync.retry_after_seconds
          then some result.sync.retry_after_seconds
          else none;
      body = not_refreshed code result.sync;
    }

unfoldable pub refresh_reply : RefreshResult × Option Error → Reply
unfolding refresh_error_reply
refresh_reply (result, none) = reply 200 (refreshed result)
refresh_reply (result, some e) = refresh_error_reply result e

module _ ⦃c : CaseTables⦄ (parse_date : Text → Option Date) where
  abbrev pub dated_reply : Text → Result (Unit {0}) → Reply
  dated_reply number (ok u) = reply 200 (dated number)
  dated_reply number (err e) =
      if errors_is e err_ticket_not_found then not_found else internal_error

  abbrev pub set_date :
      Time → Text → Option Date → TicketAccess → Option Error → Database → Reply × Database
  set_date now number none access fault db =
      (reply 400 (message "expected_date must be in YYYY-MM-DD format"), db)
  set_date now number (some date) access fault db =
      let (answer, db') = update_expected_date now number date access fault db in
      (dated_reply number answer, db')

  -- The body that was bound is `none` where it is not a JSON object with a date.
  unfoldable pub update_expected_date_handler :
      Time → Text → Option Text → Option Principal → Option Error → Database → Reply × Database
  unfolding update_expected_date
  update_expected_date_handler now param none principal fault db =
      (reply 400 (message "ticket_number and expected_date are required"), db)
  update_expected_date_handler now param (some date) principal fault db =
      let number = trim_space param in
      let done = set_date now number (parse_date date) (ticket_access principal) fault db in
      if is_empty number
      then (reply 400 (message "ticket_number and expected_date are required"), db)
      else done

module _ ⦃c : CaseTables⦄ where
  abbrev pub note_reply : Result TicketUpdate × Database → Reply × Database
  note_reply (ok u, db) = (reply 201 (created u), db)
  note_reply (err e, db) = (
    if errors_is e err_ticket_not_found
        then not_found
        else if errors_is e err_update_content_required || errors_is e err_update_content_too_long
        then reply 400 (message "update content")
        else internal_error,
    db,
  )

  unfoldable pub create_ticket_update_handler :
      Time → Text → Option Text → Option Principal → Option Error → Database → Reply × Database
  unfolding add_ticket_update
  create_ticket_update_handler now param none principal fault db =
      (reply 400 (message "update content is required"), db)
  create_ticket_update_handler now param (some content) principal fault db =
      note_reply
        (add_ticket_update now (trim_space param) content (ticket_access principal) fault db)

  abbrev pub updates_reply : Result (List UpdateRow) → Reply
  updates_reply (ok us) = reply 200 (updates (map ticket_update us))
  updates_reply (err e) = if errors_is e err_ticket_not_found then not_found else internal_error

  unfoldable pub list_ticket_updates_handler :
      Text → Option Principal → Option Error → Option QueryFault → Database → Reply
  unfolding list_ticket_updates
  list_ticket_updates_handler param principal exists_fault fault db =
      updates_reply
        (list_ticket_updates (trim_space param) (ticket_access principal) exists_fault fault db)

  unfoldable pub list_tickets_handler :
      Option Principal → SyncStatus → Option QueryFault → Database → Reply
  unfolding list_tickets list_tickets_reply
  list_tickets_handler principal sync fault db =
      list_tickets_reply (list_tickets (ticket_access principal) fault db) sync

-- ===== src/Tests/Answers.antt =====
-- Replies of the handlers.
use secarch_tickets.Store.{has_number}
use secarch_tickets.Access.{query_arguments, row_visible}
use secarch_tickets.Base.{
  Text, [], ◌≡◌, ◌≢◌, ◌↔◌, ◌⊎◌, refl, Text, codes, some, none, false, Option, IsOk, trim_space,
  trim, is_space,
}
use secarch_tickets.Calendar.{Date}
use secarch_tickets.Notes.{TicketUpdate}
use secarch_tickets.Notes.Kept.{Added}
use secarch_tickets.Store.Dates.{Redated}
use secarch_tickets.Refresh.{reject_refresh, refresh_open_tickets_once}
use secarch_tickets.Auth.{Principal}
use secarch_tickets.Api.{
  ticket_access, update_expected_date_handler, create_ticket_update_handler, refresh_reply,
}
use secarch_tickets.Api.Replies.{
  Meant, create_ticket_update_handler-Added, update_expected_date_handler-answer,
  refresh_reply-IsOk_iff,
}
use secarch_tickets.Tests.{ascii, exact, database, april}
use secarch_tickets.Tests.Control.{clock, down, policy, boot}

abbrev user : Option Principal
user = some (record { username = codes "ann"; groups = []; is_admin = false })

created_run :
    (create_ticket_update_handler 9000
      (codes "SEC-1")
      (some (codes " done "))
      user
      none
      database).0.status
    ≡ 201
unfolding create_ticket_update_handler trim is_space query_arguments has_number row_visible
created_run = refl

create_ticket_update_handler-Added_example :
    (u : TicketUpdate) × Added 9000
      (trim_space (codes "SEC-1"))
      (codes " done ")
      (ticket_access user)
      database
      (create_ticket_update_handler 9000
        (codes "SEC-1")
        (some (codes " done "))
        user
        none
        database).1
      u
create_ticket_update_handler-Added_example =
    create_ticket_update_handler-Added 9000 (codes "SEC-1") (codes " done ") user database
      created_run

abbrev read_april : Text → Option Date
read_april text = some april

update_expected_date_handler-answer_example :
    let (r, after) =
      update_expected_date_handler read_april 9000
        (codes "SEC-1")
        (some (codes "2026-04-30"))
        user
        none
        database in
    ((date : Date) × (text : Text) × (some (codes "2026-04-30") ≡ some text)
      × (read_april text ≡ some date)
      × (r.status ≡ 200)
      × Meant (trim_space (codes "SEC-1")) user database
      × Redated 9000
          (trim_space (codes "SEC-1"))
          date
          (ticket_access user)
          database.tickets
          after.tickets)
    ⊎ ((r.status ≢ 200) × (after ≡ database))
update_expected_date_handler-answer_example =
    update_expected_date_handler-answer read_april 9000 (codes "SEC-1") (some (codes "2026-04-30"))
      user database

refresh_reply-IsOk_iff_example :
    ((refresh_reply (refresh_open_tickets_once clock down policy boot 100).0).status ≡ 200)
    ↔ (((reject_refresh boot (clock 100).0).1 ≡ false) × IsOk (down (clock 100).1).0)
refresh_reply-IsOk_iff_example = refresh_reply-IsOk_iff clock down policy boot 100

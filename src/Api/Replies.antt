-- ===== src/Api/Replies.antt =====
-- What the status codes of the replies tell.
use secarch_tickets.Base.{
  ℕ, ◌≡◌, ◌≢◌, ◌↔◌, ◌⊎◌, inl, inr, refl, true, false, Text, Option, none, some, Result, ok, err,
  Error, sentinel, errors_is, err_refresh_rejected, is_empty, trim_space, CaseTables, arith,
  Bool-cases, Option-cases, Result-cases, IsOk, returns, In, nat_eq,
}
use secarch_tickets.Base.Floats.{Floats}
use secarch_tickets.Calendar.{Date}
use secarch_tickets.Access.{TicketAccess, query_arguments}
use secarch_tickets.Cmdb.Types.{Time}
use secarch_tickets.Store.{Row, Database, has_number}
use secarch_tickets.Store.Queries.{update_expected_date}
use secarch_tickets.Store.Reads.{MayAccess}
use secarch_tickets.Store.Dates.{Redated, update_expected_date-effect}
use secarch_tickets.Notes.{TicketUpdate, add_ticket_update}
use secarch_tickets.Notes.Kept.{Added, add_ticket_update-Added}
use secarch_tickets.Refresh.{
  RefreshPolicy, RefreshResult, Coordinator, reject_refresh, record_outcome,
  refresh_open_tickets_once,
}
use secarch_tickets.Auth.{Principal}
use secarch_tickets.Api.{
  Reply, ticket_access, set_date, update_expected_date_handler, note_reply,
  create_ticket_update_handler, refresh_reply, refresh_error_reply,
}

module _ ⦃c : CaseTables⦄ where
  note_reply-created :
      (r : Result TicketUpdate × Database)
      → (note_reply r).0.status ≡ 201
      → (u : TicketUpdate) × (r ≡ (ok u, (note_reply r).1))
  note_reply-created (ok u, db) h = (u, refl)
  note_reply-created (err e, db) h = absurd (ground arith)

  -- Where the database works, a reply 201 to a new note means that some stored row has the number and
  -- may be accessed by the caller, that each such row and no other got one note of the trimmed content,
  -- behind the notes that were there and with the next ids, and that no ticket was changed.
  pub create_ticket_update_handler-Added :
      (now : Time) (param content : Text) (who : Option Principal) (db : Database)
      → (create_ticket_update_handler now param (some content) who none db).0.status ≡ 201
      → (u : TicketUpdate) × Added now
          (trim_space param)
          content
          (ticket_access who)
          db
          (create_ticket_update_handler now param (some content) who none db).1
          u
  unfolding create_ticket_update_handler
  create_ticket_update_handler-Added now param content who db h =
      let (u, e) =
        note_reply-created
          (add_ticket_update now (trim_space param) content (ticket_access who) none db) h in
      (u, add_ticket_update-Added now (trim_space param) content (ticket_access who) db _ u e)

  -- The rows that a request for a new date means.
  abbrev pub Meant : Text → Option Principal → Database → Type 0
  Meant number who db =
      (r : Row) × In r db.tickets
      × (has_number number r ≡ true)
      × MayAccess (ticket_access who) r.reporter

  -- What is left of a request once its date is read.
  abbrev pub Answered : Time → Text → Date → Option Principal → Database → Reply × Database → Type 0
  Answered now number date who db (r, after) =
      ((r.status ≡ 200)
        × Meant number who db
        × Redated now number date (ticket_access who) db.tickets after.tickets)
      ⊎ ((r.status ≢ 200) × (after ≡ db))

  refused-update_expected_date :
      (now : Time) (number : Text) (date : Date) (a : TicketAccess) (db : Database) (e : Error)
      → query_arguments a ≡ err e
      → update_expected_date now number date a none db ≡ (err e, db)
  unfolding update_expected_date
  refused-update_expected_date now number date a db e h = rw h refl

  dated-Answered :
      (parse_date : Text → Option Date) (now : Time) (number : Text) (date : Date)
      (who : Option Principal) (db : Database)
      → Answered now number date who db
          (set_date parse_date now number (some date) (ticket_access who) none db)
  dated-Answered parse_date now number date who db =
      elim (Result-cases (query_arguments (ticket_access who))) [
        | inl (args, granted) ↦
            elim (update_expected_date-effect now number date (ticket_access who) db
              (returns args granted)) [
                | inl (done, meant, redated) ↦ rw done (inl (refl, meant, redated))
                | inr (missing, nobody, same) ↦
                    rw missing (inr ((λ h. absurd (ground arith)), same))
              ]
        | inr (e, refused) ↦
            rw (refused-update_expected_date now number date (ticket_access who) db e refused)
              (inr ((λ h. absurd (ground arith)), refl))
      ]

  -- Where the database works, the reply to a new date is 200 only if some row has the number and may
  -- be accessed, and then those rows and no others get the date that parse_date reads in the body; every
  -- other reply leaves the database as it was.
  pub update_expected_date_handler-answer :
      (parse_date : Text → Option Date) (now : Time) (param : Text) (body : Option Text)
      (who : Option Principal) (db : Database)
      → let (r, after) = update_expected_date_handler parse_date now param body who none db in
        ((date : Date) × (text : Text) × (body ≡ some text)
          × (parse_date text ≡ some date)
          × (r.status ≡ 200)
          × Meant (trim_space param) who db
          × Redated now (trim_space param) date (ticket_access who) db.tickets after.tickets)
        ⊎ ((r.status ≢ 200) × (after ≡ db))
  unfolding update_expected_date_handler
  update_expected_date_handler-answer parse_date now param none who db =
      inr ((λ h. absurd (ground arith)), refl)
  update_expected_date_handler-answer parse_date now param (some text) who db =
      elim (Bool-cases (is_empty (trim_space param))) [
        | inl blank ↦ rw blank (inr ((λ h. absurd (ground arith)), refl))
        | inr named ↦ elim (Option-cases (parse_date text)) [
          | inl unread ↦ rw (named, unread) (inr ((λ h. absurd (ground arith)), refl))
          | inr (date, read) ↦
              rw (named, read)
                (elim (dated-Answered parse_date now (trim_space param) date who db) [
                  | inl (done, meant, redated) ↦ inl (date, text, refl, read, done, meant, redated)
                  | inr kept ↦ inr kept
                ])
        ]
      ]

module _ ⦃f : Floats⦄ {W : Type 0} (clock : W → Time × W) (sync : W → Result ℕ × W)
    (p : RefreshPolicy) where
  -- The reply to a refresh that runs alone.
  abbrev refresh_status : Coordinator → W → ℕ
  refresh_status c w = (refresh_reply (refresh_open_tickets_once clock sync p c w).0).status

  error_status :
      (result : RefreshResult) (e : Error)
      → ((refresh_error_reply result e).status ≡ 429 → errors_is e err_refresh_rejected ≡ true)
        × ((refresh_error_reply result e).status ≡ 502 → errors_is e err_refresh_rejected ≡ false)
        × ((refresh_error_reply result e).status ≢ 200)
  unfolding refresh_error_reply
  error_status result e = (ground arith, ground arith, ground arith)

  outcome_status :
      (r : Result ℕ) (c : Coordinator) (w : W)
      → ((refresh_reply (record_outcome clock sync p r c w).0).status ≡ 200) ↔ IsOk r
  unfolding record_outcome refresh_reply
  outcome_status (ok n) c w = ((λ h. returns n refl), (λ h. refl))
  outcome_status (err e) c w = (
    (λ h. absurd ((error_status (record_outcome clock sync p (err e) c w).0.0 e).2 h)),
    (λ h. elim h [ returns n k ↦ absurd (ground arith) ]),
  )

  -- A refresh is answered 200 exactly if it was let through and its synchronization succeeded.
  pub refresh_reply-IsOk_iff :
      (c : Coordinator) (w : W)
      → ((refresh_reply (refresh_open_tickets_once clock sync p c w).0).status ≡ 200)
        ↔ (((reject_refresh c (clock w).0).1 ≡ false) × IsOk (sync (clock w).1).0)
  unfolding refresh_open_tickets_once refresh_reply
  refresh_reply-IsOk_iff c w = elim (Bool-cases (reject_refresh c (clock w).0).1) [
    | inl rejected ↦ rw rejected (
      (λ h.
          absurd
            ((error_status (reject_refresh c (clock w).0).0 (sentinel err_refresh_rejected)).2 h)),
      (λ h. absurd (ground arith)),
    )
    | inr admitted ↦
        let o =
          outcome_status (sync (clock w).1).0 (reject_refresh c (clock w).0).2
            (sync (clock w).1).1 in
        rw admitted ((λ h. (refl, o.0 h)), (λ h. o.1 h.1))
  ]

-- ===== src/Api/Statistics.antt =====
-- ClosedStatisticsHandler of internal/api/ticket_handler.go. time.Parse of a date is a parameter.
use secarch_tickets.Base.{
  ℕ, ◌+◌, ◌≤◌, ◌≡◌, refl, ap, ltb, leb, Bool, false, ◌&&◌, Text, Option, none, some, Result, ok,
  err, Error, if◌then◌else◌, trim_space, length, keep, keep_ext, CaseTables,
}
use secarch_tickets.Calendar.{Date}
use secarch_tickets.Calendar.Days.{
  day_number, midnight, day_in_china, leb-midnight, ltb-midnight, day_number-next,
}
use secarch_tickets.Access.{query_arguments, row_visible}
use secarch_tickets.Auth.{Principal}
use secarch_tickets.Store.{Database, Row}
use secarch_tickets.Store.Queries.{count_closed_tickets, closed_within}
use secarch_tickets.Api.{Reply, reply, message, counted, internal_error, ticket_access}

module _ ⦃c : CaseTables⦄ (parse_date : Text → Option Date) where
  abbrev pub bad_range : Reply
  bad_range =
      reply 400
        (message "start and end must be valid YYYY-MM-DD dates and start must not be after end")

  abbrev pub count_reply : Text → Text → Result ℕ → Reply
  count_reply start end (err e) = internal_error
  count_reply start end (ok n) = reply 200 (counted start end n)

  -- The days from the first to the last, which time.Date turns into two midnights; the second is that
  -- after the last day.
  abbrev pub counted_range :
      Text → Text → Option Principal → Option Error → Database → Option Date → Option Date → Reply
  counted_range start end principal fault db (some first) (some last) =
      let next = record last { day = last.day + 1 } in
      let answer =
        count_closed_tickets (midnight (day_number first)) (midnight (day_number next))
          (ticket_access principal) fault db in
      if ltb (day_number last) (day_number first) then bad_range else count_reply start end answer
  counted_range start end principal fault db none last = bad_range
  counted_range start end principal fault db (some first) none = bad_range

  unfoldable pub closed_statistics_handler :
      Text → Text → Option Principal → Option Error → Database → Reply
  unfolding midnight day_number count_closed_tickets
  closed_statistics_handler start end principal fault db =
      let start_text = trim_space start in
      let end_text = trim_space end in
      counted_range start_text end_text principal fault db (parse_date start_text)
        (parse_date end_text)

  -- The row's ticket was closed on one of the days in China from the first to the last.
  abbrev pub closed_on : Date → Date → Option ℕ → Bool
  closed_on first last none = false
  closed_on first last (some t) =
      leb (day_number first) (day_in_china t) && leb (day_in_china t) (day_number last)

  closed_within-closed_on :
      (first last : Date)
      → 1 ≤ last.day
      → (o : Option ℕ)
      → closed_within
          (midnight (day_number first))
          (midnight (day_number (record last { day = last.day + 1 })))
          o
        ≡ closed_on first last o
  closed_within-closed_on first last h none = refl
  closed_within-closed_on first last h (some t) =
      rw (day_number-next last h)
        (rw (leb-midnight (day_number first) t) (rw (ltb-midnight t (day_number last)) refl))

  -- Where the database works and the caller is known, the statistics of two dates count the tickets that
  -- the caller may access and whose closing fell, in China, on a day from the first to the last, both
  -- included; an end before the start is refused.
  pub closed_statistics_handler-counts :
      (start end : Text) (principal : Option Principal) (db : Database) (first last : Date)
      (args : Bool × Text)
      → parse_date (trim_space start) ≡ some first
      → parse_date (trim_space end) ≡ some last
      → 1 ≤ last.day
      → query_arguments (ticket_access principal) ≡ ok args
      → closed_statistics_handler start end principal none db ≡ (
          if ltb (day_number last) (day_number first)
          then bad_range
          else reply 200 (
              counted (trim_space start) (trim_space end) (
                length (
                  keep
                    (λ (r : Row).
                      closed_on first last r.ticket_closed_at && row_visible args r.reporter)
                    db.tickets))))
  unfolding closed_statistics_handler count_closed_tickets
  closed_statistics_handler-counts start end principal db first last args h k valid known = rw h (
      rw k (
        rw known (
          rw
            (keep_ext _ _
              (λ (r : Row).
                ap (λ b. b && row_visible args r.reporter)
                  (closed_within-closed_on first last valid r.ticket_closed_at))
              db.tickets)
            refl)))

-- ===== src/Tests/Statistics.antt =====
-- One ticket that is closed on the last minute of 30 April 2026 in China, and one that is open.
use secarch_tickets.Base.{
  ◌+◌, ◌-◌, ◌*◌, ◌≡◌, refl, Text, codes, some, none, [], ◌∷◌, true, Option, trim_space, trim,
  is_space, if◌then◌else◌, ltb, length, keep, ◌&&◌, arith,
}
use secarch_tickets.Base.Floats.{second}
use secarch_tickets.Calendar.{Date}
use secarch_tickets.Calendar.Days.{day_number}
use secarch_tickets.Access.{query_arguments, row_visible}
use secarch_tickets.Auth.{Principal}
use secarch_tickets.Store.{Database, Row}
use secarch_tickets.Api.{reply, counted}
use secarch_tickets.Api.Statistics.{
  bad_range, closed_on, closed_statistics_handler, closed_statistics_handler-counts,
}
use secarch_tickets.Tests.{ascii, database, row, april}

abbrev admin : Option Principal
admin = some (record { username = codes "root"; groups = []; is_admin = true })

abbrev closed : Row
closed = record row {
  ticket_closed_at = some ((day_number april + 1) * (86_400 * second) - 28_860 * second);
}

abbrev two : Database
two = record database { tickets = closed ∷ row ∷ [] }

abbrev read_april : Text → Option Date
read_april text = some april

one_day_run :
    closed_statistics_handler read_april (codes "2026-04-30") (codes "2026-04-30 ") admin none two
    ≡ reply 200 (counted (codes "2026-04-30") (codes "2026-04-30") 1)
unfolding closed_statistics_handler query_arguments trim row_visible is_space
one_day_run = refl

closed_statistics_handler-counts_example :
    closed_statistics_handler read_april (codes "2026-04-30") (codes "2026-04-30 ") admin none two
    ≡ (if ltb (day_number april) (day_number april)
        then bad_range read_april
        else reply 200 (
            counted (trim_space (codes "2026-04-30")) (trim_space (codes "2026-04-30 ")) (
              length (
                keep
                  (λ (r : Row).
                    closed_on read_april april april r.ticket_closed_at
                    && row_visible (true, []) r.reporter)
                  (closed ∷ row ∷ [])))))
unfolding query_arguments
closed_statistics_handler-counts_example =
    closed_statistics_handler-counts read_april (codes "2026-04-30") (codes "2026-04-30 ") admin two
      april april (true, []) refl refl (omega arith) refl

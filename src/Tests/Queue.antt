-- ===== src/Tests/Queue.antt =====
-- ListTickets on a queue of one page.
use secarch_tickets.Base.Sorting.{sort_by}
use secarch_tickets.Cmdb.Keys.{is_issue_key, find_system_key, is_pattern_space}
use secarch_tickets.Base.{
  ℕ, ◌≡◌, ◌≢◌, refl, arith, Text, codes, some, none, List, [], ◌∷◌, ok, trim, is_space,
}
use secarch_tickets.Base.Int.{pos}
use secarch_tickets.Cmdb.Types.{Ticket}
use secarch_tickets.Cmdb.Queue.{Issue, Response, TicketApi, list_tickets}
use secarch_tickets.Cmdb.Queue.Listing.{list_tickets-Listed}
use secarch_tickets.Cmdb.Queue.Fuel.{Reports, list_tickets-ends}
use secarch_tickets.Store.Repeat.{Listed}
use secarch_tickets.Tests.{ascii}

abbrev issue : Issue
issue = record {
  assignee = none;
  cmdb_system_name = some (codes "Ledger (sys-7)" ∷ []);
  created = codes "2026-01-31T10:00:00Z";
  reporter = codes "Ann";
  resolved = none;
  summary = codes "Review";
}

abbrev response : Response
response = record { issues = (codes "SEC-1", issue) ∷ []; total = pos 1; meta_total = pos 0 }

abbrev queue : TicketApi (Unit {0})
queue = record {
  fetch_ticket_page = λ jql n w. (ok response, w);
  fetch_ticket_by_key = λ key w. (ok response, w);
  parse = λ layout value. some 5000;
  page_size = 50;
}

abbrev listed : List Ticket
listed =
    record {
      assignee = none;
      cmdb_system_name = some (codes "Ledger" ∷ []);
      cmdb_system_key = codes "SYS-7";
      cmdb_system_label = codes "Ledger";
      department = [];
      ticket_created_at = 5000;
      reporter = codes "Ann";
      ticket_closed_at = none;
      summary = codes "Review";
      ticket_number = codes "SEC-1";
    }
    ∷ []

queue_run : list_tickets queue 2 (codes "project = SEC") tt ≡ some (ok listed, tt)
unfolding list_tickets trim is_space is_issue_key find_system_key is_pattern_space sort_by
queue_run = refl

list_tickets-Listed_example : Listed listed
list_tickets-Listed_example =
    list_tickets-Listed queue 2 (codes "project = SEC") tt tt listed queue_run

queue-Reports :
    (jql : Text) (n : ℕ) (w : Unit {0}) (r : Response)
    → (queue.fetch_ticket_page jql n w).0 ≡ ok r
    → Reports 1 r
queue-Reports jql n w r h =
    let same : response ≡ r = ground arith in
    rw (← same) (record { count = 1; reported = refl; bounds = (omega arith, omega arith) })

list_tickets-ends_example : list_tickets queue 2 (codes "project = SEC") tt ≢ none
list_tickets-ends_example = list_tickets-ends queue 1 queue-Reports (codes "project = SEC") tt

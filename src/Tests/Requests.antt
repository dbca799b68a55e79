-- ===== src/Tests/Requests.antt =====
-- Notes, queries to the CMDB, and a synchronization with a System that cannot be resolved.
use secarch_tickets.Access.{query_arguments, row_visible}
use secarch_tickets.Base.{
  Text, ◌≡◌, ◌⊎◌, ◌++◌, refl, codes, some, none, List, [], ◌∷◌, map, true, false, ok, err, failed,
  All, join, trim_space, contains_char, trim, is_space,
}
use secarch_tickets.Base.Sorting.{sort_by}
use secarch_tickets.Cmdb.Types.{SystemReference}
use secarch_tickets.Cmdb.Keys.{is_issue_key, find_system_key, is_pattern_space}
use secarch_tickets.Cmdb.Jql.{quoted, normal_key, ticket_keys_jql, ticket_keys_jql-safe}
use secarch_tickets.Cmdb.Reference.{
  parse_ticket_system_reference, non_empty, elements, no_reference, Source, parse-key,
}
use secarch_tickets.Store.{UpdateRow, Database, has_number}
use secarch_tickets.Notes.{normalize_ticket_update_content, add_ticket_update, list_ticket_updates}
use secarch_tickets.Notes.Kept.{Added, add_ticket_update-Added}
use secarch_tickets.Notes.Listed.{Listing, list_ticket_updates-newest}
use secarch_tickets.Sync.World.{World}
use secarch_tickets.Sync.Isolate.{resolve_departments_isolated}
use secarch_tickets.Sync.Isolate.Errors.{Cause, isolated_errors}
use secarch_tickets.Tests.{ascii, ticket, note, database, works, ann}

normal_run : normalize_ticket_update_content (codes " done ") ≡ ok (codes "done")
unfolding normalize_ticket_update_content trim is_space
normal_run = refl

abbrev noted : Database
noted = record database {
  updates = note ∷ record { id = 2; ticket_id = 1; content = codes "done"; created_at = 9000 } ∷ [];
  next_update_id = 3;
}

add_run :
    add_ticket_update 9000 (codes "SEC-1") (codes " done ") ann none database
    ≡ (ok (record { id = 2; content = codes "done"; created_at = 9000 }), noted)
unfolding add_ticket_update trim is_space query_arguments has_number row_visible
add_run = refl

add_ticket_update-Added_example :
    Added 9000
      (codes "SEC-1")
      (codes " done ")
      ann
      database
      noted
      (record { id = 2; content = codes "done"; created_at = 9000 })
add_ticket_update-Added_example =
    add_ticket_update-Added 9000 (codes "SEC-1") (codes " done ") ann database noted _ add_run

abbrev shown : List UpdateRow
shown = record { id = 2; ticket_id = 1; content = codes "done"; created_at = 9000 } ∷ note ∷ []

list_run : list_ticket_updates (codes "SEC-1") ann none none noted ≡ ok shown
unfolding list_ticket_updates trim is_space query_arguments has_number row_visible sort_by
list_run = refl

list_ticket_updates-newest_example : Listing (codes "SEC-1") ann noted shown
list_ticket_updates-newest_example =
    list_ticket_updates-newest (codes "SEC-1") ann noted shown list_run

jql_run : ticket_keys_jql (codes "sec-1" ∷ []) ≡ ok (codes "key IN (\"SEC-1\")")
unfolding ticket_keys_jql is_issue_key trim is_space
jql_run = refl

ticket_keys_jql-safe_example :
    (codes "key IN (\"SEC-1\")"
      ≡ codes "key IN ("
        ++ (join (map quoted (map normal_key (codes "sec-1" ∷ []))) (codes ",") ++ codes ")"))
    × All
        (λ key.
          (is_issue_key (normal_key key) ≡ true) × (contains_char (normal_key key) 34 ≡ false))
        (codes "sec-1" ∷ [])
ticket_keys_jql-safe_example = ticket_keys_jql-safe (codes "sec-1" ∷ []) _ jql_run

sec_is_key : is_issue_key (codes "sec-1") ≡ true
unfolding is_issue_key
sec_is_key = refl

abbrev ledger : SystemReference
ledger = record { key = codes "SYS-7"; name = codes "Ledger" }

parse_run : parse_ticket_system_reference (some (codes "Ledger (sys-7)" ∷ [])) ≡ ok ledger
unfolding parse_ticket_system_reference trim is_space is_issue_key find_system_key is_pattern_space
parse_run = refl

parse-key_example :
    ((v : Text) × (non_empty (elements (some (codes "Ledger (sys-7)" ∷ []))) ≡ v ∷ [])
      × Source v ledger
      × (is_issue_key (codes "SYS-7") ≡ true)
      × (trim_space (codes "Ledger") ≡ codes "Ledger"))
    ⊎ ((non_empty (elements (some (codes "Ledger (sys-7)" ∷ []))) ≡ []) × (ledger ≡ no_reference))
parse-key_example = parse-key (some (codes "Ledger (sys-7)" ∷ [])) ledger parse_run

-- A CMDB that cannot be reached.
abbrev unreachable : World (Unit {0})
unreachable = record {
  get_ticket = λ k w. (ok ticket, w);
  list_tickets = λ q w. (ok [], w);
  resolve_departments = λ rs w. (err (failed "connection refused"), w);
  ctx_err = λ w. none;
  clock = λ w. (9000, w);
  query = λ w. (none, w);
  server = λ w. (works, w);
  others = λ w db. db;
}

isolated_run :
    (resolve_departments_isolated unreachable (ledger ∷ []) tt).0
    ≡ err (failed "connection refused")
unfolding resolve_departments_isolated sort_by
isolated_run = refl

isolated_errors_example : Cause unreachable (failed "connection refused")
isolated_errors_example = isolated_errors unreachable (ledger ∷ []) tt _ isolated_run

-- ===== src/Cmdb/Queue.antt =====
-- ListTickets and GetTicket of internal/cmdb/ticket_client.go, over the answers of the HTTP API as
-- they are decoded. Package time's Parse is a parameter.
pub mod Listing
pub mod Fuel
use secarch_tickets.Base.{
  ℕ, zero, suc, ◌+◌, max, min, ltb, Bool, true, false, ◌&&◌, not, Text, codes, List, [], ◌∷◌,
  Option, none, some, Map, lookup, insert, keys, Result, ok, err, Error, failed, wrapped, sentinel,
  api_status, err_cmdb_ticket_not_found, wrap_err, ◌>>=◌, if◌then◌else◌, ◌==◌, nat_eq, list_eq,
  is_empty, trim_space, to_upper, length, CaseTables,
}
use secarch_tickets.Base.Int.{ℤ, pos, negsuc}
use secarch_tickets.Base.Sorting.{sort_strings}
use secarch_tickets.Cmdb.Types.{Time, Slice, Ticket}
use secarch_tickets.Cmdb.Keys.{is_issue_key}
use secarch_tickets.Cmdb.Reference.{parse_ticket_system_reference}

-- TicketQueueAPIResponseIssue
pub record Issue : Type 0 where
  pub assignee : Option Text
  pub cmdb_system_name : Slice
  pub created : Text
  pub reporter : Text
  pub resolved : Option Text
  pub summary : Text

-- TicketQueueAPIResponse; a missing map of issues is decoded as an empty one.
pub record Response : Type 0 where
  pub issues : Map Text Issue
  pub total : ℤ
  pub meta_total : ℤ

-- The requests, and time.Parse of a layout and a value.
pub record TicketApi (W : Type 0) : Type 0 where
  pub fetch_ticket_page : Text → ℕ → W → Result Response × W
  pub fetch_ticket_by_key : Text → W → Result Response × W
  pub parse : Text → Text → Option Time
  pub page_size : ℕ

-- max of two ints
abbrev pub max_int : ℤ → ℤ → ℤ
max_int (pos a) (pos b) = pos (max a b)
max_int (pos a) (negsuc b) = pos a
max_int (negsuc a) (pos b) = pos b
max_int (negsuc a) (negsuc b) = negsuc (min a b)

-- i > n
abbrev pub exceeds : ℤ → ℕ → Bool
exceeds (pos m) n = ltb n m
exceeds (negsuc m) n = false

-- i == 0
abbrev pub is_zero : ℤ → Bool
is_zero (pos n) = n == 0
is_zero (negsuc n) = false

abbrev pub layouts : List Text
layouts =
    codes "2006-01-02T15:04:05.000-0700"
    ∷ codes "2006-01-02T15:04:05-0700"
    ∷ codes "2006-01-02T15:04:05.999999999Z07:00"
    ∷ codes "2006-01-02T15:04:05Z07:00"
    ∷ []

-- The first layout that fits.
abbrev pub parse_first : (Text → Text → Option Time) → List Text → Text → Result Time
parse_first parse [] value = err (failed "unsupported CMDB timestamp")
parse_first parse (layout ∷ rest) value = elim (parse layout value) [
  | some t ↦ ok t
  | none ↦ parse_first parse rest value
]

unfoldable pub parse_cmdb_time : (Text → Text → Option Time) → Text → Result Time
parse_cmdb_time parse value = parse_first parse layouts (trim_space value)

unfoldable pub closed_time : (Text → Text → Option Time) → Option Text → Result (Option Time)
unfolding parse_cmdb_time
closed_time parse none = ok none
closed_time parse (some value) =
    if is_empty (trim_space value)
    then ok none
    else do t ← wrap_err "parse resolved time" (parse_cmdb_time parse value); ok (some t)

-- What the loop does after a page: it stops with the tickets or an error, or asks for the next.
pub data Step : Type 0 where
  stop : Result (Map Text Ticket) → Step
  next : ℕ → Map Text Ticket → Step

unfoldable pub turn_page : ℕ → ℕ → Map Text Ticket → Response → Map Text Ticket → Step
turn_page page_size start_at before response after =
    let page_count = length response.issues in
    let total = max_int response.total response.meta_total in
    let start_at' = start_at + page_count in
    if page_count == 0
    then (if exceeds total start_at
        then stop (err (failed "ticket pagination ended before total"))
        else stop (ok after))
    else if exceeds total 0 && not (exceeds total start_at')
    then stop (ok after)
    else if length after == length before
    then stop (err (failed "ticket pagination made no progress"))
    else if is_zero total && ltb page_count page_size
    then stop (ok after)
    else next start_at' after

abbrev pub continue_pages :
    {W A : Type 0}
    → Step
    → W
    → (ℕ → Map Text Ticket → W → Option (Result A × W))
    → (Map Text Ticket → A)
    → Option (Result A × W)
continue_pages (stop (err e)) w more finish = some (err e, w)
continue_pages (stop (ok tickets)) w more finish = some (ok (finish tickets), w)
continue_pages (next start_at tickets) w more finish = more start_at tickets w

abbrev pub add_found : Option Ticket → List Ticket → List Ticket
add_found none ts = ts
add_found (some t) ts = t ∷ ts

abbrev pub in_order_of : Map Text Ticket → List Text → List Ticket
in_order_of tickets [] = []
in_order_of tickets (k ∷ ks) = add_found (lookup k tickets) (in_order_of tickets ks)

unfoldable pub sorted_tickets : Map Text Ticket → List Ticket
sorted_tickets tickets = in_order_of tickets (sort_strings (keys tickets))

-- The end of a page: its issues were collected, or one of them is malformed.
unfoldable pub end_page : ℕ → ℕ → Map Text Ticket → Response → Result (Map Text Ticket) → Step
unfolding turn_page
end_page page_size start_at before response (err e) = stop (err e)
end_page page_size start_at before response (ok after) =
    turn_page page_size start_at before response after

module _ ⦃c : CaseTables⦄ where
  -- The ticket of an issue whose key is not blank.
  unfoldable pub ticket_of_issue : (Text → Text → Option Time) → Text → Issue → Result Ticket
  unfolding parse_cmdb_time closed_time parse_ticket_system_reference
  ticket_of_issue parse key issue = do
    created ← wrap_err "parse created time" (parse_cmdb_time parse issue.created)
    closed ← closed_time parse issue.resolved
    system ←
        wrap_err "normalize CMDB System Name" (parse_ticket_system_reference issue.cmdb_system_name)
    ok (record {
      assignee = issue.assignee;
      cmdb_system_name =
          if is_empty system.name then issue.cmdb_system_name else some (system.name ∷ []);
      cmdb_system_key = system.key;
      cmdb_system_label = system.name;
      department = [];
      ticket_created_at = created;
      reporter = issue.reporter;
      ticket_closed_at = closed;
      summary = issue.summary;
      ticket_number = key;
    })

  unfoldable pub normalize_ticket : (Text → Text → Option Time) → Text → Issue → Result Ticket
  unfolding ticket_of_issue
  normalize_ticket parse issue_key issue =
      let key = trim_space issue_key in
      if is_empty key
      then err (failed "CMDB returned an issue with an empty key")
      else ticket_of_issue parse key issue

  -- The loop over the issues of a page.
  unfoldable pub collect_issues :
      (Text → Text → Option Time) → Map Text Issue → Map Text Ticket → Result (Map Text Ticket)
  unfolding normalize_ticket
  collect_issues parse [] tickets = ok tickets
  collect_issues parse ((key, issue) ∷ rest) tickets = do
    ticket ← normalize_ticket parse key issue
    collect_issues parse rest (insert ticket.ticket_number ticket tickets)

  -- errors.As(err, &statusErr) && statusErr.StatusCode == http.StatusNotFound
  abbrev pub is_not_found : Error → Bool
  is_not_found (sentinel s) = false
  is_not_found (failed m) = false
  is_not_found (api_status code) = code == 404
  is_not_found (wrapped m e) = is_not_found e

  abbrev pub no_such_ticket : Error
  no_such_ticket = wrapped "ticket" (sentinel err_cmdb_ticket_not_found)

  -- What GetTicket makes of the answer.
  unfoldable pub single_ticket : (Text → Text → Option Time) → Result Response → Result Ticket
  unfolding normalize_ticket
  single_ticket parse (err e) = if is_not_found e then err no_such_ticket else err e
  single_ticket parse (ok response) = elim response.issues [
    | [] ↦ err no_such_ticket
    | i ∷ rest ↦ elim rest [
      | [] ↦ normalize_ticket parse i.0 i.1
      | j ∷ more ↦ err (failed "unexpected multiple issues")
    ]
  ]

module _ ⦃c : CaseTables⦄ {W : Type 0} (api : TicketApi W) where
  unfoldable pub get_ticket : Text → W → Result Ticket × W
  unfolding single_ticket
  get_ticket ticket_number w =
      let number = trim_space ticket_number in
      let (answer, w') = api.fetch_ticket_by_key (to_upper number) w in
      if is_issue_key number
      then (single_ticket api.parse answer, w')
      else (err (failed "invalid ticket key"), w)

  -- One turn of the loop, from the answer on.
  unfoldable pub read_page : ℕ → Map Text Ticket → Result Response → Step
  unfolding end_page collect_issues
  read_page start_at tickets (err e) = stop (err (wrapped "fetch ticket page" e))
  read_page start_at tickets (ok response) =
      end_page api.page_size start_at tickets response
        (collect_issues api.parse response.issues tickets)

  -- The loop; `none` is fuel that did not suffice.
  unfoldable pub fetch_pages :
      ℕ → Text → ℕ → Map Text Ticket → W → Option (Result (List Ticket) × W)
  unfolding read_page sorted_tickets
  fetch_pages zero jql start_at tickets w = none
  fetch_pages (suc fuel) jql start_at tickets w =
      let (answer, w') = api.fetch_ticket_page jql start_at w in
      continue_pages (read_page start_at tickets answer) w' (fetch_pages fuel jql) sorted_tickets

  unfoldable pub list_tickets : ℕ → Text → W → Option (Result (List Ticket) × W)
  unfolding fetch_pages
  list_tickets fuel jql w =
      let query = trim_space jql in
      let run = fetch_pages fuel query 0 [] w in
      if is_empty query then some (err (failed "ticket JQL must not be empty"), w) else run

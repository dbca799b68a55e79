-- ===== src/Sync/Tracked.antt =====
-- fetchMissingTrackedTickets: tickets that are open here but absent from the queue are asked for
-- by key, in batches, and one by one where a batch does not return them.
pub mod Batches
use secarch_tickets.Base.{
  ℕ, zero, suc, Bool, true, false, Text, List, [], ◌∷◌, ◌++◌, Option, none, some, Result, ok, err,
  Error, wrapped, errors_is, err_cmdb_ticket_not_found, if◌then◌else◌, ◌==◌, nat_eq, list_eq,
  length, take, drop, trim_space, to_upper, CaseTables, any,
}
use secarch_tickets.Base.Sorting.{sort_strings}
use secarch_tickets.Cmdb.Types.{Ticket}
use secarch_tickets.Cmdb.Jql.{ticket_keys_jql}
use secarch_tickets.Sync.World.{World, Exec}

-- The slices candidates[start:end] of the loop; its length is enough fuel for a positive size.
unfoldable pub batches : ℕ → ℕ → List Text → List (List Text)
batches fuel size [] = []
batches zero size (c ∷ cs) = []
batches (suc fuel) size (c ∷ cs) = take size (c ∷ cs) ∷ batches fuel size (drop size (c ∷ cs))

module _ ⦃t : CaseTables⦄ where
  abbrev pub normal_number : Text → Text
  normal_number s = to_upper (trim_space s)

  -- The numbers that a lookup returned.
  abbrev pub returned_numbers : List (Option Ticket) → List Text
  returned_numbers [] = []
  returned_numbers (none ∷ ts) = returned_numbers ts
  returned_numbers (some x ∷ ts) = normal_number x.ticket_number ∷ returned_numbers ts

-- append(tracked, results...) before what follows.
abbrev pub append_to :
    {W : Type 0}
    → List (Option Ticket)
    → Result (List (Option Ticket)) × W
    → Result (List (Option Ticket)) × W
append_to ts (err e, w) = (err e, w)
append_to ts (ok rest, w) = (ok (ts ++ rest), w)

-- A lookup that fails returns nothing.
abbrev pub results_of : Result (List (Option Ticket)) → List (Option Ticket)
results_of (err e) = []
results_of (ok ts) = ts

module _ {W : Type 0} where
  -- What follows GetTicket.
  unfoldable pub after_ticket :
      Result Ticket × W → Exec W (List (Option Ticket)) → Result (List (Option Ticket)) × W
  after_ticket (ok x, w) rest = append_to (some x ∷ []) (rest w)
  after_ticket (err e, w) rest =
      if errors_is e err_cmdb_ticket_not_found
      then rest w
      else (err (wrapped "refresh tracked ticket by issueKey" e), w)

  -- The retries, then the batches that follow.
  abbrev pub then_batches :
      Result (List (Option Ticket)) × W
      → Exec W (List (Option Ticket))
      → Result (List (Option Ticket)) × W
  then_batches (err e, w) rest = (err e, w)
  then_batches (ok ts, w) rest = append_to ts (rest w)

module _ ⦃t : CaseTables⦄ {W : Type 0} (world : World W) where
  -- The candidates that the batch omitted, by GetTicket.
  unfoldable pub retry_omitted : List Text → List Text → Exec W (List (Option Ticket))
  unfolding after_ticket
  retry_omitted returned [] w = (ok [], w)
  retry_omitted returned (c ∷ cs) w =
      let candidate = normal_number c in
      let rest = retry_omitted returned cs in
      if any (λ n. n == candidate) returned
      then rest w
      else after_ticket (world.get_ticket candidate w) rest

  -- One batch, once its query is built; `rest` are the batches that follow.
  abbrev pub fetch_batch :
      List Text → Result Text → Exec W (List (Option Ticket)) → Exec W (List (Option Ticket))
  fetch_batch batch (err e) rest w = (err e, w)
  fetch_batch batch (ok jql) rest w =
      let (answer, w') = world.list_tickets jql w in
      let results = results_of answer in
      append_to results (then_batches (retry_omitted (returned_numbers results) batch w') rest)

  unfoldable pub fetch_batches : List (List Text) → Exec W (List (Option Ticket))
  unfolding retry_omitted ticket_keys_jql
  fetch_batches [] w = (ok [], w)
  fetch_batches (batch ∷ more) w = fetch_batch batch (ticket_keys_jql batch) (fetch_batches more) w

  unfoldable pub fetch_missing_tracked_tickets : ℕ → List Text → Exec W (List (Option Ticket))
  unfolding fetch_batches batches
  fetch_missing_tracked_tickets size candidates =
      let sorted = sort_strings candidates in fetch_batches (batches (length sorted) size sorted)

-- ===== src/Cmdb/Queue/Fuel.antt =====
-- How long ListTickets goes on.
use secarch_tickets.Base.{
  ℕ, zero, suc, ◌+◌, ◌≤◌, ◌<◌, ◌≡◌, ◌≢◌, refl, Text, List, [], Option, none, Map, Result, ok, err,
  nat_eq, is_empty, trim_space, CaseTables, arith, inl, inr, Bool-cases,
}
use secarch_tickets.Base.Int.{pos}
use secarch_tickets.Cmdb.Types.{Ticket}
use secarch_tickets.Cmdb.Queue.{
  Response, TicketApi, max_int, Step, stop, next, turn_page, end_page, continue_pages,
  sorted_tickets, read_page, fetch_pages, list_tickets,
}

-- The response reports a total that is positive and at most `most`.
pub record Reports (most : ℕ) (r : Response) : Type 0 where
  pub count : ℕ
  pub reported : max_int r.total r.meta_total ≡ pos count
  pub bounds : (1 ≤ count) × (count ≤ most)

turn_page-advances :
    (most page_size start_at : ℕ) (before : Map Text Ticket) (r : Response)
    (after m : Map Text Ticket) (n : ℕ)
    → Reports most r
    → turn_page page_size start_at before r after ≡ next n m
    → (start_at < n) × (n < most)
unfolding turn_page
turn_page-advances most page_size start_at before r after m n t h =
    let k = rw (turn_page, t.reported) at h in ground (arith, t.bounds)

end_page-advances :
    (most page_size start_at : ℕ) (before : Map Text Ticket) (r : Response)
    (collected : Result (Map Text Ticket)) (n : ℕ) (m : Map Text Ticket)
    → Reports most r
    → end_page page_size start_at before r collected ≡ next n m
    → (start_at < n) × (n < most)
unfolding end_page
end_page-advances most page_size start_at before r (err e) n m t h = absurd (ground arith)
end_page-advances most page_size start_at before r (ok after) n m t h =
    turn_page-advances most page_size start_at before r after m n t h

continue_pages-ends :
    {W : Type 0} (step : Step) (w : W)
    (more : ℕ → Map Text Ticket → W → Option (Result (List Ticket) × W))
    → ((n : ℕ) (m : Map Text Ticket) → step ≡ next n m → more n m w ≢ none)
    → continue_pages step w more sorted_tickets ≢ none
continue_pages-ends (stop (err e)) w more h k = absurd (ground arith)
continue_pages-ends (stop (ok m)) w more h k = absurd (ground arith)
continue_pages-ends (next n m) w more h k = h n m refl k

module _ ⦃c : CaseTables⦄ {W : Type 0} (api : TicketApi W) (most : ℕ)
    (steady : (jql : Text) (n : ℕ) (w : W) (r : Response)
      → (api.fetch_ticket_page jql n w).0 ≡ ok r
      → Reports most r) where
  read_page-advances :
      (start_at : ℕ) (tickets : Map Text Ticket) (answer : Result Response) (n : ℕ)
      (m : Map Text Ticket)
      → ((r : Response) → answer ≡ ok r → Reports most r)
      → read_page api start_at tickets answer ≡ next n m
      → (start_at < n) × (n < most)
  unfolding read_page
  read_page-advances start_at tickets (err e) n m h k = absurd (ground arith)
  read_page-advances start_at tickets (ok r) n m h k =
      end_page-advances most api.page_size start_at tickets r _ n m (h r refl) k

  fetch_pages-ends :
      (fuel : ℕ) (jql : Text) (start_at : ℕ) (tickets : Map Text Ticket) (w : W)
      → start_at ≤ most
      → most < fuel + start_at
      → fetch_pages api fuel jql start_at tickets w ≢ none
  unfolding fetch_pages
  fetch_pages-ends zero jql start_at tickets w l f = absurd (omega arith)
  fetch_pages-ends (suc fuel) jql start_at tickets w l f =
      let (answer, w') = api.fetch_ticket_page jql start_at w in
      continue_pages-ends (read_page api start_at tickets answer) w' _ λ n m k.
        let (ahead, within) =
          read_page-advances start_at tickets answer n m (steady jql start_at w) k in
        fetch_pages-ends fuel jql n m w' (omega arith) (omega arith)

  -- Where every page reports a positive total of at most `most` tickets, ListTickets ends after at
  -- most that many pages and one, whatever the pages hold.
  pub list_tickets-ends : (jql : Text) (w : W) → list_tickets api (suc most) jql w ≢ none
  unfolding list_tickets
  list_tickets-ends jql w h = elim (Bool-cases (is_empty (trim_space jql))) [
    | inl blank ↦ absurd (ground arith)
    | inr query ↦
        fetch_pages-ends (suc most) (trim_space jql) 0 [] w (omega arith) (omega arith)
          (rw query at h)
  ]

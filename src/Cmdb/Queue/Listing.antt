-- ===== src/Cmdb/Queue/Listing.antt =====
-- The tickets that ListTickets returns are those that persistTicketSync expects.
use secarch_tickets.Base.{
  ℕ, zero, suc, ◌≡◌, ◌≢◌, refl, sym, ◌∙◌, Bool, false, Text, List, [], ◌∷◌, Option, none, some, Map,
  lookup, insert, lookup-insert, keys, Result, ok, err, ◌==◌, nat_eq, list_eq, ==-iff, is_empty,
  trim_space, trim_space_idem, CaseTables, All, arith, inl, inr, Bool-cases, >>=-eq-ok,
  ok-injective,
}
use secarch_tickets.Base.Sorting.{sort_strings, sort_by, insert_by, All-sort_by}
use secarch_tickets.Cmdb.Types.{Time, Ticket}
use secarch_tickets.Cmdb.Queue.{
  Issue, Response, TicketApi, ticket_of_issue, normalize_ticket, collect_issues, Step, stop, next,
  turn_page, end_page, add_found, read_page, in_order_of, sorted_tickets, fetch_pages, list_tickets,
  continue_pages,
}
use secarch_tickets.Store.Repeat.{Listed}

abbrev Distinct : List Text → Type 0
Distinct [] = Unit
Distinct (k ∷ ks) = All (λ (j : Text). j ≢ k) ks × Distinct ks

Distinct-insert_by :
    (le : Text → Text → Bool) (k : Text) (ks : List Text)
    → All (λ (j : Text). j ≢ k) ks
    → Distinct ks
    → Distinct (insert_by le k ks)
unfolding insert_by
Distinct-insert_by le k [] a d = (tt, tt)
Distinct-insert_by le k (j ∷ js) (a, rest) (b, d) = elim (Bool-cases (le k j)) [
  | inl first ↦ rw first ((a, rest), (b, d))
  | inr later ↦
      rw later (All-insert_ne le j k js (λ e. a (sym e)) b, Distinct-insert_by le k js rest d)
]
  where
    All-insert_ne :
        (le : Text → Text → Bool) (j k : Text) (js : List Text)
        → k ≢ j
        → All (λ (i : Text). i ≢ j) js
        → All (λ (i : Text). i ≢ j) (insert_by le k js)
    All-insert_ne le j k [] n h = (n, tt)
    All-insert_ne le j k (i ∷ is) n (h, hs) = elim (Bool-cases (le k i)) [
      | inl first ↦ rw first (n, (h, hs))
      | inr later ↦ rw later (h, All-insert_ne le j k is n hs)
    ]

Distinct-sort_by :
    (le : Text → Text → Bool) (ks : List Text) → Distinct ks → Distinct (sort_by le ks)
unfolding sort_by
Distinct-sort_by le [] d = tt
Distinct-sort_by le (k ∷ ks) (a, d) =
    Distinct-insert_by le k (sort_by le ks) (All-sort_by le (λ (j : Text). j ≢ k) ks a)
      (Distinct-sort_by le ks d)

-- A map of tickets by their numbers, none of which is blank.
pub record ByNumber (m : Map Text Ticket) : Type 0 where
  pub distinct : Distinct (keys m)
  pub numbered :
      (k : Text) (t : Ticket)
      → lookup k m ≡ some t
      → (t.ticket_number ≡ k) × (is_empty (trim_space k) ≡ false)

All-keys-insert :
    (j k : Text) (t : Ticket) (m : Map Text Ticket)
    → k ≢ j
    → All (λ (i : Text). i ≢ j) (keys m)
    → All (λ (i : Text). i ≢ j) (keys (insert k t m))
All-keys-insert j k t [] n h = (n, tt)
All-keys-insert j k t ((i, u) ∷ m) n (h, hs) = elim (Bool-cases (i == k)) [
  | inl same ↦ rw same (n, hs)
  | inr other ↦ rw other (h, All-keys-insert j k t m n hs)
]

Distinct-keys-insert :
    (k : Text) (t : Ticket) (m : Map Text Ticket)
    → Distinct (keys m)
    → Distinct (keys (insert k t m))
Distinct-keys-insert k t [] d = (tt, tt)
Distinct-keys-insert k t ((i, u) ∷ m) (a, d) = elim (Bool-cases (i == k)) [
  | inl same ↦ rw same (rw (← (==-iff i k).0 same) a, d)
  | inr other ↦ rw other (
    All-keys-insert i k t m (λ e. cc (other, (==-iff i k).1 (sym e))) a,
    Distinct-keys-insert k t m d,
  )
]

insert-ByNumber :
    (t : Ticket) (m : Map Text Ticket)
    → is_empty (trim_space t.ticket_number) ≡ false
    → ByNumber m
    → ByNumber (insert t.ticket_number t m)
insert-ByNumber t m named v = record {
  distinct = Distinct-keys-insert t.ticket_number t m v.distinct;
  numbered = λ k u e. ground (
    arith,
    lookup-insert t.ticket_number k t m,
    ==-iff t.ticket_number k,
    v.numbered k u,
    named,
    e,
  );
}

module _ ⦃c : CaseTables⦄ where
  ticket_of_issue-number :
      (parse : Text → Text → Option Time) (key : Text) (issue : Issue) (t : Ticket)
      → ticket_of_issue parse key issue ≡ ok t
      → t.ticket_number ≡ key
  unfolding ticket_of_issue
  ticket_of_issue-number parse key issue t h = ground arith

  normalize_ticket-named :
      (parse : Text → Text → Option Time) (key : Text) (issue : Issue) (t : Ticket)
      → normalize_ticket parse key issue ≡ ok t
      → is_empty (trim_space t.ticket_number) ≡ false
  unfolding normalize_ticket
  normalize_ticket-named parse key issue t h = elim (Bool-cases (is_empty (trim_space key))) [
    | inl blank ↦ absurd (ground arith)
    | inr named ↦
        let e = ticket_of_issue-number parse (trim_space key) issue t (rw named at h) in
        rw e (rw (trim_space_idem key) named)
  ]

  collect_issues-ByNumber :
      (parse : Text → Text → Option Time) (issues : Map Text Issue) (m after : Map Text Ticket)
      → ByNumber m
      → collect_issues parse issues m ≡ ok after
      → ByNumber after
  unfolding collect_issues
  collect_issues-ByNumber parse [] m after v h = rw (← ok-injective h) v
  collect_issues-ByNumber parse ((key, issue) ∷ rest) m after v h =
      let (t, one, h') = >>=-eq-ok (normalize_ticket parse key issue) _ h in
      collect_issues-ByNumber parse rest (insert t.ticket_number t m) after
        (insert-ByNumber t m (normalize_ticket-named parse key issue t one) v) h'

add_found-ne :
    (o : Option Ticket) (k : Text) (ts : List Ticket)
    → ((u : Ticket) → o ≡ some u → u.ticket_number ≢ k)
    → All (λ (u : Ticket). u.ticket_number ≢ k) ts
    → All (λ (u : Ticket). u.ticket_number ≢ k) (add_found o ts)
add_found-ne none k ts h a = a
add_found-ne (some u) k ts h a = (h u refl, a)

in_order_of-ne :
    (m : Map Text Ticket) (k : Text) (ks : List Text)
    → ByNumber m
    → All (λ (j : Text). j ≢ k) ks
    → All (λ (u : Ticket). u.ticket_number ≢ k) (in_order_of m ks)
in_order_of-ne m k [] v a = tt
in_order_of-ne m k (j ∷ js) v (n, a) =
    add_found-ne (lookup j m) k (in_order_of m js)
      (λ u found e. n (sym (v.numbered j u found).0 ∙ e)) (in_order_of-ne m k js v a)

add_found-Listed :
    (o : Option Ticket) (k : Text) (ts : List Ticket)
    → ((t : Ticket) → o ≡ some t → (t.ticket_number ≡ k) × (is_empty (trim_space k) ≡ false))
    → All (λ (u : Ticket). u.ticket_number ≢ k) ts
    → Listed ts
    → Listed (add_found o ts)
add_found-Listed none k ts h a l = l
add_found-Listed (some t) k ts h a l = let (number, named) = h t refl in rw number (named, a, l)

in_order_of-Listed :
    (m : Map Text Ticket) (ks : List Text) → ByNumber m → Distinct ks → Listed (in_order_of m ks)
in_order_of-Listed m [] v d = tt
in_order_of-Listed m (k ∷ ks) v (a, d) =
    add_found-Listed (lookup k m) k (in_order_of m ks) (v.numbered k) (in_order_of-ne m k ks v a)
      (in_order_of-Listed m ks v d)

sorted_tickets-Listed : (m : Map Text Ticket) → ByNumber m → Listed (sorted_tickets m)
unfolding sorted_tickets
sorted_tickets-Listed m v =
    in_order_of-Listed m (sort_strings (keys m)) v (Distinct-sort_by _ (keys m) v.distinct)

-- What a step of the loop holds is in order.
record InOrder (step : Step) : Type 0 where
  stopped : (m : Map Text Ticket) → step ≡ stop (ok m) → ByNumber m
  goes_on : (n : ℕ) (m : Map Text Ticket) → step ≡ next n m → ByNumber m

turn_page-stop :
    (page_size start_at : ℕ) (before : Map Text Ticket) (r : Response) (after m : Map Text Ticket)
    → turn_page page_size start_at before r after ≡ stop (ok m)
    → after ≡ m
unfolding turn_page
turn_page-stop page_size start_at before r after m h = ground arith

turn_page-next :
    (page_size start_at : ℕ) (before : Map Text Ticket) (r : Response) (after m : Map Text Ticket)
    (n : ℕ)
    → turn_page page_size start_at before r after ≡ next n m
    → after ≡ m
unfolding turn_page
turn_page-next page_size start_at before r after m n h = ground arith

end_page-InOrder :
    (page_size start_at : ℕ) (before : Map Text Ticket) (r : Response)
    (collected : Result (Map Text Ticket))
    → ((after : Map Text Ticket) → collected ≡ ok after → ByNumber after)
    → InOrder (end_page page_size start_at before r collected)
unfolding end_page
end_page-InOrder page_size start_at before r (err e) h = record {
  stopped = λ m k. absurd (ground arith);
  goes_on = λ n m k. absurd (ground arith);
}
end_page-InOrder page_size start_at before r (ok after) h = record {
  stopped = λ m k. rw (← turn_page-stop page_size start_at before r after m k) (h after refl);
  goes_on = λ n m k. rw (← turn_page-next page_size start_at before r after m n k) (h after refl);
}

continue_pages-Listed :
    {W : Type 0} (step : Step) (w w' : W) (ts : List Ticket)
    (more : ℕ → Map Text Ticket → W → Option (Result (List Ticket) × W))
    → InOrder step
    → ((n : ℕ) (m : Map Text Ticket) → ByNumber m → more n m w ≡ some (ok ts, w') → Listed ts)
    → continue_pages step w more sorted_tickets ≡ some (ok ts, w')
    → Listed ts
continue_pages-Listed (stop (err e)) w w' ts more v h k = absurd (ground arith)
continue_pages-Listed (stop (ok m)) w w' ts more v h k =
    let same : sorted_tickets m ≡ ts = ground arith in
    rw (← same) (sorted_tickets-Listed m (v.stopped m refl))
continue_pages-Listed (next n m) w w' ts more v h k = h n m (v.goes_on n m refl) k

module _ ⦃c : CaseTables⦄ {W : Type 0} (api : TicketApi W) where
  read_page-InOrder :
      (start_at : ℕ) (m : Map Text Ticket) (answer : Result Response)
      → ByNumber m
      → InOrder (read_page api start_at m answer)
  unfolding read_page
  read_page-InOrder start_at m (err e) v = record {
    stopped = λ m' k. absurd (ground arith);
    goes_on = λ n m' k. absurd (ground arith);
  }
  read_page-InOrder start_at m (ok r) v =
      end_page-InOrder api.page_size start_at m r _
        λ after e. collect_issues-ByNumber api.parse r.issues m after v e

  fetch_pages-Listed :
      (fuel : ℕ) (jql : Text) (start_at : ℕ) (m : Map Text Ticket) (w w' : W) (ts : List Ticket)
      → ByNumber m
      → fetch_pages api fuel jql start_at m w ≡ some (ok ts, w')
      → Listed ts
  unfolding fetch_pages
  fetch_pages-Listed zero jql start_at m w w' ts v h = absurd (ground arith)
  fetch_pages-Listed (suc fuel) jql start_at m w w' ts v h =
      let (answer, w1) = api.fetch_ticket_page jql start_at w in
      continue_pages-Listed (read_page api start_at m answer) w1 w' ts _
        (read_page-InOrder start_at m answer v)
        (λ n m' v' k. fetch_pages-Listed fuel jql n m' w1 w' ts v' k) h

  -- The tickets that a successful ListTickets returns are named, and each number stands once, however
  -- the pages overlap: what a synchronization needs to find nothing to update when it is repeated.
  pub list_tickets-Listed :
      (fuel : ℕ) (jql : Text) (w w' : W) (ts : List Ticket)
      → list_tickets api fuel jql w ≡ some (ok ts, w')
      → Listed ts
  unfolding list_tickets
  list_tickets-Listed fuel jql w w' ts h = elim (Bool-cases (is_empty (trim_space jql))) [
    | inl blank ↦ absurd (ground arith)
    | inr query ↦
        fetch_pages-Listed fuel (trim_space jql) 0 [] w w' ts
          (record { distinct = tt; numbered = λ k t e. absurd (ground arith) }) (rw query at h)
  ]

-- ===== src/Notes/Kept.antt =====
-- What adding a note stores, and that the list shows it.
use secarch_tickets.Base.{
  ◌≤◌, ◌<◌, ◌+◌, ◌≡◌, ◌↔◌, keep, refl, ◌∙◌, ap, inl, inr, Bool, true, false, Text, none, List, [],
  ◌∷◌, ◌++◌, ◌&&◌, nat_eq, list_eq, arith, Bool-cases, Result, ok, err, length, is_empty,
  trim_space, btrim, btrim-trim_space, ltb, CaseTables,
}
use secarch_tickets.Access.{TicketAccess, query_arguments, row_visible}
use secarch_tickets.Cmdb.Types.{Time}
use secarch_tickets.Store.{Row, Database, has_number}
use secarch_tickets.Store.Queries.{with_access}
use secarch_tickets.Store.Reads.{MayAccess, args-visible}
use secarch_tickets.Notes.{
  TicketUpdate, normalize_ticket_update_content, content_allowed, inserted, selected,
  run_create_ticket_update, create_ticket_update, create_normalized, add_ticket_update,
  first_update,
}

-- An accepted content is the trimmed input, of one to 500 characters, and meets the CHECK of the
-- table: the database never refuses what the service accepted.
pub normalize-fits :
    (content normalized : Text)
    → normalize_ticket_update_content content ≡ ok normalized
    → (normalized ≡ trim_space content)
      × (0 < length normalized)
      × (length normalized ≤ 500)
      × (content_allowed normalized ≡ true)
unfolding normalize_ticket_update_content
normalize-fits content normalized h =
    let e : normalized ≡ trim_space content = ground arith in
    let b : btrim normalized ≡ normalized = rw e (btrim-trim_space content) in
    let n : (0 < length normalized) × (length normalized ≤ 500) =
      rw e (sizes (trim_space content) (ground arith) (ground arith)) in
    (e, n.0, n.1, rw b (ground (arith, n.0, n.1)))
  where
    sizes :
        (s : Text)
        → is_empty s ≡ false
        → ltb 500 (length s) ≡ false
        → (0 < length s) × (length s ≤ 500)
    sizes [] h k = cc
    sizes (c ∷ s) h k = (omega arith, ground arith)

module _ ⦃t : CaseTables⦄ (now : Time) (number content : Text) (access : TicketAccess) where
  -- What a note that was added looks like in the database: `theirs` tests for the rows of the number
  -- that the caller may access, and each stored row of these, and no other, gets the note.
  pub record Added (db after : Database) (u : TicketUpdate) : Type 0 where
    pub theirs : Row → Bool
    pub tests :
        (r : Row)
        → (theirs r ≡ true)
          ↔ ((has_number (trim_space number) r ≡ true) × MayAccess access r.reporter)
    pub some_row : is_empty (keep theirs db.tickets) ≡ false
    pub notes :
        after.updates
        ≡ db.updates ++ inserted now (trim_space content) db.next_update_id (keep theirs db.tickets)
    pub next_id : after.next_update_id ≡ db.next_update_id + length (keep theirs db.tickets)
    pub tickets : after.tickets ≡ db.tickets
    pub shown : u.content ≡ trim_space content
    pub own_id : u.id ≡ db.next_update_id

  first-Added :
      (rows : List Row) (text : Text) (db after : Database) (u : TicketUpdate) (after' : Database)
      → first_update (inserted now text db.next_update_id rows) db after ≡ (ok u, after')
      → (is_empty rows ≡ false) × (after' ≡ after) × (u.content ≡ text) × (u.id ≡ db.next_update_id)
  first-Added [] text db after u after' h = absurd (ground arith)
  first-Added (r ∷ rows) text db after u after' h = ground arith

  tested :
      (args : Bool × Text) (r : Row)
      → query_arguments access ≡ ok args
      → (has_number (trim_space number) r && row_visible args r.reporter ≡ true)
        ↔ ((has_number (trim_space number) r ≡ true) × MayAccess access r.reporter)
  tested args r granted =
      let visible = args-visible access args r.reporter granted in
      (
        (λ h. (ground arith, visible.0 (ground arith))),
        (λ h. let v = visible.1 h.1 in ground (arith, h.0)),
      )

  created :
      (text : Text) (args : Bool × Text) (db after : Database) (u : TicketUpdate)
      → query_arguments access ≡ ok args
      → text ≡ trim_space content
      → content_allowed text ≡ true
      → run_create_ticket_update now (trim_space number) text none db args ≡ (ok u, after)
      → Added db after u
  unfolding run_create_ticket_update
  created text args db after u granted e allowed h =
      let rows = selected args (trim_space number) db in
      let (present, same, shown, own_id) = first-Added rows text db _ u after (rw allowed at h) in
      record {
        theirs = λ r. has_number (trim_space number) r && row_visible args r.reporter;
        tests = λ r. tested args r granted;
        some_row = present;
        notes =
            ap (λ (d : Database). d.updates) same
            ∙ ap (λ c. db.updates ++ inserted now c db.next_update_id rows) e;
        next_id = ap (λ (d : Database). d.next_update_id) same;
        tickets = ap (λ (d : Database). d.tickets) same;
        shown = shown ∙ e;
        own_id = own_id;
      }

  create_normalized-Added :
      (r : Result Text) (db after : Database) (u : TicketUpdate)
      → normalize_ticket_update_content content ≡ r
      → create_normalized now (trim_space number) r access none db ≡ (ok u, after)
      → Added db after u
  create_normalized-Added (err e) db after u n h = absurd (ground arith)
  create_normalized-Added (ok text) db after u n h =
      let (same, _, _, allowed) = normalize-fits content text n in
      unfold create_ticket_update in
      granted (query_arguments access) refl h
        (λ args g k. created text args db after u g same allowed k)
    where
      granted :
          {run : Bool × Text → Result TicketUpdate × Database} (r : Result (Bool × Text))
          → query_arguments access ≡ r
          → with_access r db run ≡ (ok u, after)
          → ((args : Bool × Text)
              → query_arguments access ≡ ok args
              → run args ≡ (ok u, after)
              → Added db after u)
          → Added db after u
      granted (ok args) g k then_added = then_added args g k
      granted (err e) g k then_added = absurd (ground arith)

  -- Where a note is added, some stored row has the number and may be accessed by the caller, each such
  -- row and no other gets one note of the trimmed content, behind the notes that were there and with
  -- the next ids, the first of which is returned, and the tickets themselves are unchanged.
  pub add_ticket_update-Added :
      (db after : Database) (u : TicketUpdate)
      → add_ticket_update now number content access none db ≡ (ok u, after)
      → Added db after u
  unfolding add_ticket_update
  add_ticket_update-Added db after u h = elim (Bool-cases (is_empty (trim_space number))) [
    | inl blank ↦ absurd (ground arith)
    | inr named ↦ create_normalized-Added _ db after u refl (rw named at h)
  ]

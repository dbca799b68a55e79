-- ===== src/Notes/Listed.antt =====
-- What the list of a ticket's notes shows.
use mathlib.Core.List.{Perm}
use secarch_tickets.Base.{
  ◌≡◌, refl, inl, inr, Bool, true, false, Text, none, List, [], ◌∷◌, ◌==◌, ◌&&◌, nat_eq, list_eq,
  if◌then◌else◌, sentinel, err_ticket_not_found, arith, Bool-cases, ==-iff, ok, err, >>=-eq-ok,
  ok-injective, is_empty, trim_space, any, CaseTables, In, here, there, In-keep, In-keep-source,
  keep, ◌↔◌,
}
use secarch_tickets.Base.Sorting.{sort_by, sort_by-Perm}
use secarch_tickets.Access.{TicketAccess, query_arguments, row_visible}
use secarch_tickets.Store.{Row, UpdateRow, Database, has_number}
use secarch_tickets.Store.Queries.{query_rows}
use secarch_tickets.Store.Reads.{MayAccess, args-visible}
use secarch_tickets.Notes.{newer_first, selected, joined, list_ticket_updates}
use secarch_tickets.Base.Sorting.{IsSorted, sort_by-IsSorted}

newer_first_total : (a b : UpdateRow) → newer_first a b ≡ false → newer_first b a ≡ true
newer_first_total a b h = ground arith

newer_first_trans :
    (a b c : UpdateRow) → newer_first a b ≡ true → newer_first b c ≡ true → newer_first a c ≡ true
newer_first_trans a b c h k = ground arith

module _ ⦃t : CaseTables⦄ (number : Text) (access : TicketAccess) (db : Database) where
  -- The note belongs to a ticket of the number that the caller may access.
  pub record Theirs (u : UpdateRow) : Type 0 where
    pub row : Row
    pub stored : In row db.tickets
    pub numbered : has_number (trim_space number) row ≡ true
    pub accessible : MayAccess access row.reporter
    pub owned : row.id ≡ u.ticket_id

  -- The notes listed are those of the table that the test admits, each as often as it is stored, in
  -- the order newest first.
  pub record Listing (us : List UpdateRow) : Type 0 where
    pub admits : UpdateRow → Bool
    pub tests : (u : UpdateRow) → (admits u ≡ true) ↔ Theirs u
    pub notes : Perm us (keep admits db.updates)
    pub ordered : IsSorted newer_first us

  any-In :
      {A : Type 0} (p : A → Bool) {a : A} (xs : List A) → In a xs → p a ≡ true → any p xs ≡ true
  any-In p [] i h = elim i [ ]
  any-In p (x ∷ xs) (here e) h = rw (← e) (rw h refl)
  any-In p (x ∷ xs) (there i) h = ground (arith, any-In p xs i h)

  any-found :
      {A : Type 0} (p : A → Bool) (xs : List A) → any p xs ≡ true → (a : A) × In a xs × (p a ≡ true)
  any-found p [] h = absurd (ground arith)
  any-found p (x ∷ xs) h = elim (Bool-cases (p x)) [
    | inl e ↦ (x, here refl, e)
    | inr e ↦ let (a, i, k) = any-found p xs (ground arith) in (a, there i, k)
  ]

  -- The test of the join.
  abbrev joins : Bool × Text → UpdateRow → Bool
  joins args u = any (λ (r : Row). r.id == u.ticket_id) (selected args (trim_space number) db)

  joins-Theirs :
      (args : Bool × Text)
      → query_arguments access ≡ ok args
      → (u : UpdateRow) → (joins args u ≡ true) ↔ Theirs u
  joins-Theirs args granted u =
      let chosen = λ (r : Row). has_number (trim_space number) r && row_visible args r.reporter in
      (
        λ h.
            let (r, i, owned) =
              any-found (λ (r : Row). r.id == u.ticket_id) (keep chosen db.tickets) h in
            let (there_is, fits) = In-keep-source chosen db.tickets i in
            record {
              row = r;
              stored = there_is;
              numbered = ground arith;
              accessible = (args-visible access args r.reporter granted).0 (ground arith);
              owned = (==-iff r.id u.ticket_id).0 owned;
            },
        λ h.
            any-In (λ (r : Row). r.id == u.ticket_id) (keep chosen db.tickets)
              (In-keep chosen db.tickets h.stored (
                rw (h.numbered, (args-visible access args h.row.reporter granted).1 h.accessible)
                  refl))
              ((==-iff h.row.id u.ticket_id).1 h.owned),
      )

  listed :
      (args : Bool × Text) (us : List UpdateRow)
      → query_arguments access ≡ ok args
      → sort_by newer_first (joined args (trim_space number) db) ≡ us
      → Listing us
  listed args us granted e = rw (← e) (record {
    admits = joins args;
    tests = joins-Theirs args granted;
    notes = sort_by-Perm newer_first (joined args (trim_space number) db);
    ordered =
        sort_by-IsSorted newer_first newer_first_total newer_first_trans
          (joined args (trim_space number) db);
  })

  listed_rows :
      (args : Bool × Text) (us : List UpdateRow) (b : Bool)
      → (if b
          then query_rows
              ("query updates for ticket", "scan update for ticket", "iterate updates for ticket")
              none
              (sort_by newer_first (joined args (trim_space number) db))
          else err (sentinel err_ticket_not_found))
        ≡ ok us
      → sort_by newer_first (joined args (trim_space number) db) ≡ us
  listed_rows args us true h = ok-injective h
  listed_rows args us false h = cc

  -- A list of notes that is returned is in the order newest first, and holds exactly the stored notes
  -- of the tickets that have the number and that the caller may access, each as often as it is stored.
  pub list_ticket_updates-newest :
      (us : List UpdateRow) → list_ticket_updates number access none none db ≡ ok us → Listing us
  unfolding list_ticket_updates
  list_ticket_updates-newest us h = elim (Bool-cases (is_empty (trim_space number))) [
    | inl blank ↦ absurd (ground arith)
    | inr named ↦
        let (args, granted, k) = >>=-eq-ok (query_arguments access) _ (rw named at h) in
        listed args us granted (listed_rows args us _ k)
  ]

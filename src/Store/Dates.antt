-- ===== src/Store/Dates.antt =====
-- UpdateExpectedDate: which rows it changes, and when it reports an unknown ticket.
use secarch_tickets.Base.{
  ◌<◌, ◌≡◌, ◌↔◌, ◌⊎◌, refl, Bool, true, false, Text, none, List, [], ◌∷◌, ◌&&◌, ◌==◌, nat_eq,
  list_eq, ok, err, sentinel, err_ticket_not_found, err_access_identity_required, IsOk, returns,
  arith, Bool-cases, inl, inr, In, here, there, CaseTables, trim_space, is_empty,
}
use secarch_tickets.Access.{TicketAccess, query_arguments, row_visible}
use secarch_tickets.Calendar.{Date}
use secarch_tickets.Cmdb.Types.{Time}
use secarch_tickets.Store.{Row, Database, update_where, has_number}
use secarch_tickets.Store.Queries.{update_expected_date}
use secarch_tickets.Store.Queries.{with_access}
use secarch_tickets.Store.Reads.{MayAccess, args-visible}

-- `after` is `before` with the new date in the rows that have the number and that the caller may
-- access, and in no others.
abbrev pub Redated :
    ⦃t : CaseTables⦄ → Time → Text → Date → TicketAccess → List Row → List Row → Type 0
Redated now number expected a [] [] = Unit
Redated now number expected a (r ∷ rows) (r' ∷ rows') =
    ((((has_number number r ≡ true) × MayAccess a r.reporter)
        × (r' ≡ record r { expected_date = expected; updated_at = now }))
      ⊎ ((¬ ((has_number number r ≡ true) × MayAccess a r.reporter)) × (r' ≡ r)))
    × Redated now number expected a rows rows'
Redated now number expected a _ _ = ⊥

update_where-found :
    (p : Row → Bool) (f : Row → Row) (rows : List Row)
    → 0 < (update_where p f rows).0
    → (r : Row) × In r rows × (p r ≡ true)
unfolding update_where
update_where-found p f [] h = absurd (omega arith)
update_where-found p f (r ∷ rows) h = elim (Bool-cases (p r)) [
  | inl hit ↦ (r, here refl, hit)
  | inr miss ↦ let (q, i, e) = update_where-found p f rows (ground arith) in (q, there i, e)
]

found-update_where :
    (p : Row → Bool) (f : Row → Row) (rows : List Row) (r : Row)
    → In r rows
    → p r ≡ true
    → 0 < (update_where p f rows).0
unfolding update_where
found-update_where p f [] r i e = elim i [ ]
found-update_where p f (q ∷ rows) r (here s) e = rw (← s) (rw e (omega arith))
found-update_where p f (q ∷ rows) r (there i) e =
    let h = found-update_where p f rows r i e in ground arith

module _ ⦃t : CaseTables⦄ (now : Time) (number : Text) (expected : Date) (a : TicketAccess) where
  abbrev hit : Bool × Text → Row → Bool
  hit args r = has_number number r && row_visible args r.reporter

  abbrev redate : Row → Row
  redate r = record r { expected_date = expected; updated_at = now }

  hit_iff :
      (args : Bool × Text) (r : Row)
      → query_arguments a ≡ ok args
      → (hit args r ≡ true) ↔ ((has_number number r ≡ true) × MayAccess a r.reporter)
  hit_iff args r granted =
      let v = args-visible a args r.reporter granted in
      (λ h. (ground arith, v.0 (ground arith)), λ h. rw (h.0, v.1 h.1) refl)

  redated :
      (args : Bool × Text) (rows : List Row)
      → query_arguments a ≡ ok args
      → Redated now number expected a rows (update_where (hit args) redate rows).1
  unfolding update_where
  redated args [] granted = tt
  redated args (r ∷ rows) granted = elim (Bool-cases (hit args r)) [
    | inl h ↦ rw h (inl ((hit_iff args r granted).0 h, refl), redated args rows granted)
    | inr h ↦
        rw h (inr ((λ m. cc (h, (hit_iff args r granted).1 m)), refl), redated args rows granted)
  ]

  -- Where the request names a caller, it succeeds exactly if some row has the number and may be
  -- accessed; then those rows and no others get the date. If there is none, the answer is that the
  -- ticket is not found, and the table is as it was.
  pub update_expected_date-effect :
      (db : Database)
      → IsOk (query_arguments a)
      → let after = update_expected_date now number expected a none db in
        ((after.0 ≡ ok tt)
          × ((r : Row) × In r db.tickets × (has_number number r ≡ true) × MayAccess a r.reporter)
          × Redated now number expected a db.tickets after.1.tickets)
        ⊎ ((after.0 ≡ err (sentinel err_ticket_not_found))
            × (¬ (
                (r : Row) × In r db.tickets
                × (has_number number r ≡ true)
                × MayAccess a r.reporter))
            × (after.1 ≡ db))
  unfolding update_expected_date
  update_expected_date-effect db (returns args granted) =
      elim (Bool-cases ((update_where (hit args) redate db.tickets).0 == 0)) [
        | inl zero_hits ↦
            rw (granted, with_access, zero_hits)
              (inr (
                refl,
                λ (r, i, n, m).
                    let h =
                      found-update_where (hit args) redate db.tickets r i
                        ((hit_iff args r granted).1 (n, m)) in
                    ground arith,
                refl,
              ))
        | inr some_hits ↦
            let (r, i, h) = update_where-found (hit args) redate db.tickets (ground arith) in
            let (n, m) = (hit_iff args r granted).0 h in
            rw (granted, with_access, some_hits)
              (inl (refl, (r, i, n, m), redated args db.tickets granted))
      ]

  -- A caller without a name changes nothing.
  pub update_expected_date-nameless :
      (db : Database)
      → a.all ≡ false
      → is_empty (trim_space a.reporter) ≡ true
      → update_expected_date now number expected a none db
        ≡ (err (sentinel err_access_identity_required), db)
  unfolding update_expected_date query_arguments
  update_expected_date-nameless db h k = ground arith

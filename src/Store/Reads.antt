-- ===== src/Store/Reads.antt =====
-- Who sees and changes which rows.
use secarch_tickets.Base.{
  ◌≡◌, ◌↔◌, ◌⊎◌, Bool, true, false, Text, List, nat_eq, list_eq, ok, All, arith, ==-iff, CaseTables,
  keep, map, btrim, trim_space, is_empty,
}
use secarch_tickets.Base.Sorting.{IsSorted}
use mathlib.Core.List.{Perm}
use secarch_tickets.Calendar.{date_eq}
use secarch_tickets.Access.{TicketAccess, query_arguments, row_visible}
use secarch_tickets.Store.{Row, Database}
use secarch_tickets.Store.Queries.{StoredTicket, stored, listed_before}

-- The caller may access the rows of this reporter: an admin all, anyone else those whose reporter
-- is their own name, up to case and surrounding spaces; without a name nothing.
abbrev pub MayAccess : ⦃t : CaseTables⦄ → TicketAccess → Text → Type 0
MayAccess ⦃t⦄ a reporter =
    (a.all ≡ true)
    ⊎ ((is_empty (trim_space a.reporter) ≡ false)
        × (t.sql_lower (btrim reporter) ≡ t.sql_lower (btrim (trim_space a.reporter))))

module _ ⦃t : CaseTables⦄ where
  pub args-visible :
      (a : TicketAccess) (args : Bool × Text) (reporter : Text)
      → query_arguments a ≡ ok args
      → (row_visible args reporter ≡ true) ↔ MayAccess a reporter
  unfolding query_arguments row_visible
  args-visible a args reporter e = ground (
    arith,
    ==-iff (t.sql_lower (btrim reporter)) (t.sql_lower (btrim args.1)),
    ==-iff (t.sql_lower (btrim reporter)) (t.sql_lower (btrim (trim_space a.reporter))),
  )

  -- The rows listed are those of the table that the test admits, each as often as it is stored, in
  -- the order of the list.
  pub record Listing (a : TicketAccess) (db : Database) (ts : List StoredTicket) : Type 0 where
    pub admits : Row → Bool
    pub tests : (r : Row) → (admits r ≡ true) ↔ MayAccess a r.reporter
    pub rows : Perm (map (λ (s : StoredTicket). s.row) ts) (keep admits db.tickets)
    -- Each with the number of its notes and the time of the latest.
    pub counted : All (λ (s : StoredTicket). s ≡ stored db.updates s.row) ts
    pub ordered : IsSorted listed_before (map (λ (s : StoredTicket). s.row) ts)

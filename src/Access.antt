-- ===== src/Access.antt =====
-- internal/secarch/access.go: the rows that the caller may access.
use secarch_tickets.Base.{
  Bool, true, false, Text, Result, ok, err, sentinel, err_access_identity_required, trim_space,
  is_empty, if◌then◌else◌, CaseTables, btrim, ◌==◌, list_eq, nat_eq, ◌||◌, List,
}

pub record TicketAccess : Type 0 where
  pub all : Bool
  pub reporter : Text

-- The arguments of every query: whether all rows are meant, and the reporter whose rows are.
unfoldable pub query_arguments : TicketAccess → Result (Bool × Text)
query_arguments a =
    let reporter = trim_space a.reporter in
    if a.all
    then ok (true, List.[])
    else if is_empty reporter
    then err (sentinel err_access_identity_required)
    else ok (false, reporter)

-- The condition of every query: $all::boolean OR LOWER(BTRIM(reporter)) = LOWER(BTRIM($reporter))
unfoldable pub row_visible : ⦃t : CaseTables⦄ → Bool × Text → Text → Bool
row_visible ⦃t⦄ args reporter =
    args.0 || (t.sql_lower (btrim reporter) == t.sql_lower (btrim args.1))

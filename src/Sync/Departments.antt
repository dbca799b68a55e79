-- ===== src/Sync/Departments.antt =====
-- attachDepartments: the Departments of the tickets, from the tables or from the CMDB. The tickets
-- of the list are distinct objects.
pub mod Settled
use secarch_tickets.Base.{
  Bool, true, false, ◌&&◌, not, Text, List, [], ◌∷◌, Option, none, some, Map, lookup, insert,
  text_at, Result, ok, err, Error, wrapped, if◌then◌else◌, ◌==◌, ◌!=◌, nat_eq, list_eq, is_empty,
  map,
}
use secarch_tickets.Cmdb.Types.{Ticket, SystemReference, unassigned_department}
use secarch_tickets.Sync.World.{World, Exec}
use secarch_tickets.Sync.Isolate.{resolve_departments_isolated}

-- The Department of a ticket comes from the tables.
unfoldable pub uses_known : Bool → Map Text Text → Ticket → Bool
uses_known resolve_all known t =
    let department = text_at [] (lookup t.cmdb_system_key known) in
    not resolve_all && (department != []) && (department != unassigned_department)

-- The first loop: the tickets after it, and the references it collects.
unfoldable pub attach_known : Bool → Map Text Text → Option Ticket → Option Ticket
unfolding uses_known
attach_known resolve_all known none = none
attach_known resolve_all known (some t) =
    if is_empty t.cmdb_system_key
    then some t
    else if uses_known resolve_all known t
    then some (record t { department = text_at [] (lookup t.cmdb_system_key known) })
    else some t

unfoldable pub collect_references :
    Bool
    → Map Text Text
    → List (Option Ticket)
    → Map Text SystemReference
    → Map Text SystemReference
unfolding uses_known
collect_references resolve_all known [] references = references
collect_references resolve_all known (none ∷ ts) references =
    collect_references resolve_all known ts references
collect_references resolve_all known (some t ∷ ts) references =
    let reference : SystemReference = record {
      key = t.cmdb_system_key;
      name = t.cmdb_system_label;
    } in
    let skipped = is_empty t.cmdb_system_key in
    let from_tables = uses_known resolve_all known t in
    collect_references resolve_all known ts (
      if skipped
      then references
      else if from_tables
      then references
      else insert t.cmdb_system_key reference references)

-- The second loop.
unfoldable pub settle : Map Text Text → Map Text Text → Option Ticket → Option Ticket
settle known resolved none = none
settle known resolved (some t) =
    let department = text_at [] (lookup t.cmdb_system_key resolved) in
    if is_empty t.cmdb_system_key
    then some t
    else if not (is_empty department)
    then some (record t { department = department })
    else if is_empty t.department
    then some (record t { department = text_at [] (lookup t.cmdb_system_key known) })
    else some t

abbrev pub values : Map Text SystemReference → List SystemReference
values [] = []
values ((k, r) ∷ m) = r ∷ values m

abbrev pub settle_all :
    {W : Type 0}
    → Map Text Text
    → List (Option Ticket)
    → Result (Map Text Text) × W
    → Result (List (Option Ticket)) × W
settle_all known ts (err e, w) = (err (wrapped "resolve ticket System Departments" e), w)
settle_all known ts (ok resolved, w) = (ok (map (settle known resolved) ts), w)

module _ {W : Type 0} (world : World W) where
  unfoldable pub attach_departments :
      Bool → Map Text Text → List (Option Ticket) → Exec W (List (Option Ticket))
  unfolding attach_known settle collect_references resolve_departments_isolated
  attach_departments resolve_all known tickets w =
      let references = values (collect_references resolve_all known tickets []) in
      settle_all known (map (attach_known resolve_all known) tickets)
        (resolve_departments_isolated world references w)

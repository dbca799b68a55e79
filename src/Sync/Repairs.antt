-- ===== src/Sync/Repairs.antt =====
-- prepareStoredTicketOwnershipRepairs with storedTicketSystemReference and ticketOwnershipMatches:
-- rows whose System is not normalized, or whose Department is not known, are repaired.
pub mod Applies
use secarch_tickets.Base.{
  Bool, true, false, ◌&&◌, Text, List, [], ◌∷◌, Option, none, some, Map, lookup, text_at, Result,
  ok, err, Error, failed, wrapped, wrap_err, if◌then◌else◌, ◌==◌, ◌!=◌, nat_eq, list_eq, option_eq,
  is_empty, trim_space, to_upper, CaseTables, map, ◌>>=◌,
}
use secarch_tickets.Cmdb.Types.{SystemReference, Slice}
use secarch_tickets.Cmdb.Reference.{parse_ticket_system_reference, non_empty, elements}
use secarch_tickets.Store.Persist.{TicketOwnershipRepair}
use secarch_tickets.Store.Queries.{TicketOwnershipCandidate}
use secarch_tickets.Sync.World.{World, Exec}
use secarch_tickets.Sync.Isolate.{resolve_departments_isolated}

module _ ⦃t : CaseTables⦄ where
  -- The name of a stored System, from the value it is displayed by.
  abbrev pub named_by : Text → Text → Result SystemReference → Result SystemReference
  named_by key name (err e) = ok (record { key = key; name = name })
  named_by key name (ok parsed) =
      if (parsed.key != []) && (parsed.key != key)
      then err (failed "stored System key conflicts with key in display value")
      else ok (record { key = key; name = parsed.name })

  abbrev pub with_names : Text → List Text → Result SystemReference
  with_names key (name ∷ []) = named_by key name (parse_ticket_system_reference (some (name ∷ [])))
  with_names key names = ok (record { key = key; name = [] })

  unfoldable pub stored_ticket_system_reference : TicketOwnershipCandidate → Result SystemReference
  unfolding parse_ticket_system_reference
  stored_ticket_system_reference c =
      let existing_key = to_upper (trim_space c.cmdb_system_key) in
      let by_key =
        wrap_err "invalid stored System key"
          (parse_ticket_system_reference (some (existing_key ∷ [])))
        >>= λ r. with_names r.key (non_empty (elements c.cmdb_system_name)) in
      if is_empty existing_key then parse_ticket_system_reference c.cmdb_system_name else by_key

  -- The candidates whose System is known, with it.
  abbrev pub prepare_one :
      TicketOwnershipCandidate
      → Result SystemReference
      → List (TicketOwnershipCandidate × SystemReference)
      → List (TicketOwnershipCandidate × SystemReference)
  prepare_one c (err e) rest = rest
  prepare_one c (ok system) rest = if is_empty system.key then rest else (c, system) ∷ rest

  unfoldable pub prepared_repairs :
      List TicketOwnershipCandidate → List (TicketOwnershipCandidate × SystemReference)
  unfolding stored_ticket_system_reference
  prepared_repairs [] = []
  prepared_repairs (c ∷ cs) = prepare_one c (stored_ticket_system_reference c) (prepared_repairs cs)

-- A Go slice of strings and another are equal, nil only to nil.
unfoldable pub ticket_ownership_matches : TicketOwnershipCandidate → Slice → Text → Text → Bool
ticket_ownership_matches c names key department =
    (c.cmdb_system_key == key) && (c.department == department) && (c.cmdb_system_name == names)

-- The repair of one candidate, if its System was resolved and something changes.
unfoldable pub repairs_for :
    Map Text Text → List (TicketOwnershipCandidate × SystemReference) → List TicketOwnershipRepair
unfolding ticket_ownership_matches
repairs_for departments [] = []
repairs_for departments ((c, system) ∷ items) =
    let rest = repairs_for departments items in
    let department = trim_space (text_at [] (lookup system.key departments)) in
    let names = if is_empty system.name then c.cmdb_system_name else some (system.name ∷ []) in
    if is_empty department
    then rest
    else if ticket_ownership_matches c names system.key department
    then rest
    else record {
      ticket_number = c.ticket_number;
      expected_cmdb_system_name = c.cmdb_system_name;
      expected_cmdb_system_key = c.cmdb_system_key;
      expected_department = c.department;
      cmdb_system_name = names;
      cmdb_system_key = system.key;
      department = department;
    }
      ∷ rest

abbrev pub repair_all_of :
    {W : Type 0}
    → List (TicketOwnershipCandidate × SystemReference)
    → Result (Map Text Text) × W
    → Result (List TicketOwnershipRepair) × W
repair_all_of items (err e, w) = (err (wrapped "resolve stored ticket System ownership" e), w)
repair_all_of items (ok departments, w) = (ok (repairs_for departments items), w)

abbrev pub system_of : TicketOwnershipCandidate × SystemReference → SystemReference
system_of item = item.1

module _ ⦃t : CaseTables⦄ {W : Type 0} (world : World W) where
  abbrev pub resolve_repairs :
      List (TicketOwnershipCandidate × SystemReference) → Exec W (List TicketOwnershipRepair)
  resolve_repairs [] w = (ok [], w)
  resolve_repairs (item ∷ items) w =
      repair_all_of (item ∷ items)
        (resolve_departments_isolated world (map system_of (item ∷ items)) w)

  unfoldable pub prepare_stored_ticket_ownership_repairs :
      List TicketOwnershipCandidate → Exec W (List TicketOwnershipRepair)
  unfolding resolve_departments_isolated prepared_repairs repairs_for
  prepare_stored_ticket_ownership_repairs candidates = resolve_repairs (prepared_repairs candidates)

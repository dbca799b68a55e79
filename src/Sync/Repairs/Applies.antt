-- ===== src/Sync/Repairs/Applies.antt =====
-- What a prepared repair is worth to the transaction.
use mathlib.Core.Path.{subst}
use secarch_tickets.Base.{
  Bool, Option, ◌⊎◌, ◌↔◌, ◌≡◌, inl, inr, refl, ap, sym, if◌then◌else◌, ◌∙◌, true, false, Text, List,
  [], ◌∷◌, some, Map, lookup, text_at, All, is_empty, arith, Bool-cases, list_eq, nat_eq, option_eq,
  ==-iff, trim_space, In, here, there, All-mono,
}
use secarch_tickets.Cmdb.Types.{SystemReference}
use secarch_tickets.Store.{Row, has_number}
use secarch_tickets.Store.Persist.{TicketOwnershipRepair, repair_applies}
use secarch_tickets.Store.Queries.{TicketOwnershipCandidate, candidate_of}
use secarch_tickets.Sync.Repairs.{ticket_ownership_matches, repairs_for}

-- What the CMDB says of an item: its Department, and the list of names of its System.
abbrev pub known_department : Map Text Text → TicketOwnershipCandidate × SystemReference → Text
known_department departments (c, system) = trim_space (text_at [] (lookup system.key departments))

abbrev pub known_names : TicketOwnershipCandidate × SystemReference → Option (List Text)
known_names (c, system) =
    if is_empty system.name then c.cmdb_system_name else some (system.name ∷ [])

-- The row has what the CMDB says already.
abbrev pub IsCurrent : Map Text Text → TicketOwnershipCandidate × SystemReference → Type 0
IsCurrent departments item =
    (item.0.cmdb_system_name ≡ known_names item)
    × (item.0.cmdb_system_key ≡ item.1.key)
    × (item.0.department ≡ known_department departments item)

-- The repair of an item: it names the row as it was read, sets what the CMDB says, and the row, as
-- long as it is as it was read, is changed.
pub record Repairs (departments : Map Text Text) (item : TicketOwnershipCandidate × SystemReference)
    (p : TicketOwnershipRepair) : Type 0 where
  pub number : p.ticket_number ≡ item.0.ticket_number
  pub department : p.department ≡ known_department departments item
  pub key : p.cmdb_system_key ≡ item.1.key
  pub names : p.cmdb_system_name ≡ known_names item
  pub resolved : is_empty p.department ≡ false
  pub changes : ¬ IsCurrent departments item
  pub applies : (r : Row) → candidate_of r ≡ item.0 → repair_applies p r ≡ true

abbrev pub Fits :
    Map Text Text
    → List (TicketOwnershipCandidate × SystemReference)
    → TicketOwnershipRepair
    → Type 0
Fits departments items p =
    (item : TicketOwnershipCandidate × SystemReference) × In item items × Repairs departments item p

-- An item of which the CMDB knows a Department that is not blank, and another row than it is.
abbrev pub NeedsRepair : Map Text Text → TicketOwnershipCandidate × SystemReference → Type 0
NeedsRepair departments item =
    (is_empty (known_department departments item) ≡ false) × (¬ IsCurrent departments item)

matches-IsCurrent :
    (departments : Map Text Text) (c : TicketOwnershipCandidate) (system : SystemReference)
    → (ticket_ownership_matches c
          (known_names (c, system))
          system.key
          (known_department departments (c, system))
        ≡ true)
      ↔ IsCurrent departments (c, system)
unfolding ticket_ownership_matches
matches-IsCurrent departments c system = ground (
  arith,
  ==-iff c.cmdb_system_name (known_names (c, system)),
  ==-iff c.cmdb_system_key system.key,
  ==-iff c.department (known_department departments (c, system)),
)

applies-one :
    (c : TicketOwnershipCandidate) (p : TicketOwnershipRepair)
    → p.ticket_number ≡ c.ticket_number
    → p.expected_cmdb_system_name ≡ c.cmdb_system_name
    → p.expected_cmdb_system_key ≡ c.cmdb_system_key
    → p.expected_department ≡ c.department
    → ticket_ownership_matches c p.cmdb_system_name p.cmdb_system_key p.department ≡ false
    → (r : Row) → candidate_of r ≡ c
    → repair_applies p r ≡ true
unfolding ticket_ownership_matches repair_applies has_number
applies-one c p n e1 e2 e3 m r same =
    let number : r.ticket_number ≡ p.ticket_number =
      ap (λ (x : TicketOwnershipCandidate). x.ticket_number) same ∙ sym n in
    let names : r.cmdb_system_name ≡ p.expected_cmdb_system_name =
      ap (λ (x : TicketOwnershipCandidate). x.cmdb_system_name) same ∙ sym e1 in
    let key : r.cmdb_system_key ≡ p.expected_cmdb_system_key =
      ap (λ (x : TicketOwnershipCandidate). x.cmdb_system_key) same ∙ sym e2 in
    let department : r.department ≡ p.expected_department =
      ap (λ (x : TicketOwnershipCandidate). x.department) same ∙ sym e3 in
    ground (
      arith,
      ==-iff r.ticket_number p.ticket_number,
      ==-iff r.cmdb_system_name p.expected_cmdb_system_name,
      ==-iff r.cmdb_system_key p.expected_cmdb_system_key,
      ==-iff r.department p.expected_department,
      ==-iff r.cmdb_system_name p.cmdb_system_name,
      ==-iff r.cmdb_system_key p.cmdb_system_key,
      ==-iff r.department p.department,
      ==-iff c.cmdb_system_name p.cmdb_system_name,
      ==-iff c.cmdb_system_key p.cmdb_system_key,
      ==-iff c.department p.department,
    )

-- The repair that is prepared of an item.
abbrev repair_of :
    Map Text Text → TicketOwnershipCandidate × SystemReference → TicketOwnershipRepair
repair_of departments (c, system) = record {
  ticket_number = c.ticket_number;
  expected_cmdb_system_name = c.cmdb_system_name;
  expected_cmdb_system_key = c.cmdb_system_key;
  expected_department = c.department;
  cmdb_system_name = known_names (c, system);
  cmdb_system_key = system.key;
  department = known_department departments (c, system);
}

repair_of-Repairs :
    (departments : Map Text Text) (c : TicketOwnershipCandidate) (system : SystemReference)
    → NeedsRepair departments (c, system)
    → Repairs departments (c, system) (repair_of departments (c, system))
repair_of-Repairs departments c system (resolved, changes) = record {
  number = refl;
  department = refl;
  key = refl;
  names = refl;
  resolved = resolved;
  changes = changes;
  applies = applies-one c _ refl refl refl refl (
      stale
        (ticket_ownership_matches c (known_names (c, system)) system.key
          (known_department departments (c, system)))
        (λ m. changes ((matches-IsCurrent departments c system).0 m)));
}
  where
    stale : (b : Bool) → (¬ (b ≡ true)) → b ≡ false
    stale true h = absurd (h refl)
    stale false h = refl

-- The list grows by the repair of an item that needs one, and by nothing else.
repairs_for-cases :
    (departments : Map Text Text) (item : TicketOwnershipCandidate × SystemReference)
    (items : List (TicketOwnershipCandidate × SystemReference))
    → (NeedsRepair departments item
        × (repairs_for departments (item ∷ items)
            ≡ repair_of departments item ∷ repairs_for departments items))
      ⊎ ((¬ NeedsRepair departments item)
          × (repairs_for departments (item ∷ items) ≡ repairs_for departments items))
unfolding repairs_for
repairs_for-cases departments (c, system) items =
    let department = known_department departments (c, system) in
    let current = matches-IsCurrent departments c system in
    elim (Bool-cases (is_empty department)) [
      | inl unknown ↦ rw unknown (inr ((λ n. absurd (ground (arith, n.0))), refl))
      | inr known ↦
          elim (Bool-cases
            (ticket_ownership_matches c (known_names (c, system)) system.key department)) [
              | inl same ↦ rw (known, same) (inr ((λ n. n.1 (current.0 same)), refl))
              | inr changed ↦
                  rw (known, changed)
                    (inl ((refl, (λ k. absurd (ground (arith, current.1 k)))), refl))
            ]
    ]

repairs_for_sound :
    (departments : Map Text Text) (items : List (TicketOwnershipCandidate × SystemReference))
    → All (Fits departments items) (repairs_for departments items)
unfolding repairs_for
repairs_for_sound departments [] = tt
repairs_for_sound departments ((c, system) ∷ items) =
    let rest =
      All-mono (Fits departments items) (Fits departments ((c, system) ∷ items))
        (λ p f. (f.0, there f.1, f.2)) _ (repairs_for_sound departments items) in
    elim (repairs_for-cases departments (c, system) items) [
      | inl (needed, e) ↦
          rw e (((c, system), here refl, repair_of-Repairs departments c system needed), rest)
      | inr (fine, e) ↦ rw e rest
    ]

repairs_for_complete :
    (departments : Map Text Text) (items : List (TicketOwnershipCandidate × SystemReference))
    (item : TicketOwnershipCandidate × SystemReference)
    → In item items
    → NeedsRepair departments item
    → (p : TicketOwnershipRepair) × In p (repairs_for departments items)
      × Repairs departments item p
repairs_for_complete departments [] item i n = elim i [ ]
repairs_for_complete departments (x ∷ items) (c, system) (here same) n =
    elim (repairs_for-cases departments x items) [
      | inl (needed, e) ↦ (
        repair_of departments (c, system),
        rw e (here (ap (repair_of departments) same)),
        repair_of-Repairs departments c system n,
      )
      | inr (fine, e) ↦ absurd (fine (subst (NeedsRepair departments) same n))
    ]
repairs_for_complete departments (x ∷ items) item (there i) n =
    let (p, j, made) = repairs_for_complete departments items item i n in
    elim (repairs_for-cases departments x items) [
      | inl (needed, e) ↦ (p, rw e (there j), made)
      | inr (fine, e) ↦ (p, rw e j, made)
    ]

-- Every repair that is prepared is that of an item of the list, sets the System and the Department
-- that the CMDB has for its key, changes something, and is applied to its row as long as that is as it
-- was read; and every item of which the CMDB knows a Department that is not blank, and whose row is not
-- as the CMDB says, has such a repair.
pub repairs_for-Fits :
    (departments : Map Text Text) (items : List (TicketOwnershipCandidate × SystemReference))
    → All (Fits departments items) (repairs_for departments items)
      × ((item : TicketOwnershipCandidate × SystemReference)
          → In item items
          → NeedsRepair departments item
          → (p : TicketOwnershipRepair) × In p (repairs_for departments items)
            × Repairs departments item p)
repairs_for-Fits departments items =
    (repairs_for_sound departments items, repairs_for_complete departments items)

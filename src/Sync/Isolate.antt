-- ===== src/Sync/Isolate.antt =====
-- resolveDepartmentsIsolated: one lookup for all Systems, split in halves where the data of some
-- System makes it fail.
pub mod Errors
use secarch_tickets.Base.{
  ℕ, zero, suc, ◌+◌, ◌/◌, Bool, true, false, Text, List, [], ◌∷◌, Option, none, some, Map, lookup,
  insert, merge, keys, Result, ok, err, Error, failed, if◌then◌else◌, ◌==◌, nat_eq, list_eq,
  is_empty, length, take, drop, map,
}
use secarch_tickets.Base.Sorting.{sort_strings}
use secarch_tickets.Cmdb.Types.{SystemReference}
use secarch_tickets.Sync.World.{World, is_system_resolution_data_error, Exec}

-- One reference for each key: a later one replaces one that has no name.
abbrev pub replaces : Option SystemReference → Bool
replaces none = true
replaces (some existing) = is_empty existing.name

unfoldable pub unique_references :
    List SystemReference → Map Text SystemReference → Map Text SystemReference
unique_references [] unique = unique
unique_references (r ∷ rs) unique =
    let replaced = replaces (lookup r.key unique) in
    unique_references rs (if replaced then insert r.key r unique else unique)

abbrev pub reference_at : Map Text SystemReference → Text → SystemReference
reference_at unique key = elim (lookup key unique) [
  | none ↦ record { key = []; name = [] }
  | some r ↦ r
]

unfoldable pub ordered_references : List SystemReference → List SystemReference
unfolding unique_references
ordered_references references =
    let unique = unique_references references [] in
    map (reference_at unique) (sort_strings (keys unique))

-- The outcome of the recursion, with the map `resolved` that it fills.
abbrev pub Resolution : Type 0 → Type 0
Resolution W = Result (Unit {0}) × Map Text Text × W

-- if err := first; err != nil { return err }; return second
abbrev pub then_second : {W : Type 0} → Resolution W → Resolution W → Resolution W
then_second (err e, resolved, w) second = (err e, resolved, w)
then_second (ok u, resolved, w) second = second

module _ {W : Type 0} (world : World W) where
  -- What follows the answer of the client; `halves` is the outcome of the two halves.
  unfoldable pub after_answer :
      Result (Map Text Text)
      → List SystemReference
      → Map Text Text
      → W
      → Resolution W
      → Resolution W
  after_answer (ok departments) subset resolved w halves = (ok tt, merge resolved departments, w)
  after_answer (err e) subset resolved w halves = elim (world.ctx_err w) [
    | some c ↦ (err c, resolved, w)
    | none ↦
        if is_system_resolution_data_error e
        then (if length subset == 1 then (ok tt, resolved, w) else halves)
        else (err e, resolved, w)
  ]

  -- The recursion takes fuel; more than the length of the subset is enough.
  unfoldable pub resolve_subset : ℕ → List SystemReference → Map Text Text → W → Resolution W
  unfolding after_answer
  resolve_subset zero subset resolved w = (err (failed "out of fuel"), resolved, w)
  resolve_subset (suc fuel) subset resolved w =
      let answer = world.resolve_departments subset w in
      let middle = length subset / 2 in
      let first = resolve_subset fuel (take middle subset) resolved answer.1 in
      let second = resolve_subset fuel (drop middle subset) first.1 first.2 in
      if is_empty subset
      then (ok tt, resolved, w)
      else after_answer answer.0 subset resolved answer.1 (then_second first second)

  abbrev pub resolution_result : Resolution W → Result (Map Text Text) × W
  resolution_result (ok u, resolved, w) = (ok resolved, w)
  resolution_result (err e, resolved, w) = (err e, w)

  unfoldable pub resolve_departments_isolated : List SystemReference → Exec W (Map Text Text)
  unfolding resolve_subset ordered_references
  resolve_departments_isolated references w =
      let ordered = ordered_references references in
      resolution_result (resolve_subset (suc (length ordered)) ordered [] w)

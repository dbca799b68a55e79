-- ===== src/Sync/Departments/Settled.antt =====
-- Which Department attachDepartments gives to a ticket.
use secarch_tickets.Base.{
  ◌≡◌, ◌≢◌, ◌⊎◌, inl, inr, refl, Bool, true, false, Text, List, [], ◌∷◌, Option, none, some, Map,
  lookup, text_at, Result, ok, err, is_empty, map, arith, Bool-cases, list_eq, nat_eq, ok-injective,
}
use secarch_tickets.Cmdb.Types.{Ticket}
use secarch_tickets.Sync.World.{World}
use secarch_tickets.Sync.Isolate.{resolve_departments_isolated}
use secarch_tickets.Sync.Departments.{
  uses_known, attach_known, collect_references, values, settle, settle_all, attach_departments,
}

-- The ticket after is the one before but for its Department: the one resolved, else the one of the
-- tables where these are used or it had none, else its own.
abbrev pub Placed : Bool → Map Text Text → Map Text Text → Option Ticket → Option Ticket → Type 0
Placed resolve_all known resolved none after = after ≡ none
Placed resolve_all known resolved (some t) none = ⊥
Placed resolve_all known resolved (some t) (some u) =
    let found = text_at [] (lookup t.cmdb_system_key resolved) in
    let stored = text_at [] (lookup t.cmdb_system_key known) in
    (u ≡ record t { department = u.department })
    × (((t.cmdb_system_key ≡ []) × (u.department ≡ t.department))
        ⊎ ((t.cmdb_system_key ≢ []) × (found ≢ []) × (u.department ≡ found))
        ⊎ ((t.cmdb_system_key ≢ [])
            × (found ≡ [])
            × (uses_known resolve_all known t ≡ true)
            × (u.department ≡ stored))
        ⊎ ((t.cmdb_system_key ≢ [])
            × (found ≡ [])
            × (uses_known resolve_all known t ≡ false)
            × (t.department ≢ [])
            × (u.department ≡ t.department))
        ⊎ ((t.cmdb_system_key ≢ [])
            × (found ≡ [])
            × (uses_known resolve_all known t ≡ false)
            × (t.department ≡ [])
            × (u.department ≡ stored)))

empty-nil : (s : Text) → is_empty s ≡ true → s ≡ []
empty-nil [] h = refl
empty-nil (c ∷ s) h = cc

full-nil : (s : Text) → is_empty s ≡ false → s ≢ []
full-nil s h e = ground arith

settle-Placed :
    (resolve_all : Bool) (known resolved : Map Text Text) (t : Option Ticket)
    → Placed resolve_all known resolved t (settle known resolved (attach_known resolve_all known t))
unfolding settle attach_known
settle-Placed resolve_all known resolved none = refl
settle-Placed resolve_all known resolved (some t) =
    let found = text_at [] (lookup t.cmdb_system_key resolved) in
    elim (Bool-cases (is_empty t.cmdb_system_key)) [
      | inl blank ↦ rw (blank, blank) (refl, inl (empty-nil _ blank, refl))
      | inr keyed ↦
          let k = full-nil _ keyed in
          elim (Bool-cases (uses_known resolve_all known t)) [
            | inl from_tables ↦ elim (Bool-cases (is_empty found)) [
              | inr f ↦ rw (keyed, from_tables, keyed, f) (refl, inr (inl (k, full-nil _ f, refl)))
              | inl f ↦ elim (Bool-cases (is_empty (text_at [] (lookup t.cmdb_system_key known)))) [
                | inl d ↦
                    rw (keyed, from_tables, keyed, f, d)
                      (refl, inr (inr (inl (k, empty-nil _ f, from_tables, refl))))
                | inr d ↦
                    rw (keyed, from_tables, keyed, f, d)
                      (refl, inr (inr (inl (k, empty-nil _ f, from_tables, refl))))
              ]
            ]
            | inr elsewhere ↦ elim (Bool-cases (is_empty found)) [
              | inr f ↦ rw (keyed, elsewhere, keyed, f) (refl, inr (inl (k, full-nil _ f, refl)))
              | inl f ↦ elim (Bool-cases (is_empty t.department)) [
                | inl d ↦
                    rw (keyed, elsewhere, keyed, f, d)
                      (
                        refl,
                        inr (inr (inr (inr (k, empty-nil _ f, elsewhere, empty-nil _ d, refl)))),
                      )
                | inr d ↦
                    rw (keyed, elsewhere, keyed, f, d)
                      (
                        refl,
                        inr (inr (inr (inl (k, empty-nil _ f, elsewhere, full-nil _ d, refl)))),
                      )
              ]
            ]
          ]
    ]

-- Each ticket of the one list, and that in its place in the other.
abbrev pub AllPlaced :
    Bool → Map Text Text → Map Text Text → List (Option Ticket) → List (Option Ticket) → Type 0
AllPlaced resolve_all known resolved [] after = after ≡ []
AllPlaced resolve_all known resolved (t ∷ ts) [] = ⊥
AllPlaced resolve_all known resolved (t ∷ ts) (u ∷ us) =
    Placed resolve_all known resolved t u × AllPlaced resolve_all known resolved ts us

settle-AllPlaced :
    (resolve_all : Bool) (known resolved : Map Text Text) (ts : List (Option Ticket))
    → AllPlaced resolve_all known resolved ts
        (map (settle known resolved) (map (attach_known resolve_all known) ts))
settle-AllPlaced resolve_all known resolved [] = refl
settle-AllPlaced resolve_all known resolved (t ∷ ts) =
    (settle-Placed resolve_all known resolved t, settle-AllPlaced resolve_all known resolved ts)

module _ {W : Type 0} (world : World W) where
  -- Where the Departments are attached, they are those that the lookup of the isolated Systems
  -- resolved: each ticket stays in its place and changes in its Department only, which is the resolved
  -- one, else the one of the tables, if these are used or it had none, else its own.
  pub attach_departments-AllPlaced :
      (resolve_all : Bool) (known : Map Text Text) (ts us : List (Option Ticket)) (w : W)
      → (attach_departments world resolve_all known ts w).0 ≡ ok us
      → (resolved : Map Text Text) × ((resolve_departments_isolated world
            (values (collect_references resolve_all known ts []))
            w).0
          ≡ ok resolved)
        × AllPlaced resolve_all known resolved ts us
  unfolding attach_departments
  attach_departments-AllPlaced resolve_all known ts us w h =
      settled
        (resolve_departments_isolated world (values (collect_references resolve_all known ts [])) w)
        h
    where
      settled :
          (r : Result (Map Text Text) × W)
          → (settle_all known (map (attach_known resolve_all known) ts) r).0 ≡ ok us
          → (resolved : Map Text Text) × (r.0 ≡ ok resolved)
            × AllPlaced resolve_all known resolved ts us
      settled (ok resolved, w') k =
          (resolved, refl, rw (← ok-injective k) (settle-AllPlaced resolve_all known resolved ts))
      settled (err e, w') k = absurd (ground arith)

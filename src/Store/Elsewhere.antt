-- ===== src/Store/Elsewhere.antt =====
-- The repairs of a transaction whose tickets are others than those that were synchronized.
use secarch_tickets.Base.{
  ℕ, ◌+◌, ◌≡◌, ◌≢◌, ◌∙◌, refl, true, false, Text, none, List, [], ◌∷◌, ◌&&◌, nat_eq, list_eq,
  option_eq, All, arith, ==-iff, ok, err,
}
use secarch_tickets.Cmdb.Types.{Time, Ticket}
use secarch_tickets.Store.{Row, Database, has_number, is_changed}
use secarch_tickets.Store.Persist.{
  TicketOwnershipRepair, TicketSyncPersistenceResult, Server, Tx, committed, repair_applies,
  apply_repair, run_repair, repair_all, then_repair,
}
use secarch_tickets.Store.Again.{Holds, All-update_where, any-update_where}

-- Every call to the server succeeds.
pub record Works (s : Server) : Type 0 where
  pub begins : s.begin ≡ none
  pub execs : (i : ℕ) → s.exec i ≡ none
  pub commits : s.commit ≡ committed

-- No repair is of this ticket.
abbrev pub Spared : List TicketOwnershipRepair → Ticket → Type 0
Spared ps t = All (λ (p : TicketOwnershipRepair). p.ticket_number ≢ t.ticket_number) ps

number-apply_repair :
    (now : Time) (p : TicketOwnershipRepair) (r : Row)
    → (apply_repair now p r).ticket_number ≡ r.ticket_number
unfolding apply_repair
number-apply_repair now p r = refl

differs :
    (now : Time) (t : Ticket) (p : TicketOwnershipRepair) (r : Row)
    → p.ticket_number ≢ t.ticket_number
    → repair_applies p r ≡ true
    → has_number t.ticket_number (apply_repair now p r) && is_changed t (apply_repair now p r)
      ≡ false
unfolding repair_applies apply_repair has_number
differs now t p r other hit =
    ground (arith, ==-iff r.ticket_number p.ticket_number, ==-iff r.ticket_number t.ticket_number)

run_repair-Holds :
    (now : Time) (t : Ticket) (p : TicketOwnershipRepair) (db : Database)
    → p.ticket_number ≢ t.ticket_number
    → Holds t db.tickets
    → Holds t (run_repair now p db).1.tickets
unfolding run_repair
run_repair-Holds now t p db other h = record {
  present =
      any-update_where t.ticket_number (repair_applies p) (apply_repair now p)
        (number-apply_repair now p) db.tickets
      ∙ h.present;
  current =
      All-update_where _ (repair_applies p) (apply_repair now p)
        (λ r _ hit. differs now t p r other hit) db.tickets h.current;
}

module _ (s : Server) (works : Works s) (now : Time) where
  -- With a server that works, every repair is tried.
  repair_all-ok :
      (i : ℕ) (ps : List TicketOwnershipRepair) (updated : List Text)
      (r : TicketSyncPersistenceResult) (db : Database)
      → (x : List Text × TicketSyncPersistenceResult) × ((repair_all s now i ps updated r db).0
          ≡ ok x)
  unfolding repair_all
  repair_all-ok i [] updated r db = ((updated, r), refl)
  repair_all-ok i (p ∷ ps) updated r db =
      rw (works.execs i, repair_all) (repair_all-ok (i + 1) ps _ _ (run_repair now p db).1)

  repair_all-Holds :
      (t : Ticket) (i : ℕ) (ps : List TicketOwnershipRepair) (updated : List Text)
      (r : TicketSyncPersistenceResult) (db : Database)
      → Spared ps t
      → Holds t db.tickets
      → Holds t (repair_all s now i ps updated r db).1.tickets
  unfolding repair_all
  repair_all-Holds t i [] updated r db spared h = h
  repair_all-Holds t i (p ∷ ps) updated r db (other, spared) h =
      rw (works.execs i, repair_all)
        (repair_all-Holds t (i + 1) ps _ _ (run_repair now p db).1 spared
          (run_repair-Holds now t p db other h))

  pub then_repair-ok :
      (ps : List TicketOwnershipRepair) (tx : Tx (ℕ × List Text)) (x : ℕ × List Text)
      → tx.0 ≡ ok x
      → (y : List Text × TicketSyncPersistenceResult) × ((then_repair s now ps tx).0 ≡ ok y)
  unfolding then_repair
  then_repair-ok ps (ok (i, updated), tx) x h = repair_all-ok i ps updated _ tx
  then_repair-ok ps (err e, tx) x h = absurd (ground arith)

  pub then_repair-Holds :
      (t : Ticket) (ps : List TicketOwnershipRepair) (tx : Tx (ℕ × List Text))
      → Spared ps t
      → Holds t tx.1.tickets
      → Holds t (then_repair s now ps tx).1.tickets
  unfolding then_repair
  then_repair-Holds t ps (ok (i, updated), tx) spared h =
      repair_all-Holds t i ps updated _ tx spared h
  then_repair-Holds t ps (err e, tx) spared h = h

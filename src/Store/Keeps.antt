-- ===== src/Store/Keeps.antt =====
-- What a synchronization keeps, whatever its outcome.
use mathlib.Core.List.{append-nil, append_assoc}
use secarch_tickets.Base.{
  ℕ, ◌+◌, ◌≡◌, refl, ap, sym, ◌∙◌, Text, Option, none, some, List, [], ◌∷◌, ◌++◌, nat_eq, list_eq,
  option_eq, map, All, All-append, arith, Bool-cases, Option-cases, inl, inr, ok, err, Error, ◌⊎◌,
  is_empty, trim_space,
}
use secarch_tickets.Calendar.{Date}
use secarch_tickets.Cmdb.Types.{Time, Ticket}
use secarch_tickets.Store.{Database, upsert}
use secarch_tickets.Store.Persist.{
  TicketOwnershipRepair, TicketSyncPersistenceResult, run_repair, Server, Tx, Commit, committed,
  rolled_back, reply_lost, upsert_all, repair_all, then_repair, finish, persist_ticket_sync,
}
use secarch_tickets.Store.Rows.{Local, local_part, added, local-upsert, local-run_repair}

-- The rows of `db` are still there, in their places and with the local columns that they had; the
-- rows after them are new and have the given expected date. The notes are untouched.
pub record Extends (expected : Date) (db tx : Database) : Type 0 where
  pub fresh : List Local
  pub rows : map local_part tx.tickets ≡ map local_part db.tickets ++ fresh
  pub dated : All (λ l. l.expected_date ≡ expected) fresh
  pub notes : tx.updates ≡ db.updates
  pub note_ids : tx.next_update_id ≡ db.next_update_id

module _ (expected : Date) where
  pub Extends-refl :
      (db tx : Database)
      → tx.tickets ≡ db.tickets
      → tx.updates ≡ db.updates
      → tx.next_update_id ≡ db.next_update_id
      → Extends expected db tx
  Extends-refl db tx e u n = record {
    fresh = [];
    rows = ap (map local_part) e ∙ sym (append-nil _);
    dated = tt;
    notes = u;
    note_ids = n;
  }

  Extends-trans :
      {a b c : Database} → Extends expected a b → Extends expected b c → Extends expected a c
  Extends-trans {a} {b} {c} h k = record {
    fresh = h.fresh ++ k.fresh;
    rows =
        k.rows
        ∙ ap (λ l. l ++ k.fresh) h.rows
        ∙ append_assoc (map local_part a.tickets) h.fresh k.fresh;
    dated = All-append _ h.fresh k.fresh h.dated k.dated;
    notes = k.notes ∙ h.notes;
    note_ids = k.note_ids ∙ h.note_ids;
  }

  upsert-Extends :
      (now : Time) (t : Ticket) (db : Database) → Extends expected db (upsert now expected t db).1
  upsert-Extends now t db = record {
    fresh = added now expected t db;
    rows = local-upsert now expected t db;
    dated = ground arith;
    notes = unfold upsert in ground arith;
    note_ids = unfold upsert in ground arith;
  }

  run_repair-Extends :
      (now : Time) (p : TicketOwnershipRepair) (db : Database)
      → Extends expected db (run_repair now p db).1
  run_repair-Extends now p db = record {
    fresh = [];
    rows = local-run_repair now p db ∙ sym (append-nil _);
    dated = tt;
    notes = unfold run_repair in refl;
    note_ids = unfold run_repair in refl;
  }

  same : (db : Database) → Extends expected db db
  same db = Extends-refl db db refl refl refl

  upsert_all-Extends :
      (s : Server) (now : Time) (i : ℕ) (ts : List (Option Ticket)) (updated : List Text)
      (db : Database)
      → Extends expected db (upsert_all s now expected i ts updated db).1
  unfolding upsert_all
  upsert_all-Extends s now i [] updated db = same db
  upsert_all-Extends s now i (none ∷ ts) updated db = same db
  upsert_all-Extends s now i (some t ∷ ts) updated db =
      elim (Bool-cases (is_empty (trim_space t.ticket_number))) [
        | inl blank ↦ rw blank (same db)
        | inr named ↦ rw named (elim (Option-cases (s.exec i)) [
          | inl fine ↦ rw fine (
              Extends-trans (upsert-Extends now t db)
                (upsert_all-Extends s now (i + 1) ts _ (upsert now expected t db).1))
          | inr (e, failed) ↦ rw failed (same db)
        ])
      ]

  repair_all-Extends :
      (s : Server) (now : Time) (i : ℕ) (ps : List TicketOwnershipRepair) (updated : List Text)
      (r : TicketSyncPersistenceResult) (db : Database)
      → Extends expected db (repair_all s now i ps updated r db).1
  unfolding repair_all
  repair_all-Extends s now i [] updated r db = same db
  repair_all-Extends s now i (p ∷ ps) updated r db = elim (Option-cases (s.exec i)) [
    | inl fine ↦
        rw (fine, repair_all)
          (Extends-trans (run_repair-Extends now p db)
            (repair_all-Extends s now (i + 1) ps _ _ (run_repair now p db).1))
    | inr (e, failed) ↦ rw (failed, repair_all) (same db)
  ]

  then_repair-Extends :
      (s : Server) (now : Time) (ps : List TicketOwnershipRepair) (db : Database)
      (tx : Tx (ℕ × List Text))
      → Extends expected db tx.1
      → Extends expected db (then_repair s now ps tx).1
  unfolding then_repair
  then_repair-Extends s now ps db (err e, tx) h = h
  then_repair-Extends s now ps db (ok (i, updated), tx) h =
      Extends-trans h (repair_all-Extends s now i ps updated _ tx)

  finish-Extends :
      (c : Commit) (db : Database) (tx : Tx (List Text × TicketSyncPersistenceResult))
      → Extends expected db tx.1
      → Extends expected db (finish c db tx).1
  unfolding finish
  finish-Extends c db (err e, tx) h = Extends-refl db _ refl refl refl
  finish-Extends committed db (ok (updated, r), tx) h = h
  finish-Extends (rolled_back e) db (ok (updated, r), tx) h = Extends-refl db _ refl refl refl
  finish-Extends (reply_lost e) db (ok (updated, r), tx) h = h

  -- Whatever the tickets, the repairs and the server's answers: every stored row keeps its id, its
  -- number, its expected date and its creation time, the rows added behind them have the default
  -- expected date, and no note is changed.
  pub persist-Extends :
      (s : Server) (now : Time) (ts : List (Option Ticket)) (ps : List TicketOwnershipRepair)
      (db : Database)
      → Extends expected db (persist_ticket_sync s now ts expected ps db).1
  unfolding persist_ticket_sync
  persist-Extends s now ts ps db = elim (Option-cases s.begin) [
    | inl fine ↦ rw fine (
        finish-Extends s.commit db _
          (then_repair-Extends s now ps db _ (upsert_all-Extends s now 0 ts [] db)))
    | inr (e, failed) ↦ rw failed (same db)
  ]

-- The commit's answer did not arrive though the transaction took effect.
pub data ReplyLost (c : Commit) : Type 0 where
  lost : (e : Error) → c ≡ reply_lost e → ReplyLost c

finish-atomic :
    (c : Commit) (db : Database) (tx : Tx (List Text × TicketSyncPersistenceResult)) (e : Error)
    → (finish c db tx).0 ≡ err e
    → ((finish c db tx).1.tickets ≡ db.tickets) ⊎ ReplyLost c
unfolding finish
finish-atomic c db (err _, tx) e h = inl refl
finish-atomic committed db (ok (updated, r), tx) e h = cc
finish-atomic (rolled_back _) db (ok (updated, r), tx) e h = inl refl
finish-atomic (reply_lost e') db (ok (updated, r), tx) e h = inr (lost e' refl)

-- A synchronization that fails, at whatever statement, leaves the tickets as they were, unless the
-- transaction was committed and only the server's reply was lost.
pub persist_atomic :
    (s : Server) (now : Time) (ts : List (Option Ticket)) (expected : Date)
    (ps : List TicketOwnershipRepair) (db : Database) (e : Error)
    → (persist_ticket_sync s now ts expected ps db).0 ≡ err e
    → ((persist_ticket_sync s now ts expected ps db).1.tickets ≡ db.tickets) ⊎ ReplyLost s.commit
unfolding persist_ticket_sync
persist_atomic s now ts expected ps db e h = elim (Option-cases s.begin) [
  | inl fine ↦ rw fine (finish-atomic s.commit db _ e (rw fine at h))
  | inr (e', failed) ↦ rw failed (inl refl)
]

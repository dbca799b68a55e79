-- ===== src/Store/Integrity.antt =====
-- The integrity of the tickets table: the keys of its rows are unique, and its numbers are not blank.
use mathlib.Core.List.{append-nil}
use secarch_tickets.Base.{
  ℕ, ◌+◌, ◌≤◌, ◌<◌, ◌≡◌, ◌≢◌, sym, ◌∙◌, false, Text, Option, none, some, List, [], ◌∷◌, ◌++◌,
  nat_eq, list_eq, option_eq, map, any, All, All-append, arith, Bool-cases, Option-cases, inl, inr,
  ==-iff, ok, err, is_empty, trim_space,
}
use secarch_tickets.Calendar.{Date}
use secarch_tickets.Cmdb.Types.{Time, Ticket}
use secarch_tickets.Store.{Row, Database, upsert, has_number}
use secarch_tickets.Store.Persist.{
  TicketOwnershipRepair, TicketSyncPersistenceResult, run_repair, Server, Tx, Commit, committed,
  rolled_back, reply_lost, upsert_all, repair_all, then_repair, finish, roll_back,
  persist_ticket_sync,
}
use secarch_tickets.Store.Rows.{Local, local_part, local-upsert, local-run_repair}

abbrev pub Unique : List Local → Type 0
Unique [] = Unit
Unique (l ∷ ls) =
    All (λ (m : Local). (m.ticket_number ≢ l.ticket_number) × (m.id ≢ l.id)) ls × Unique ls

pub record IsValid (db : Database) : Type 0 where
  pub unique : Unique (map local_part db.tickets)
  pub below : All (λ (l : Local). l.id < db.next_ticket_id) (map local_part db.tickets)
  pub named :
      All (λ (l : Local). is_empty (trim_space l.ticket_number) ≡ false) (map local_part db.tickets)

Unique-snoc :
    (ls : List Local) (l : Local)
    → Unique ls
    → All (λ (m : Local). (l.ticket_number ≢ m.ticket_number) × (l.id ≢ m.id)) ls
    → Unique (ls ++ l ∷ [])
Unique-snoc [] l u a = (tt, tt)
Unique-snoc (m ∷ ls) l (h, u) (d, a) = (All-append _ ls (l ∷ []) h (d, tt), Unique-snoc ls l u a)

weaken :
    (ls : List Local) (n : ℕ)
    → All (λ (l : Local). l.id < n) ls
    → All (λ (l : Local). l.id < n + 1) ls
weaken [] n h = tt
weaken (l ∷ ls) n (h, hs) = (omega arith, weaken ls n hs)

absent :
    (t : Text) (id : ℕ) (rows : List Row)
    → any (has_number t) rows ≡ false
    → All (λ (l : Local). l.id < id) (map local_part rows)
    → All (λ (m : Local). (t ≢ m.ticket_number) × (id ≢ m.id)) (map local_part rows)
unfolding has_number
absent t id [] h b = tt
absent t id (r ∷ rows) h (b, bs) =
    let differs : t ≢ r.ticket_number = λ e. ground (arith, ==-iff r.ticket_number t, sym e) in
    ((differs, λ e. omega (arith, b)), absent t id rows (ground arith) bs)

upsert-IsValid :
    (now : Time) (expected : Date) (t : Ticket) (db : Database)
    → is_empty (trim_space t.ticket_number) ≡ false
    → IsValid db
    → IsValid (upsert now expected t db).1
upsert-IsValid now expected t db named v =
    elim (Bool-cases (any (has_number t.ticket_number) db.tickets)) [
      | inl old ↦
          let e : map local_part (upsert now expected t db).1.tickets ≡ map local_part db.tickets =
            local-upsert now expected t db ∙ rw old (append-nil _) in
          let n : (upsert now expected t db).1.next_ticket_id ≡ db.next_ticket_id + 1 =
            unfold upsert in ground arith in
          record {
            unique = rw e v.unique;
            below = rw (e, n) (weaken _ _ v.below);
            named = rw e v.named;
          }
      | inr new ↦
          let e = rw new at (local-upsert now expected t db) in
          let n : (upsert now expected t db).1.next_ticket_id ≡ db.next_ticket_id + 1 =
            unfold upsert in ground arith in
          record {
            unique = rw e (
                Unique-snoc _ _ v.unique
                  (absent t.ticket_number db.next_ticket_id db.tickets new v.below));
            below =
                rw (e, n)
                  (All-append _ (map local_part db.tickets) _ (weaken _ _ v.below)
                    (omega arith, tt));
            named = rw e (All-append _ (map local_part db.tickets) _ v.named (named, tt));
          }
    ]

run_repair-IsValid :
    (now : Time) (p : TicketOwnershipRepair) (db : Database)
    → IsValid db
    → IsValid (run_repair now p db).1
run_repair-IsValid now p db v =
    let e = local-run_repair now p db in
    record {
      unique = rw e v.unique;
      below = rw e (unfold run_repair in v.below);
      named = rw e v.named;
    }

-- The sequence never moves back.
next-grows :
    (db tx : Database)
    → IsValid db
    → db.next_ticket_id ≤ tx.next_ticket_id
    → IsValid (roll_back db tx)
next-grows db tx v g = record {
  unique = v.unique;
  below = wider (map local_part db.tickets) v.below;
  named = v.named;
}
  where
    wider :
        (ls : List Local)
        → All (λ (l : Local). l.id < db.next_ticket_id) ls
        → All (λ (l : Local). l.id < tx.next_ticket_id) ls
    wider [] h = tt
    wider (l ∷ ls) (h, hs) = (omega (arith, g), wider ls hs)

-- What every intermediate state of a transaction on `db` satisfies.
record Stands (db tx : Database) : Type 0 where
  valid : IsValid tx
  ahead : db.next_ticket_id ≤ tx.next_ticket_id

module _ (s : Server) (now : Time) (expected : Date) (db : Database) where
  upsert_all-Stands :
      (i : ℕ) (ts : List (Option Ticket)) (updated : List Text) (tx : Database)
      → Stands db tx
      → Stands db (upsert_all s now expected i ts updated tx).1
  unfolding upsert_all
  upsert_all-Stands i [] updated tx v = v
  upsert_all-Stands i (none ∷ ts) updated tx v = v
  upsert_all-Stands i (some t ∷ ts) updated tx v =
      elim (Bool-cases (is_empty (trim_space t.ticket_number))) [
        | inl blank ↦ rw blank v
        | inr named ↦ rw named (elim (Option-cases (s.exec i)) [
          | inl fine ↦ rw fine (
              upsert_all-Stands (i + 1) ts _ (upsert now expected t tx).1 (record {
                valid = upsert-IsValid now expected t tx named v.valid;
                ahead = unfold upsert in ground (arith, v.ahead);
              }))
          | inr (e, failed) ↦ rw failed v
        ])
      ]

  repair_all-Stands :
      (i : ℕ) (ps : List TicketOwnershipRepair) (updated : List Text)
      (r : TicketSyncPersistenceResult) (tx : Database)
      → Stands db tx
      → Stands db (repair_all s now i ps updated r tx).1
  unfolding repair_all
  repair_all-Stands i [] updated r tx v = v
  repair_all-Stands i (p ∷ ps) updated r tx v = elim (Option-cases (s.exec i)) [
    | inl fine ↦
        rw (fine, repair_all)
          (repair_all-Stands (i + 1) ps _ _ (run_repair now p tx).1 (record {
            valid = run_repair-IsValid now p tx v.valid;
            ahead = unfold run_repair in v.ahead;
          }))
    | inr (e, failed) ↦ rw (failed, repair_all) v
  ]

  then_repair-Stands :
      (ps : List TicketOwnershipRepair) (tx : Tx (ℕ × List Text))
      → Stands db tx.1
      → Stands db (then_repair s now ps tx).1
  unfolding then_repair
  then_repair-Stands ps (err e, tx) v = v
  then_repair-Stands ps (ok (i, updated), tx) v = repair_all-Stands i ps updated _ tx v

  finish-IsValid :
      (c : Commit) (tx : Tx (List Text × TicketSyncPersistenceResult))
      → IsValid db
      → Stands db tx.1
      → IsValid (finish c db tx).1
  unfolding finish
  finish-IsValid c (err e, tx) v h = next-grows db tx v h.ahead
  finish-IsValid committed (ok (updated, r), tx) v h = h.valid
  finish-IsValid (rolled_back e) (ok (updated, r), tx) v h = next-grows db tx v h.ahead
  finish-IsValid (reply_lost e) (ok (updated, r), tx) v h = h.valid

-- A synchronization keeps the integrity of the table, on every outcome: numbers and ids stay
-- unique, ids stay below the sequence, and no number is blank.
pub persist-IsValid :
    (s : Server) (now : Time) (ts : List (Option Ticket)) (expected : Date)
    (ps : List TicketOwnershipRepair) (db : Database)
    → IsValid db
    → IsValid (persist_ticket_sync s now ts expected ps db).1
unfolding persist_ticket_sync
persist-IsValid s now ts expected ps db v = elim (Option-cases s.begin) [
  | inl fine ↦ rw fine (
      finish-IsValid s now expected db s.commit _ v (
        then_repair-Stands s now expected db ps _ (
          upsert_all-Stands s now expected db 0 ts [] db
            (record { valid = v; ahead = omega arith }))))
  | inr (e, failed) ↦ rw failed v
]

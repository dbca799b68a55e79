-- ===== src/Store/Repeat.antt =====
-- Storing the tickets again that the last transaction stored.
use mathlib.Core.Path.{subst}
use secarch_tickets.Base.{
  ℕ, ◌+◌, ◌≡◌, ◌≢◌, refl, sym, ◌∙◌, false, Text, Option, none, some, List, [], ◌∷◌, nat_eq, list_eq,
  option_eq, ap, length, if◌then◌else◌, map, All, arith, ltb, ok, err, Error, is_empty, trim_space,
}
use secarch_tickets.Calendar.{Date}
use secarch_tickets.Cmdb.Types.{Time, Ticket}
use secarch_tickets.Store.{Database, upsert}
use secarch_tickets.Store.Persist.{
  TicketOwnershipRepair, TicketSyncPersistenceResult, Server, Tx, add_number, Commit, committed,
  upsert_all, then_repair, start, finish, persist_ticket_sync,
}
use secarch_tickets.Store.Elsewhere.{Works, Spared, then_repair-ok, then_repair-Holds}
use secarch_tickets.Store.Again.{Holds, upsert-Holds, upsert_other-Holds, upsert_held}

-- Tickets as the CMDB client lists them: named, each number once.
abbrev pub Listed : List Ticket → Type 0
Listed [] = Unit
Listed (t ∷ ts) =
    (is_empty (trim_space t.ticket_number) ≡ false)
    × All (λ (u : Ticket). u.ticket_number ≢ t.ticket_number) ts
    × Listed ts

-- With no repairs the second loop does nothing.
then_repair-none :
    (s : Server) (now : Time) (tx : Tx (ℕ × List Text)) (j : ℕ) (updated : List Text)
    → tx.0 ≡ ok (j, updated)
    → then_repair s now [] tx ≡ (
      ok (
        updated,
        record { updated_count = 0; applied_repair_count = 0; skipped_repair_tickets = [] },
      ),
      tx.1,
    )
unfolding then_repair
then_repair-none s now (ok (i, u), tx) j updated e = ground arith
then_repair-none s now (err x, tx) j updated e = cc

start-none :
    (o : Option Error) (db : Database) (tx : Tx TicketSyncPersistenceResult)
    → o ≡ none
    → start o db tx ≡ tx
unfolding start
start-none o db tx e = rw e refl

finish-committed :
    (c : Commit) (db : Database) (tx : Tx (List Text × TicketSyncPersistenceResult))
    (updated : List Text) (tx' : Database)
    → tx ≡ (
      ok (
        updated,
        record { updated_count = 0; applied_repair_count = 0; skipped_repair_tickets = [] },
      ),
      tx',
    )
    → c ≡ committed
    → finish c db tx ≡ (
      ok (record {
        updated_count = length updated;
        applied_repair_count = 0;
        skipped_repair_tickets = [];
      }),
      tx',
    )
unfolding finish
finish-committed c db tx updated tx' e k = rw (e, k) refl

module _ (s : Server) (works : Works s) (now : Time) (expected : Date) where
  abbrev noted : Ticket → List Text → Database → List Text
  noted t updated db =
      if ltb 0 (upsert now expected t db).0 then add_number t.ticket_number updated else updated

  upsert_all-step :
      (i : ℕ) (t : Ticket) (ts : List (Option Ticket)) (updated : List Text) (db : Database)
      → is_empty (trim_space t.ticket_number) ≡ false
      → upsert_all s now expected i (some t ∷ ts) updated db
        ≡ upsert_all s now expected (i + 1) ts (noted t updated db) (upsert now expected t db).1
  unfolding upsert_all
  upsert_all-step i t ts updated db named = rw (named, works.execs i) refl

  -- With a server that works, named tickets are all upserted.
  upsert_all-ok :
      (i : ℕ) (ts : List Ticket) (updated : List Text) (db : Database)
      → Listed ts
      → (r : ℕ × List Text) × ((upsert_all s now expected i (map some ts) updated db).0 ≡ ok r)
  upsert_all-ok i [] updated db h = unfold upsert_all in ((i, updated), refl)
  upsert_all-ok i (t ∷ ts) updated db (named, _, rest) =
      rw (upsert_all-step i t (map some ts) updated db named) (upsert_all-ok (i + 1) ts _ _ rest)

  keeps_held :
      (i : ℕ) (t : Ticket) (ts : List Ticket) (updated : List Text) (db : Database)
      → Listed ts
      → All (λ (u : Ticket). u.ticket_number ≢ t.ticket_number) ts
      → Holds t db.tickets
      → Holds t (upsert_all s now expected i (map some ts) updated db).1.tickets
  keeps_held i t [] updated db l d h = unfold upsert_all in h
  keeps_held i t (u ∷ ts) updated db (named, _, rest) (differs, d) h =
      rw (upsert_all-step i u (map some ts) updated db named)
        (keeps_held (i + 1) t ts _ _ rest d (upsert_other-Holds now expected t u db differs h))

  upsert_all-Holds :
      (i : ℕ) (ts : List Ticket) (updated : List Text) (db : Database)
      → Listed ts
      → All (λ t. Holds t (upsert_all s now expected i (map some ts) updated db).1.tickets) ts
  upsert_all-Holds i [] updated db l = tt
  upsert_all-Holds i (t ∷ ts) updated db (named, d, rest) =
      subst (λ tx. All (λ (u : Ticket). Holds u tx.1.tickets) (t ∷ ts))
        (sym (upsert_all-step i t (map some ts) updated db named))
        (
          keeps_held (i + 1) t ts _ _ rest d (upsert-Holds now expected t db),
          upsert_all-Holds (i + 1) ts _ _ rest,
        )

  held_unchanged :
      (i : ℕ) (ts : List Ticket) (updated : List Text) (db : Database)
      → Listed ts
      → All (λ t. Holds t db.tickets) ts
      → (j : ℕ) × ((upsert_all s now expected i (map some ts) updated db).0 ≡ ok (j, updated))
        × ((upsert_all s now expected i (map some ts) updated db).1.tickets ≡ db.tickets)
  held_unchanged i [] updated db l h = unfold upsert_all in (i, refl, refl)
  held_unchanged i (t ∷ ts) updated db (named, d, rest) (h, hs) =
      let (e0, e) = upsert_held now expected t db h in
      let (j, a, b) =
        held_unchanged (i + 1) ts updated (upsert now expected t db).1 rest
          (subst (λ rows. All (λ (u : Ticket). Holds u rows) ts) (sym e) hs) in
      rw (upsert_all-step i t (map some ts) updated db named) (rw e0 (j, a, b ∙ e))

  -- The whole transaction is the loop of upserts, then.
  persist-works :
      (ts : List Ticket) (db : Database) (j : ℕ) (updated : List Text)
      → (upsert_all s now expected 0 (map some ts) [] db).0 ≡ ok (j, updated)
      → persist_ticket_sync s now (map some ts) expected [] db ≡ (
        ok (record {
          updated_count = length updated;
          applied_repair_count = 0;
          skipped_repair_tickets = [];
        }),
        (upsert_all s now expected 0 (map some ts) [] db).1,
      )
  unfolding persist_ticket_sync
  persist-works ts db j updated e =
      start-none s.begin db _ works.begins
      ∙ (finish-committed s.commit db _ updated _
          (then_repair-none s now (upsert_all s now expected 0 (map some ts) [] db) j updated e)
          works.commits)

finish-kept :
    (c : Commit) (db : Database) (tx : Tx (List Text × TicketSyncPersistenceResult))
    (y : List Text × TicketSyncPersistenceResult)
    → tx.0 ≡ ok y
    → c ≡ committed
    → (finish c db tx).1 ≡ tx.1
unfolding finish
finish-kept c db (ok x, tx) y e k = rw k refl
finish-kept c db (err x, tx) y e k = absurd (ground arith)

module _ (s : Server) (works : Works s) (now : Time) (expected : Date) (ts : List Ticket)
    (ps : List TicketOwnershipRepair) (db : Database) (listed : Listed ts) where
  abbrev upserted : Tx (ℕ × List Text)
  upserted = upsert_all s now expected 0 (map some ts) [] db

  -- The tables after a transaction of which every call succeeds.
  persisted :
      (persist_ticket_sync s now (map some ts) expected ps db).1 ≡ (then_repair s now ps upserted).1
  unfolding persist_ticket_sync
  persisted =
      let (r, e) = upsert_all-ok s works now expected 0 ts [] db listed in
      let (y, k) = then_repair-ok s works now ps upserted r e in
      ap (λ (tx : Tx TicketSyncPersistenceResult). tx.1) (start-none s.begin db _ works.begins)
      ∙ finish-kept s.commit db _ y k works.commits

  kept_held :
      (us : List Ticket)
      → All (Spared ps) us
      → All (λ t. Holds t upserted.1.tickets) us
      → All (λ t. Holds t (then_repair s now ps upserted).1.tickets) us
  kept_held [] h k = tt
  kept_held (t ∷ us) (h, hs) (k, ks) =
      (then_repair-Holds s works now t ps upserted h k, kept_held us hs ks)

  persist-Holds :
      All (Spared ps) ts
      → All (λ t. Holds t (persist_ticket_sync s now (map some ts) expected ps db).1.tickets) ts
  persist-Holds spared =
      rw persisted (kept_held ts spared (upsert_all-Holds s works now expected 0 ts [] db listed))

-- After a transaction on a server that works, of named tickets each of another number, and of any
-- repairs but of these tickets, a second transaction of the same tickets, without repairs, updates no
-- row: it reports no update and leaves the table of tickets as it is, at any time and with any default
-- date.
pub persist_again :
    (s s' : Server) (now now' : Time) (expected expected' : Date) (ts : List Ticket)
    (ps : List TicketOwnershipRepair) (db : Database)
    → Works s
    → Works s'
    → Listed ts
    → All (Spared ps) ts
    → let db' = (persist_ticket_sync s now (map some ts) expected ps db).1 in
      ((persist_ticket_sync s' now' (map some ts) expected' [] db').0
        ≡ ok (record { updated_count = 0; applied_repair_count = 0; skipped_repair_tickets = [] }))
      × ((persist_ticket_sync s' now' (map some ts) expected' [] db').1.tickets ≡ db'.tickets)
persist_again s s' now now' expected expected' ts ps db w w' l spared =
    let db' = (persist_ticket_sync s now (map some ts) expected ps db).1 in
    let (j', a, b) =
      held_unchanged s' w' now' expected' 0 ts [] db' l
        (persist-Holds s w now expected ts ps db l spared) in
    rw (persist-works s' w' now' expected' ts db' j' [] a) (refl, b)

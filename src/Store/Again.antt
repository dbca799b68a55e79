-- ===== src/Store/Again.antt =====
-- Synchronizing the same tickets again.
use secarch_tickets.Base.{
  ℕ, ◌≡◌, ◌≢◌, refl, ◌∙◌, Bool, true, false, Text, List, [], ◌∷◌, ◌++◌, ◌&&◌, ◌||◌, nat_eq, list_eq,
  option_eq, any, All, All-append, arith, Bool-cases, inl, inr, ==-iff, ==-self,
}
use secarch_tickets.Calendar.{Date}
use secarch_tickets.Cmdb.Types.{Time, Ticket}
use secarch_tickets.Store.{
  Row, Database, update_where, upsert, has_number, overwrite, new_row, is_changed, stored_time,
  stored_time?,
}

-- Some row has the ticket's number, and every such row shows the ticket's values.
pub record Holds (t : Ticket) (rows : List Row) : Type 0 where
  pub present : any (has_number t.ticket_number) rows ≡ true
  pub current : All (λ r. has_number t.ticket_number r && is_changed t r ≡ false) rows

pub All-update_where :
    (Q : Row → Type 0) (p : Row → Bool) (f : Row → Row)
    → ((r : Row) → Q r → p r ≡ true → Q (f r))
    → (rows : List Row) → All Q rows
    → All Q (update_where p f rows).1
unfolding update_where
All-update_where Q p f keep [] h = tt
All-update_where Q p f keep (r ∷ rows) (h, hs) = elim (Bool-cases (p r)) [
  | inl hit ↦ rw hit (keep r h hit, All-update_where Q p f keep rows hs)
  | inr miss ↦ rw miss (h, All-update_where Q p f keep rows hs)
]

-- After an update whose new values no longer meet its condition, no row meets it.
none_left :
    (p : Row → Bool) (f : Row → Row)
    → ((r : Row) → p (f r) ≡ false)
    → (rows : List Row) → All (λ r. p r ≡ false) (update_where p f rows).1
unfolding update_where
none_left p f settled [] = tt
none_left p f settled (r ∷ rows) = elim (Bool-cases (p r)) [
  | inl hit ↦ rw hit (settled r, none_left p f settled rows)
  | inr miss ↦ rw miss (miss, none_left p f settled rows)
]

-- An update whose condition no row meets affects nothing.
no_update :
    (p : Row → Bool) (f : Row → Row) (rows : List Row)
    → All (λ r. p r ≡ false) rows
    → update_where p f rows ≡ (0, rows)
unfolding update_where
no_update p f [] h = refl
no_update p f (r ∷ rows) (h, hs) = rw (h, no_update p f rows hs) refl

pub any-update_where :
    (n : Text) (p : Row → Bool) (f : Row → Row)
    → ((r : Row) → (f r).ticket_number ≡ r.ticket_number)
    → (rows : List Row) → any (has_number n) (update_where p f rows).1 ≡ any (has_number n) rows
unfolding update_where has_number
any-update_where n p f keep [] = refl
any-update_where n p f keep (r ∷ rows) = elim (Bool-cases (p r)) [
  | inl hit ↦ rw hit (rw (keep r, any-update_where n p f keep rows) refl)
  | inr miss ↦ rw miss (rw (any-update_where n p f keep rows) refl)
]

-- A row with the ticket's values in the eight columns is not changed by it.
settled :
    (t : Ticket) (r : Row)
    → r.summary ≡ t.summary
    → r.reporter ≡ t.reporter
    → r.assignee ≡ t.assignee
    → r.cmdb_system_name ≡ t.cmdb_system_name
    → r.cmdb_system_key ≡ t.cmdb_system_key
    → r.department ≡ t.department
    → r.ticket_created_at ≡ stored_time t.ticket_created_at
    → r.ticket_closed_at ≡ stored_time? t.ticket_closed_at
    → is_changed t r ≡ false
unfolding is_changed
settled t r a b c d e g h i = ground (
  arith,
  ==-iff r.summary t.summary,
  ==-iff r.reporter t.reporter,
  ==-iff r.assignee t.assignee,
  ==-iff r.cmdb_system_name t.cmdb_system_name,
  ==-iff r.cmdb_system_key t.cmdb_system_key,
  ==-iff r.department t.department,
  ==-iff r.ticket_created_at (stored_time t.ticket_created_at),
  ==-iff r.ticket_closed_at (stored_time? t.ticket_closed_at),
)

overwritten : (now : Time) (t : Ticket) (r : Row) → is_changed t (overwrite now t r) ≡ false
overwritten now t r = unfold overwrite in settled t _ refl refl refl refl refl refl refl refl

written :
    (id : ℕ) (now : Time) (expected : Date) (t : Ticket)
    → is_changed t (new_row id now expected t) ≡ false
written id now expected t = unfold new_row in settled t _ refl refl refl refl refl refl refl refl

unmatched :
    (t : Ticket) (rows : List Row)
    → any (has_number t.ticket_number) rows ≡ false
    → All (λ r. has_number t.ticket_number r && is_changed t r ≡ false) rows
unmatched t [] h = tt
unmatched t (r ∷ rows) h = (ground arith, unmatched t rows (ground arith))

any-snoc :
    (p : Row → Bool) (rows : List Row) (r : Row) → any p (rows ++ r ∷ []) ≡ (any p rows || p r)
any-snoc p [] r = ground arith
any-snoc p (x ∷ rows) r = ground (arith, any-snoc p rows r)

number-overwrite :
    (now : Time) (t : Ticket) (r : Row) → (overwrite now t r).ticket_number ≡ r.ticket_number
unfolding overwrite
number-overwrite now t r = refl

has_number-overwrite :
    (n : Text) (now : Time) (t : Ticket) (r : Row)
    → has_number n (overwrite now t r) ≡ has_number n r
unfolding overwrite has_number
has_number-overwrite n now t r = refl

new_row-number :
    (id : ℕ) (now : Time) (expected : Date) (t : Ticket)
    → has_number t.ticket_number (new_row id now expected t) ≡ true
unfolding has_number new_row
new_row-number id now expected t = ==-self t.ticket_number

-- An upsert leaves the ticket held.
pub upsert-Holds :
    (now : Time) (expected : Date) (t : Ticket) (db : Database)
    → Holds t (upsert now expected t db).1.tickets
unfolding upsert
upsert-Holds now expected t db = elim (Bool-cases (any (has_number t.ticket_number) db.tickets)) [
  | inl old ↦ rw old (record {
    present =
        any-update_where t.ticket_number
          (λ (r : Row). has_number t.ticket_number r && is_changed t r) (overwrite now t)
          (number-overwrite now t) db.tickets
        ∙ old;
    current = none_left _ _ (λ r. rw (overwritten now t r) (ground arith)) db.tickets;
  })
  | inr new ↦ rw new (record {
    present =
        any-snoc _ db.tickets _
        ∙ rw (new_row-number db.next_ticket_id now expected t) (ground arith);
    current =
        All-append _ db.tickets _ (unmatched t db.tickets new)
          (rw (written db.next_ticket_id now expected t) (ground arith), tt);
  })
]

-- The upsert of another number leaves a held ticket held.
pub upsert_other-Holds :
    (now : Time) (expected : Date) (t u : Ticket) (db : Database)
    → u.ticket_number ≢ t.ticket_number
    → Holds t db.tickets
    → Holds t (upsert now expected u db).1.tickets
unfolding upsert
upsert_other-Holds now expected t u db other h =
    elim (Bool-cases (any (has_number u.ticket_number) db.tickets)) [
      | inl old ↦ rw old (record {
        present =
            any-update_where t.ticket_number
              (λ (r : Row). has_number u.ticket_number r && is_changed u r) (overwrite now u)
              (number-overwrite now u) db.tickets
            ∙ h.present;
        current = All-update_where _ _ _ (λ r _ hit. distinct r hit) db.tickets h.current;
      })
      | inr new ↦ rw new (record {
        present = any-snoc _ db.tickets _ ∙ rw h.present (ground arith);
        current = All-append _ db.tickets _ h.current (added_differs, tt);
      })
    ]
  where
    distinct :
        (r : Row)
        → has_number u.ticket_number r && is_changed u r ≡ true
        → has_number t.ticket_number (overwrite now u r) && is_changed t (overwrite now u r) ≡ false
    distinct r hit =
        unfold has_number overwrite in
        ground
          (arith, ==-iff r.ticket_number u.ticket_number, ==-iff r.ticket_number t.ticket_number)

    added_differs :
        has_number t.ticket_number (new_row db.next_ticket_id now expected u)
          && is_changed t (new_row db.next_ticket_id now expected u)
        ≡ false
    added_differs =
        unfold has_number new_row in ground (arith, ==-iff u.ticket_number t.ticket_number)

-- The upsert of a held ticket affects no row and changes none.
pub upsert_held :
    (now : Time) (expected : Date) (t : Ticket) (db : Database)
    → Holds t db.tickets
    → ((upsert now expected t db).0 ≡ 0) × ((upsert now expected t db).1.tickets ≡ db.tickets)
unfolding upsert
upsert_held now expected t db h =
    let e =
      no_update (λ r. has_number t.ticket_number r && is_changed t r) (overwrite now t) db.tickets
        h.current in
    rw (h.present, e) (refl, refl)

-- ===== src/Calendar.antt =====
-- Dates of the civil calendar.
pub mod Expected
pub mod Days
use secarch_tickets.Base.{ℕ, Bool, ◌||◌, ◌&&◌, ltb, leb, ◌==◌, Eq, nat_eq, ◌≡◌, ◌↔◌, true, arith}

-- A DATE.
pub record Date : Type 0 where
  pub year : ℕ
  pub month : ℕ
  pub day : ℕ

abbrev pub date_beq : Date → Date → Bool
date_beq a b = (a.year == b.year) && (a.month == b.month) && (a.day == b.day)

pub date_beq_iff : (a b : Date) → (date_beq a b ≡ true) ↔ (a ≡ b)
date_beq_iff a b = ground arith

instance abbrev pub date_eq : Eq Date
date_eq = record { beq = date_beq; beq_iff = date_beq_iff }

-- The order of dates.
abbrev pub date_leb : Date → Date → Bool
date_leb a b =
    ltb a.year b.year
    || ((a.year == b.year) && (ltb a.month b.month || ((a.month == b.month) && leb a.day b.day)))

-- ===== src/Calendar/Days.antt =====
-- The number of a date's day, as time.Date of package time counts it, and the midnights in China.
use secarch_tickets.Base.{
  ℕ, zero, suc, ◌+◌, ◌-◌, ◌*◌, ◌/◌, List, [], ◌∷◌, ◌≤◌, ◌≡◌, leb, ltb, arith,
}
use secarch_tickets.Calendar.{Date}
use secarch_tickets.Calendar.Expected.{is_leap, month_lengths, day_length, china}

-- The lengths of the months before one.
abbrev pub sum_before : List ℕ → ℕ → ℕ
sum_before [] m = 0
sum_before (l ∷ ls) zero = 0
sum_before (l ∷ ls) (suc zero) = 0
sum_before (l ∷ ls) (suc (suc m)) = l + sum_before ls (suc m)

-- The days before 1 January of a year that is not before the year 1.
abbrev pub days_before_year : ℕ → ℕ
days_before_year year = 365 * (year - 1) + ((year - 1) / 4 + (year - 1) / 400 - (year - 1) / 100)

-- The day `day` of the month, which may be one more than the month has.
unfoldable pub day_number : Date → ℕ
day_number d =
    days_before_year d.year + sum_before (month_lengths (is_leap d.year)) d.month + (d.day - 1)

-- time.Date at midnight in China. A midnight before the zero time is given as the zero time.
unfoldable pub midnight : ℕ → ℕ
midnight days = days * day_length - china

-- The number of the day in China of an instant.
abbrev pub day_in_china : ℕ → ℕ
day_in_china t = (t + china) / day_length

pub leb-midnight : (a t : ℕ) → leb (midnight a) t ≡ leb a (day_in_china t)
unfolding midnight
leb-midnight a t = ground arith

pub ltb-midnight : (t b : ℕ) → ltb t (midnight (b + 1)) ≡ leb (day_in_china t) b
unfolding midnight
ltb-midnight t b = ground arith

pub day_number-next :
    (d : Date) → 1 ≤ d.day → day_number (record d { day = d.day + 1 }) ≡ day_number d + 1
unfolding day_number
day_number-next d h = omega arith

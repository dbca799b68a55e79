-- ===== src/Calendar/Expected.antt =====
-- defaultExpectedDate of internal/secarch/ticket_sync.go: the date a month after today in China.
pub mod Dates
use secarch_tickets.Base.{
  ℕ, zero, suc, ◌+◌, ◌-◌, ◌*◌, ◌/◌, ◌%◌, min, Bool, List, [], ◌∷◌, if◌then◌else◌, ltb, leb, ◌≡◌,
  refl, ◌==◌, nat_eq, ◌&&◌, ◌||◌, not,
}
use secarch_tickets.Calendar.{Date}

-- The proleptic Gregorian calendar, as package time keeps it.
abbrev pub is_leap : ℕ → Bool
is_leap year = ((year % 4) == 0) && (not ((year % 100) == 0) || ((year % 400) == 0))

abbrev pub month_lengths : Bool → List ℕ
month_lengths leap =
    31 ∷ (if leap then 29 else 28) ∷ 31 ∷ 30 ∷ 31 ∷ 30 ∷ 31 ∷ 31 ∷ 30 ∷ 31 ∷ 30 ∷ 31 ∷ []

abbrev pub length_at : List ℕ → ℕ → ℕ
length_at [] m = 0
length_at (l ∷ ls) zero = 0
length_at (l ∷ ls) (suc zero) = l
length_at (l ∷ ls) (suc (suc m)) = length_at ls (suc m)

unfoldable pub days_in_month : ℕ → ℕ → ℕ
days_in_month year month = length_at (month_lengths (is_leap year)) month

-- The month, counted from `month`, and the day in it, of the day `r` (from 0) after its first.
unfoldable pub walk : List ℕ → ℕ → ℕ → ℕ × ℕ
walk [] month r = (month, suc r)
walk (l ∷ ls) month r =
    let later = walk ls (suc month) (r - l) in if ltb r l then (month, suc r) else later

-- The date of the day `d` after 1 January of the year 1: centuries of four, centuries, fours, years.
unfoldable pub date_of_days : ℕ → Date
unfolding walk
date_of_days d =
    let centuries = min 3 (d % 146_097 / 36_524) in
    let in_century = d % 146_097 - 36_524 * centuries in
    let years = min 3 (in_century % 1461 / 365) in
    let year_day = in_century % 1461 - 365 * years in
    let year = 400 * (d / 146_097) + 100 * centuries + 4 * (in_century / 1461) + years + 1 in
    let at = walk (month_lengths (is_leap year)) 1 year_day in
    record { year = year; month = at.0; day = at.1 }

-- time.Date carries a thirteenth month into the next year.
unfoldable pub month_after : Date → Date
unfolding days_in_month
month_after d =
    let year = if d.month == 12 then d.year + 1 else d.year in
    let month = if d.month == 12 then 1 else d.month + 1 in
    let last_day = days_in_month year month in
    record { year = year; month = month; day = if ltb last_day d.day then last_day else d.day }

-- Nanoseconds in a day, and the offset of Asia/Shanghai.
abbrev pub day_length : ℕ
day_length = 86_400_000_000_000

abbrev pub china : ℕ
china = 28_800_000_000_000

unfoldable pub default_expected_date : ℕ → Date
unfolding date_of_days month_after
default_expected_date now = month_after (date_of_days ((now + china) / day_length))

-- ===== src/Calendar/Expected/Dates.antt =====
-- That the default expected date is a date of the calendar, in the month after.
use secarch_tickets.Base.{
  ℕ, zero, suc, ◌+◌, ◌-◌, ◌*◌, ◌/◌, ◌%◌, ◌≤◌, ◌<◌, ◌≡◌, ◌⊎◌, inl, inr, min, Bool, true, false, List,
  [], ◌∷◌, if◌then◌else◌, ltb, arith, ◌==◌, nat_eq, Bool-cases, All, length, ◌≢◌,
}
use secarch_tickets.Calendar.{Date}
use secarch_tickets.Calendar.Expected.{
  is_leap, month_lengths, length_at, days_in_month, walk, date_of_days, month_after,
  default_expected_date, day_length, china,
}

-- The month has the day.
pub record IsDate (d : Date) : Type 0 where
  pub months : (1 ≤ d.month) × (d.month ≤ 12)
  pub days : (1 ≤ d.day) × (d.day ≤ days_in_month d.year d.month)

at-All :
    (n : ℕ) (ls : List ℕ) (m : ℕ)
    → All (λ (l : ℕ). n ≤ l) ls
    → 1 ≤ m
    → m ≤ length ls
    → n ≤ length_at ls m
at-All n [] m a h k = absurd (omega arith)
at-All n (l ∷ ls) zero a h k = absurd (omega arith)
at-All n (l ∷ ls) (suc zero) (a, rest) h k = a
at-All n (l ∷ ls) (suc (suc m)) (a, rest) h k = at-All n ls (suc m) rest (omega arith) (omega arith)

days_in_month-bound : (year month : ℕ) → 1 ≤ month → month ≤ 12 → 28 ≤ days_in_month year month
unfolding days_in_month
days_in_month-bound year month h k =
    at-All 28 (month_lengths (is_leap year)) month (lengths (is_leap year)) h k
  where
    lengths : (leap : Bool) → All (λ (l : ℕ). 28 ≤ l) (month_lengths leap)
    lengths true = (
      omega arith,
      (
        omega arith,
        (
          omega arith,
          (
            omega arith,
            (
              omega arith,
              (
                omega arith,
                (
                  omega arith,
                  (omega arith, (omega arith, (omega arith, (omega arith, (omega arith, tt))))),
                ),
              ),
            ),
          ),
        ),
      ),
    )
    lengths false = (
      omega arith,
      (
        omega arith,
        (
          omega arith,
          (
            omega arith,
            (
              omega arith,
              (
                omega arith,
                (
                  omega arith,
                  (omega arith, (omega arith, (omega arith, (omega arith, (omega arith, tt))))),
                ),
              ),
            ),
          ),
        ),
      ),
    )

clipped-IsDate :
    (year month day : ℕ)
    → 1 ≤ month
    → month ≤ 12
    → 1 ≤ day
    → IsDate (record {
      year = year;
      month = month;
      day = if ltb (days_in_month year month) day then days_in_month year month else day;
    })
clipped-IsDate year month day h k l = record {
  months = (h, k);
  days = ground (arith, days_in_month-bound year month h k);
}

-- A month after a date of the calendar is one again: a day that the month does not have becomes its
-- last.
month_after-IsDate : (d : Date) → IsDate d → IsDate (month_after d)
unfolding month_after
month_after-IsDate d v =
    clipped-IsDate (if d.month == 12 then d.year + 1 else d.year)
      (if d.month == 12 then 1 else d.month + 1) d.day (ground arith) (ground (arith, v.months))
      (v.days.0)

abbrev total : List ℕ → ℕ
total [] = 0
total (l ∷ ls) = l + total ls

walk-bounds :
    (ls : List ℕ) (month r : ℕ)
    → r < total ls
    → (month ≤ (walk ls month r).0)
      × ((walk ls month r).0 < month + length ls)
      × (1 ≤ (walk ls month r).1)
      × ((walk ls month r).1 ≤ length_at ls (suc ((walk ls month r).0 - month)))
unfolding walk
walk-bounds [] month r h = absurd (omega arith)
walk-bounds (l ∷ ls) month r h = elim (Bool-cases (ltb r l)) [
  | inl here ↦ rw here (
    omega arith,
    omega arith,
    omega arith,
    (let e : month - month ≡ 0 = omega arith in rw e (ground arith)),
  )
  | inr past ↦
      let (a, b, c, d) = walk-bounds ls (suc month) (r - l) (ground arith) in
      rw past (
        omega arith,
        omega arith,
        c,
        (let e : (walk ls (suc month) (r - l)).0 - month
                ≡ suc ((walk ls (suc month) (r - l)).0 - suc month) =
              omega arith in
            rw e d),
      )
]

year_day-bound :
    (r : ℕ)
    → r < 146_097
    → let centuries = min 3 (r / 36_524) in
      let in_century = r - 36_524 * centuries in
      let years = min 3 (in_century % 1461 / 365) in
      let year_day = in_century % 1461 - 365 * years in
      (year_day < 365)
      ⊎ ((year_day ≡ 365) × (years ≡ 3) × ((in_century / 1461 ≢ 24) ⊎ (centuries ≡ 3)))
year_day-bound r h = omega arith

leap-year :
    (q c f : ℕ)
    → c ≤ 3
    → f ≤ 24
    → (f ≢ 24) ⊎ (c ≡ 3)
    → is_leap (400 * q + 100 * c + 4 * f + 3 + 1) ≡ true
leap-year q c f h k (inl below) =
    let four : (400 * q + 100 * c + 4 * f + 3 + 1) % 4 ≡ 0 = omega arith in
    let century : (400 * q + 100 * c + 4 * f + 3 + 1) % 100 ≢ 0 = λ e. absurd (omega arith) in
    ground arith
leap-year q c f h k (inr last) =
    let four : (400 * q + 100 * c + 4 * f + 3 + 1) % 4 ≡ 0 = omega arith in
    elim (Bool-cases (f == 24)) [
      | inl end ↦
          let whole : (400 * q + 100 * c + 4 * f + 3 + 1) % 400 ≡ 0 =
            let e : f ≡ 24 = ground arith in omega arith in
          ground arith
      | inr below ↦
          let g : f ≢ 24 = ground arith in
          let century : (400 * q + 100 * c + 4 * f + 3 + 1) % 100 ≢ 0 = λ e. absurd (omega arith) in
          ground arith
    ]

year_total :
    (leap : Bool) (d : ℕ) → (d < 365) ⊎ ((d ≡ 365) × (leap ≡ true)) → d < total (month_lengths leap)
year_total true d h = ground arith
year_total false d h = ground arith

year_day-IsDate :
    (year year_day : ℕ)
    → year_day < total (month_lengths (is_leap year))
    → IsDate (record {
      year = year;
      month = (walk (month_lengths (is_leap year)) 1 year_day).0;
      day = (walk (month_lengths (is_leap year)) 1 year_day).1;
    })
unfolding days_in_month
year_day-IsDate year year_day h =
    let ls = month_lengths (is_leap year) in
    let (a, b, c, e) = walk-bounds ls 1 year_day h in
    let month = (walk ls 1 year_day).0 in
    let same : suc (month - 1) ≡ month = omega arith in
    record { months = (a, omega (arith, b)); days = (c, rw same at e) }

-- The day count of package time gives a date of the calendar.
date_of_days-IsDate : (d : ℕ) → IsDate (date_of_days d)
unfolding date_of_days
date_of_days-IsDate d =
    let r = d % 146_097 in
    let centuries = min 3 (r / 36_524) in
    let in_century = r - 36_524 * centuries in
    let years = min 3 (in_century % 1461 / 365) in
    let year_day = in_century % 1461 - 365 * years in
    let leap =
      is_leap (400 * (d / 146_097) + 100 * centuries + 4 * (in_century / 1461) + years + 1) in
    let inside : (year_day < 365) ⊎ ((year_day ≡ 365) × (leap ≡ true)) =
      elim (year_day-bound r (omega arith)) [
        | inl short ↦ inl short
        | inr (full, third, cycle) ↦ inr (
          full,
          rw third (
              leap-year (d / 146_097) centuries (in_century / 1461) (omega arith) (omega arith)
                cycle),
        )
      ] in
    year_day-IsDate _ year_day (year_total leap year_day inside)

-- Today in China.
abbrev pub today : ℕ → Date
today now = date_of_days ((now + china) / day_length)

-- The default expected date of new tickets is a date of the calendar; it lies in the month after that
-- of today in China, on the same day, or on the last day if that month is shorter.
pub default_expected_date-IsDate :
    (now : ℕ)
    → let e = default_expected_date now in
      IsDate e
      × (12 * e.year + e.month ≡ 12 * (today now).year + (today now).month + 1)
      × (e.day ≡ min (today now).day (days_in_month e.year e.month))
unfolding default_expected_date
default_expected_date-IsDate now =
    let v = date_of_days-IsDate ((now + china) / day_length) in
    (month_after-IsDate (today now) v, in_next (today now), least (today now))
  where
    in_next :
        (d : Date) → 12 * (month_after d).year + (month_after d).month ≡ 12 * d.year + d.month + 1
    in_next d = unfold month_after in ground arith

    least :
        (d : Date)
        → (month_after d).day ≡ min d.day (days_in_month (month_after d).year (month_after d).month)
    least d = unfold month_after in ground arith

-- ===== src/Base/Int.antt =====
-- Signed integers where the source's `int` or `time.Duration` can be negative.
use secarch_tickets.Base.{
  ℕ, zero, suc, ◌+◌, ◌-◌, ◌*◌, ◌%◌, ◌<◌, ◌≡◌, Bool, true, false, ltb, if◌then◌else◌, arith, Option,
  some, none,
}

-- `negsuc n` is -(n + 1).
pub data ℤ : Type 0 where
  pos : ℕ → ℤ
  negsuc : ℕ → ℤ

-- i <= 0
abbrev pub nonpositive : ℤ → Bool
nonpositive (pos zero) = true
nonpositive (pos (suc n)) = false
nonpositive (negsuc n) = true

-- A setting that is not positive is replaced by its default.
abbrev pub default_int : ℤ → ℕ → ℤ
default_int i n = if nonpositive i then pos n else i

-- i < 0
abbrev pub negative : ℤ → Bool
negative (pos n) = false
negative (negsuc n) = true

-- t.Add(d). Instants are counted from Go's zero time, before which no clock of the service reads.
abbrev pub add_duration : ℕ → ℤ → ℕ
add_duration t (pos n) = t + n
add_duration t (negsuc n) = t - suc n

-- Multiplication by a natural number.
abbrev pub scale : ℤ → ℕ → ℤ
scale (pos n) k = pos (n * k)
scale (negsuc n) zero = pos 0
scale (negsuc n) (suc k) = negsuc (suc n * suc k - 1)

-- The value that int64 keeps of a result: two's complement in 64 bits.
abbrev to_word : ℤ → ℕ
to_word (pos n) = n % 18_446_744_073_709_551_616
to_word (negsuc n) = 18_446_744_073_709_551_615 - n % 18_446_744_073_709_551_616

abbrev of_word : ℕ → ℤ
of_word w =
    if ltb w 9_223_372_036_854_775_808 then pos w else negsuc (18_446_744_073_709_551_615 - w)

unfoldable pub wrap64 : ℤ → ℤ
wrap64 i = of_word (to_word i)

pub wrap64-fits : (n : ℕ) → n < 9_223_372_036_854_775_808 → wrap64 (pos n) ≡ pos n
unfolding wrap64
wrap64-fits n h = ground arith

-- time.Duration(n) * time.Second
abbrev pub seconds : ℤ → ℤ
seconds n = wrap64 (scale n 1_000_000_000)

-- A duration that is not negative.
abbrev pub natural : ℤ → Option ℕ
natural (pos n) = some n
natural (negsuc n) = none

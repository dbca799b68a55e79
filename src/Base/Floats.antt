-- ===== src/Base/Floats.antt =====
-- The two float64 computations of the refresh control. Their values are those of the exact
-- computation as long as a float64 holds these; beyond that nothing is assumed, but that the
-- rounded quotient of a positive number of nanoseconds is positive.
use secarch_tickets.Base.{ℕ, ◌+◌, ◌*◌, ◌/◌, ◌^◌, ◌≤◌, ◌<◌, ◌≡◌}
use secarch_tickets.Base.Int.{ℤ, pos}

-- Nanoseconds in a second: time.Second.
abbrev pub second : ℕ
second = 1_000_000_000

pub record Floats : Type 0 where
  -- time.Duration(float64(delay) * math.Pow(float64(base), float64(exponent)))
  pub scaled : ℕ → ℕ → ℕ → ℤ
  -- int(math.Ceil(d.Seconds()))
  pub ceil_seconds : ℕ → ℕ
  pub scaled_exact :
      (delay base exponent : ℕ)
      → delay * base ^ exponent ≤ 2 ^ 53
      → scaled delay base exponent ≡ pos (delay * base ^ exponent)
  pub ceil_exact : (d : ℕ) → d ≤ 2 ^ 22 * second → ceil_seconds d ≡ (d + 999_999_999) / second
  pub ceil_positive : (d : ℕ) → 0 < d → 0 < ceil_seconds d

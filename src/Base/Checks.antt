-- ===== src/Base/Checks.antt =====
-- Sequences of checks that return an error at the first condition that does not hold.
use Prim.Native.String.{String}
use mathlib.Core.Path.{◌≡◌}
use mathlib.Core.Bool.{Bool, true}
use mathlib.Core.Logic.{inl, inr}
use mathlib.Core.List.{List, [], ◌∷◌}
use native.Mathlib.Omega.{arith}
use secarch_tickets.Base.Tests.{if◌then◌else◌, Bool-cases}
use secarch_tickets.Base.Errors.{Result, ok, err, failed}
use secarch_tickets.Base.Lists.{All}

-- Each condition with the text of the error where it fails.
abbrev pub require_all {ℓ} : {A : Type ℓ} → List (Bool × String) → A → Result A
require_all [] a = ok a
require_all ((test, text) ∷ checks) a =
    let rest = require_all checks a in if test then rest else err (failed text)

pub require_all-ok {ℓ} :
    {A : Type ℓ} (checks : List (Bool × String)) (a b : A)
    → require_all checks a ≡ ok b
    → (b ≡ a) × All (λ c. c.0 ≡ true) checks
require_all-ok [] a b h = (ground arith, tt)
require_all-ok ((test, text) ∷ checks) a b h = elim (Bool-cases test) [
  | inl t ↦ let (same, held) = require_all-ok checks a b (rw t at h) in (same, (t, held))
  | inr t ↦ absurd (let k = rw t at h in ground arith)
]

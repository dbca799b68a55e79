-- ===== src/Base/Texts.antt =====
-- Go strings as lists of code points, with package strings' TrimSpace and HasPrefix, and the parts
-- of Unicode and of PostgreSQL's text functions that the service relies on.
mod Trim
unfoldable pub use Trim.*
use Prim.Native.Char.{code}
use Prim.Native.String.{String}
use mathlib.Core.Path.{◌≡◌}
use mathlib.Core.Bool.{Bool, true, false, ◌&&◌, ◌||◌}
use mathlib.Core.List.{List, [], ◌∷◌, ◌++◌, map}
use Prim.Native.Nat.{ℕ, ◌-◌, ◌<◌}
use secarch_tickets.Base.Tests.{leb, ◌==◌, nat_eq, if◌then◌else◌}

-- The text that a literal stands for.
abbrev pub codes : String → List ℕ
codes String.[] = []
codes (String.◌∷◌ c s) = code c ∷ codes s

abbrev pub is_upper : ℕ → Bool
is_upper c = leb b'A' c && leb c b'Z'

abbrev pub is_lower : ℕ → Bool
is_lower c = leb b'a' c && leb c b'z'

abbrev pub is_digit : ℕ → Bool
is_digit c = leb b'0' c && leb c b'9'

abbrev pub ascii_upper : ℕ → ℕ
ascii_upper c = if is_lower c then c - 32 else c

-- The Unicode tables of package unicode, which ToUpper and ToLower map over a string, and
-- PostgreSQL's LOWER, which depends on the locale of the database. 0x17F is the long s, 0x212A the
-- Kelvin sign: the two characters outside ASCII that (?i)[a-z] of package regexp accepts.
pub record CaseTables : Type 0 where
  pub upper : ℕ → ℕ
  pub lower : ℕ → ℕ
  pub sql_lower : List ℕ → List ℕ
  pub upper_ascii : (c : ℕ) → c < 128 → upper c ≡ ascii_upper c
  pub upper_long_s : upper 0x17F ≡ 0x53
  pub upper_kelvin : upper 0x212A ≡ 0x212A

-- strings.ToUpper, strings.ToLower
abbrev pub to_upper : ⦃t : CaseTables⦄ → List ℕ → List ℕ
to_upper ⦃t⦄ s = map t.upper s

abbrev pub to_lower : ⦃t : CaseTables⦄ → List ℕ → List ℕ
to_lower ⦃t⦄ s = map t.lower s

-- strings.HasPrefix
abbrev pub has_prefix : List ℕ → List ℕ → Bool
has_prefix s [] = true
has_prefix [] (p ∷ ps) = false
has_prefix (c ∷ s) (p ∷ ps) = (c == p) && has_prefix s ps

-- strings.Contains with a single character
abbrev pub contains_char : List ℕ → ℕ → Bool
contains_char [] p = false
contains_char (c ∷ s) p = (c == p) || contains_char s p

-- strings.Join
abbrev pub join : List (List ℕ) → List ℕ → List ℕ
join [] sep = []
join (s ∷ []) sep = s
join (s ∷ t ∷ ss) sep = s ++ (sep ++ join (t ∷ ss) sep)

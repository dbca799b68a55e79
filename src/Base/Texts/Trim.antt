-- ===== src/Base/Texts/Trim.antt =====
-- strings.TrimSpace with the characters of unicode.IsSpace, and PostgreSQL's BTRIM, which removes
-- the plain space alone.
use Prim.Native.Nat.{ℕ}
use mathlib.Core.Path.{◌≡◌, refl}
use mathlib.Core.Bool.{Bool, true, false, not, ◌&&◌, ◌||◌}
use mathlib.Core.List.{List, [], ◌∷◌}
use native.Mathlib.Omega.{arith}
use secarch_tickets.Base.Tests.{leb, ◌==◌, nat_eq, if◌then◌else◌, Bool-cases}
use mathlib.Core.Logic.{inl, inr}

abbrev pub Text : Type 0
Text = List ℕ

abbrev pub is_empty {ℓ} : {A : Type ℓ} → List A → Bool
is_empty [] = true
is_empty (x ∷ xs) = false

-- unicode.IsSpace
unfoldable pub is_space : ℕ → Bool
is_space c =
    (leb 9 c && leb c 13)
    || (c == 32)
    || (c == 0x85)
    || (c == 0xA0)
    || (c == 0x1680)
    || (leb 0x2000 c && leb c 0x200A)
    || (c == 0x2028)
    || (c == 0x2029)
    || (c == 0x202F)
    || (c == 0x205F)
    || (c == 0x3000)

module _ (space : ℕ → Bool) where
  unfoldable pub trim_left : Text → Text
  trim_left [] = []
  trim_left (c ∷ s) = let rest = trim_left s in if space c then rest else c ∷ s

  unfoldable pub trim_right : Text → Text
  trim_right [] = []
  trim_right (c ∷ s) = let rest = trim_right s in if is_empty rest && space c then [] else c ∷ rest

  unfoldable pub trim : Text → Text
  unfolding trim_left trim_right
  trim s = trim_right (trim_left s)

  trim_right_idem : (s : Text) → trim_right (trim_right s) ≡ trim_right s
  unfolding trim_right
  trim_right_idem [] = refl
  trim_right_idem (c ∷ s) = elim (Bool-cases (is_empty (trim_right s) && space c)) [
    | inl p ↦ rw p
    | inr p ↦ rw p (rw (trim_right_idem s) (rw p))
  ]

  -- The text does not begin with a space.
  abbrev starts_plain : Text → Bool
  starts_plain [] = true
  starts_plain (c ∷ s) = not (space c)

  starts_plain-trim_left : (s : Text) → starts_plain (trim_left s) ≡ true
  unfolding trim_left
  starts_plain-trim_left [] = refl
  starts_plain-trim_left (c ∷ s) = ground (arith, starts_plain-trim_left s)

  starts_plain-trim_right : (s : Text) → starts_plain s ≡ true → starts_plain (trim_right s) ≡ true
  unfolding trim_right
  starts_plain-trim_right [] h = refl
  starts_plain-trim_right (c ∷ s) h = ground arith

  trim_left_of_plain : (s : Text) → starts_plain s ≡ true → trim_left s ≡ s
  unfolding trim_left
  trim_left_of_plain [] h = refl
  trim_left_of_plain (c ∷ s) h = ground arith

  pub trim_idem : (s : Text) → trim (trim s) ≡ trim s
  unfolding trim
  trim_idem s =
      rw
        (trim_left_of_plain (trim_right (trim_left s))
          (starts_plain-trim_right (trim_left s) (starts_plain-trim_left s)))
        (trim_right_idem (trim_left s))

-- Trimming fewer characters after more changes nothing.
module _ (few more : ℕ → Bool) (fewer : (c : ℕ) → few c ≡ true → more c ≡ true) where
  trim_right-fewer : (s : Text) → trim_right few (trim_right more s) ≡ trim_right more s
  unfolding trim_right
  trim_right-fewer [] = refl
  trim_right-fewer (c ∷ s) = elim (Bool-cases (is_empty (trim_right more s) && more c)) [
    | inl p ↦ rw p
    | inr p ↦
        let q : is_empty (trim_right more s) && few c ≡ false = ground (arith, fewer c) in
        rw p (rw (trim_right-fewer s) (rw q refl))
  ]

  starts_plain-fewer : (s : Text) → starts_plain more s ≡ true → starts_plain few s ≡ true
  starts_plain-fewer [] h = refl
  starts_plain-fewer (c ∷ s) h = ground (arith, fewer c)

  pub trim-trim : (s : Text) → trim few (trim more s) ≡ trim more s
  unfolding trim
  trim-trim s =
      let plain = starts_plain-trim_right more (trim_left more s) (starts_plain-trim_left more s) in
      rw (trim_left_of_plain few (trim_right more (trim_left more s)) (starts_plain-fewer _ plain))
        (trim_right-fewer (trim_left more s))

-- strings.TrimSpace
abbrev pub trim_space : Text → Text
trim_space s = trim is_space s

-- BTRIM(text)
abbrev pub btrim : Text → Text
btrim s = trim (λ c. c == 32) s

plain_space : (c : ℕ) → (c == 32) ≡ true → is_space c ≡ true
unfolding is_space
plain_space c h = ground arith

-- BTRIM finds nothing to remove from what TrimSpace leaves.
pub btrim-trim_space : (s : Text) → btrim (trim_space s) ≡ trim_space s
btrim-trim_space s = trim-trim (λ c. c == 32) is_space plain_space s

pub trim_space_idem : (s : Text) → trim_space (trim_space s) ≡ trim_space s
trim_space_idem s = trim_idem is_space s

pub trim_space-nil : trim_space [] ≡ []
unfolding trim
trim_space-nil = refl

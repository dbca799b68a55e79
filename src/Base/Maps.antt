-- ===== src/Base/Maps.antt =====
-- Go maps with comparable keys, as association lists in which a key stands once. Iteration goes
-- over the entries in the order of the list; Go leaves that order open.
use mathlib.Core.Path.{◌≡◌, refl}
use mathlib.Core.Bool.{Bool, true, false}
use mathlib.Core.Option.{Option, none, some}
use mathlib.Core.List.{List, [], ◌∷◌}
use native.Mathlib.Omega.{arith}
use secarch_tickets.Base.Tests.{Eq, ◌==◌, if◌then◌else◌, ==-iff}

abbrev pub Map {ℓ} : Type ℓ → Type ℓ → Type ℓ
Map K V = List (K × V)

module _ {ℓ} {K V : Type ℓ} ⦃e : Eq K⦄ where
  -- v, ok := m[k]
  abbrev pub lookup : K → Map K V → Option V
  lookup k [] = none
  lookup k ((j, v) ∷ m) = if j == k then some v else lookup k m

  -- m[k] = v
  abbrev pub insert : K → V → Map K V → Map K V
  insert k v [] = (k, v) ∷ []
  insert k v ((j, w) ∷ m) = if j == k then (k, v) ∷ m else (j, w) ∷ insert k v m

  -- _, ok := m[k]
  abbrev pub has_key : K → Map K V → Bool
  has_key k [] = false
  has_key k ((j, v) ∷ m) = if j == k then true else has_key k m

  -- for k, v := range n { m[k] = v }
  abbrev pub merge : Map K V → Map K V → Map K V
  merge m [] = m
  merge m ((k, v) ∷ n) = merge (insert k v m) n

  pub lookup-insert :
      (k j : K) (v : V) (m : Map K V)
      → lookup j (insert k v m) ≡ (if k == j then some v else lookup j m)
  lookup-insert k j v [] = refl
  lookup-insert k j v ((i, w) ∷ m) =
      ground (arith, ==-iff k j, ==-iff i k, ==-iff i j, lookup-insert k j v m)

  pub has_key-lookup :
      (k : K) (m : Map K V) → has_key k m ≡ elim (lookup k m) [ none ↦ false | some v ↦ true ]
  has_key-lookup k [] = refl
  has_key-lookup k ((j, v) ∷ m) = ground (arith, has_key-lookup k m)

-- m[k] for a map to strings: the zero value is "".
abbrev pub text_at {ℓ} : {A : Type ℓ} → A → Option A → A
text_at d none = d
text_at d (some v) = v

abbrev pub keys {ℓ} : {K V : Type ℓ} → Map K V → List K
keys [] = []
keys ((k, v) ∷ m) = k ∷ keys m

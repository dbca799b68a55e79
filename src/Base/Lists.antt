-- ===== src/Base/Lists.antt =====
-- Lists measured by native numbers, under the library's names, and Go's slices of them.
use Prim.Native.Nat.{ℕ, zero, suc, ◌+◌, ◌-◌, min}
use mathlib.Core.Path.{◌≡◌, refl, ap}
use mathlib.Core.Bool.{Bool, true, false, ◌&&◌, ◌||◌}
use mathlib.Core.List.{List, [], ◌∷◌, ◌++◌, map}
use native.Mathlib.Omega.{arith}
use mathlib.Core.Logic.{inl, inr}
use secarch_tickets.Base.Tests.{if◌then◌else◌, Bool-cases}

module _ {ℓ} {A : Type ℓ} where
  abbrev pub length : List A → ℕ
  length [] = 0
  length (x ∷ xs) = suc (length xs)

  pub length-append : (xs ys : List A) → length (xs ++ ys) ≡ length xs + length ys
  length-append [] ys = omega arith
  length-append (x ∷ xs) ys = omega (arith, length-append xs ys)

  -- xs[:n] and xs[n:]
  abbrev pub take : ℕ → List A → List A
  take zero xs = []
  take (suc n) [] = []
  take (suc n) (x ∷ xs) = x ∷ take n xs

  abbrev pub drop : ℕ → List A → List A
  drop zero xs = xs
  drop (suc n) [] = []
  drop (suc n) (x ∷ xs) = drop n xs

  pub take-append-drop : (n : ℕ) (xs : List A) → take n xs ++ drop n xs ≡ xs
  take-append-drop zero xs = refl
  take-append-drop (suc n) [] = refl
  take-append-drop (suc n) (x ∷ xs) = ap (◌∷◌ x) (take-append-drop n xs)

  pub take-append : (xs ys : List A) → take (length xs) (xs ++ ys) ≡ xs
  take-append [] ys = refl
  take-append (x ∷ xs) ys = ap (◌∷◌ x) (take-append xs ys)

  pub drop-append : (xs ys : List A) → drop (length xs) (xs ++ ys) ≡ ys
  drop-append [] ys = refl
  drop-append (x ∷ xs) ys = drop-append xs ys

  pub length-take : (n : ℕ) (xs : List A) → length (take n xs) ≡ min n (length xs)
  length-take zero xs = omega arith
  length-take (suc n) [] = omega arith
  length-take (suc n) (x ∷ xs) = omega (arith, length-take n xs)

  pub length-drop : (n : ℕ) (xs : List A) → length (drop n xs) ≡ length xs - n
  length-drop zero xs = omega arith
  length-drop (suc n) [] = omega arith
  length-drop (suc n) (x ∷ xs) = omega (arith, length-drop n xs)

  -- Loops that keep the elements passing a test, and loops that look for one.
  abbrev pub keep : (A → Bool) → List A → List A
  keep p [] = []
  keep p (x ∷ xs) = let rest = keep p xs in if p x then x ∷ rest else rest

  abbrev pub any : (A → Bool) → List A → Bool
  any p [] = false
  any p (x ∷ xs) = p x || any p xs

  abbrev pub all : (A → Bool) → List A → Bool
  all p [] = true
  all p (x ∷ xs) = p x && all p xs

module _ {ℓ κ} {A : Type ℓ} (P : A → Type κ) where
  abbrev pub All : List A → Type κ
  All [] = Unit
  All (x ∷ xs) = P x × All xs

  pub All-append : (xs ys : List A) → All xs → All ys → All (xs ++ ys)
  All-append [] ys _ k = k
  All-append (x ∷ xs) ys (p, h) k = (p, All-append xs ys h k)

  pub All-take : (n : ℕ) (xs : List A) → All xs → All (take n xs)
  All-take zero xs h = tt
  All-take (suc n) [] h = tt
  All-take (suc n) (x ∷ xs) (p, h) = (p, All-take n xs h)

  pub All-drop : (n : ℕ) (xs : List A) → All xs → All (drop n xs)
  All-drop zero xs h = h
  All-drop (suc n) [] h = tt
  All-drop (suc n) (x ∷ xs) (p, h) = All-drop n xs h

-- Membership as a relation that a proof can match.
pub data In {ℓ} {A : Type ℓ} (a : A) : List A → Type ℓ where
  here : {x : A} {xs : List A} → a ≡ x → In a (x ∷ xs)
  there : {x : A} {xs : List A} → In a xs → In a (x ∷ xs)

module _ {ℓ} {A : Type ℓ} where
  pub In-append_left : {a : A} (xs ys : List A) → In a xs → In a (xs ++ ys)
  In-append_left [] ys h = elim h [ ]
  In-append_left (x ∷ xs) ys (here e) = here e
  In-append_left (x ∷ xs) ys (there h) = there (In-append_left xs ys h)

  pub In-append_right : {a : A} (xs ys : List A) → In a ys → In a (xs ++ ys)
  In-append_right [] ys h = h
  In-append_right (x ∷ xs) ys h = there (In-append_right xs ys h)

module _ {ℓ} {A : Type ℓ} (p : A → Bool) where
  pub All-keep : (xs : List A) → All (λ x. p x ≡ true) (keep p xs)
  All-keep [] = tt
  All-keep (x ∷ xs) = elim (Bool-cases (p x)) [
    | inl h ↦ rw h (h, All-keep xs)
    | inr h ↦ rw h (All-keep xs)
  ]

  -- What is kept was there, and meets the test.
  pub In-keep-source : {a : A} (xs : List A) → In a (keep p xs) → In a xs × (p a ≡ true)
  In-keep-source [] i = elim i [ ]
  In-keep-source (x ∷ xs) i = elim (Bool-cases (p x)) [
    | inr h ↦ let (j, k) = In-keep-source xs (rw h at i) in (there j, k)
    | inl h ↦
        let i' : In _ (x ∷ keep p xs) = rw h at i in
        elim i' [
          | here e ↦ (here e, rw e h)
          | there j ↦ let (l, k) = In-keep-source xs j in (there l, k)
        ]
  ]

  pub In-keep : {a : A} (xs : List A) → In a xs → p a ≡ true → In a (keep p xs)
  In-keep [] i h = i
  In-keep (x ∷ xs) (here e) h = rw (← e) (rw h (here refl))
  In-keep (x ∷ xs) (there i) h = elim (Bool-cases (p x)) [
    | inl k ↦ rw k (there (In-keep xs i h))
    | inr k ↦ rw k (In-keep xs i h)
  ]

pub keep_ext {ℓ} :
    {A : Type ℓ} (p q : A → Bool) → ((x : A) → p x ≡ q x) → (xs : List A) → keep p xs ≡ keep q xs
keep_ext p q h [] = refl
keep_ext p q h (x ∷ xs) = rw (h x) (rw (keep_ext p q h xs) refl)

pub In-map {ℓ κ} :
    {A : Type ℓ} {B : Type κ} (f : A → B) {a : A} (xs : List A) → In a xs → In (f a) (map f xs)
In-map f (x ∷ xs) (here e) = here (ap f e)
In-map f (x ∷ xs) (there i) = there (In-map f xs i)
In-map f [] i = elim i [ ]

pub All-map {ℓ κ ι} :
    {A : Type ℓ} {B : Type κ} (P : B → Type ι) (f : A → B) (xs : List A)
    → All (λ x. P (f x)) xs
    → All P (map f xs)
All-map P f [] h = tt
All-map P f (x ∷ xs) (h, hs) = (h, All-map P f xs hs)

pub All-mono {ℓ κ ι} :
    {A : Type ℓ} (P : A → Type κ) (Q : A → Type ι)
    → ((x : A) → P x → Q x)
    → (xs : List A) → All P xs
    → All Q xs
All-mono P Q f [] h = tt
All-mono P Q f (x ∷ xs) (h, hs) = (f x h, All-mono P Q f xs hs)

-- ===== src/Base/Sorting.antt =====
-- sort.Strings and ORDER BY, as insertion sort: the results are determined by the order, up to rows
-- that compare equal.
use mathlib.Core.List.Perm
use mathlib.Core.List.{Perm}
use secarch_tickets.Base.{
  suc, ◌≡◌, refl, Bool, true, false, ◌&&◌, ◌||◌, List, [], ◌∷◌, ltb, ◌==◌, nat_eq, if◌then◌else◌,
  In, here, there, Bool-cases, inl, inr, arith, Text, length, All,
}

module _ {ℓ} {A : Type ℓ} (le : A → A → Bool) where
  unfoldable pub insert_by : A → List A → List A
  insert_by x [] = x ∷ []
  insert_by x (y ∷ ys) = if le x y then x ∷ y ∷ ys else y ∷ insert_by x ys

  unfoldable pub sort_by : List A → List A
  unfolding insert_by
  sort_by [] = []
  sort_by (x ∷ xs) = insert_by x (sort_by xs)

  past :
      {a : A} (x y : A) (ys zs : List A)
      → (In a (x ∷ ys) → In a zs)
      → In a (x ∷ y ∷ ys)
      → In a (y ∷ zs)
  past x y ys zs ih (here e) = there (ih (here e))
  past x y ys zs ih (there (here e)) = here e
  past x y ys zs ih (there (there k)) = there (ih (there k))

  In-insert_by : {a : A} (x : A) (ys : List A) → In a (x ∷ ys) → In a (insert_by x ys)
  unfolding insert_by
  In-insert_by x [] h = h
  In-insert_by x (y ∷ ys) h = elim (Bool-cases (le x y)) [
    | inl p ↦ rw p h
    | inr p ↦ rw p (past x y ys (insert_by x ys) (In-insert_by x ys) h)
  ]

  pub In-sort_by : {a : A} (xs : List A) → In a xs → In a (sort_by xs)
  unfolding sort_by
  In-sort_by [] h = elim h [ ]
  In-sort_by (x ∷ xs) (here e) = In-insert_by x (sort_by xs) (here e)
  In-sort_by (x ∷ xs) (there h) = In-insert_by x (sort_by xs) (there (In-sort_by xs h))

  All-insert_by : (P : A → Type 0) (x : A) (ys : List A) → P x → All P ys → All P (insert_by x ys)
  unfolding insert_by
  All-insert_by P x [] p h = (p, tt)
  All-insert_by P x (y ∷ ys) p (q, h) = elim (Bool-cases (le x y)) [
    | inl e ↦ rw e (p, (q, h))
    | inr e ↦ rw e (q, All-insert_by P x ys p h)
  ]

  pub All-sort_by : (P : A → Type 0) (xs : List A) → All P xs → All P (sort_by xs)
  unfolding sort_by
  All-sort_by P [] h = tt
  All-sort_by P (x ∷ xs) (p, h) = All-insert_by P x (sort_by xs) p (All-sort_by P xs h)

  insert_by-Perm : (x : A) (ys : List A) → Perm (insert_by x ys) (x ∷ ys)
  unfolding insert_by
  insert_by-Perm x [] = Perm.refl _
  insert_by-Perm x (y ∷ ys) = elim (Bool-cases (le x y)) [
    | inl p ↦ rw p (Perm.refl _)
    | inr p ↦ rw p (Perm.trans (Perm.cons y (insert_by-Perm x ys)) (Perm.swap x y ys))
  ]

  pub sort_by-Perm : (xs : List A) → Perm (sort_by xs) xs
  unfolding sort_by
  sort_by-Perm [] = Perm.refl _
  sort_by-Perm (x ∷ xs) = Perm.trans (insert_by-Perm x (sort_by xs)) (Perm.cons x (sort_by-Perm xs))

  pub length-insert_by : (x : A) (ys : List A) → length (insert_by x ys) ≡ suc (length ys)
  unfolding insert_by
  length-insert_by x [] = refl
  length-insert_by x (y ∷ ys) = ground (arith, length-insert_by x ys)

  pub length-sort_by : (xs : List A) → length (sort_by xs) ≡ length xs
  unfolding sort_by
  length-sort_by [] = refl
  length-sort_by (x ∷ xs) = omega (arith, length-insert_by x (sort_by xs), length-sort_by xs)

  -- Every element stands before those that follow it.
  abbrev pub IsSorted : List A → Type 0
  IsSorted [] = Unit
  IsSorted (x ∷ xs) = All (λ y. le x y ≡ true) xs × IsSorted xs

  module _ (total : (x y : A) → le x y ≡ false → le y x ≡ true)
      (trans : (x y z : A) → le x y ≡ true → le y z ≡ true → le x z ≡ true) where
    below :
        (x y : A) (ys : List A)
        → le x y ≡ true
        → All (λ z. le y z ≡ true) ys
        → All (λ z. le x z ≡ true) ys
    below x y [] p h = tt
    below x y (z ∷ ys) p (q, h) = (trans x y z p q, below x y ys p h)

    insert_by-IsSorted : (x : A) (ys : List A) → IsSorted ys → IsSorted (insert_by x ys)
    unfolding insert_by
    insert_by-IsSorted x [] s = (tt, tt)
    insert_by-IsSorted x (y ∷ ys) (h, s) = elim (Bool-cases (le x y)) [
      | inl p ↦ rw p ((p, below x y ys p h), (h, s))
      | inr p ↦
          rw p (All-insert_by (λ z. le y z ≡ true) x ys (total x y p) h, insert_by-IsSorted x ys s)
    ]

    pub sort_by-IsSorted : (xs : List A) → IsSorted (sort_by xs)
    unfolding sort_by
    sort_by-IsSorted [] = tt
    sort_by-IsSorted (x ∷ xs) = insert_by-IsSorted x (sort_by xs) (sort_by-IsSorted xs)

-- The order of Go strings: that of their bytes in UTF-8, which is that of their code points.
abbrev pub text_leb : Text → Text → Bool
text_leb [] t = true
text_leb (c ∷ s) [] = false
text_leb (c ∷ s) (d ∷ t) = ltb c d || ((c == d) && text_leb s t)

pub text_leb_total : (s t : Text) → text_leb s t ≡ false → text_leb t s ≡ true
text_leb_total [] t h = cc
text_leb_total (c ∷ s) [] h = refl
text_leb_total (c ∷ s) (d ∷ t) h = ground (arith, text_leb_total s t)

pub text_leb_trans :
    (s t u : Text) → text_leb s t ≡ true → text_leb t u ≡ true → text_leb s u ≡ true
text_leb_trans [] t u h k = refl
text_leb_trans (c ∷ s) [] u h k = cc
text_leb_trans (c ∷ s) (d ∷ t) [] h k = cc
text_leb_trans (c ∷ s) (d ∷ t) (e ∷ u) h k = ground (arith, text_leb_trans s t u)

-- sort.Strings
abbrev pub sort_strings : List Text → List Text
sort_strings = sort_by text_leb

-- ===== src/Sync/Tracked/Batches.antt =====
-- The batches of tracked tickets.
use secarch_tickets.Base.{
  ℕ, zero, suc, ◌≡◌, ◌≤◌, ◌<◌, ◌++◌, refl, ap, ◌∙◌, Text, List, [], ◌∷◌, length, take, drop,
  length-take, length-drop, All, arith,
}
use secarch_tickets.Sync.Tracked.{batches}

abbrev pub joined : List (List Text) → List Text
joined [] = []
joined (b ∷ bs) = b ++ joined bs

take-drop : (n : ℕ) (l : List Text) → take n l ++ drop n l ≡ l
take-drop zero l = refl
take-drop (suc n) [] = refl
take-drop (suc n) (x ∷ l) = ap (◌∷◌ x) (take-drop n l)

batches-joined :
    (fuel size : ℕ) (cs : List Text)
    → 0 < size
    → length cs ≤ fuel
    → joined (batches fuel size cs) ≡ cs
unfolding batches
batches-joined zero size [] h k = refl
batches-joined (suc fuel) size [] h k = refl
batches-joined zero size (c ∷ cs) h k = absurd (omega arith)
batches-joined (suc fuel) size (c ∷ cs) h k =
    ap (λ l. take size (c ∷ cs) ++ l)
      (batches-joined fuel size (drop size (c ∷ cs)) h
        (omega (arith, length-drop size (c ∷ cs), h, k)))
    ∙ take-drop size (c ∷ cs)

batches-sizes :
    (fuel size : ℕ) (cs : List Text)
    → 0 < size
    → All (λ (b : List Text). (0 < length b) × (length b ≤ size)) (batches fuel size cs)
unfolding batches
batches-sizes zero size [] h = tt
batches-sizes (suc fuel) size [] h = tt
batches-sizes zero size (c ∷ cs) h = tt
batches-sizes (suc fuel) size (c ∷ cs) h = (
  (omega (arith, length-take size (c ∷ cs), h), omega (arith, length-take size (c ∷ cs))),
  batches-sizes fuel size (drop size (c ∷ cs)) h,
)

-- With a positive size, the batches of tracked tickets are, one after the other, all the tickets,
-- and each has at least one and at most `size` of them; the number of tickets is enough fuel.
pub batches-partition :
    (size : ℕ) (cs : List Text)
    → 0 < size
    → (joined (batches (length cs) size cs) ≡ cs)
      × All (λ (b : List Text). (0 < length b) × (length b ≤ size)) (batches (length cs) size cs)
batches-partition size cs h =
    (batches-joined (length cs) size cs h (omega arith), batches-sizes (length cs) size cs h)

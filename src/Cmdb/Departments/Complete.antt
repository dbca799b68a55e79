-- ===== src/Cmdb/Departments/Complete.antt =====
-- In whatever order the batches of ResolveDepartments run, a result without an error is complete, unless
-- the caller's context has ended.
use secarch_tickets.Base.{
  ℕ, ◌<◌, ◌≡◌, refl, ap, ◌∙◌, Bool, true, false, ◌||◌, Text, List, [], ◌∷◌, ◌++◌, map, Option, none,
  some, Map, insert, merge, keys, nat_eq, list_eq, ==-iff, ◌==◌, ok, ok-injective, Error,
  CaseTables, length, All, All-append, All-mono, Bool-cases, inl, inr, arith,
}
use secarch_tickets.Base.Sorting.{sort_strings}
use secarch_tickets.Cmdb.Types.{SystemReference}
use secarch_tickets.Cmdb.Systems.{SystemsApi}
use secarch_tickets.Cmdb.Systems.Resolved.{
  IsResolved, IsFull, insert-IsResolved, insert_own-IsResolved, resolve_department_batch-IsResolved,
  resolve_department_batch-IsFull,
}
use secarch_tickets.Cmdb.Departments.{
  Phase, waiting, running, merged, failed, skipped, Task, Group, has_failed, is_cancelled, first_of,
  at_phase, Step, acquires, skips, merges, fails, ends, Steps, stays, then_step, new_task,
  start_group, is_over, outcome,
}
use secarch_tickets.Sync.Tracked.{batches}
use secarch_tickets.Sync.Tracked.Batches.{joined, batches-partition}

-- Merging full entries keeps what was resolved, and resolves their keys.
merge-IsResolved :
    (m r : Map Text Text) (k : Text) → IsFull m → IsResolved r k → IsResolved (merge r m) k
merge-IsResolved [] r k full h = h
merge-IsResolved ((j, d) ∷ m) r k (d_full, full) h =
    merge-IsResolved m (insert j d r) k full (insert-IsResolved r j k d d_full h)

merge_new-IsResolved :
    (m r : Map Text Text) (k : Text) → IsFull m → IsResolved m k → IsResolved (merge r m) k
merge_new-IsResolved [] r k full h = absurd (ground arith)
merge_new-IsResolved ((j, d) ∷ m) r k (d_full, full) h = elim (Bool-cases (j == k)) [
  | inl e ↦
      let same : j ≡ k = (==-iff j k).0 e in
      merge-IsResolved m (insert j d r) k full (rw (← same) (insert_own-IsResolved r j d d_full))
  | inr e ↦ merge_new-IsResolved m (insert j d r) k full (rw e at h)
]

-- What is known of a batch by its phase.
abbrev InPhase : Map Text Text → Bool → Bool → Phase → List Text → Type 0
InPhase resolved error cancelled waiting batch = Unit
InPhase resolved error cancelled running batch = Unit
InPhase resolved error cancelled merged batch = All (IsResolved resolved) batch
InPhase resolved error cancelled failed batch = error ≡ true
InPhase resolved error cancelled skipped batch = cancelled ≡ true

abbrev IsRight : Map Text Text → Bool → Bool → Task → Type 0
IsRight resolved error cancelled t = InPhase resolved error cancelled t.phase t.batch

InPhase-mono :
    (r r' : Map Text Text) (e e' c c' : Bool) (ph : Phase) (batch : List Text)
    → ((k : Text) → IsResolved r k → IsResolved r' k)
    → (e ≡ true → e' ≡ true)
    → (c ≡ true → c' ≡ true)
    → InPhase r e c ph batch
    → InPhase r' e' c' ph batch
InPhase-mono r r' e e' c c' waiting batch f g h i = tt
InPhase-mono r r' e e' c c' running batch f g h i = tt
InPhase-mono r r' e e' c c' merged batch f g h i = All-mono (IsResolved r) (IsResolved r') f batch i
InPhase-mono r r' e e' c c' failed batch f g h i = g i
InPhase-mono r r' e e' c c' skipped batch f g h i = h i

All-split :
    {A : Type 0} (P : A → Type 0) (xs : List A) (y : A) (ys : List A)
    → All P (xs ++ (y ∷ ys))
    → All P xs × P y × All P ys
All-split P [] y ys (p, h) = (tt, p, h)
All-split P (x ∷ xs) y ys (p, h) =
    let (front, here, back) = All-split P xs y ys h in ((p, front), here, back)

-- One task changes its phase while what is known of the others grows.
change-IsRight :
    (r r' : Map Text Text) (e e' c c' : Bool) (front : List Task) (t : Task) (back : List Task)
    (ph : Phase)
    → ((k : Text) → IsResolved r k → IsResolved r' k)
    → (e ≡ true → e' ≡ true)
    → (c ≡ true → c' ≡ true)
    → InPhase r' e' c' ph t.batch
    → All (IsRight r e c) (front ++ (t ∷ back))
    → All (IsRight r' e' c') (front ++ (at_phase ph t ∷ back))
change-IsRight r r' e e' c c' front t back ph f g h now all =
    let grow = λ (u : Task). InPhase-mono r r' e e' c c' u.phase u.batch f g h in
    let (before, _, after) = All-split (IsRight r e c) front t back all in
    All-append (IsRight r' e' c') front (at_phase ph t ∷ back)
      (All-mono (IsRight r e c) (IsRight r' e' c') grow front before)
      (now, All-mono (IsRight r e c) (IsRight r' e' c') grow back after)

record IsSound (all_batches : List (List Text)) (g : Group) : Type 0 where
  right : All (IsRight g.resolved (has_failed g.first_error) (is_cancelled g)) g.tasks
  same_batches : map (λ (t : Task). t.batch) g.tasks ≡ all_batches

change-batches :
    (front : List Task) (t : Task) (back : List Task) (ph : Phase)
    → map (λ (t : Task). t.batch) (front ++ (at_phase ph t ∷ back))
      ≡ map (λ (t : Task). t.batch) (front ++ (t ∷ back))
change-batches [] t back ph = refl
change-batches (u ∷ front) t back ph = ap (◌∷◌ u.batch) (change-batches front t back ph)

first_of-failed : (o : Option Error) (e : Error) → has_failed (first_of o e) ≡ true
first_of-failed none e = refl
first_of-failed (some d) e = refl

module _ ⦃c : CaseTables⦄ {W : Type 0} (api : SystemsApi W) (fuel : ℕ)
    (unique : Map Text SystemReference) (all_batches : List (List Text)) where
  Step-IsSound :
      {g h : Group} → Step api fuel unique g h → IsSound all_batches g → IsSound all_batches h
  Step-IsSound {g} (acquires front t back e ph free) s = record {
    right =
        change-IsRight g.resolved g.resolved _ _ _ _ front t back running (λ k x. x) (λ x. x)
          (λ x. x) tt (rw e at s.right);
    same_batches = change-batches front t back running ∙ (rw e at s.same_batches);
  }
  Step-IsSound {g} (skips front t back e ph done) s = record {
    right =
        change-IsRight g.resolved g.resolved _ _ _ _ front t back skipped (λ k x. x) (λ x. x)
          (λ x. x) done (rw e at s.right);
    same_batches = change-batches front t back skipped ∙ (rw e at s.same_batches);
  }
  Step-IsSound {g} (merges front t back w w' m e ph answer) s =
      let full = resolve_department_batch-IsFull api fuel t.batch _ w w' m answer in
      let found = resolve_department_batch-IsResolved api fuel t.batch _ w w' m answer in
      record {
        right =
            change-IsRight g.resolved (merge g.resolved m) _ _ _ _ front t back merged
              (λ k x. merge-IsResolved m g.resolved k full x) (λ x. x) (λ x. x)
              (All-mono (IsResolved m) (IsResolved (merge g.resolved m))
                (λ k x. merge_new-IsResolved m g.resolved k full x) t.batch found)
              (rw e at s.right);
        same_batches = change-batches front t back merged ∙ (rw e at s.same_batches);
      }
  Step-IsSound {g} (fails front t back w w' error e ph answer) s =
      let failing = first_of-failed g.first_error error in
      record {
        right =
            change-IsRight g.resolved g.resolved _ _ _ _ front t back failed (λ k x. x)
              (λ x. failing) (λ x. rw failing refl) failing (rw e at s.right);
        same_batches = change-batches front t back failed ∙ (rw e at s.same_batches);
      }
  Step-IsSound {g} ends s = record {
    right =
        All-mono (IsRight g.resolved (has_failed g.first_error) (is_cancelled g))
          (IsRight g.resolved (has_failed g.first_error) (has_failed g.first_error || true))
          (λ t.
            InPhase-mono g.resolved g.resolved _ _ _ _ t.phase t.batch (λ k x. x) (λ x. x)
              (λ x. ground arith))
          g.tasks s.right;
    same_batches = s.same_batches;
  }

  Steps-IsSound :
      {g h : Group} → Steps api fuel unique g h → IsSound all_batches g → IsSound all_batches h
  Steps-IsSound stays s = s
  Steps-IsSound (then_step r k) s = Step-IsSound k (Steps-IsSound r s)

new_tasks-IsRight :
    (r : Map Text Text) (batches : List (List Text))
    → All (IsRight r false false) (map new_task batches)
new_tasks-IsRight r [] = tt
new_tasks-IsRight r (b ∷ bs) = (tt, new_tasks-IsRight r bs)

new_tasks-batches : (bs : List (List Text)) → map (λ (t : Task). t.batch) (map new_task bs) ≡ bs
new_tasks-batches [] = refl
new_tasks-batches (b ∷ bs) = ap (◌∷◌ b) (new_tasks-batches bs)

over-resolved :
    (r : Map Text Text) (ph : Phase) (batch : List Text)
    → is_over (record { batch = batch; phase = ph }) ≡ true
    → InPhase r false false ph batch
    → All (IsResolved r) batch
over-resolved r waiting batch h i = absurd (ground arith)
over-resolved r running batch h i = absurd (ground arith)
over-resolved r merged batch h i = i
over-resolved r failed batch h i = absurd (ground arith)
over-resolved r skipped batch h i = absurd (ground arith)

tasks-joined :
    (r : Map Text Text) (ts : List Task)
    → All (λ t. is_over t ≡ true) ts
    → All (IsRight r false false) ts
    → All (IsResolved r) (joined (map (λ (t : Task). t.batch) ts))
tasks-joined r [] over right = tt
tasks-joined r (t ∷ ts) (over, overs) (right, rights) =
    All-append (IsResolved r) t.batch (joined (map (λ (t : Task). t.batch) ts))
      (over-resolved r t.phase t.batch over right) (tasks-joined r ts overs rights)

module _ ⦃c : CaseTables⦄ {W : Type 0} (api : SystemsApi W) (fuel : ℕ)
    (unique : Map Text SystemReference) (size concurrency : ℕ) where
  -- When every batch has ended and there is no error, the map has a Department, which is not empty, for
  -- every System that was asked for, whatever the order in which the batches ran; only a context that
  -- has ended can leave some out.
  pub resolve_departments-IsResolved :
      0 < size
      → (g : Group) → Steps api fuel unique (start_group size concurrency unique) g
      → All (λ t. is_over t ≡ true) g.tasks
      → (m : Map Text Text) → outcome g ≡ ok m
      → g.context_ended ≡ false
      → All (IsResolved m) (sort_strings (keys unique))
  unfolding start_group
  resolve_departments-IsResolved positive g steps over m h alive =
      let sorted = sort_strings (keys unique) in
      let bs = batches (length sorted) size sorted in
      let sound =
        Steps-IsSound api fuel unique bs steps
          (record { right = new_tasks-IsRight [] bs; same_batches = new_tasks-batches bs }) in
      let (whole, _) = batches-partition size sorted positive in
      ended g.first_error refl h sound whole
    where
      ended :
          (o : Option Error)
          → g.first_error ≡ o
          → outcome (record g { first_error = o }) ≡ ok m
          → IsSound
              (batches (length (sort_strings (keys unique))) size (sort_strings (keys unique)))
              g
          → joined (batches (length (sort_strings (keys unique))) size (sort_strings (keys unique)))
            ≡ sort_strings (keys unique)
          → All (IsResolved m) (sort_strings (keys unique))
      ended (some e) f k sound whole = absurd (ground arith)
      ended none f k sound whole =
          let same : g.resolved ≡ m = ok-injective k in
          let right : All (IsRight g.resolved false false) g.tasks =
            rw alive at (rw f at sound.right) in
          rw (← same) (
            rw (ap joined sound.same_batches ∙ whole) at
              (tasks-joined g.resolved g.tasks over right))

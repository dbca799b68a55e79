-- ===== src/Cmdb/Systems/Resolved.antt =====
-- A batch of Systems that is resolved is resolved completely.
use secarch_tickets.Base.{
  ℕ, ◌≡◌, refl, false, Text, List, [], ◌∷◌, none, some, Map, lookup, insert, lookup-insert, text_at,
  Result, ok, err, nat_eq, list_eq, ==-iff, is_empty, trim_space, keep, CaseTables, All, arith,
  Result-cases, inl, ok-injective, ◌==◌, Option, inr, Bool-cases,
}
use secarch_tickets.Cmdb.Types.{SystemReference}
use secarch_tickets.Cmdb.Systems.{
  SystemObject, SystemsApi, Fueled, system_object_department, single_object, with_label,
  resolve_department_by_label, then_fill, name_of, fill_missing, read_objects, keys_by_name,
  read_then_fill, store_department, identify_system_object, with_objects, resolve_department_batch,
}

-- The map has a Department for the key that is not the empty text.
abbrev pub IsResolved : Map Text Text → Text → Type 0
IsResolved m key = is_empty (text_at [] (lookup key m)) ≡ false

pub insert-IsResolved :
    (m : Map Text Text) (j k department : Text)
    → is_empty department ≡ false
    → IsResolved m k
    → IsResolved (insert j department m) k
insert-IsResolved m j k department d h = ground (arith, lookup-insert j k department m, d, h)

pub insert_own-IsResolved :
    (m : Map Text Text) (k department : Text)
    → is_empty department ≡ false
    → IsResolved (insert k department m) k
insert_own-IsResolved m k department d =
    ground (arith, lookup-insert k k department m, ==-iff k k, d)

system_object_department-full :
    (r : Result Text) (d : Text) → system_object_department r ≡ ok d → is_empty d ≡ false
unfolding system_object_department
system_object_department-full (err e) d h = absurd (ground arith)
system_object_department-full (ok x) d h = elim (Bool-cases (is_empty x)) [
  | inl blank ↦ ground arith
  | inr full ↦ ground arith
]

module _ ⦃c : CaseTables⦄ {W : Type 0} (api : SystemsApi W) (fuel : ℕ) where
  single_object-full :
      (os : List SystemObject) (d : Text) → single_object api fuel os ≡ ok d → is_empty d ≡ false
  unfolding single_object
  single_object-full [] d h = absurd (ground arith)
  single_object-full (o ∷ []) d h = system_object_department-full o.department d h
  single_object-full (o ∷ p ∷ os) d h = absurd (ground arith)

  with_label-full :
      (label : Text) (r : Fueled W (List SystemObject)) (d : Text) (w : W)
      → with_label api fuel label r ≡ some (ok d, w)
      → is_empty d ≡ false
  with_label-full label none d w h = absurd (ground arith)
  with_label-full label (some (err e, v)) d w h = absurd (ground arith)
  with_label-full label (some (ok os, v)) d w h =
      single_object-full
        (keep (λ (o : SystemObject). api.equal_fold (trim_space o.label) (trim_space label)) os) d
        (ground arith)

  by_label-full :
      (label : Text) (w w' : W) (d : Text)
      → resolve_department_by_label api fuel label w ≡ some (ok d, w')
      → is_empty d ≡ false
  unfolding resolve_department_by_label
  by_label-full label w w' d h = with_label-full label _ d w' h

  then_fill-ok :
      (key : Text) (m : Map Text Text) (r : Fueled W Text)
      (rest : Map Text Text → W → Fueled W (Map Text Text)) (m' : Map Text Text) (w' : W)
      → then_fill api fuel key m r rest ≡ some (ok m', w')
      → (d : Text) × (v : W) × (r ≡ some (ok d, v)) × (rest (insert key d m) v ≡ some (ok m', w'))
  then_fill-ok key m none rest m' w' h = absurd (ground arith)
  then_fill-ok key m (some (err e, v)) rest m' w' h = absurd (ground arith)
  then_fill-ok key m (some (ok d, v)) rest m' w' h = (d, v, refl, h)

  -- What the loop over the missing keys returns.
  record Filled (keys : List Text) (m m' : Map Text Text) : Type 0 where
    kept : (k : Text) → IsResolved m k → IsResolved m' k
    found : All (IsResolved m') keys

  fill_missing-Filled :
      (references : Map Text SystemReference) (keys : List Text) (m : Map Text Text) (w : W)
      (m' : Map Text Text) (w' : W)
      → fill_missing api fuel references keys m w ≡ some (ok m', w')
      → Filled keys m m'
  unfolding fill_missing
  fill_missing-Filled references [] m w m' w' h =
      let same : m ≡ m' = ground arith in record { kept = λ k r. rw (← same) r; found = tt }
  fill_missing-Filled references (key ∷ keys) m w m' w' h =
      elim (Bool-cases (is_empty (text_at [] (lookup key m)))) [
        | inr there ↦
            let f = fill_missing-Filled references keys m w m' w' (rw there at h) in
            record { kept = f.kept; found = (f.kept key there, f.found) }
        | inl missing ↦ elim (Bool-cases (is_empty (name_of api fuel (lookup key references)))) [
          | inl nameless ↦ absurd (let k = rw (missing, nameless) at h in ground arith)
          | inr named ↦
              let (d, v, by_label, later) =
                then_fill-ok key m _ _ m' w' (rw (missing, named) at h) in
              let full = by_label-full _ w v d by_label in
              let f = fill_missing-Filled references keys (insert key d m) v m' w' later in
              record {
                kept = λ k r. f.kept k (insert-IsResolved m key k d full r);
                found = (f.kept key (insert_own-IsResolved m key d full), f.found);
              }
        ]
      ]

  with_objects-found :
      (references : Map Text SystemReference) (keys : List Text) (r : Fueled W (List SystemObject))
      (m : Map Text Text) (w : W)
      → with_objects api fuel references keys r ≡ some (ok m, w)
      → All (IsResolved m) keys
  with_objects-found references keys none m w h = absurd (ground arith)
  with_objects-found references keys (some (err e, v)) m w h = absurd (ground arith)
  with_objects-found references keys (some (ok os, v)) m w h =
      read (read_objects references (keys_by_name references []) os []) h
    where
      read :
          (x : Result (Map Text Text))
          → read_then_fill api fuel references keys x v ≡ some (ok m, w)
          → All (IsResolved m) keys
      read (err e) k = absurd (ground arith)
      read (ok start) k = (fill_missing-Filled references keys start v m w k).found

  -- A batch that succeeds has a Department, which is not empty, for every key that was asked for: what
  -- the query by key leaves open is found by name, or the batch fails.
  pub resolve_department_batch-IsResolved :
      (keys : List Text) (references : Map Text SystemReference) (w w' : W) (m : Map Text Text)
      → resolve_department_batch api fuel keys references w ≡ some (ok m, w')
      → All (IsResolved m) keys
  unfolding resolve_department_batch
  resolve_department_batch-IsResolved keys references w w' m h =
      with_objects-found references keys _ m w' h

-- Every entry of a map is a Department that is not the empty text.
abbrev pub IsFull : Map Text Text → Type 0
IsFull m = All (λ e. is_empty e.1 ≡ false) m

insert-IsFull :
    (key department : Text) (m : Map Text Text)
    → is_empty department ≡ false
    → IsFull m
    → IsFull (insert key department m)
insert-IsFull key department [] d h = (d, tt)
insert-IsFull key department ((j, v) ∷ m) d (v_full, h) = elim (Bool-cases (j == key)) [
  | inl e ↦ rw e (d, h)
  | inr e ↦ rw e (v_full, insert-IsFull key department m d h)
]

module _ ⦃c : CaseTables⦄ {W : Type 0} (api : SystemsApi W) (fuel : ℕ) where
  store_department-IsFull :
      (found : Option Text) (r : Result Text) (m m' : Map Text Text)
      → store_department found (system_object_department r) m ≡ ok m'
      → IsFull m
      → IsFull m'
  store_department-IsFull none r m m' h full = let same : m ≡ m' = ground arith in rw (← same) full
  store_department-IsFull (some key) r m m' h full =
      stored (system_object_department r) (λ d e. system_object_department-full r d e) h
    where
      stored :
          (x : Result Text)
          → ((d : Text) → x ≡ ok d → is_empty d ≡ false)
          → store_department (some key) x m ≡ ok m'
          → IsFull m'
      stored (err e) named k = absurd (ground arith)
      stored (ok d) named k =
          let same : insert key d m ≡ m' = ok-injective k in
          rw (← same) (insert-IsFull key d m (named d refl) full)

  read_objects-IsFull :
      (references : Map Text SystemReference) (names : Map Text (List Text))
      (os : List SystemObject) (m m' : Map Text Text)
      → read_objects references names os m ≡ ok m'
      → IsFull m
      → IsFull m'
  unfolding read_objects
  read_objects-IsFull references names [] m m' h full =
      let same : m ≡ m' = ok-injective h in rw (← same) full
  read_objects-IsFull references names (o ∷ os) m m' h full =
      let found = identify_system_object o references names in
      elim (Result-cases (store_department found (system_object_department o.department) m)) [
        | inr (e, f) ↦ absurd (let k = rw (read_objects, f) at h in ground arith)
        | inl (r, f) ↦
            read_objects-IsFull references names os r m' (rw (read_objects, f) at h)
              (store_department-IsFull found o.department m r f full)
      ]

  fill_missing-IsFull :
      (references : Map Text SystemReference) (keys : List Text) (m : Map Text Text) (w : W)
      (m' : Map Text Text) (w' : W)
      → fill_missing api fuel references keys m w ≡ some (ok m', w')
      → IsFull m
      → IsFull m'
  unfolding fill_missing
  fill_missing-IsFull references [] m w m' w' h full =
      let same : m ≡ m' = ground arith in rw (← same) full
  fill_missing-IsFull references (key ∷ keys) m w m' w' h full =
      elim (Bool-cases (is_empty (text_at [] (lookup key m)))) [
        | inr there ↦ fill_missing-IsFull references keys m w m' w' (rw there at h) full
        | inl missing ↦ elim (Bool-cases (is_empty (name_of api fuel (lookup key references)))) [
          | inl nameless ↦ absurd (let k = rw (missing, nameless) at h in ground arith)
          | inr named ↦
              let (d, v, by_label, later) =
                then_fill-ok api fuel key m _ _ m' w' (rw (missing, named) at h) in
              fill_missing-IsFull references keys (insert key d m) v m' w' later
                (insert-IsFull key d m (by_label-full api fuel _ w v d by_label) full)
        ]
      ]

  pub resolve_department_batch-IsFull :
      (keys : List Text) (references : Map Text SystemReference) (w w' : W) (m : Map Text Text)
      → resolve_department_batch api fuel keys references w ≡ some (ok m, w')
      → IsFull m
  unfolding resolve_department_batch
  resolve_department_batch-IsFull keys references w w' m h = found _ h
    where
      read :
          (x : Result (Map Text Text)) (v : W)
          → ((s : Map Text Text) → x ≡ ok s → IsFull s)
          → read_then_fill api fuel references keys x v ≡ some (ok m, w')
          → IsFull m
      read (err e) v full k = absurd (ground arith)
      read (ok start) v full k =
          fill_missing-IsFull references keys start v m w' k (full start refl)

      found :
          (r : Fueled W (List SystemObject))
          → with_objects api fuel references keys r ≡ some (ok m, w')
          → IsFull m
      found none k = absurd (ground arith)
      found (some (err e, v)) k = absurd (ground arith)
      found (some (ok os, v)) k =
          read (read_objects references (keys_by_name references []) os []) v
            (λ s e. read_objects-IsFull references (keys_by_name references []) os [] s e tt) k

-- ===== src/Cmdb/Departments.antt =====
-- ResolveDepartments of internal/cmdb/system_client.go: the batches of unique Systems run at the same
-- time, a limited number of them at once, each asking the CMDB on its own. The steps of a group are
-- those of its goroutines; what another client sees of the CMDB between two batches is left open.
pub mod Complete
use secarch_tickets.Base.{
  ℕ, suc, ◌+◌, ◌-◌, ◌<◌, ◌≡◌, Bool, true, false, ◌||◌, not, Text, List, [], ◌∷◌, ◌++◌, map, Option,
  none, some, Map, lookup, insert, merge, keys, nat_eq, list_eq, Result, ok, err, Error, wrapped,
  sentinel, err_system_invalid_data, ◌>>=◌, if◌then◌else◌, is_empty, trim_space, to_upper,
  CaseTables, length,
}
use secarch_tickets.Base.Sorting.{sort_strings}
use secarch_tickets.Cmdb.Types.{SystemReference}
use secarch_tickets.Cmdb.Keys.{is_issue_key}
use secarch_tickets.Cmdb.Systems.{SystemsApi, resolve_department_batch}
use secarch_tickets.Sync.Tracked.{batches}

module _ ⦃c : CaseTables⦄ where
  abbrev pub normal_reference : SystemReference → SystemReference
  normal_reference r = record { key = to_upper (trim_space r.key); name = trim_space r.name }

  abbrev pub keeps_existing : Option SystemReference → Bool
  keeps_existing none = false
  keeps_existing (some existing) = not (is_empty existing.name)

  abbrev pub add_reference :
      Map Text SystemReference → SystemReference → Result (Map Text SystemReference)
  add_reference unique r =
      if is_empty r.key
      then ok unique
      else if not (is_issue_key r.key)
      then err (wrapped "invalid System key" (sentinel err_system_invalid_data))
      else if keeps_existing (lookup r.key unique)
      then ok unique
      else ok (insert r.key r unique)

  -- The loop that collects the references by key: a later one replaces one without a name.
  unfoldable pub unique_references :
      List SystemReference → Map Text SystemReference → Result (Map Text SystemReference)
  unique_references [] unique = ok unique
  unique_references (r ∷ rs) unique =
      add_reference unique (normal_reference r) >>= (λ more. unique_references rs more)

-- Where the goroutine of a batch stands.
pub data Phase : Type 0 where
  waiting running merged failed skipped : Phase

pub record Task : Type 0 where
  pub batch : List Text
  pub phase : Phase

pub record Group : Type 0 where
  pub tasks : List Task
  pub resolved : Map Text Text
  pub first_error : Option Error
  -- The caller's context has ended.
  pub context_ended : Bool
  -- Free places of the semaphore.
  pub slots : ℕ

abbrev pub has_failed : Option Error → Bool
has_failed none = false
has_failed (some e) = true

-- groupCtx.Done: cancel was called, or the caller's context has ended.
abbrev pub is_cancelled : Group → Bool
is_cancelled g = has_failed g.first_error || g.context_ended

-- errorOnce.Do
abbrev pub first_of : Option Error → Error → Option Error
first_of none e = some e
first_of (some d) e = some d

abbrev pub at_phase : Phase → Task → Task
at_phase phase t = record t { phase = phase }

-- unique[key] for the keys of a batch, each of which is there.
abbrev pub references_of : Map Text SystemReference → List Text → Map Text SystemReference
references_of unique [] = []
references_of unique (k ∷ ks) =
    let rest = references_of unique ks in
    elim (lookup k unique) [
      | none ↦ (k, record { key = []; name = [] }) ∷ rest
      | some r ↦ (k, r) ∷ rest
    ]

module _ ⦃c : CaseTables⦄ {W : Type 0} (api : SystemsApi W) (fuel : ℕ)
    (unique : Map Text SystemReference) where
  pub data Step (g : Group) : Group → Type 0 where
    -- semaphore <- struct{}{}
    acquires :
        (front : List Task) (t : Task) (back : List Task)
        → g.tasks ≡ front ++ (t ∷ back)
        → t.phase ≡ waiting
        → 0 < g.slots
        → Step g (record g { tasks = front ++ (at_phase running t ∷ back); slots = g.slots - 1 })
    -- case <-groupCtx.Done(): return
    skips :
        (front : List Task) (t : Task) (back : List Task)
        → g.tasks ≡ front ++ (t ∷ back)
        → t.phase ≡ waiting
        → is_cancelled g ≡ true
        → Step g (record g { tasks = front ++ (at_phase skipped t ∷ back) })
    -- The batch is resolved, and merged into the result.
    merges :
        (front : List Task) (t : Task) (back : List Task) (w w' : W) (m : Map Text Text)
        → g.tasks ≡ front ++ (t ∷ back)
        → t.phase ≡ running
        → resolve_department_batch api fuel t.batch (references_of unique t.batch) w
          ≡ some (ok m, w')
        → Step g (record g {
          tasks = front ++ (at_phase merged t ∷ back);
          resolved = merge g.resolved m;
          slots = suc g.slots;
        })
    -- The first error is kept, and cancels the others.
    fails :
        (front : List Task) (t : Task) (back : List Task) (w w' : W) (e : Error)
        → g.tasks ≡ front ++ (t ∷ back)
        → t.phase ≡ running
        → resolve_department_batch api fuel t.batch (references_of unique t.batch) w
          ≡ some (err e, w')
        → Step g (record g {
          tasks = front ++ (at_phase failed t ∷ back);
          first_error = first_of g.first_error e;
          slots = suc g.slots;
        })
    ends : Step g (record g { context_ended = true })

  pub data Steps (g : Group) : Group → Type 0 where
    stays : Steps g g
    then_step : {h k : Group} → Steps g h → Step h k → Steps g k

abbrev pub new_task : List Text → Task
new_task batch = record { batch = batch; phase = waiting }

-- The group that is started for the sorted keys.
unfoldable pub start_group : ℕ → ℕ → Map Text SystemReference → Group
unfolding batches
start_group size concurrency unique =
    let sorted = sort_strings (keys unique) in
    record {
      tasks = map new_task (batches (length sorted) size sorted);
      resolved = [];
      first_error = none;
      context_ended = false;
      slots = concurrency;
    }

-- waitGroup.Wait: no goroutine is left.
abbrev pub is_over : Task → Bool
is_over t = elim t.phase [
  | waiting ↦ false
  | running ↦ false
  | merged ↦ true
  | failed ↦ true
  | skipped ↦ true
]

abbrev pub outcome : Group → Result (Map Text Text)
outcome g = elim g.first_error [ none ↦ ok g.resolved | some e ↦ err e ]

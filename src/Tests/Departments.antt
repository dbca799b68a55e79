-- ===== src/Tests/Departments.antt =====
-- One batch of two Systems in a group, and a group whose context ends before its batch starts.
use secarch_tickets.Base.Sorting.{sort_by}
use secarch_tickets.Cmdb.Keys.{is_issue_key}
use secarch_tickets.Base.{
  ◌≡◌, refl, codes, [], ◌∷◌, ok, All, list_eq, nat_eq, trim, is_space, true, arith,
}
use secarch_tickets.Cmdb.Systems.Resolved.{IsResolved}
use secarch_tickets.Cmdb.Departments.{
  Group, Step, acquires, skips, merges, ends, Steps, stays, then_step, start_group, outcome,
  unique_references, running, merged, skipped,
}
use secarch_tickets.Cmdb.Departments.Complete.{resolve_departments-IsResolved}
use secarch_tickets.Tests.{ascii}
use secarch_tickets.Tests.Systems.{systems, references, found, batch_run}

-- The key is trimmed, and the reference with a name takes the place of the one without.
unique_run :
    unique_references
      (record { key = codes "SYS-7"; name = [] }
        ∷ record { key = codes " sys-9"; name = [] }
        ∷ record { key = codes "SYS-9"; name = codes "Archive " }
        ∷ record { key = []; name = codes "Nameless" }
        ∷ [])
      []
    ≡ ok references
unfolding unique_references trim is_space is_issue_key
unique_run = refl

abbrev begun : Group
begun = start_group 50 2 references

abbrev at_work : Group
at_work = record begun {
  tasks = record { batch = codes "SYS-7" ∷ codes "SYS-9" ∷ []; phase = running } ∷ [];
  slots = 1;
}

abbrev done : Group
done = record at_work {
  tasks = record { batch = codes "SYS-7" ∷ codes "SYS-9" ∷ []; phase = merged } ∷ [];
  resolved = found;
  slots = 2;
}

first_step : Step systems 3 references begun at_work
unfolding start_group sort_by
first_step = acquires [] _ [] refl refl (omega arith)

last_step : Step systems 3 references at_work done
unfolding start_group
last_step = merges [] _ [] tt tt found refl refl batch_run

resolve_departments-IsResolved_example : All (IsResolved found) (codes "SYS-7" ∷ codes "SYS-9" ∷ [])
unfolding start_group sort_by
resolve_departments-IsResolved_example =
    resolve_departments-IsResolved systems 3 references 50 2 (omega arith) done
      (then_step (then_step stays first_step) last_step) (refl, tt) found refl refl

-- The context ends before the batch has a place: the group ends without an error and without a System.
abbrev abandoned : Group
abandoned = record begun {
  tasks = record { batch = codes "SYS-7" ∷ codes "SYS-9" ∷ []; phase = skipped } ∷ [];
  context_ended = true;
}

abandoned_run : Steps systems 3 references begun abandoned
unfolding start_group sort_by
abandoned_run = then_step (then_step stays ends) (skips [] _ [] refl refl refl)

abandoned-outcome : outcome abandoned ≡ ok []
unfolding start_group
abandoned-outcome = refl

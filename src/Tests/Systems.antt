-- ===== src/Tests/Systems.antt =====
-- A batch of two Systems, one of which is found by its name only.
use secarch_tickets.Cmdb.Keys.{find_system_key}
use secarch_tickets.Base.{
  ◌≡◌, refl, Text, codes, some, List, [], ◌∷◌, Map, ok, list_eq, nat_eq, ◌==◌, trim, is_space,
}
use secarch_tickets.Base.Int.{pos}
use secarch_tickets.Cmdb.Types.{SystemReference}
use secarch_tickets.Cmdb.Systems.{
  SystemObject, SystemObjectsResponse, SystemsApi, resolve_department_batch,
}
use secarch_tickets.Tests.{ascii}

abbrev ledger_object : SystemObject
ledger_object = record {
  key = [];
  object_key = codes "sys-7";
  label = codes "Ledger";
  department = ok (codes "Payments");
}

abbrev archive_object : SystemObject
archive_object = record { key = []; object_key = []; label = codes "Archive"; department = ok [] }

abbrev page_of : List SystemObject → SystemObjectsResponse
page_of objects = record { last_page = pos 1; total_pages = pos 1; objects = objects }

abbrev pub systems : SystemsApi (Unit {0})
systems = record {
  query_by_iql = λ iql page size w. (ok (page_of (ledger_object ∷ [])), w);
  query_by_label = λ label page size w. (ok (page_of (archive_object ∷ [])), w);
  equal_fold = λ a b. a == b;
}

abbrev pub references : Map Text SystemReference
references =
    (codes "SYS-7", record { key = codes "SYS-7"; name = [] })
    ∷ (codes "SYS-9", record { key = codes "SYS-9"; name = codes "Archive" })
    ∷ []

abbrev pub found : Map Text Text
found = (codes "SYS-7", codes "Payments") ∷ (codes "SYS-9", codes "Unassigned") ∷ []

pub batch_run :
    resolve_department_batch systems 3 (codes "SYS-7" ∷ codes "SYS-9" ∷ []) references tt
    ≡ some (ok found, tt)
unfolding resolve_department_batch trim find_system_key is_space
batch_run = refl

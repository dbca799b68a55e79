-- ===== src/Cmdb/Systems.antt =====
-- internal/cmdb/system_client.go: the Departments of one batch of Systems, over decoded answers of the
-- objects API. strings.EqualFold and the JSON of an attribute are parameters.
pub mod Resolved
use secarch_tickets.Base.{
  ℕ, zero, suc, ◌+◌, max, leb, Bool, true, false, not, Text, codes, List, [], ◌∷◌, ◌++◌, Option,
  none, some, Map, lookup, insert, has_key, text_at, Result, ok, err, Error, failed, wrapped,
  sentinel, err_system_not_found, err_system_ambiguous, err_system_invalid_data, if◌then◌else◌,
  ◌==◌, nat_eq, list_eq, is_empty, trim_space, to_upper, to_lower, length, keep, CaseTables,
}
use secarch_tickets.Base.Int.{ℤ, pos, negsuc}
use secarch_tickets.Cmdb.Types.{SystemReference, unassigned_department}
use secarch_tickets.Cmdb.Keys.{find_system_key}
use secarch_tickets.Cmdb.Jql.{build_system_keys_iql}
use secarch_tickets.Cmdb.Queue.{max_int}

-- systemObject, with what objectAttributeString makes of its Department attribute.
pub record SystemObject : Type 0 where
  pub key : Text
  pub object_key : Text
  pub label : Text
  pub department : Result Text

pub record SystemObjectsResponse : Type 0 where
  pub last_page : ℤ
  pub total_pages : ℤ
  pub objects : List SystemObject

pub record SystemsApi (W : Type 0) : Type 0 where
  pub query_by_iql : Text → ℕ → ℕ → W → Result SystemObjectsResponse × W
  pub query_by_label : Text → ℕ → ℕ → W → Result SystemObjectsResponse × W
  pub equal_fold : Text → Text → Bool

-- i <= n
abbrev pub at_most : ℤ → ℕ → Bool
at_most (pos m) n = leb m n
at_most (negsuc m) n = true

-- A loop over pages that may run out of fuel; then it is `none`.
abbrev pub Fueled : Type 0 → Type 0 → Type 0
Fueled W A = Option (Result A × W)

abbrev pub append_page :
    {W : Type 0} → List SystemObject → Fueled W (List SystemObject) → Fueled W (List SystemObject)
append_page objects none = none
append_page objects (some (err e, w)) = some (err e, w)
append_page objects (some (ok rest, w)) = some (ok (objects ++ rest), w)

module _ {W : Type 0} (label : Error → Error) (ask : ℕ → W → Result SystemObjectsResponse × W) where
  -- What follows the answer for a page; `rest` are the later pages.
  abbrev pub after_page :
      ℕ
      → Result SystemObjectsResponse × W
      → (W → Fueled W (List SystemObject))
      → Fueled W (List SystemObject)
  after_page page (err e, w) rest = some (err (label e), w)
  after_page page (ok r, w) rest =
      let later = rest w in
      if at_most (max_int r.total_pages r.last_page) page
      then some (ok r.objects, w)
      else append_page r.objects later

  unfoldable pub all_pages : ℕ → ℕ → W → Fueled W (List SystemObject)
  all_pages zero page w = none
  all_pages (suc fuel) page w = after_page page (ask page w) (all_pages fuel (page + 1))

-- systemObjectDepartment
abbrev pub or_unassigned : Text → Text
or_unassigned department = if is_empty department then unassigned_department else department

-- An attribute that cannot be read is a matter of this System's data.
unfoldable pub system_object_department : Result Text → Result Text
system_object_department (err e) =
    err (wrapped "read Department" (sentinel err_system_invalid_data))
system_object_department (ok department) = ok (or_unassigned department)

module _ ⦃c : CaseTables⦄ where
  abbrev pub append_key : Text → Option (List Text) → List Text
  append_key key none = key ∷ []
  append_key key (some ks) = ks ++ key ∷ []

  unfoldable pub keys_by_name :
      Map Text SystemReference → Map Text (List Text) → Map Text (List Text)
  keys_by_name [] names = names
  keys_by_name ((key, reference) ∷ rest) names =
      let name = to_lower reference.name in
      keys_by_name rest (
        if is_empty reference.name
        then names
        else insert name (append_key key (lookup name names)) names)

  -- The key in parentheses at the end of a candidate.
  abbrev pub key_in_suffix : Map Text SystemReference → Option (Text × Text) → Option Text
  key_in_suffix references none = none
  key_in_suffix references (some (name, key)) =
      if has_key (to_upper key) references then some (to_upper key) else none

  abbrev pub first_match : Map Text SystemReference → List Text → Option Text
  first_match references [] = none
  first_match references (candidate ∷ rest) =
      let name = to_upper (trim_space candidate) in
      if has_key name references
      then some name
      else elim (key_in_suffix references (find_system_key name)) [
        | some key ↦ some key
        | none ↦ first_match references rest
      ]

  abbrev pub only_key : Option (List Text) → Option Text
  only_key (some (key ∷ [])) = some key
  only_key keys = none

  -- `none` is the empty string of the source.
  unfoldable pub identify_system_object :
      SystemObject → Map Text SystemReference → Map Text (List Text) → Option Text
  identify_system_object object references by_name =
      elim (first_match references (object.key ∷ object.object_key ∷ object.label ∷ [])) [
        | some key ↦ some key
        | none ↦ only_key (lookup (to_lower (trim_space object.label)) by_name)
      ]

  abbrev pub store_department : Option Text → Result Text → Map Text Text → Result (Map Text Text)
  store_department none department resolved = ok resolved
  store_department (some key) (err e) resolved = err e
  store_department (some key) (ok department) resolved = ok (insert key department resolved)

  -- The loop over the objects that the query by key returned.
  unfoldable pub read_objects :
      Map Text SystemReference
      → Map Text (List Text)
      → List SystemObject
      → Map Text Text
      → Result (Map Text Text)
  unfolding identify_system_object system_object_department
  read_objects references by_name [] resolved = ok resolved
  read_objects references by_name (object ∷ rest) resolved =
      elim (store_department (identify_system_object object references by_name)
        (system_object_department object.department) resolved) [
          | err e ↦ err e
          | ok resolved' ↦ read_objects references by_name rest resolved'
        ]

module _ ⦃c : CaseTables⦄ {W : Type 0} (api : SystemsApi W) (fuel : ℕ) where
  -- The one object with the label.
  unfoldable pub single_object : List SystemObject → Result Text
  unfolding system_object_department
  single_object [] = err (wrapped "by key or unique name" (sentinel err_system_not_found))
  single_object (object ∷ []) = system_object_department object.department
  single_object (object ∷ other ∷ more) =
      err (wrapped "Systems with one name" (sentinel err_system_ambiguous))

  abbrev pub with_label : Text → Fueled W (List SystemObject) → Fueled W Text
  with_label label none = none
  with_label label (some (err e, w)) = some (err e, w)
  with_label label (some (ok objects, w)) = some (
    single_object (
        keep (λ (o : SystemObject). api.equal_fold (trim_space o.label) (trim_space label))
          objects),
    w,
  )

  unfoldable pub resolve_department_by_label : Text → W → Fueled W Text
  unfolding all_pages single_object
  resolve_department_by_label label w =
      with_label label
        (all_pages (wrapped "fallback lookup") (λ page. api.query_by_label label page 10) fuel 1 w)

  abbrev pub then_fill :
      Text
      → Map Text Text
      → Fueled W Text
      → (Map Text Text → W → Fueled W (Map Text Text))
      → Fueled W (Map Text Text)
  then_fill key resolved none rest = none
  then_fill key resolved (some (err e, w)) rest = some (err e, w)
  then_fill key resolved (some (ok department, w)) rest = rest (insert key department resolved) w

  abbrev pub name_of : Option SystemReference → Text
  name_of none = []
  name_of (some r) = r.name

  -- The keys without a Department, by the name of their System.
  unfoldable pub fill_missing :
      Map Text SystemReference → List Text → Map Text Text → W → Fueled W (Map Text Text)
  unfolding resolve_department_by_label
  fill_missing references [] resolved w = some (ok resolved, w)
  fill_missing references (key ∷ keys) resolved w =
      let rest = fill_missing references keys in
      let name = name_of (lookup key references) in
      if not (is_empty (text_at [] (lookup key resolved)))
      then rest resolved w
      else if is_empty name
      then some (err (wrapped "no System name is available" (sentinel err_system_not_found)), w)
      else then_fill key resolved (resolve_department_by_label name w) rest

  abbrev pub read_then_fill :
      Map Text SystemReference → List Text → Result (Map Text Text) → W → Fueled W (Map Text Text)
  read_then_fill references keys (err e) w = some (err e, w)
  read_then_fill references keys (ok resolved) w = fill_missing references keys resolved w

  abbrev pub with_objects :
      Map Text SystemReference → List Text → Fueled W (List SystemObject) → Fueled W (Map Text Text)
  with_objects references keys none = none
  with_objects references keys (some (err e, w)) = some (err e, w)
  with_objects references keys (some (ok objects, w)) =
      read_then_fill references keys
        (read_objects references (keys_by_name references []) objects []) w

  unfoldable pub resolve_department_batch :
      List Text → Map Text SystemReference → W → Fueled W (Map Text Text)
  unfolding all_pages read_objects keys_by_name fill_missing
  resolve_department_batch keys references w = with_objects references keys (
      all_pages (wrapped "resolve System batch")
        (λ page. api.query_by_iql (build_system_keys_iql keys) page (length keys)) fuel 1 w)

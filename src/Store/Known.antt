-- ===== src/Store/Known.antt =====
-- ListKnownDepartments succeeds exactly on tables that agree about every System.
use secarch_tickets.Base.{
  ◌≡◌, ◌↔◌, refl, true, false, Text, none, some, List, [], ◌∷◌, ◌&&◌, ◌==◌, nat_eq, list_eq,
  if◌then◌else◌, ok, IsOk, returns, arith, Bool-cases, inl, inr, ==-iff, Map, lookup, insert,
  lookup-insert, some, In, here, there,
}
use secarch_tickets.Store.{Row, Database}
use secarch_tickets.Store.Queries.{known_pair, conflicts, collect_known, list_known_departments}

-- No two rows name different Departments for one System.
pub record Agree (rows : List Row) : Type 0 where
  pub agree :
      (r q : Row)
      → In r rows
      → In q rows
      → known_pair r ≡ true
      → known_pair q ≡ true
      → r.cmdb_system_key ≡ q.cmdb_system_key
      → r.department ≡ q.department

-- Nothing in the map contradicts the rows to come.
abbrev Fits : Map Text Text → List Row → Type 0
Fits known rows =
    (r : Row)
    → In r rows
    → known_pair r ≡ true
    → conflicts (lookup r.cmdb_system_key known) r.department ≡ false

abbrev next : Row → Map Text Text → Map Text Text
next r known = if known_pair r then insert r.cmdb_system_key r.department known else known

lookup-next :
    (r : Row) (known : Map Text Text) (k : Text)
    → lookup k (next r known)
      ≡ (if known_pair r && (r.cmdb_system_key == k) then some r.department else lookup k known)
lookup-next r known k = elim (Bool-cases (known_pair r)) [
  | inl p ↦ rw p (lookup-insert r.cmdb_system_key k r.department known)
  | inr p ↦ rw p refl
]

Fits-next :
    (r : Row) (rows : List Row) (known : Map Text Text)
    → Agree (r ∷ rows)
    → Fits known (r ∷ rows)
    → Fits (next r known) rows
Fits-next r rows known a f q i p = ground (
  arith,
  lookup-next r known q.cmdb_system_key,
  ==-iff r.cmdb_system_key q.cmdb_system_key,
  ==-iff r.department q.department,
  a.agree r q (here refl) (there i),
  f q (there i) p,
)

Agree-tail : (r : Row) (rows : List Row) → Agree (r ∷ rows) → Agree rows
Agree-tail r rows a = record { agree = λ p q i j. a.agree p q (there i) (there j) }

-- Where the rows agree with the map and with each other, the loop ends well.
collect-IsOk :
    (rows : List Row) (known : Map Text Text)
    → Agree rows
    → Fits known rows
    → IsOk (collect_known rows known)
unfolding collect_known
collect-IsOk [] known a f = returns known refl
collect-IsOk (r ∷ rows) known a f =
    let fine : known_pair r && conflicts (lookup r.cmdb_system_key known) r.department ≡ false =
      ground (arith, f r (here refl)) in
    rw fine (collect-IsOk rows (next r known) (Agree-tail r rows a) (Fits-next r rows known a f))

-- One round of a loop that ends well.
collect-step :
    (r : Row) (rows : List Row) (known m : Map Text Text)
    → collect_known (r ∷ rows) known ≡ ok m
    → (collect_known rows (next r known) ≡ ok m)
      × (known_pair r && conflicts (lookup r.cmdb_system_key known) r.department ≡ false)
unfolding collect_known
collect-step r rows known m e = ground arith

-- What the loop returns extends the map it started with, and shows every known row.
collect-keeps :
    (rows : List Row) (known m : Map Text Text) (k d : Text)
    → collect_known rows known ≡ ok m
    → lookup k known ≡ some d
    → lookup k m ≡ some d
collect-keeps [] known m k d e h = unfold collect_known in ground arith
collect-keeps (r ∷ rows) known m k d e h =
    let (later, fine) = collect-step r rows known m e in
    let kept : lookup k (next r known) ≡ some d =
      ground (arith, lookup-next r known k, ==-iff r.cmdb_system_key k, ==-iff d r.department, h) in
    collect-keeps rows (next r known) m k d later kept

collect-shows :
    (rows : List Row) (known m : Map Text Text)
    → collect_known rows known ≡ ok m
    → (q : Row) → In q rows
    → known_pair q ≡ true
    → lookup q.cmdb_system_key m ≡ some q.department
collect-shows [] known m e q i p = elim i [ ]
collect-shows (r ∷ rows) known m e q (here s) p =
    let (later, fine) = collect-step r rows known m e in
    let set : lookup r.cmdb_system_key (next r known) ≡ some r.department = ground (
      arith,
      lookup-next r known r.cmdb_system_key,
      ==-iff r.cmdb_system_key r.cmdb_system_key,
      s,
    ) in
    rw s (collect-keeps rows (next r known) m r.cmdb_system_key r.department later set)
collect-shows (r ∷ rows) known m e q (there i) p =
    let (later, fine) = collect-step r rows known m e in
    collect-shows rows (next r known) m later q i p

-- A read that does not fail returns a map exactly if no two rows with a Department of their own give
-- one System different Departments; one pair of such rows is enough to make it, and with it every
-- refresh, fail.
pub list_known_departments_iff :
    (db : Database) → IsOk (list_known_departments none db) ↔ Agree db.tickets
unfolding list_known_departments
list_known_departments_iff db = (to, λ a. collect-IsOk db.tickets [] a (λ r i p. refl))
  where
    to : IsOk (collect_known db.tickets []) → Agree db.tickets
    to (returns m e) = record {
      agree = λ r q i j p k same.
          let one = collect-shows db.tickets [] m e r i p in
          let two = collect-shows db.tickets [] m e q j k in ground (arith, one, two, same);
    }

-- The map that is returned has the Department of every row that has one of its own.
pub list_known_departments-shows :
    (db : Database) (m : Map Text Text)
    → list_known_departments none db ≡ ok m
    → (q : Row) → In q db.tickets
    → known_pair q ≡ true
    → lookup q.cmdb_system_key m ≡ some q.department
unfolding list_known_departments
list_known_departments-shows db m e q i p = collect-shows db.tickets [] m e q i p

-- The row gives the System the Department.
abbrev pub Gives : Text → Text → List Row → Type 0
Gives key department rows =
    (r : Row) × In r rows
    × (known_pair r ≡ true)
    × (r.cmdb_system_key ≡ key)
    × (r.department ≡ department)

-- ===== src/Connection/Reading.antt =====
-- The keyword/value connection strings of PostgreSQL, read independently of the code that writes them:
-- what buildPoolConfig of internal/db/client.go hands to the driver.
use secarch_tickets.Base.{
  ℕ, ◌++◌, ◌≡◌, refl, ap, Bool, ◌&&◌, ◌||◌, Text, List, [], ◌∷◌, Option, none, some, nat_eq, ◌==◌,
  ==-iff, leb, if◌then◌else◌, is_empty, Bool-cases, inl, inr,
}
use secarch_tickets.Connection.{replace_char}

-- Where the reader stands: in a keyword, at the beginning of its value, in a quoted value, behind a
-- backslash in one, or in a bare value.
pub data Phase : Type 0 where
  keyword : Text → Phase
  value : Text → Phase
  quoted : Text → Text → Phase
  escaped : Text → Text → Phase
  bare : Text → Text → Phase

abbrev pub Settings : Type 0
Settings = List (Text × Text)

-- A space, or one of the control characters from tab to carriage return.
abbrev pub is_blank : ℕ → Bool
is_blank c = (c == 32) || (leb 9 c && leb c 13)

abbrev pub next : Phase → ℕ → Phase
next (keyword k) c =
    if c == b'='
    then value k
    else if is_blank c && is_empty k
    then keyword []
    else keyword (k ++ (c ∷ []))
next (value k) c = if c == 39 then quoted k [] else bare k (c ∷ [])
next (quoted k v) c =
    if c == 39 then keyword [] else if c == 92 then escaped k v else quoted k (v ++ (c ∷ []))
next (escaped k v) c = quoted k (v ++ (c ∷ []))
next (bare k v) c = if is_blank c then keyword [] else bare k (v ++ (c ∷ []))

-- The setting that a character completes.
abbrev pub emitted : Phase → ℕ → Settings
emitted (quoted k v) c = if c == 39 then (k, v) ∷ [] else []
emitted (bare k v) c = if is_blank c then (k, v) ∷ [] else []
emitted _ c = []

abbrev pub finish : Phase → Option Settings
finish (keyword []) = some []
finish (keyword (c ∷ k)) = none
finish (value k) = some ((k, []) ∷ [])
finish (quoted k v) = none
finish (escaped k v) = none
finish (bare k v) = some ((k, v) ∷ [])

abbrev pub prepend : Settings → Option Settings → Option Settings
prepend front none = none
prepend front (some rest) = some (front ++ rest)

abbrev pub read : Phase → Text → Option Settings
read phase [] = finish phase
read phase (c ∷ s) = prepend (emitted phase c) (read (next phase c) s)

abbrev pub read_settings : Text → Option Settings
read_settings s = read (keyword []) s

pub prepend-nil : (o : Option Settings) → prepend [] o ≡ o
prepend-nil none = refl
prepend-nil (some s) = refl

-- Inside a quoted value: the escaped characters are those of the value.
abbrev pub escape : Text → Text
escape v = replace_char 39 (92 ∷ 39 ∷ []) (replace_char 92 (92 ∷ 92 ∷ []) v)

pub append-one : (v : Text) (c : ℕ) (w : Text) → (v ++ (c ∷ [])) ++ w ≡ v ++ (c ∷ w)
append-one [] c w = refl
append-one (d ∷ v) c w = ap (◌∷◌ d) (append-one v c w)

pub append-nil : (v : Text) → v ++ [] ≡ v
append-nil [] = refl
append-nil (d ∷ v) = ap (◌∷◌ d) (append-nil v)

pub read-escape :
    (k v w rest : Text)
    → read (quoted k v) (escape w ++ (39 ∷ rest))
      ≡ prepend ((k, v ++ w) ∷ []) (read (keyword []) rest)
read-escape k v [] rest = rw (append-nil v) refl
read-escape k v (c ∷ w) rest = elim (Bool-cases (c == 92)) [
  | inl h ↦ rw ((==-iff c 92).0 h) (
      rw (prepend-nil _)
        (rw (prepend-nil _) (rw (← append-one v 92 w) (read-escape k (v ++ (92 ∷ [])) w rest))))
  | inr h ↦ elim (Bool-cases (c == 39)) [
    | inl e ↦ rw ((==-iff c 39).0 e) (
        rw (prepend-nil _)
          (rw (prepend-nil _) (rw (← append-one v 39 w) (read-escape k (v ++ (39 ∷ [])) w rest))))
    | inr e ↦ rw h (
        rw e (
          rw e (
            rw h (
              rw (prepend-nil _)
                (rw (← append-one v c w) (read-escape k (v ++ (c ∷ [])) w rest))))))
  ]
]

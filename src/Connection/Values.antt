-- ===== src/Connection/Values.antt =====
-- How the values of buildPoolConfig, quoted or bare, are read behind their keywords.
use secarch_tickets.Base.Int.{ℤ, pos, negsuc}
use secarch_tickets.Base.{
  ℕ, zero, suc, ◌+◌, ◌/◌, ◌%◌, ◌++◌, ◌≡◌, refl, ap, ◌∙◌, Bool, true, false, ◌&&◌, not, Text, [],
  ◌∷◌, some, nat_eq, ◌==◌, ltb, is_empty, all, Bool-cases, inl, inr, arith,
}
use secarch_tickets.Connection.{quote_value, digits, format_int}
use secarch_tickets.Connection.Reading.{
  keyword, value, quoted, bare, is_blank, prepend, read, read_settings, escape, read-escape,
  prepend-nil, append-one, append-nil,
}

-- A character of a keyword, and one of a bare value.
abbrev pub is_key_char : ℕ → Bool
is_key_char c = not (c == b'=') && not (is_blank c)

abbrev pub is_bare_char : ℕ → Bool
is_bare_char c = not (c == 39) && not (is_blank c)

read-keyword :
    (acc k rest : Text)
    → all is_key_char k ≡ true
    → read (keyword acc) (k ++ (b'=' ∷ rest)) ≡ read (value (acc ++ k)) rest
read-keyword acc [] rest h = rw (append-nil acc) (prepend-nil _)
read-keyword acc (c ∷ k) rest h =
    let one : (c == b'=' ≡ false) × (is_blank c ≡ false) × (all is_key_char k ≡ true) =
      (ground arith, ground arith, ground arith) in
    rw one.0 (
      rw one.1 (
        rw (prepend-nil _)
          (rw (← append-one acc c k) (read-keyword (acc ++ (c ∷ [])) k rest one.2))))

read-bare :
    (k v w rest : Text)
    → all is_bare_char w ≡ true
    → (read (bare k v) (w ++ (32 ∷ rest)) ≡ prepend ((k, v ++ w) ∷ []) (read (keyword []) rest))
      × (read (bare k v) w ≡ some ((k, v ++ w) ∷ []))
read-bare k v [] rest h = rw (append-nil v) (refl, refl)
read-bare k v (c ∷ w) rest h =
    let one : (is_blank c ≡ false) × (all is_bare_char w ≡ true) = (ground arith, ground arith) in
    rw one.0 (
      rw (prepend-nil _)
        (rw (prepend-nil _) (rw (← append-one v c w) (read-bare k (v ++ (c ∷ [])) w rest one.1))))

-- A parameter is read as a setting, before others and at the end.
abbrev pub IsReadAs : Text → Text × Text → Type 0
IsReadAs t setting =
    (rest : Text)
    → (read_settings (t ++ (32 ∷ rest)) ≡ prepend (setting ∷ []) (read_settings rest))
      × (read_settings t ≡ some (setting ∷ []))

append_assoc : (a b c : Text) → (a ++ b) ++ c ≡ a ++ (b ++ c)
append_assoc [] b c = refl
append_assoc (d ∷ a) b c = ap (◌∷◌ d) (append_assoc a b c)

-- The same for what stands behind the keyword.
abbrev pub IsValueOf : Text → Text → Text → Type 0
IsValueOf k q v =
    (rest : Text)
    → (read (value k) (q ++ (32 ∷ rest)) ≡ prepend ((k, v) ∷ []) (read_settings rest))
      × (read (value k) q ≡ some ((k, v) ∷ []))

pub IsValueOf-IsReadAs :
    (k q v : Text) → all is_key_char k ≡ true → IsValueOf k q v → IsReadAs (k ++ (b'=' ∷ q)) (k, v)
IsValueOf-IsReadAs k q v h reads rest = (
  rw (append_assoc k (b'=' ∷ q) (32 ∷ rest))
      (read-keyword [] k (q ++ (32 ∷ rest)) h ∙ (reads rest).0),
  read-keyword [] k q h ∙ (reads rest).1,
)

pub quoted-IsValueOf : (k v : Text) → IsValueOf k (quote_value v) v
unfolding quote_value
quoted-IsValueOf k v rest = (
  prepend-nil _
      ∙ (ap (read (quoted k [])) (append-one (escape v) 39 (32 ∷ rest))
          ∙ (read-escape k [] v (32 ∷ rest)
              ∙ ap (prepend ((k, v) ∷ [])) (prepend-nil (read_settings rest)))),
  prepend-nil _ ∙ read-escape k [] v [],
)

bare-IsValueOf : (k v : Text) → all is_bare_char v ≡ true → is_empty v ≡ false → IsValueOf k v v
bare-IsValueOf k [] p n rest = absurd (ground arith)
bare-IsValueOf k (c ∷ v) p n rest =
    let one : (c == 39 ≡ false) × (all is_bare_char v ≡ true) = (ground arith, ground arith) in
    let (between, last) = read-bare k (c ∷ []) v rest one.1 in
    (rw one.0 (prepend-nil _ ∙ between), rw one.0 (prepend-nil _ ∙ last))

-- The digits of a number are no quotation marks and no spaces.
all-append : (p : ℕ → Bool) (a b : Text) → all p a ≡ true → all p b ≡ true → all p (a ++ b) ≡ true
all-append p [] b h k = k
all-append p (c ∷ a) b h k =
    let one : (p c ≡ true) × (all p a ≡ true) = (ground arith, ground arith) in
    rw one.0 (all-append p a b one.1 k)

digit-bare : (n : ℕ) → is_bare_char (48 + n) ≡ true
digit-bare n = ground arith

filled-append : (a b : Text) → is_empty a ≡ false → is_empty (a ++ b) ≡ false
filled-append [] b h = absurd (ground arith)
filled-append (c ∷ a) b h = refl

digits-bare :
    (fuel n : ℕ) → (all is_bare_char (digits fuel n) ≡ true) × (is_empty (digits fuel n) ≡ false)
digits-bare zero n = rw (digit-bare (n % 10)) (refl, refl)
digits-bare (suc fuel) n =
    let (plain, filled) = digits-bare fuel (n / 10) in
    let last : all is_bare_char ((48 + n % 10) ∷ []) ≡ true = rw (digit-bare (n % 10)) refl in
    elim (Bool-cases (ltb n 10)) [
      | inl h ↦ rw h (rw (digit-bare n) (refl, refl))
      | inr h ↦ rw h (
        all-append is_bare_char (digits fuel (n / 10)) ((48 + n % 10) ∷ []) plain last,
        filled-append (digits fuel (n / 10)) ((48 + n % 10) ∷ []) filled,
      )
    ]

pub format_int-IsValueOf : (k : Text) (i : ℤ) → IsValueOf k (format_int i) (format_int i)
unfolding format_int
format_int-IsValueOf k (pos n) =
    let (plain, filled) = digits-bare n n in bare-IsValueOf k (digits n n) plain filled
format_int-IsValueOf k (negsuc n) =
    let (plain, _) = digits-bare (suc n) (suc n) in
    bare-IsValueOf k (45 ∷ digits (suc n) (suc n)) plain refl

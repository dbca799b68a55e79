-- ===== src/Cmdb/Keys.antt =====
-- The two patterns of ticket_client.go, as matchers. Package regexp folds (?i)[a-z] to two
-- characters outside ASCII, the long s and the Kelvin sign.
use mathlib.Core.Path.{subst}
use secarch_tickets.Base.{
  sym, ℕ, ◌≡◌, inl, inr, refl, Bool, true, false, Text, [], ◌∷◌, ◌==◌, ◌&&◌, ◌||◌, nat_eq, Option,
  none, some, if◌then◌else◌, is_upper, is_lower, is_digit, is_empty, all, CaseTables, to_upper,
  arith, contains_char, Bool-cases,
}

-- [a-z] under (?i)
pub is_letter : ℕ → Bool
is_letter c = is_lower c || is_upper c || (c == 0x17F) || (c == 0x212A)

-- [a-z0-9_-] under (?i)
pub is_key_char : ℕ → Bool
unfolding is_letter
is_key_char c = is_letter c || is_digit c || (c == b'_') || (c == b'-')

-- \d+$
pub is_number : Text → Bool
is_number s = if is_empty s then false else all is_digit s

-- [a-z0-9_-]*-\d+$
pub is_key_tail : Text → Bool
is_key_tail [] = false
is_key_tail (c ∷ s) = ((c == b'-') && is_number s) || (is_key_char c && is_key_tail s)

-- issueKeyPattern.MatchString: ^[a-z][a-z0-9_-]*-\d+$
unfoldable pub is_issue_key : Text → Bool
unfolding is_key_tail is_key_char is_number
is_issue_key [] = false
is_issue_key (c ∷ s) = is_letter c && is_key_tail s

-- \s of package regexp
unfoldable pub is_pattern_space : ℕ → Bool
is_pattern_space c = (c == 9) || (c == 10) || (c == 12) || (c == 13) || (c == 32)

abbrev pub skip_spaces : Text → Text
skip_spaces [] = []
skip_spaces (c ∷ s) = let rest = skip_spaces s in if is_pattern_space c then rest else c ∷ s

-- The text before the first closing parenthesis, and what follows it.
unfoldable pub split_close : Text → Option (Text × Text)
split_close [] = none
split_close (c ∷ s) =
    let later = split_close s in
    if c == b')'
    then some ([], s)
    else elim later [ none ↦ none | some (k, rest) ↦ some (c ∷ k, rest) ]

-- (key)\)\s*$ behind the opening parenthesis. A key has no parenthesis, so it ends at the first.
abbrev pub close_key : Option (Text × Text) → Option Text
close_key none = none
close_key (some (k, rest)) = if is_issue_key k && all is_pattern_space rest then some k else none

abbrev pub open_key : Text → Option Text
open_key [] = none
open_key (c ∷ s) = if c == b'(' then close_key (split_close s) else none

-- \s*\((key)\)\s*$
unfoldable pub suffix_key : Text → Option Text
unfolding split_close
suffix_key s = open_key (skip_spaces s)

abbrev pub extend : ℕ → Option (Text × Text) → Option (Text × Text)
extend c none = none
extend c (some (name, key)) = some (c ∷ name, key)

-- The groups of systemKeyPattern.FindStringSubmatch: (.+?) takes as few characters as it can, and
-- no line feed.
unfoldable pub find_system_key : Text → Option (Text × Text)
unfolding suffix_key
find_system_key [] = none
find_system_key (c ∷ s) =
    let more = extend c (find_system_key s) in
    if c == 10 then none else elim (suffix_key s) [ some key ↦ some (c ∷ [], key) | none ↦ more ]

abbrev quote_mark : ℕ
quote_mark = 34

is_key_char-quote : (c : ℕ) → is_key_char c ≡ true → (c == quote_mark) ≡ false
unfolding is_key_char
is_key_char-quote c h = ground arith

digits-quote : (s : Text) → all is_digit s ≡ true → contains_char s quote_mark ≡ false
digits-quote [] h = refl
digits-quote (c ∷ s) h = ground (arith, digits-quote s)

number-quote : (s : Text) → is_number s ≡ true → contains_char s quote_mark ≡ false
unfolding is_number
number-quote [] h = refl
number-quote (c ∷ s) h = digits-quote (c ∷ s) h

key_tail-quote : (s : Text) → is_key_tail s ≡ true → contains_char s quote_mark ≡ false
unfolding is_key_tail
key_tail-quote [] h = refl
key_tail-quote (c ∷ s) h = ground (arith, key_tail-quote s, number-quote s, is_key_char-quote c)

-- A key holds no quotation mark.
pub is_issue_key-quote : (s : Text) → is_issue_key s ≡ true → contains_char s quote_mark ≡ false
unfolding is_issue_key is_letter
is_issue_key-quote [] h = refl
is_issue_key-quote (c ∷ s) h = ground (arith, key_tail-quote s)

module _ ⦃t : CaseTables⦄ where
  upper-letter : (c : ℕ) → is_letter c ≡ true → is_letter (t.upper c) ≡ true
  unfolding is_letter
  upper-letter c h = ground (arith, t.upper_ascii c, t.upper_long_s, t.upper_kelvin)

  upper-digit : (c : ℕ) → is_digit c ≡ true → t.upper c ≡ c
  upper-digit c h = ground (arith, t.upper_ascii c)

  upper-mark : (c : ℕ) → ((c == b'_') || (c == b'-')) ≡ true → t.upper c ≡ c
  upper-mark c h = ground (arith, t.upper_ascii c)

  upper-digits : (s : Text) → all is_digit s ≡ true → to_upper s ≡ s
  upper-digits [] h = refl
  upper-digits (c ∷ s) h = ground (arith, upper-digit c, upper-digits s)

  upper-key_char : (c : ℕ) → is_key_char c ≡ true → is_key_char (t.upper c) ≡ true
  unfolding is_key_char
  upper-key_char c h = ground (arith, upper-letter c, upper-digit c, upper-mark c)

  upper-number : (s : Text) → is_number s ≡ true → is_number (to_upper s) ≡ true
  unfolding is_number
  upper-number [] h = h
  upper-number (c ∷ s) h = subst (λ u. is_number u ≡ true) (sym (upper-digits (c ∷ s) h)) h

  upper-key_tail : (s : Text) → is_key_tail s ≡ true → is_key_tail (to_upper s) ≡ true
  unfolding is_key_tail
  upper-key_tail [] h = h
  upper-key_tail (c ∷ s) h = elim (Bool-cases ((c == b'-') && is_number s)) [
    | inl last ↦
        let dash : t.upper c ≡ c = upper-mark c (ground arith) in
        let more : is_number (to_upper s) ≡ true = upper-number s (ground arith) in
        rw (dash, more) (ground arith)
    | inr mid ↦
        let here' : is_key_char (t.upper c) ≡ true = upper-key_char c (ground arith) in
        let more : is_key_tail (to_upper s) ≡ true = upper-key_tail s (ground arith) in
        rw (here', more) (ground arith)
  ]

  -- ToUpper keeps a key a key.
  pub is_issue_key-to_upper : (s : Text) → is_issue_key s ≡ true → is_issue_key (to_upper s) ≡ true
  unfolding is_issue_key
  is_issue_key-to_upper [] h = h
  is_issue_key-to_upper (c ∷ s) h = ground (arith, upper-letter c, upper-key_tail s)

-- ===== src/Cmdb/Matched.antt =====
-- What systemKeyPattern of ticket_client.go matches, apart from the matcher.
use secarch_tickets.Base.{
  ℕ, ◌≡◌, ◌∙◌, ap, inl, inr, refl, true, false, Text, [], ◌∷◌, ◌++◌, ◌==◌, nat_eq, Option, some,
  is_empty, all, arith, contains_char, ==-iff, Bool-cases, Option-cases,
}
use secarch_tickets.Cmdb.Keys.{
  is_issue_key, is_pattern_space, skip_spaces, split_close, suffix_key, find_system_key, open_key,
}

-- The value is the name, spaces, the key in parentheses, and spaces; the name has a character, and
-- no line feed.
pub record Matched (value name key : Text) : Type 0 where
  pub before : Text
  pub after : Text
  pub parts : value ≡ name ++ (before ++ (b'(' ∷ (key ++ (b')' ∷ after))))
  pub spaces_before : all is_pattern_space before ≡ true
  pub spaces_after : all is_pattern_space after ≡ true
  pub named : is_empty name ≡ false
  pub one_line : contains_char name 10 ≡ false
  pub is_key : is_issue_key key ≡ true

skip_spaces-parts :
    (s : Text)
    → (before : Text) × (s ≡ before ++ skip_spaces s) × (all is_pattern_space before ≡ true)
skip_spaces-parts [] = ([], refl, refl)
skip_spaces-parts (c ∷ s) = elim (Bool-cases (is_pattern_space c)) [
  | inl space ↦
      let (before, e, h) = skip_spaces-parts s in (c ∷ before, rw space (ap (◌∷◌ c) e), rw space h)
  | inr other ↦ rw other ([], refl, refl)
]

some-pair :
    {A B : Type 0} {a c : A} {b d : B}
    → ◌≡◌ {A = Option (A × B)} (some (a, b)) (some (c, d))
    → (a ≡ c) × (b ≡ d)
some-pair h = ground arith

split_close-parts : (s k rest : Text) → split_close s ≡ some (k, rest) → s ≡ k ++ (b')' ∷ rest)
unfolding split_close
split_close-parts [] k rest h = cc
split_close-parts (c ∷ s) k rest h = elim (Bool-cases (c == b')')) [
  | inl closing ↦
      let (e, f) = some-pair (rw closing at h) in
      rw (← e, ← f) (ap (λ d. d ∷ s) ((==-iff c b')').0 closing))
  | inr other ↦ elim (Option-cases (split_close s)) [
    | inl missing ↦ absurd (ground arith)
    | inr ((l, r), found) ↦
        let (e, f) = some-pair (rw (other, found) at h) in
        rw (← e, ← f) (ap (◌∷◌ c) (split_close-parts s l r found))
  ]
]

-- The key in parentheses with spaces behind, at the start of the text.
pub record Closed (s key : Text) : Type 0 where
  pub after : Text
  pub parts : s ≡ b'(' ∷ (key ++ (b')' ∷ after))
  pub spaces_after : all is_pattern_space after ≡ true
  pub is_key : is_issue_key key ≡ true

open_key-Closed : (s key : Text) → open_key s ≡ some key → Closed s key
open_key-Closed [] key h = cc
open_key-Closed (c ∷ s) key h = elim (Bool-cases (c == b'(')) [
  | inr other ↦ absurd (ground arith)
  | inl opening ↦ elim (Option-cases (split_close s)) [
    | inl missing ↦ absurd (ground arith)
    | inr ((k, rest), found) ↦
        let same : k ≡ key = ground arith in
        let e = split_close-parts s k rest found in
        record {
          after = rest;
          parts =
              ap (λ d. d ∷ s) ((==-iff c b'(').0 opening)
              ∙ ap (◌∷◌ b'(') (e ∙ ap (λ l. l ++ (b')' ∷ rest)) same);
          spaces_after = ground arith;
          is_key = ground arith;
        }
  ]
]

suffix_key-Matched :
    (c : ℕ) (s key : Text)
    → (c == 10) ≡ false
    → suffix_key s ≡ some key
    → Matched (c ∷ s) (c ∷ []) key
unfolding suffix_key
suffix_key-Matched c s key line h =
    let (before, e, spaces) = skip_spaces-parts s in
    let closed = open_key-Closed (skip_spaces s) key h in
    record {
      before = before;
      after = closed.after;
      parts = ap (◌∷◌ c) (e ∙ ap (◌++◌ before) closed.parts);
      spaces_before = spaces;
      spaces_after = closed.spaces_after;
      named = refl;
      one_line = ground (arith, line);
      is_key = closed.is_key;
    }

Matched-extend :
    (c : ℕ) (s name key : Text)
    → (c == 10) ≡ false
    → Matched s name key
    → Matched (c ∷ s) (c ∷ name) key
Matched-extend c s name key line m = record {
  before = m.before;
  after = m.after;
  parts = ap (◌∷◌ c) m.parts;
  spaces_before = m.spaces_before;
  spaces_after = m.spaces_after;
  named = refl;
  one_line = ground (arith, line, m.one_line);
  is_key = m.is_key;
}

pub find_system_key-Matched :
    (s name key : Text) → find_system_key s ≡ some (name, key) → Matched s name key
unfolding find_system_key
find_system_key-Matched [] name key h = cc
find_system_key-Matched (c ∷ s) name key h = elim (Bool-cases (c == 10)) [
  | inl line ↦ absurd (ground arith)
  | inr fine ↦ elim (Option-cases (suffix_key s)) [
    | inr (k, found) ↦
        let (e, f) = some-pair (rw (fine, found) at h) in
        rw (← e, ← f) (suffix_key-Matched c s k fine found)
    | inl later ↦ elim (Option-cases (find_system_key s)) [
      | inl none_found ↦ absurd (ground arith)
      | inr ((n, k), found) ↦
          let (e, f) = some-pair (rw (fine, later, found) at h) in
          rw (← e, ← f) (Matched-extend c s n k fine (find_system_key-Matched s n k found))
    ]
  ]
]

-- ===== src/Cmdb/Reference.antt =====
-- ParseTicketSystemReference of ticket_client.go.
use secarch_tickets.Base.{
  ◌≡◌, refl, true, false, Text, List, [], ◌∷◌, Option, none, some, Result, ok, err, failed,
  if◌then◌else◌, trim_space, trim_space_idem, trim_space-nil, ◌⊎◌, is_empty, keep, not, CaseTables,
  to_upper, arith, Bool-cases, Option-cases, inl, inr, map,
}
use secarch_tickets.Cmdb.Types.{Slice, SystemReference}
use secarch_tickets.Cmdb.Keys.{is_issue_key, find_system_key, is_issue_key-to_upper}
use secarch_tickets.Cmdb.Matched.{Matched, find_system_key-Matched}

-- Ranging over a nil slice is ranging over none.
abbrev pub elements : Slice → List Text
elements none = []
elements (some l) = l

-- The trimmed values that are not empty.
abbrev pub non_empty : List Text → List Text
non_empty values = keep (λ v. not (is_empty v)) (map trim_space values)

abbrev pub no_reference : SystemReference
no_reference = record { key = []; name = [] }

module _ ⦃t : CaseTables⦄ where
  abbrev from_match : Option (Text × Text) → Result SystemReference
  from_match none = err (failed "cannot extract System key")
  from_match (some (name, key)) = ok (record { key = to_upper key; name = trim_space name })

  unfoldable pub parse_value : Text → Result SystemReference
  parse_value value =
      if is_issue_key value
      then ok (record { key = to_upper value; name = [] })
      else from_match (find_system_key value)

  abbrev pub parse_values : List Text → Result SystemReference
  parse_values [] = ok no_reference
  parse_values (value ∷ []) = parse_value value
  parse_values (v ∷ w ∷ vs) = err (failed "expected at most one System")

  unfoldable pub parse_ticket_system_reference : Slice → Result SystemReference
  unfolding parse_value
  parse_ticket_system_reference values = parse_values (non_empty (elements values))

  -- Where the reference of a value comes from: the value is a key, or a name with a key behind.
  pub data Source (value : Text) (r : SystemReference) : Type 0 where
    key_alone :
        is_issue_key value ≡ true → r ≡ record { key = to_upper value; name = [] } → Source value r
    name_and_key :
        (name key : Text)
        → is_issue_key value ≡ false
        → Matched value name key
        → r ≡ record { key = to_upper key; name = trim_space name }
        → Source value r

  parse_value-Source :
      (value : Text) (r : SystemReference) → parse_value value ≡ ok r → Source value r
  unfolding parse_value
  parse_value-Source v r h = elim (Bool-cases (is_issue_key v)) [
    | inl key ↦ key_alone key (ground arith)
    | inr other ↦ elim (Option-cases (find_system_key v)) [
      | inl missing ↦ absurd (ground arith)
      | inr ((name, key), found) ↦
          name_and_key name key other (find_system_key-Matched v name key found) (ground arith)
    ]
  ]

  Source-key :
      (value : Text) (r : SystemReference)
      → Source value r
      → (is_issue_key r.key ≡ true) × (trim_space r.name ≡ r.name)
  Source-key v r (key_alone key e) = rw e (is_issue_key-to_upper v key, trim_space-nil)
  Source-key v r (name_and_key name key other m e) =
      rw e (is_issue_key-to_upper key m.is_key, trim_space_idem name)

  -- A reference is parsed only if at most one of the values is not blank. From one, trimmed, it is the
  -- value in upper case, if that is a ticket key, and otherwise the trimmed name and the key, in upper
  -- case, of a value that is a name with a key in parentheses behind; either way its key is a ticket
  -- key again and its name is trimmed. From none both are empty.
  pub parse-key :
      (values : Slice) (r : SystemReference)
      → parse_ticket_system_reference values ≡ ok r
      → ((v : Text) × (non_empty (elements values) ≡ v ∷ [])
          × Source v r
          × (is_issue_key r.key ≡ true)
          × (trim_space r.name ≡ r.name))
        ⊎ ((non_empty (elements values) ≡ []) × (r ≡ no_reference))
  unfolding parse_ticket_system_reference
  parse-key values r h = go (non_empty (elements values)) refl h
    where
      go :
          (vs : List Text)
          → non_empty (elements values) ≡ vs
          → parse_values vs ≡ ok r
          → ((v : Text) × (non_empty (elements values) ≡ v ∷ [])
              × Source v r
              × (is_issue_key r.key ≡ true)
              × (trim_space r.name ≡ r.name))
            ⊎ ((non_empty (elements values) ≡ []) × (r ≡ no_reference))
      go [] e k = inr (e, ground arith)
      go (v ∷ w ∷ vs) e k = absurd (ground arith)
      go (v ∷ []) e k =
          let source = parse_value-Source v r k in
          let (key, name) = Source-key v r source in inl (v, e, source, key, name)

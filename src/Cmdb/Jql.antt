-- ===== src/Cmdb/Jql.antt =====
-- The queries that ticket_client.go and system_client.go send.
use secarch_tickets.Base.{
  ◌≡◌, refl, ap, ok-injective, ◌∙◌, Bool, true, false, Text, List, [], ◌∷◌, ◌++◌, Result, ok, err,
  failed, ◌>>=◌, IsOk, returns, if◌then◌else◌, codes, join, map, trim_space, CaseTables, to_upper,
  All, arith, Bool-cases, inl, inr, contains_char, All-mono, sym, >>=-eq-ok,
}
use secarch_tickets.Cmdb.Keys.{is_issue_key, is_issue_key-to_upper, is_issue_key-quote}

abbrev pub quoted : Text → Text
quoted s = codes "\"" ++ (s ++ codes "\"")

-- secArchRequestTypeReview and secArchRequestTypeException
abbrev request_type_review : Text
request_type_review = codes "Request for SecDesign/CloudSec/TPSA Case Review"

abbrev request_type_exception : Text
request_type_exception = codes "Request for Control Exception or NAC Case Review"

unfoldable pub sec_arch_ticket_jql : Bool → Text
sec_arch_ticket_jql open_only =
    let base =
      codes "(\"Customer Request Type\" = "
      ++ (quoted request_type_review
          ++ (codes " OR \"Customer Request Type\" = "
              ++ (quoted request_type_exception ++ codes ")"))) in
    if open_only then base ++ codes " AND status != Closed" else base

module _ ⦃t : CaseTables⦄ where
  unfoldable pub quote_keys : List Text → Result (List Text)
  quote_keys [] = ok []
  quote_keys (key ∷ keys) =
      let rest = quote_keys keys in
      if is_issue_key (trim_space key)
      then (do qs ← rest; ok (quoted (to_upper (trim_space key)) ∷ qs))
      else err (failed "invalid ticket key")

  unfoldable pub ticket_keys_jql : List Text → Result Text
  unfolding quote_keys
  ticket_keys_jql [] = err (failed "ticket keys must not be empty")
  ticket_keys_jql (key ∷ keys) = do
    qs ← quote_keys (key ∷ keys)
    ok (codes "key IN (" ++ (join qs (codes ",") ++ codes ")"))

-- buildSystemKeysIQL
unfoldable pub build_system_keys_iql : List Text → Text
build_system_keys_iql keys =
    codes "\"key\" IN (" ++ (join (map quoted keys) (codes ",") ++ codes ")")

abbrev pub normal_key : ⦃t : CaseTables⦄ → Text → Text
normal_key key = to_upper (trim_space key)

module _ ⦃t : CaseTables⦄ where
  quote_keys-ok :
      (keys qs : List Text)
      → quote_keys keys ≡ ok qs
      → (qs ≡ map quoted (map normal_key keys))
        × All (λ key. is_issue_key (normal_key key) ≡ true) keys
  unfolding quote_keys
  quote_keys-ok [] qs h = (ground arith, tt)
  quote_keys-ok (key ∷ keys) qs h = elim (Bool-cases (is_issue_key (trim_space key))) [
    | inl valid ↦
        let (rest, found, same) = >>=-eq-ok (quote_keys keys) _ (rw valid at h) in
        let (e, a) = quote_keys-ok keys rest found in
        (
          sym (ok-injective same) ∙ ap (◌∷◌ (quoted (normal_key key))) e,
          (is_issue_key-to_upper (trim_space key) valid, a),
        )
    | inr invalid ↦ absurd (ground arith)
  ]

  -- A query for tickets by key that is built quotes the keys, trimmed and in upper case, and every
  -- one of these is a key and holds no quotation mark: no input reaches the query but as a key.
  pub ticket_keys_jql-safe :
      (keys : List Text) (q : Text)
      → ticket_keys_jql keys ≡ ok q
      → (q ≡ codes "key IN (" ++ (join (map quoted (map normal_key keys)) (codes ",") ++ codes ")"))
        × All
            (λ key.
              (is_issue_key (normal_key key) ≡ true) × (contains_char (normal_key key) 34 ≡ false))
            keys
  unfolding ticket_keys_jql
  ticket_keys_jql-safe [] q h = absurd (ground arith)
  ticket_keys_jql-safe (key ∷ keys) q h =
      let (qs, found, same) = >>=-eq-ok (quote_keys (key ∷ keys)) _ h in
      let (e, a) = quote_keys-ok (key ∷ keys) qs found in
      (
        sym (ok-injective same) ∙ ap (λ l. codes "key IN (" ++ (join l (codes ",") ++ codes ")")) e,
        All-mono _ _ (λ k v. (v, is_issue_key-quote (normal_key k) v)) (key ∷ keys) a,
      )

  quote_keys-All :
      (keys : List Text)
      → All (λ key. is_issue_key (trim_space key) ≡ true) keys
      → (qs : List Text) × (quote_keys keys ≡ ok qs)
  unfolding quote_keys
  quote_keys-All [] h = ([], refl)
  quote_keys-All (key ∷ keys) (h, hs) =
      let (qs, e) = quote_keys-All keys hs in (quoted (normal_key key) ∷ qs, rw (h, e) refl)

  -- It is built whenever there is a key and all are keys.
  pub ticket_keys_jql-total :
      (key : Text) (keys : List Text)
      → All (λ k. is_issue_key (trim_space k) ≡ true) (key ∷ keys)
      → IsOk (ticket_keys_jql (key ∷ keys))
  unfolding ticket_keys_jql
  ticket_keys_jql-total key keys h =
      let (qs, e) = quote_keys-All (key ∷ keys) h in
      returns _
        (ap (λ r. r >>= λ qs'. ok (codes "key IN (" ++ (join qs' (codes ",") ++ codes ")"))) e)

-- ===== src/Auth.antt =====
-- internal/oidcauth/auth.go: principals from the claims of an ID token, and where a login returns to.
-- JSON and url.Parse are parameters.
pub mod Cookies
pub mod SignIn
pub mod Guard
pub mod Sessions
pub mod Settings
pub mod Callbacks
pub mod Completes
use secarch_tickets.Base.Int.{ℤ}
use secarch_tickets.Base.{
  ℕ, ◌++◌, Bool, true, ◌||◌, not, Text, codes, List, [], ◌∷◌, Option, none, some, Map, lookup,
  Result, ok, err, failed, wrapped, sentinel, errors_is, err_claim_missing, if◌then◌else◌, ◌==◌,
  nat_eq, list_eq, is_empty, trim_space, has_prefix, any,
}

pub record Principal : Type 0 where
  pub username : Text
  pub groups : List Text
  pub is_admin : Bool

pub record Config : Type 0 where
  pub enabled : Bool
  pub issuer_url : Text
  pub client_id : Text
  pub client_secret : Text
  pub redirect_url : Text
  pub username_claim : Text
  pub groups_claim : Text
  pub admin_group : Text
  pub scopes : List Text
  pub session_cookie : Text
  pub session_secret : Text
  pub http_timeout_seconds : ℤ
  pub session_ttl : ℤ

-- json.Unmarshal of a claim into a string or a list of strings.
pub record Json (J : Type 0) : Type 0 where
  pub is_null : J → Bool
  pub to_string : J → Result Text
  pub to_strings : J → Result (List Text)

unfoldable pub normalized_list : List Text → List Text → List Text
normalized_list seen [] = []
normalized_list seen (v ∷ vs) =
    let value = trim_space v in
    let rest = normalized_list (value ∷ seen) vs in
    let skipped = normalized_list seen vs in
    if is_empty value then skipped else if any (λ s. s == value) seen then skipped else value ∷ rest

-- A comma, a space, a tab, a line feed or a carriage return.
abbrev pub is_separator : ℕ → Bool
is_separator c = (c == 44) || (c == 32) || (c == 9) || (c == 10) || (c == 13)

-- strings.FieldsFunc; `field` is the field being read.
abbrev pub fields : Text → Text → List Text
fields field [] = if is_empty field then [] else field ∷ []
fields field (c ∷ s) =
    let after = fields [] s in
    let more = fields (field ++ c ∷ []) s in
    if is_separator c then (if is_empty field then after else field ∷ after) else more

unfoldable pub split_list : Text → List Text
split_list value = fields [] value

module _ {J : Type 0} (json : Json J) where
  abbrev pub claim_text : Result Text → Result Text
  claim_text (err e) = err e
  claim_text (ok value) = ok (trim_space value)

  unfoldable pub string_claim : Option J → Result Text
  string_claim none = err (sentinel err_claim_missing)
  string_claim (some raw) = claim_text (json.to_string raw)

  abbrev pub claim_list : Result (List Text) → Result Text → Result (List Text)
  claim_list (ok values) text = ok (normalized_list [] values)
  claim_list (err e) (ok value) = ok (normalized_list [] (split_list value))
  claim_list (err e) (err e') = err e'

  unfoldable pub string_list_claim : Option J → Result (List Text)
  unfolding normalized_list
  string_list_claim none = err (sentinel err_claim_missing)
  string_list_claim (some raw) =
      if json.is_null raw
      then err (sentinel err_claim_missing)
      else claim_list (json.to_strings raw) (json.to_string raw)

  -- groups, err := …; err != nil && !errors.Is(err, errClaimMissing)
  abbrev pub groups_or_none : Result (List Text) → Result (List Text)
  groups_or_none (ok groups) = ok groups
  groups_or_none (err e) =
      if errors_is e err_claim_missing
      then ok []
      else err (wrapped "authorization claim is invalid" e)

  abbrev pub principal_of : Text → Text → Result (List Text) → Result Principal
  principal_of admin username (err e) = err e
  principal_of admin username (ok groups) =
      ok (record { username = username; groups = groups; is_admin = any (λ g. g == admin) groups })

  abbrev pub with_username : Text → Result Text → Result (List Text) → Result Principal
  with_username admin (err e) groups = err (failed "required username claim is missing or invalid")
  with_username admin (ok username) groups =
      if is_empty username
      then err (failed "required username claim is missing or invalid")
      else principal_of admin username (groups_or_none groups)

  unfoldable pub principal_from_claims : Map Text J → Config → Result Principal
  unfolding string_claim string_list_claim
  principal_from_claims claims cfg =
      with_username cfg.admin_group (string_claim (lookup cfg.username_claim claims))
        (string_list_claim (lookup cfg.groups_claim claims))

-- safeReturnTo; url.Parse gives whether the URL is absolute and whether it has a host.
unfoldable pub safe_return_to : (Text → Option (Bool × Bool)) → Text → Text
safe_return_to parse v =
    let value = trim_space v in
    if is_empty value || not (has_prefix value (codes "/")) || has_prefix value (codes "//")
    then codes "/"
    else elim (parse value) [ none ↦ codes "/" | some u ↦ if u.0 || u.1 then codes "/" else value ]

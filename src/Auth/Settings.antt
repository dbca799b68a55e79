-- ===== src/Auth/Settings.antt =====
-- internal/oidcauth/config.go: ParseConfig. JSON, time.ParseDuration and url.Parse are parameters; an
-- error is named by its format, without the names of the missing settings.
pub mod Usable
use Prim.Native.String.{String}
use secarch_tickets.Base.Int.{ℤ, pos, nonpositive}
use secarch_tickets.Base.Floats.{second}
use secarch_tickets.Base.{
  ℕ, ◌+◌, ◌*◌, ◌≤◌, ◌≡◌, ◌⊎◌, inl, inr, refl, Bool, true, false, ◌||◌, ◌&&◌, not, Text, codes, List,
  [], ◌∷◌, Option, none, some, list_eq, nat_eq, ◌==◌, ltb, Result, ok, err, failed, ◌>>=◌,
  >>=-eq-ok, wrap_err, require_all, require_all-ok, has_prefix, if◌then◌else◌, is_empty, trim_space,
  any, All, keep, Bool-cases, arith,
}
use secarch_tickets.Auth.{Config, normalized_list}

-- What the service reads of a *url.URL.
pub record Url : Type 0 where
  pub scheme : Text
  pub host : Text
  pub has_user : Bool
  pub path : Text
  pub raw_query : Text
  pub fragment : Text

-- The JSON of the switch, and that of the whole section over the defaults, without session_ttl, which
-- is a text of its own; durations and URLs.
pub record Parsers : Type 0 where
  pub decode_switch : Text → Option (Option Bool)
  pub decode_file : Text → Config → Result (Config × Text)
  pub parse_duration : Text → Option ℤ
  pub parse_url : Text → Option Url

-- The zero Config, for an explicit enabled:false.
abbrev pub disabled : Config
disabled = record {
  enabled = false;
  issuer_url = [];
  client_id = [];
  client_secret = [];
  redirect_url = [];
  username_claim = [];
  groups_claim = [];
  admin_group = [];
  scopes = [];
  session_cookie = [];
  session_secret = [];
  http_timeout_seconds = pos 0;
  session_ttl = pos 0;
}

abbrev pub defaults : Config
defaults = record {
  enabled = true;
  issuer_url = [];
  client_id = [];
  client_secret = [];
  redirect_url = [];
  username_claim = codes "samaccountname";
  groups_claim = codes "roles";
  admin_group = codes "SecArchTicketsAdmin";
  scopes = [];
  session_cookie = codes "secarch_oidc_session";
  session_secret = [];
  http_timeout_seconds = pos 30;
  session_ttl = pos (8 * 3600 * second);
}

-- len of a string: its bytes in UTF-8.
abbrev pub byte_length : Text → ℕ
byte_length [] = 0
byte_length (c ∷ s) =
    let rest = byte_length s in
    if ltb c 0x80
    then 1 + rest
    else if ltb c 0x800
    then 2 + rest
    else if ltb c 0x10000
    then 3 + rest
    else 4 + rest

-- The settings that must not be empty; missing is the list of those that are.
abbrev pub missing : Config → List Text
missing cfg = keep is_empty (
    cfg.client_id ∷ cfg.client_secret ∷ cfg.issuer_url ∷ cfg.redirect_url ∷ cfg.session_secret ∷ [])

abbrev pub with_default_scopes : List Text → List Text
with_default_scopes scopes =
    if is_empty scopes then codes "openid" ∷ codes "profile" ∷ codes "email" ∷ [] else scopes

abbrev pub with_openid : List Text → List Text
with_openid scopes =
    if any (λ s. s == codes "openid") scopes then scopes else codes "openid" ∷ scopes

-- The trimmed fields and the scopes.
unfoldable pub normalize : Config → Config
unfolding normalized_list
normalize cfg = record cfg {
  issuer_url = trim_space cfg.issuer_url;
  client_id = trim_space cfg.client_id;
  redirect_url = trim_space cfg.redirect_url;
  username_claim = trim_space cfg.username_claim;
  groups_claim = trim_space cfg.groups_claim;
  admin_group = trim_space cfg.admin_group;
  session_cookie = trim_space cfg.session_cookie;
  scopes = with_openid (with_default_scopes (normalized_list [] cfg.scopes));
}

abbrev pub completed : Config → ℤ → Config
completed cfg ttl = let read = normalize cfg in record read { session_ttl = ttl }

-- An absolute HTTPS URL without credentials, query, or fragment.
abbrev pub is_issuer : Option Url → Bool
is_issuer none = false
is_issuer (some u) =
    (u.scheme == codes "https")
    && not (is_empty u.host)
    && not u.has_user
    && is_empty u.raw_query
    && is_empty u.fragment

abbrev pub is_redirect : Option Url → Bool
is_redirect none = false
is_redirect (some u) = is_issuer (some u) && (u.path == codes "/auth/callback")

module _ (p : Parsers) where
  abbrev pub ttl_of : Option ℤ → Result ℤ
  ttl_of none = err (failed "oidc.session_ttl must be a positive duration")
  ttl_of (some ttl) =
      if nonpositive ttl
      then err (failed "oidc.session_ttl must be a positive duration")
      else ok ttl

  abbrev pub session_ttl_of : Text → Result ℤ
  session_ttl_of text =
      let given = ttl_of (p.parse_duration (trim_space text)) in
      if is_empty text then ok defaults.session_ttl else given

  -- The checks of a normalized configuration, in their order.
  abbrev pub checks : Config → List (Bool × String)
  checks cfg =
      (is_empty (missing cfg), "missing required oidc settings: %s")
      ∷ (
        is_issuer (p.parse_url cfg.issuer_url),
        "oidc.issuer_url must be an absolute HTTPS URL without credentials, query, or fragment",
      )
      ∷ (
        is_redirect (p.parse_url cfg.redirect_url),
        "oidc.redirect_url must be an absolute HTTPS URL ending at /auth/callback",
      )
      ∷ (
        not (
            is_empty cfg.username_claim
            || is_empty cfg.groups_claim
            || is_empty cfg.admin_group
            || is_empty cfg.session_cookie),
        "oidc claim, admin group, and session cookie settings must not be empty",
      )
      ∷ (
        not (ltb (byte_length cfg.session_secret) 32),
        "oidc.session_secret must contain at least 32 bytes",
      )
      ∷ (not (nonpositive cfg.http_timeout_seconds), "oidc.http_timeout_seconds must be positive")
      ∷ []

  -- The decoder leaves SessionTTL, which JSON does not name, at its default.
  abbrev pub parse_file : Text → Result Config
  parse_file input = do
    (cfg, text) ← wrap_err "invalid oidc configuration" (p.decode_file input defaults)
    ttl ← session_ttl_of text
    require_all (checks (completed cfg ttl)) (completed cfg ttl)

  abbrev pub after_switch : Text → Option (Option Bool) → Result Config
  after_switch input none = err (failed "oidc must be an object with a boolean enabled setting")
  after_switch input (some (some false)) = ok disabled
  after_switch input (some (some true)) = parse_file input
  after_switch input (some none) = parse_file input

  abbrev pub section : Text → Text
  section input = let body = trim_space input in if is_empty body then codes "{}" else body

  unfoldable pub parse_config : Text → Result Config
  unfolding normalize
  parse_config input =
      let body = section input in
      if has_prefix body (codes "{")
      then after_switch body (p.decode_switch body)
      else err (failed "oidc must be an object with a boolean enabled setting")

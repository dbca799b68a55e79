-- ===== src/Tests/Login.antt =====
-- Claims of an ID token.
use secarch_tickets.Base.Int.{pos}
use secarch_tickets.Base.Floats.{second}
use secarch_tickets.Base.{
  ◌≡◌, refl, Text, codes, List, [], ◌∷◌, true, false, Map, list_eq, nat_eq, ok, err, failed, trim,
  is_space, ◌*◌,
}
use secarch_tickets.Auth.{Principal, Config, Json, principal_from_claims}

-- Claims that are lists of strings, or a string if there is one.
abbrev pub json : Json (List Text)
json = record {
  is_null = λ raw. false;
  to_string = λ raw. elim raw [ [] ↦ err (failed "no string") | s ∷ rest ↦ ok s ];
  to_strings = λ raw. ok raw;
}

abbrev pub config : Config
config = record {
  enabled = true;
  issuer_url = codes "https://login.example";
  client_id = codes "tickets";
  client_secret = codes "secret";
  redirect_url = codes "https://tickets.example/auth/callback";
  scopes = codes "openid" ∷ [];
  session_cookie = codes "session";
  session_secret = codes "0123456789abcdef0123456789abcdef";
  http_timeout_seconds = pos 30;
  session_ttl = pos (8 * 3600 * second);
  username_claim = codes "name";
  groups_claim = codes "groups";
  admin_group = codes "sec";
}

abbrev pub claims : Map Text (List Text)
claims =
    (codes "name", codes " ann " ∷ [])
    ∷ (codes "groups", codes "dev" ∷ codes " sec" ∷ codes "dev" ∷ [])
    ∷ []

abbrev pub ann : Principal
ann = record { username = codes "ann"; groups = codes "dev" ∷ codes "sec" ∷ []; is_admin = true }

pub claims_run : principal_from_claims json claims config ≡ ok ann
unfolding principal_from_claims trim is_space
claims_run = refl

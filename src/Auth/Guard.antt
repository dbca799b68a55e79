-- ===== src/Auth/Guard.antt =====
-- internal/oidcauth/auth.go: RequireAuth, the guard of requests.
use secarch_tickets.Base.{
  ℕ, ◌++◌, true, ◌||◌, not, Text, codes, [], Option, none, some, lookup, list_eq, nat_eq, ltb,
  Result, ok, err, if◌then◌else◌, is_empty, trim_space, has_prefix,
}
use secarch_tickets.Auth.{Principal}
use secarch_tickets.Auth.Cookies.{decode_cookie}
use secarch_tickets.Auth.SignIn.{Session, Request, Manager, time_unix}

-- The outcome of RequireAuth: the request goes on with a principal, or is answered.
pub data Guarded : Type 0 where
  passed : Principal → Guarded
  unauthorized : Guarded
  to_login : Text → Guarded

module _ {J : Type 0} (m : Manager J) where
  abbrev pub session_principal : ℕ → Result Session → Option Principal
  session_principal now (err e) = none
  session_principal now (ok s) =
      if not (ltb now (time_unix s.expires_at)) || is_empty (trim_space s.username)
      then none
      else some (record { username = s.username; groups = []; is_admin = s.is_admin })

  abbrev pub cookie_principal : ℕ → Option Text → Option Principal
  cookie_principal now none = none
  cookie_principal now (some cookie) =
      let s = decode_cookie m.sealer m.sessions m.config.session_cookie cookie in
      if is_empty cookie then none else session_principal now s

  unfoldable pub request_principal : ℕ → Request → Option Principal
  unfolding decode_cookie
  request_principal now r = cookie_principal now (lookup m.config.session_cookie r.cookies)

  abbrev pub guarded : Request → Option Principal → Guarded
  guarded r (some p) = passed p
  guarded r none =
      if has_prefix r.path (codes "/api/")
      then unauthorized
      else to_login (codes "/auth/login?return_to=" ++ m.query_escape r.request_uri)

  unfoldable pub require_auth : ℕ → Request → Guarded
  unfolding request_principal
  require_auth now r =
      if not m.config.enabled
      then passed (record { username = []; groups = []; is_admin = true })
      else guarded r (request_principal now r)

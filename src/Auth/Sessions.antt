-- ===== src/Auth/Sessions.antt =====
-- Requests with the session cookie that a callback sets, and what a request must carry to pass.
use secarch_tickets.Base.Floats.{second}
use secarch_tickets.Base.{
  ℕ, ◌*◌, ◌/◌, ◌<◌, ◌≡◌, refl, true, false, Text, [], Option, none, some, lookup, list_eq, nat_eq,
  ltb, Result, ok, err, if◌then◌else◌, is_empty, trim_space, length, arith,
}
use secarch_tickets.Auth.{Principal}
use secarch_tickets.Auth.Cookies.{
  IsSealer, IsCodec, IsFrom, encode_cookie, decode_cookie, decode-encode_cookie,
  decode_cookie-IsFrom,
}
use secarch_tickets.Auth.SignIn.{Session, Manager, Request, unix, time_unix, new_session}
use secarch_tickets.Auth.Guard.{
  passed, session_principal, cookie_principal, request_principal, require_auth, guarded,
}

-- An expiry survives in whole seconds.
pub time_unix-unix : (t : ℕ) → time_unix (unix t) ≡ t / second * second
time_unix-unix t = ground arith

module _ {J : Type 0} (m : Manager J) where
  abbrev pub IsSession : ℕ → Request → Principal → Type 0
  IsSession now r p =
      (cookie : Text) × (s : Session) × (lookup m.config.session_cookie r.cookies ≡ some cookie)
      × IsFrom m.sealer m.sessions m.config.session_cookie cookie s
      × (now < time_unix s.expires_at)
      × (is_empty (trim_space s.username) ≡ false)
      × (p ≡ record { username = s.username; groups = []; is_admin = s.is_admin })

module _ {J : Type 0} (m : Manager J) (law : IsSealer m.sealer) where
  -- The session cookie that is sealed for a principal is that principal's name and rank to every
  -- request that carries it, until the second in which it expires, and nobody's from then on.
  pub request_principal-session :
      (c : IsCodec m.sessions) (p : Principal) (expires_at : ℕ) (nonce encoded : Text)
      (named : is_empty (trim_space p.username) ≡ false)
      (sized : length nonce ≡ m.sealer.nonce_size)
      (made : encode_cookie m.sealer m.sessions
          (ok nonce)
          m.config.session_cookie
          (new_session m p expires_at)
        ≡ ok encoded)
      (now : ℕ) (r : Request) (carried : lookup m.config.session_cookie r.cookies ≡ some encoded)
      → request_principal m now r ≡ (
          if ltb now (expires_at / second * second)
          then some (record { username = p.username; groups = []; is_admin = p.is_admin })
          else none)
  unfolding request_principal
  request_principal-session c p expires_at nonce encoded named sized made now r carried =
      let (decoded, filled) =
        decode-encode_cookie m.sealer m.sessions law c nonce m.config.session_cookie encoded
          (new_session m p expires_at) sized made in
      rw carried (rw filled (rw decoded (rw (time_unix-unix expires_at) (rw named (ground arith)))))

  session_principal-facts :
      (now : ℕ) (o : Result Session) (p : Principal)
      → session_principal m now o ≡ some p
      → (s : Session) × (o ≡ ok s)
        × (now < time_unix s.expires_at)
        × (is_empty (trim_space s.username) ≡ false)
        × (p ≡ record { username = s.username; groups = []; is_admin = s.is_admin })
  session_principal-facts now (err e) p h = absurd (ground arith)
  session_principal-facts now (ok s) p h = (s, refl, ground arith, ground arith, ground arith)

  guarded-passed :
      (r : Request) (o : Option Principal) (p : Principal) → guarded m r o ≡ passed p → o ≡ some p
  guarded-passed r (some q) p h = ground arith
  guarded-passed r none p h = absurd (ground arith)

  -- With OIDC enabled a request passes only with a session cookie that was sealed with the service's
  -- key for that purpose, and that has not expired; it passes as the user of that cookie.
  pub require_auth-IsSession :
      (enabled : m.config.enabled ≡ true) (now : ℕ) (r : Request) (p : Principal)
      → require_auth m now r ≡ passed p
      → IsSession m now r p
  unfolding require_auth
  require_auth-IsSession enabled now r p h =
      from (lookup m.config.session_cookie r.cookies) refl
        (guarded-passed r (request_principal m now r) p (ground arith))
    where
      from :
          (o : Option Text)
          → lookup m.config.session_cookie r.cookies ≡ o
          → cookie_principal m now o ≡ some p
          → IsSession m now r p
      from none e k = absurd (ground arith)
      from (some cookie) e k =
          let (s, decoded, fresh, named, same) =
            session_principal-facts now
              (decode_cookie m.sealer m.sessions m.config.session_cookie cookie) p (ground arith) in
          (
            cookie,
            s,
            e,
            decode_cookie-IsFrom m.sealer m.sessions law m.config.session_cookie cookie s decoded,
            fresh,
            named,
            same,
          )

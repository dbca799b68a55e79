-- ===== src/Auth/Settings/Usable.antt =====
-- What a configuration of internal/oidcauth/config.go that is accepted can be used for.
use secarch_tickets.Base.Int.{ℤ, nonpositive}
use secarch_tickets.Base.{
  ◌≤◌, ◌≡◌, ◌⊎◌, inl, inr, refl, Bool, true, false, ◌||◌, Text, codes, List, [], ◌∷◌, Option, none,
  some, list_eq, nat_eq, ◌==◌, ok, >>=-eq-ok, wrap_err, require_all-ok, has_prefix, is_empty,
  trim_space, any, All, Bool-cases, arith,
}
use secarch_tickets.Auth.{Config, normalized_list}
use secarch_tickets.Auth.Settings.{
  Parsers, disabled, defaults, byte_length, missing, with_default_scopes, with_openid, normalize,
  completed, is_issuer, is_redirect, ttl_of, session_ttl_of, checks, parse_file, after_switch,
  section, parse_config,
}

module _ (p : Parsers) where
  -- What the rest of the service relies on.
  abbrev pub IsUsable : Config → Type 0
  IsUsable cfg =
      (is_empty (missing cfg) ≡ true)
      × (is_issuer (p.parse_url cfg.issuer_url) ≡ true)
      × (is_redirect (p.parse_url cfg.redirect_url) ≡ true)
      × (is_empty cfg.username_claim
            || is_empty cfg.groups_claim
            || is_empty cfg.admin_group
            || is_empty cfg.session_cookie
          ≡ false)
      × (32 ≤ byte_length cfg.session_secret)
      × (nonpositive cfg.http_timeout_seconds ≡ false)
      × (nonpositive cfg.session_ttl ≡ false)
      × (any (λ s. s == codes "openid") cfg.scopes ≡ true)
      × All (λ s. is_empty s ≡ false) cfg.scopes

  session_ttl_of-positive :
      (text : Text) (ttl : ℤ) → session_ttl_of p text ≡ ok ttl → nonpositive ttl ≡ false
  session_ttl_of-positive [] ttl h = ground arith
  session_ttl_of-positive (c ∷ text) ttl h = from (p.parse_duration (trim_space (c ∷ text))) h
    where
      from : (o : Option ℤ) → ttl_of p o ≡ ok ttl → nonpositive ttl ≡ false
      from none k = absurd (ground arith)
      from (some t) k = ground arith

  normalized_list-filled :
      (seen vs : List Text) → All (λ s. is_empty s ≡ false) (normalized_list seen vs)
  unfolding normalized_list
  normalized_list-filled seen [] = tt
  normalized_list-filled seen (v ∷ vs) = elim (Bool-cases (is_empty (trim_space v))) [
    | inl h ↦ rw h (normalized_list-filled seen vs)
    | inr h ↦ elim (Bool-cases (any (λ s. s == trim_space v) seen)) [
      | inl k ↦ rw h (rw k (normalized_list-filled seen vs))
      | inr k ↦ rw h (rw k (h, normalized_list-filled (trim_space v ∷ seen) vs))
    ]
  ]

  default_scopes-filled :
      (scopes : List Text)
      → All (λ s. is_empty s ≡ false) scopes
      → All (λ s. is_empty s ≡ false) (with_default_scopes scopes)
  default_scopes-filled [] h = (refl, (refl, (refl, tt)))
  default_scopes-filled (s ∷ scopes) h = h

  with_openid-scopes :
      (scopes : List Text)
      → All (λ s. is_empty s ≡ false) scopes
      → (any (λ s. s == codes "openid") (with_openid scopes) ≡ true)
        × All (λ s. is_empty s ≡ false) (with_openid scopes)
  with_openid-scopes scopes h = elim (Bool-cases (any (λ s. s == codes "openid") scopes)) [
    | inl k ↦ rw k (k, h)
    | inr k ↦ rw k (refl, (refl, h))
  ]

  completed-IsUsable :
      (cfg : Config) (ttl : ℤ)
      → nonpositive ttl ≡ false
      → All (λ c. c.0 ≡ true) (checks p (completed cfg ttl))
      → IsUsable (completed cfg ttl)
  unfolding normalize
  completed-IsUsable cfg ttl positive
        (present, (issuer, (redirect, (claims, (secret, (timeout, _)))))) =
      let (openid, filled) =
        with_openid-scopes (with_default_scopes (normalized_list [] cfg.scopes)) (
          default_scopes-filled (normalized_list [] cfg.scopes)
            (normalized_list-filled [] cfg.scopes)) in
      (
        present,
        issuer,
        redirect,
        ground (arith),
        ground arith,
        ground arith,
        positive,
        openid,
        filled,
      )

  -- A section p that is accepted is that of a service without OIDC, or every setting is usable: the
  -- required ones are present, the URLs are absolute, on HTTPS, and the redirect comes back to the
  -- callback, the secret is long enough for the cipher, the times are positive, and the scopes are not
  -- empty texts and include openid.
  pub parse_config-IsUsable :
      (input : Text) (cfg : Config)
      → parse_config p input ≡ ok cfg
      → (cfg ≡ disabled) ⊎ IsUsable cfg
  unfolding parse_config
  parse_config-IsUsable input cfg h = elim (Bool-cases (has_prefix (section p input) (codes "{"))) [
    | inr k ↦ absurd (let l = rw k at h in ground arith)
    | inl k ↦ switched (p.decode_switch (section p input)) (rw k at h)
  ]
    where
      filed : parse_file p (section p input) ≡ ok cfg → IsUsable cfg
      filed k =
          let ((read, text), _, k1) =
            >>=-eq-ok
              (wrap_err "invalid oidc configuration" (p.decode_file (section p input) defaults)) _
              k in
          let (ttl, timed, k2) = >>=-eq-ok (session_ttl_of p text) _ k1 in
          let (same, held) =
            require_all-ok (checks p (completed read ttl)) (completed read ttl) cfg k2 in
          rw same (completed-IsUsable read ttl (session_ttl_of-positive text ttl timed) held)

      switched :
          (o : Option (Option Bool))
          → after_switch p (section p input) o ≡ ok cfg
          → (cfg ≡ disabled) ⊎ IsUsable cfg
      switched none k = absurd (ground arith)
      switched (some (some false)) k = inl (ground arith)
      switched (some (some true)) k = inr (filed k)
      switched (some none) k = inr (filed k)

-- ===== src/Auth/Callbacks.antt =====
-- What a callback that signs a user in has checked, and that a login can be completed.
use secarch_tickets.Base.{
  ℕ, ◌<◌, ◌≡◌, refl, ◌∙◌, true, false, ◌||◌, not, Text, codes, Option, none, some, lookup, list_eq,
  nat_eq, ltb, ltb→lt, ◌==◌, ==-iff, Result, ok, err, is_empty, trim_space, ◌>>=◌, Bool-cases, inl,
  inr, arith,
}
use secarch_tickets.Auth.{Principal, principal_from_claims}
use secarch_tickets.Auth.Cookies.{encode_cookie, decode_cookie}
use secarch_tickets.Auth.SignIn.{
  LoginFlow, Manager, Request, Response, IdToken, time_unix, new_session, query_value,
  state_cookie_name, session_expiry, session_reply, after_principal, after_verify, after_exchange,
  after_flow, flow_of, callback,
}

module _ {J : Type 0} (m : Manager J) where
  -- The response is the one that starts a session for a user, and everything that this asks of the
  -- request, of its flow and of the provider's answers holds.
  abbrev pub IsSignedIn : ℕ → ℕ → Request → Result Text → Response → Type 0
  IsSignedIn checked now r random response =
      (cookie : Text) × (flow : LoginFlow) × (raw : Text) × (token : IdToken J) × (p : Principal)
      × (encoded : Text) × (is_empty (trim_space (query_value r (codes "error"))) ≡ true)
      × (lookup (state_cookie_name m) r.cookies ≡ some cookie)
      × (decode_cookie m.sealer m.flows (state_cookie_name m) cookie ≡ ok flow)
      × (is_empty flow.state ≡ false)
      × (trim_space (query_value r (codes "state")) ≡ flow.state)
      × (checked < time_unix flow.expires_at)
      × (m.exchange (query_value r (codes "code")) flow.code_verifier ≡ ok (some raw))
      × (is_empty raw ≡ false)
      × (m.verify raw ≡ ok token)
      × (token.nonce ≡ flow.nonce)
      × ((token.claims >>= (λ claims. principal_from_claims m.json claims m.config)) ≡ ok p)
      × (now < session_expiry m now token.expiry)
      × (encode_cookie m.sealer m.sessions random m.config.session_cookie
            (new_session m p (session_expiry m now token.expiry))
          ≡ ok encoded)
      × (response ≡ session_reply m now (session_expiry m now token.expiry) flow (ok encoded))

  session_reply-facts :
      (now expires_at : ℕ) (flow : LoginFlow) (o : Result Text)
      → (session_reply m now expires_at flow o).status ≡ 302
      → (encoded : Text) × (o ≡ ok encoded)
  session_reply-facts now expires_at flow (ok encoded) h = (encoded, refl)
  session_reply-facts now expires_at flow (err e) h = absurd (ground arith)

  after_principal-facts :
      (now expires_at : ℕ) (flow : LoginFlow) (random : Result Text) (o : Result Principal)
      → (after_principal m now expires_at flow random o).status ≡ 302
      → (p : Principal) × (encoded : Text) × (o ≡ ok p)
        × (now < expires_at)
        × (encode_cookie m.sealer m.sessions random m.config.session_cookie
              (new_session m p expires_at)
            ≡ ok encoded)
        × (after_principal m now expires_at flow random o
            ≡ session_reply m now expires_at flow (ok encoded))
  after_principal-facts now expires_at flow random (err e) h = absurd (ground arith)
  after_principal-facts now expires_at flow random (ok p) h =
      let made =
        encode_cookie m.sealer m.sessions random m.config.session_cookie
          (new_session m p expires_at) in
      elim (Bool-cases (ltb now expires_at)) [
        | inr l ↦ absurd (let k = rw l at h in ground arith)
        | inl l ↦
            let (encoded, e) = session_reply-facts now expires_at flow made (rw l at h) in
            (p, encoded, refl, ltb→lt now expires_at l, e, rw l (rw e refl))
      ]

  after_verify-facts :
      (now : ℕ) (flow : LoginFlow) (random : Result Text) (o : Result (IdToken J))
      → (after_verify m now flow random o).status ≡ 302
      → (token : IdToken J) × (o ≡ ok token)
        × (token.nonce ≡ flow.nonce)
        × (after_verify m now flow random o
            ≡ after_principal m now
                (session_expiry m now token.expiry)
                flow
                random
                (token.claims >>= (λ claims. principal_from_claims m.json claims m.config)))
  after_verify-facts now flow random (err e) h = absurd (ground arith)
  after_verify-facts now flow random (ok token) h = elim (Bool-cases (token.nonce == flow.nonce)) [
    | inr l ↦ absurd (let k = rw l at h in ground arith)
    | inl l ↦ (token, refl, (==-iff token.nonce flow.nonce).0 l, rw l refl)
  ]

  after_exchange-facts :
      (now : ℕ) (flow : LoginFlow) (random : Result Text) (o : Result (Option Text))
      → (after_exchange m now flow random o).status ≡ 302
      → (raw : Text) × (o ≡ ok (some raw))
        × (is_empty raw ≡ false)
        × (after_exchange m now flow random o ≡ after_verify m now flow random (m.verify raw))
  after_exchange-facts now flow random (err e) h = absurd (ground arith)
  after_exchange-facts now flow random (ok none) h = absurd (ground arith)
  after_exchange-facts now flow random (ok (some raw)) h = elim (Bool-cases (is_empty raw)) [
    | inl l ↦ absurd (let k = rw l at h in ground arith)
    | inr l ↦ (raw, refl, l, rw l refl)
  ]

  after_flow-facts :
      (checked now : ℕ) (r : Request) (random : Result Text) (state : Text) (o : Result LoginFlow)
      → (after_flow m checked now r random state o).status ≡ 302
      → (flow : LoginFlow) × (o ≡ ok flow)
        × (is_empty flow.state ≡ false)
        × (state ≡ flow.state)
        × (checked < time_unix flow.expires_at)
        × (after_flow m checked now r random state o
            ≡ after_exchange m now flow random
                (m.exchange (query_value r (codes "code")) flow.code_verifier))
  after_flow-facts checked now r random state (err e) h = absurd (ground arith)
  after_flow-facts checked now r random state (ok flow) h =
      elim (Bool-cases (is_empty state || not (state == flow.state))) [
        | inl l ↦ absurd (let k = rw l at h in ground arith)
        | inr l ↦
            let same : state ≡ flow.state = ground (arith, ==-iff state flow.state) in
            elim (Bool-cases (ltb checked (time_unix flow.expires_at))) [
              | inr f ↦ absurd (let k = rw f at (rw l at h) in ground arith)
              | inl f ↦ (
                flow,
                refl,
                rw (← same) (ground arith),
                same,
                ltb→lt checked (time_unix flow.expires_at) f,
                rw l (rw f refl),
              )
            ]
      ]

  flow_of-facts :
      (o : Option Text) (flow : LoginFlow)
      → flow_of m o ≡ ok flow
      → (cookie : Text) × (o ≡ some cookie)
        × (decode_cookie m.sealer m.flows (state_cookie_name m) cookie ≡ ok flow)
  flow_of-facts none flow h = absurd (ground arith)
  flow_of-facts (some cookie) flow h = (cookie, refl, h)

  callback-after_flow :
      (checked now : ℕ) (r : Request) (random : Result Text)
      → (callback m checked now r random).status ≡ 302
      → (is_empty (trim_space (query_value r (codes "error"))) ≡ true)
        × (callback m checked now r random
            ≡ after_flow m checked now r random
                (trim_space (query_value r (codes "state")))
                (flow_of m (lookup (state_cookie_name m) r.cookies)))
  unfolding callback
  callback-after_flow checked now r random h =
      elim (Bool-cases (is_empty (trim_space (query_value r (codes "error"))))) [
        | inl l ↦ (l, rw l refl)
        | inr l ↦ absurd (let k = rw l at h in ground arith)
      ]

  -- A callback redirects only if it signs a user in: the state in the URL is the one of a flow that the
  -- browser's cookie seals and that has not expired, the provider answered the flow's code with an ID
  -- token of the flow's nonce, and the session is that of the token's principal.
  pub callback-IsSignedIn :
      (checked now : ℕ) (r : Request) (random : Result Text)
      → (callback m checked now r random).status ≡ 302
      → IsSignedIn checked now r random (callback m checked now r random)
  callback-IsSignedIn checked now r random h =
      let state = trim_space (query_value r (codes "state")) in
      let (no_error, begun) = callback-after_flow checked now r random h in
      let (flow, decoded, filled, same, fresh, e1) =
        after_flow-facts checked now r random state
          (flow_of m (lookup (state_cookie_name m) r.cookies)) (rw begun at h) in
      let (cookie, carried, opened) =
        flow_of-facts (lookup (state_cookie_name m) r.cookies) flow decoded in
      let answer = m.exchange (query_value r (codes "code")) flow.code_verifier in
      let (raw, exchanged, full, e2) =
        after_exchange-facts now flow random answer (rw (begun ∙ e1) at h) in
      let (token, verified, nonce, e3) =
        after_verify-facts now flow random (m.verify raw) (rw (begun ∙ e1 ∙ e2) at h) in
      let (p, encoded, named, left, sealed, e4) =
        after_principal-facts now (session_expiry m now token.expiry) flow random
          (token.claims >>= (λ claims. principal_from_claims m.json claims m.config))
          (rw (begun ∙ e1 ∙ e2 ∙ e3) at h) in
      (
        cookie,
        flow,
        raw,
        token,
        p,
        encoded,
        no_error,
        carried,
        opened,
        filled,
        same,
        fresh,
        exchanged,
        full,
        verified,
        nonce,
        named,
        left,
        sealed,
        begun ∙ e1 ∙ e2 ∙ e3 ∙ e4,
      )

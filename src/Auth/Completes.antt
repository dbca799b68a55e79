-- ===== src/Auth/Completes.antt =====
-- A login that the provider answers ends in a session that the guard accepts.
use secarch_tickets.Base.{ℕ, ◌≡◌, sym, Text, list_eq, nat_eq, lt→ltb, ==-self, Result}
use secarch_tickets.Auth.SignIn.{Manager, Request, Response, time_unix, session_expiry, callback}
use secarch_tickets.Auth.Callbacks.{IsSignedIn}

module _ {J : Type 0} (m : Manager J) where
  -- What a callback that signs a user in has checked is also enough.
  pub callback-completes :
      (checked now : ℕ) (r : Request) (random : Result Text) (response : Response)
      → IsSignedIn m checked now r random response
      → callback m checked now r random ≡ response
  unfolding callback
  callback-completes checked now r random response
        (
          cookie, flow, raw, token, p, encoded, no_error, carried, opened, filled, same, fresh,
          exchanged, full, verified, nonce, named, left, sealed, made,
        ) =
      rw no_error (
        rw carried (
          rw opened (
            rw same (
              rw filled (
                rw (==-self flow.state) (
                  rw (lt→ltb checked (time_unix flow.expires_at) fresh) (
                    rw exchanged (
                      rw full (
                        rw verified (
                          rw nonce (
                            rw (==-self flow.nonce) (
                              rw named (
                                rw (lt→ltb now (session_expiry m now token.expiry) left)
                                  (rw sealed (sym made)))))))))))))))

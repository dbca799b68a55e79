-- ===== src/Auth/Cookies.antt =====
-- internal/oidcauth/auth.go: encodeCookie and decodeCookie. The cipher, base64, JSON and the random
-- bytes are parameters; bytes are numbers.
use Prim.Native.String.{String}
use secarch_tickets.Base.{
  ℕ, ◌≡◌, refl, ap, Text, Option, none, some, Result, ok, err, failed, wrap_err, ◌>>=◌,
  Result-cases, ◌++◌, length, take, drop, ltb, if◌then◌else◌, inl, inr, arith, false, length-append,
  take-append, drop-append, take-append-drop, ok-injective, sym, ◌∙◌, ◌<◌, [], ◌∷◌, is_empty,
}

-- A cipher.AEAD with a key, and base64.RawURLEncoding: `seal nonce plaintext purpose` is what Seal
-- appends behind the nonce, and Open answers none where the authentication fails.
pub record Sealer : Type 0 where
  pub nonce_size : ℕ
  pub seal : Text → Text → Text → Text
  pub unseal : Text → Text → Text → Option Text
  pub encode64 : Text → Text
  pub decode64 : Text → Option Text

-- json.Marshal and json.Unmarshal of a type.
pub record Codec (A : Type 0) : Type 0 where
  pub marshal : A → Result Text
  pub unmarshal : Text → Result A

pub record IsCodec {A : Type 0} (c : Codec A) : Type 0 where
  pub unmarshal_marshal : (a : A) (plain : Text) → c.marshal a ≡ ok plain → c.unmarshal plain ≡ ok a

-- What the two packages document: a decoded encoding is the bytes, what was sealed is opened by the
-- same nonce and purpose, and only what was sealed so is opened.
pub record IsSealer (s : Sealer) : Type 0 where
  pub nonce_positive : 0 < s.nonce_size
  pub decode_nil : s.decode64 [] ≡ some []
  pub decode_encode : (b : Text) → s.decode64 (s.encode64 b) ≡ some b
  pub unseal_seal :
      (nonce plain purpose : Text)
      → length nonce ≡ s.nonce_size
      → s.unseal nonce (s.seal nonce plain purpose) purpose ≡ some plain
  pub unseal_only :
      (nonce sealed purpose plain : Text)
      → s.unseal nonce sealed purpose ≡ some plain
      → sealed ≡ s.seal nonce plain purpose

module _ {A : Type 0} (s : Sealer) (codec : Codec A) where
  -- rand.Read fills a nonce of the cipher's size, or fails.
  unfoldable pub encode_cookie : Result Text → Text → A → Result Text
  encode_cookie random purpose value = do
    plain ← wrap_err "encode OIDC cookie" (codec.marshal value)
    nonce ← wrap_err "create OIDC cookie nonce" random
    ok (s.encode64 (nonce ++ s.seal nonce plain purpose))

  abbrev pub decode_plain : Option Text → Result A
  decode_plain none = err (failed "invalid OIDC cookie authentication")
  decode_plain (some plain) = wrap_err "decode OIDC cookie" (codec.unmarshal plain)

  abbrev pub decode_sealed : Text → Option Text → Result A
  decode_sealed purpose none = err (failed "invalid OIDC cookie encoding")
  decode_sealed purpose (some sealed) =
      if ltb (length sealed) s.nonce_size
      then err (failed "invalid OIDC cookie encoding")
      else decode_plain (s.unseal (take s.nonce_size sealed) (drop s.nonce_size sealed) purpose)

  unfoldable pub decode_cookie : Text → Text → Result A
  decode_cookie purpose encoded = decode_sealed purpose (s.decode64 encoded)

  -- What a decoded cookie was made from.
  abbrev pub IsFrom : Text → Text → A → Type 0
  IsFrom purpose encoded value =
      (nonce plain : Text) × (s.decode64 encoded ≡ some (nonce ++ s.seal nonce plain purpose))
      × (codec.unmarshal plain ≡ ok value)

  some-injective : {B : Type 0} {a b : B} → some a ≡ some b → a ≡ b
  some-injective h = cc

  unwrapped : (m : String) {B : Type 0} (r : Result B) {b : B} → wrap_err m r ≡ ok b → r ≡ ok b
  unwrapped m (ok a) h = ground arith
  unwrapped m (err e) h = absurd (ground arith)

  module _ (law : IsSealer s) where
    sealed-decode_cookie :
        (nonce plain purpose : Text) (value : A)
        → length nonce ≡ s.nonce_size
        → codec.unmarshal plain ≡ ok value
        → decode_cookie purpose (s.encode64 (nonce ++ s.seal nonce plain purpose)) ≡ ok value
    unfolding decode_cookie
    sealed-decode_cookie nonce plain purpose value n u =
        let sealed = s.seal nonce plain purpose in
        let long : ltb (length (nonce ++ sealed)) s.nonce_size ≡ false =
          ground (arith, length-append nonce sealed) in
        rw (law.decode_encode (nonce ++ sealed)) (
          rw long (
            rw (← n) (
              rw (take-append nonce sealed) (
                rw (drop-append nonce sealed)
                  (rw (law.unseal_seal nonce plain purpose n) (rw u refl))))))

    sealed-encode64 :
        (nonce sealed : Text)
        → length nonce ≡ s.nonce_size
        → is_empty (s.encode64 (nonce ++ sealed)) ≡ false
    sealed-encode64 nonce sealed n = filled (s.encode64 (nonce ++ sealed)) refl
      where
        filled : (e : Text) → s.encode64 (nonce ++ sealed) ≡ e → is_empty e ≡ false
        filled (c ∷ e) h = refl
        filled [] h =
            let same : some (nonce ++ sealed) ≡ some [] =
              sym (law.decode_encode (nonce ++ sealed)) ∙ (ap s.decode64 h ∙ law.decode_nil) in
            let none_left : nonce ++ sealed ≡ [] = some-injective same in
            absurd (
              omega (arith, length-append nonce sealed, ap length none_left, law.nonce_positive, n))

    -- A cookie that was encoded for a purpose is not empty, and is decoded for it to the same value.
    pub decode-encode_cookie :
        IsCodec codec
        → (nonce purpose encoded : Text) (value : A) → length nonce ≡ s.nonce_size
        → encode_cookie (ok nonce) purpose value ≡ ok encoded
        → (decode_cookie purpose encoded ≡ ok value) × (is_empty encoded ≡ false)
    unfolding encode_cookie
    decode-encode_cookie c nonce purpose encoded value n h =
        elim (Result-cases (codec.marshal value)) [
          | inr (e, f) ↦ absurd (let k = rw f at h in ground arith)
          | inl (plain, f) ↦
              let made : s.encode64 (nonce ++ s.seal nonce plain purpose) ≡ encoded =
                ok-injective (rw f at h) in
              rw (← made) (
                sealed-decode_cookie nonce plain purpose value n
                    (c.unmarshal_marshal value plain f),
                sealed-encode64 nonce (s.seal nonce plain purpose) n,
              )
        ]

    -- A cookie is decoded for a purpose only if it was sealed for it.
    pub decode_cookie-IsFrom :
        (purpose encoded : Text) (value : A)
        → decode_cookie purpose encoded ≡ ok value
        → IsFrom purpose encoded value
    unfolding decode_cookie
    decode_cookie-IsFrom purpose encoded value h = from (s.decode64 encoded) h
      where
        opened :
            (sealed : Text) (o : Option Text)
            → s.unseal (take s.nonce_size sealed) (drop s.nonce_size sealed) purpose ≡ o
            → decode_plain o ≡ ok value
            → (nonce plain : Text) × (some sealed ≡ some (nonce ++ s.seal nonce plain purpose))
              × (codec.unmarshal plain ≡ ok value)
        opened sealed none e k = absurd (ground arith)
        opened sealed (some plain) e k =
            let nonce = take s.nonce_size sealed in
            let whole = take-append-drop s.nonce_size sealed in
            let rest = law.unseal_only nonce (drop s.nonce_size sealed) purpose plain e in
            (
              nonce,
              plain,
              ap some (rw (← rest) (sym whole)),
              unwrapped "decode OIDC cookie" (codec.unmarshal plain) k,
            )

        from :
            (o : Option Text)
            → decode_sealed purpose o ≡ ok value
            → (nonce plain : Text) × (o ≡ some (nonce ++ s.seal nonce plain purpose))
              × (codec.unmarshal plain ≡ ok value)
        from none k = absurd (ground arith)
        from (some sealed) k =
            opened sealed (s.unseal (take s.nonce_size sealed) (drop s.nonce_size sealed) purpose)
              refl (ground arith)

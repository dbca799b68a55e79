-- ===== src/Auth/SignIn.antt =====
-- internal/oidcauth/auth.go: the login, its callback and the logout. The
-- exchange with the OIDC provider, the random values and the URLs are parameters; the body that a
-- redirect carries is left out.
use Prim.Native.String.{String}
use secarch_tickets.Base.Int.{ℤ, pos, negsuc, add_duration}
use secarch_tickets.Base.Floats.{second}
use secarch_tickets.Base.{
  ℕ, suc, ◌+◌, ◌-◌, ◌*◌, ◌/◌, ◌++◌, Bool, true, ◌||◌, ◌&&◌, not, Text, codes, List, [], ◌∷◌, Option,
  none, some, Map, lookup, text_at, list_eq, nat_eq, ◌==◌, ltb, Result, ok, err, ◌>>=◌, failed,
  if◌then◌else◌, is_empty, trim_space,
}
use secarch_tickets.Auth.{Principal, Config, Json, principal_from_claims, safe_return_to}
use secarch_tickets.Auth.Cookies.{Sealer, Codec, encode_cookie, decode_cookie}

pub record LoginFlow : Type 0 where
  pub state : Text
  pub nonce : Text
  pub code_verifier : Text
  pub return_to : Text
  pub expires_at : ℤ

pub record Session : Type 0 where
  pub username : Text
  pub is_admin : Bool
  pub expires_at : ℤ

-- The seconds from Go's zero time to 1970.
abbrev pub epoch : ℕ
epoch = 62_135_596_800

-- t.Unix()
abbrev pub unix : ℕ → ℤ
unix t =
    if ltb (t / second) epoch then negsuc (epoch - t / second - 1) else pos (t / second - epoch)

-- time.Unix(n, 0); an instant before the zero time, which no clock reads, is given as the zero time.
abbrev pub time_unix : ℤ → ℕ
time_unix (pos n) = (n + epoch) * second
time_unix (negsuc n) = (epoch - suc n) * second

abbrev pub login_flow_ttl : ℕ
login_flow_ttl = 600 * second

pub data SameSite : Type 0 where
  lax strict : SameSite

pub record Cookie : Type 0 where
  pub name : Text
  pub value : Text
  pub path : Text
  pub max_age : ℤ
  pub expires : ℕ
  pub secure : Bool
  pub http_only : Bool
  pub same_site : SameSite

pub record Response : Type 0 where
  pub status : ℕ
  pub body : Text
  pub location : Option Text
  pub set_cookies : List Cookie
  pub no_store : Bool

-- c.Request with the query decoded.
pub record Request : Type 0 where
  pub path : Text
  pub request_uri : Text
  pub query : Map Text Text
  pub cookies : Map Text Text

-- What Verify returns of an ID token; the expiry is 0 where the token has none.
pub record IdToken (J : Type 0) : Type 0 where
  pub nonce : Text
  pub expiry : ℕ
  pub claims : Result (Map Text J)

-- A Manager with the calls of libraries that it makes: oauthConfig.AuthCodeURL and Exchange, which
-- gives the string id_token of the answer if it has one, verifier.Verify, and url.QueryEscape.
pub record Manager (J : Type 0) : Type 0 where
  pub config : Config
  pub sealer : Sealer
  pub sessions : Codec Session
  pub flows : Codec LoginFlow
  pub json : Json J
  pub parse_url : Text → Option (Bool × Bool)
  pub auth_code_url : Text → Text → Text → Text
  pub exchange : Text → Text → Result (Option Text)
  pub verify : Text → Result (IdToken J)
  pub query_escape : Text → Text
  -- int(d.Seconds())
  pub whole_seconds : ℕ → ℕ

abbrev text_reply : List Cookie → ℕ → Text → Response
text_reply cookies status body = record {
  status = status;
  body = body;
  location = none;
  set_cookies = cookies;
  no_store = true;
}

abbrev redirect_reply : List Cookie → Text → Response
redirect_reply cookies target = record {
  status = 302;
  body = [];
  location = some target;
  set_cookies = cookies;
  no_store = true;
}

abbrev secure_cookie : SameSite → Text → Text → ℤ → ℕ → Cookie
secure_cookie same_site name value max_age expires = record {
  name = name;
  value = value;
  path = codes "/";
  max_age = max_age;
  expires = expires;
  secure = true;
  http_only = true;
  same_site = same_site;
}

-- The cookie of clearCookie.
abbrev pub cleared : Text → Cookie
cleared name = secure_cookie lax name [] (negsuc 0) ((1 + epoch) * second)

abbrev pub query_value : Request → Text → Text
query_value r name = text_at [] (lookup name r.query)

module _ {J : Type 0} (m : Manager J) where
  abbrev pub state_cookie_name : Text
  state_cookie_name = m.config.session_cookie ++ codes "_state"

  -- maxAge, which is asked for an expiry after now only.
  abbrev pub max_age : ℕ → ℕ → ℕ
  max_age now expires_at =
      let seconds = m.whole_seconds (expires_at - now) in if ltb seconds 1 then 1 else seconds

  abbrev pub new_flow : ℕ → Request → Text → Text → Text → LoginFlow
  new_flow now r state nonce verifier = record {
    state = state;
    nonce = nonce;
    code_verifier = verifier;
    return_to = safe_return_to m.parse_url (query_value r (codes "return_to"));
    expires_at = unix (now + login_flow_ttl);
  }

  abbrev pub login_reply : ℕ → Text → Text → Text → Result Text → Response
  login_reply now state nonce verifier (err e) = text_reply [] 500 (codes "could not start login")
  login_reply now state nonce verifier (ok encoded) =
      redirect_reply
        (secure_cookie lax state_cookie_name encoded (pos 600) (now + login_flow_ttl) ∷ [])
        (m.auth_code_url state nonce verifier)

  -- login: two calls of randomString, the verifier of GenerateVerifier, and the bytes of the cookie.
  unfoldable pub login : ℕ → Request → Result Text → Result Text → Text → Result Text → Response
  unfolding safe_return_to encode_cookie
  login now r (err e) nonce verifier random = text_reply [] 500 (codes "could not start login")
  login now r (ok state) (err e) verifier random = text_reply [] 500 (codes "could not start login")
  login now r (ok state) (ok nonce) verifier random = login_reply now state nonce verifier (
      encode_cookie m.sealer m.flows random state_cookie_name (new_flow now r state nonce verifier))

  abbrev pub clear_state : List Cookie
  clear_state = cleared state_cookie_name ∷ []

  abbrev pub unauthorized_reply : String → Response
  unauthorized_reply text = text_reply clear_state 401 (codes text)

  -- The earlier of now.Add(SessionTTL) and the expiry of the token.
  abbrev pub session_expiry : ℕ → ℕ → ℕ
  session_expiry now expiry =
      let longest = add_duration now m.config.session_ttl in
      if not (expiry == 0) && ltb expiry longest then expiry else longest

  abbrev pub session_reply : ℕ → ℕ → LoginFlow → Result Text → Response
  session_reply now expires_at flow (err e) =
      text_reply clear_state 500 (codes "could not create session")
  session_reply now expires_at flow (ok encoded) =
      redirect_reply
        (cleared state_cookie_name
          ∷ secure_cookie strict m.config.session_cookie encoded (pos (max_age now expires_at))
              expires_at
          ∷ [])
        flow.return_to

  abbrev pub new_session : Principal → ℕ → Session
  new_session p expires_at = record {
    username = p.username;
    is_admin = p.is_admin;
    expires_at = unix expires_at;
  }

  abbrev pub after_principal : ℕ → ℕ → LoginFlow → Result Text → Result Principal → Response
  after_principal now expires_at flow random (err e) =
      unauthorized_reply "OIDC identity is incomplete"
  after_principal now expires_at flow random (ok p) =
      if not (ltb now expires_at)
      then unauthorized_reply "OIDC ID token is expired"
      else session_reply now expires_at flow (
          encode_cookie m.sealer m.sessions random m.config.session_cookie
            (new_session p expires_at))

  abbrev pub after_verify : ℕ → LoginFlow → Result Text → Result (IdToken J) → Response
  after_verify now flow random (err e) = unauthorized_reply "OIDC ID token verification failed"
  after_verify now flow random (ok token) =
      if not (token.nonce == flow.nonce)
      then unauthorized_reply "OIDC nonce verification failed"
      else after_principal now (session_expiry now token.expiry) flow random
          (token.claims >>= (λ claims. principal_from_claims m.json claims m.config))

  abbrev pub after_exchange : ℕ → LoginFlow → Result Text → Result (Option Text) → Response
  after_exchange now flow random (err e) = unauthorized_reply "OIDC code exchange failed"
  after_exchange now flow random (ok none) =
      unauthorized_reply "OIDC response did not include an ID token"
  after_exchange now flow random (ok (some raw)) =
      if is_empty raw
      then unauthorized_reply "OIDC response did not include an ID token"
      else after_verify now flow random (m.verify raw)

  abbrev pub after_flow : ℕ → ℕ → Request → Result Text → Text → Result LoginFlow → Response
  after_flow checked now r random state (err e) = text_reply [] 400 (codes "invalid OIDC state")
  after_flow checked now r random state (ok flow) =
      if is_empty state || not (state == flow.state)
      then text_reply [] 400 (codes "invalid OIDC state")
      else if not (ltb checked (time_unix flow.expires_at))
      then text_reply clear_state 400 (codes "expired OIDC login")
      else after_exchange now flow random
          (m.exchange (query_value r (codes "code")) flow.code_verifier)

  abbrev pub flow_of : Option Text → Result LoginFlow
  flow_of none = err (failed "http: named cookie not present")
  flow_of (some cookie) = decode_cookie m.sealer m.flows state_cookie_name cookie

  -- callback: the clock is read to check the flow, and again to start the session.
  unfoldable pub callback : ℕ → ℕ → Request → Result Text → Response
  unfolding decode_cookie encode_cookie principal_from_claims
  callback checked now r random =
      let provider_error = trim_space (query_value r (codes "error")) in
      if not (is_empty provider_error)
      then text_reply [] 401 (codes "OIDC login failed: " ++ provider_error)
      else after_flow checked now r random (trim_space (query_value r (codes "state")))
          (flow_of (lookup state_cookie_name r.cookies))

  abbrev pub logout : Response
  logout = redirect_reply (cleared m.config.session_cookie ∷ []) (codes "/auth/login")

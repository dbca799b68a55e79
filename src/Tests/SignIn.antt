-- ===== src/Tests/SignIn.antt =====
-- A provider and a browser: a login, its callback, and a request with the session.
use secarch_tickets.Base.Int.{ℤ, pos, negsuc}
use secarch_tickets.Base.Floats.{second}
use secarch_tickets.Base.{
  ℕ, ◌+◌, ◌*◌, ◌/◌, ◌≡◌, refl, Bool, true, false, ◌&&◌, Text, codes, List, [], ◌∷◌, ◌++◌, some,
  none, Option, list_eq, nat_eq, ◌==◌, ==-iff, ==-self, ok, err, failed, Result, if◌then◌else◌,
  trim, is_space, length, take, drop, take-append, drop-append, take-append-drop, Bool-cases, inl,
  inr, arith,
}
use secarch_tickets.Auth.Cookies.{Sealer, Codec, IsSealer}
use secarch_tickets.Auth.SignIn.{
  Session, LoginFlow, Manager, Request, IdToken, login, callback, Response, Cookie,
}
use secarch_tickets.Auth.Guard.{require_auth, passed, unauthorized}
use secarch_tickets.Auth.Callbacks.{IsSignedIn, callback-IsSignedIn}
use secarch_tickets.Tests.Login.{json, config, claims}

-- A sealed text names its purpose and shows what it holds: enough for the laws, and readable.
abbrev unseal : Text → Text → Text → Option Text
unseal nonce [] purpose = none
unseal nonce (k ∷ rest) purpose =
    if (k == length purpose) && (take (length purpose) rest == purpose)
    then some (drop (length purpose) rest)
    else none

abbrev sealer : Sealer
sealer = record {
  nonce_size = 1;
  seal = λ nonce plain purpose. length purpose ∷ purpose ++ plain;
  unseal = unseal;
  encode64 = λ b. b;
  decode64 = λ b. some b;
}

unseal_seal :
    (nonce plain purpose : Text)
    → unseal nonce (length purpose ∷ purpose ++ plain) purpose ≡ some plain
unseal_seal nonce plain purpose =
    rw (==-self (length purpose))
      (rw (take-append purpose plain) (rw (==-self purpose) (rw (drop-append purpose plain) refl)))

unseal_only :
    (nonce sealed purpose plain : Text)
    → unseal nonce sealed purpose ≡ some plain
    → sealed ≡ length purpose ∷ purpose ++ plain
unseal_only nonce [] purpose plain h = absurd (ground arith)
unseal_only nonce (k ∷ rest) purpose plain h =
    elim (Bool-cases ((k == length purpose) && (take (length purpose) rest == purpose))) [
      | inr e ↦ absurd (let l = rw e at h in ground arith)
      | inl e ↦
          let l : some (drop (length purpose) rest) ≡ some plain = rw e at h in
          let sized : k ≡ length purpose = ground (arith, ==-iff k (length purpose)) in
          let named : take (length purpose) rest ≡ purpose =
            ground (arith, ==-iff (take (length purpose) rest) purpose) in
          let left : drop (length purpose) rest ≡ plain = ground arith in
          let whole = take-append-drop (length purpose) rest in
          let parts : rest ≡ purpose ++ plain = cc in cc
    ]

pub sealer-IsSealer : IsSealer sealer
sealer-IsSealer = record {
  nonce_positive = omega arith;
  decode_nil = refl;
  decode_encode = λ b. refl;
  unseal_seal = λ nonce plain purpose sized. unseal_seal nonce plain purpose;
  unseal_only = unseal_only;
}

abbrev integer : ℤ → Text
integer (pos n) = 0 ∷ n ∷ []
integer (negsuc n) = 1 ∷ n ∷ []

abbrev to_integer : ℕ → ℕ → ℤ
to_integer sign n = if sign == 0 then pos n else negsuc n

abbrev truth : Bool → ℕ
truth b = if b then 1 else 0

abbrev unmarshal_session : Text → Result Session
unmarshal_session (admin ∷ sign ∷ n ∷ name) =
    ok (record { username = name; is_admin = admin == 1; expires_at = to_integer sign n })
unmarshal_session _ = err (failed "no session")

abbrev sessions : Codec Session
sessions = record {
  marshal = λ s. ok (truth s.is_admin ∷ integer s.expires_at ++ s.username);
  unmarshal = unmarshal_session;
}

-- The rest of a flow, of which the first three texts have these lengths.
abbrev flow_from : ℤ → ℕ → ℕ → ℕ → Text → LoginFlow
flow_from t a b c rest = record {
  state = take a rest;
  nonce = take b (drop a rest);
  code_verifier = take c (drop b (drop a rest));
  return_to = drop c (drop b (drop a rest));
  expires_at = t;
}

abbrev unmarshal_flow : Text → Result LoginFlow
unmarshal_flow (sign ∷ n ∷ a ∷ b ∷ c ∷ rest) = ok (flow_from (to_integer sign n) a b c rest)
unmarshal_flow _ = err (failed "no flow")

abbrev marshal_flow : LoginFlow → Text
marshal_flow f =
    integer f.expires_at
    ++ (length f.state ∷ length f.nonce ∷ length f.code_verifier ∷ f.state
        ++ (f.nonce ++ (f.code_verifier ++ f.return_to)))

abbrev flows : Codec LoginFlow
flows = record { marshal = λ f. ok (marshal_flow f); unmarshal = unmarshal_flow }

abbrev pub start : ℕ
start = 63_900_000_000 * second

abbrev id_token : IdToken (List Text)
id_token = record { nonce = codes "n"; expiry = 0; claims = ok claims }

abbrev pub manager : Manager (List Text)
manager = record {
  config = config;
  sealer = sealer;
  sessions = sessions;
  flows = flows;
  json = json;
  parse_url = λ v. some (false, false);
  auth_code_url = λ state nonce verifier. codes "https://login.example?state=" ++ state;
  exchange = λ code verifier.
      if verifier == codes "v" then ok (some (codes "token")) else err (failed "invalid_grant");
  verify = λ raw. ok id_token;
  query_escape = λ uri. uri;
  whole_seconds = λ d. d / second;
}

abbrev visit : Request
visit = record {
  path = codes "/auth/login";
  request_uri = codes "/auth/login?return_to=/closed";
  query = (codes "return_to", codes "/closed") ∷ [];
  cookies = [];
}

abbrev login_response : Response
login_response =
    login manager start visit (ok (codes "s")) (ok (codes "n")) (codes "v") (ok (7 ∷ []))

abbrev first_value : List Cookie → Text
first_value [] = []
first_value (c ∷ cs) = c.value

abbrev flow_cookie : Text
flow_cookie = first_value login_response.set_cookies

abbrev return_visit : Request
return_visit = record {
  path = codes "/auth/callback";
  request_uri = codes "/auth/callback?state=s&code=c";
  query = (codes "state", codes "s") ∷ (codes "code", codes "c") ∷ [];
  cookies = (codes "session_state", flow_cookie) ∷ [];
}

abbrev callback_response : Response
callback_response =
    callback manager (start + second) (start + 2 * second) return_visit (ok (9 ∷ []))

abbrev second_value : List Cookie → Text
second_value [] = []
second_value (c ∷ cs) = first_value cs

abbrev session_cookie : Text
session_cookie = second_value callback_response.set_cookies

abbrev pub page : Request
page = record {
  path = codes "/api/tickets";
  request_uri = codes "/api/tickets";
  query = [];
  cookies = (codes "session", session_cookie) ∷ [];
}

callback_run : callback_response.status ≡ 302
unfolding callback trim login is_space
callback_run = refl

page_run :
    require_auth manager (start + 3 * second) page
    ≡ passed (record { username = codes "ann"; groups = []; is_admin = true })
unfolding require_auth callback trim login is_space
page_run = refl

late_run : require_auth manager (start + 9 * 3600 * second) page ≡ unauthorized
unfolding require_auth callback trim login is_space
late_run = refl

callback-IsSignedIn_example :
    IsSignedIn manager
      (start + second)
      (start + 2 * second)
      return_visit
      (ok (9 ∷ []))
      callback_response
callback-IsSignedIn_example =
    callback-IsSignedIn manager (start + second) (start + 2 * second) return_visit (ok (9 ∷ []))
      callback_run

abbrev now : ℕ
now = start + 2 * second

-- ===== src/Web.antt =====
-- web/server.go: the routes with the guard of RequireAuth, and the check of the certificates' paths. That
-- gin finds the route of a method and a pattern is a parameter, the pattern that it matched.
use Prim.Native.String.{String}
use secarch_tickets.Base.{
  ℕ, ◌++◌, ◌≡◌, ◌≢◌, refl, Bool, true, false, ◌&&◌, ◌||◌, Text, codes, List, [], ◌∷◌, Option, none,
  some, list_eq, nat_eq, ◌==◌, if◌then◌else◌, All, All-append, Bool-cases, inl, inr, arith,
}
use secarch_tickets.Auth.{Principal}
use secarch_tickets.Auth.Cookies.{IsSealer}
use secarch_tickets.Auth.SignIn.{Manager, Request}
use secarch_tickets.Auth.Guard.{Guarded, passed, unauthorized, to_login, require_auth}
use secarch_tickets.Auth.Sessions.{IsSession, require_auth-IsSession}

-- The handlers of the routes; `page` is that of the tickets page.
pub data Handler : Type 0 where
  health static login callback logout page list_tickets refresh_tickets update_expected_date
        list_ticket_updates create_ticket_update closed_statistics :
      Handler

pub record Route : Type 0 where
  pub method : Text
  pub pattern : Text
  pub handler : Handler
  -- In the group that uses RequireAuth.
  pub protected : Bool

abbrev public_route : String → Handler → Route
public_route pattern handler = record {
  method = codes "GET";
  pattern = codes pattern;
  handler = handler;
  protected = false;
}

abbrev protected_route : String → String → Handler → Route
protected_route method pattern handler = record {
  method = codes method;
  pattern = codes pattern;
  handler = handler;
  protected = true;
}

-- Manager.RegisterRoutes
abbrev pub auth_routes : Bool → List Route
auth_routes false = []
auth_routes true =
    public_route "/auth/login" login
    ∷ public_route "/auth/callback" callback
    ∷ public_route "/auth/logout" logout
    ∷ []

abbrev pub protected_routes : List Route
protected_routes =
    protected_route "GET" "/" page
    ∷ protected_route "GET" "/api/tickets" list_tickets
    ∷ protected_route "POST" "/api/tickets/refresh" refresh_tickets
    ∷ protected_route "PUT" "/api/tickets/:ticket_number/expected-date" update_expected_date
    ∷ protected_route "GET" "/api/tickets/:ticket_number/updates" list_ticket_updates
    ∷ protected_route "POST" "/api/tickets/:ticket_number/updates" create_ticket_update
    ∷ protected_route "GET" "/api/statistics/closed" closed_statistics
    ∷ []

unfoldable pub register_routes : Bool → List Route
register_routes enabled = public_route "/healthz" health ∷ auth_routes enabled ++ protected_routes

-- The two routes of StaticFS; gin ends its pattern with the path of the file.
abbrev pub static_routes : List Route
static_routes =
    public_route "/static/*filepath" static
    ∷ record {
      method = codes "HEAD";
      pattern = codes "/static/*filepath";
      handler = static;
      protected = false;
    }
    ∷ []

-- The routes that Run sets up.
unfoldable pub all_routes : Bool → List Route
unfolding register_routes
all_routes enabled = static_routes ++ register_routes enabled

abbrev pub find_route : Text → Text → List Route → Option Route
find_route method pattern [] = none
find_route method pattern (r ∷ rs) =
    let rest = find_route method pattern rs in
    if (r.method == method) && (r.pattern == pattern) then some r else rest

-- What becomes of a request: its handler runs, with a principal where the route is protected, or the
-- guard answers it.
pub data Served : Type 0 where
  no_route : Served
  open_to_all : Handler → Served
  allowed : Handler → Principal → Served
  stopped : Guarded → Served

abbrev pub after_guard : Handler → Guarded → Served
after_guard handler (passed p) = allowed handler p
after_guard handler unauthorized = stopped unauthorized
after_guard handler (to_login target) = stopped (to_login target)

module _ {J : Type 0} (m : Manager J) where
  abbrev pub serve_route : ℕ → Request → Option Route → Served
  serve_route now r none = no_route
  serve_route now r (some route) =
      let guard = after_guard route.handler (require_auth m now r) in
      if route.protected then guard else open_to_all route.handler

  unfoldable pub serve : ℕ → Request → Text → Text → Served
  unfolding all_routes require_auth
  serve now r method pattern =
      serve_route now r (find_route method pattern (all_routes m.config.enabled))

-- The handlers that everybody may call.
abbrev pub is_public : Handler → Bool
is_public h = elim h [
  | health ↦ true
  | static ↦ true
  | login ↦ true
  | callback ↦ true
  | logout ↦ true
  | _ ↦ false
]

-- A route that is not protected has a handler that everybody may call.
abbrev IsPlaced : Route → Type 0
IsPlaced r = r.protected || is_public r.handler ≡ true

auth_routes-IsPlaced : (enabled : Bool) → All IsPlaced (auth_routes enabled)
auth_routes-IsPlaced false = tt
auth_routes-IsPlaced true = (refl, (refl, (refl, tt)))

routes-IsPlaced : (enabled : Bool) → All IsPlaced (all_routes enabled)
unfolding all_routes register_routes
routes-IsPlaced enabled = (
  refl,
  (
    refl,
    (
      refl,
      All-append IsPlaced (auth_routes enabled) protected_routes (auth_routes-IsPlaced enabled)
          (refl, (refl, (refl, (refl, (refl, (refl, (refl, tt))))))),
    ),
  ),
)

some-injective : {A : Type 0} {a b : A} → some a ≡ some b → a ≡ b
some-injective h = cc

find_route-IsPlaced :
    (method pattern : Text) (rs : List Route) (route : Route)
    → All IsPlaced rs
    → find_route method pattern rs ≡ some route
    → IsPlaced route
find_route-IsPlaced method pattern [] route h k = absurd (ground arith)
find_route-IsPlaced method pattern (r ∷ rs) route (placed, h) k =
    elim (Bool-cases ((r.method == method) && (r.pattern == pattern))) [
      | inl e ↦ let same = rw e at k in rw (← some-injective same) placed
      | inr e ↦ find_route-IsPlaced method pattern rs route h (rw e at k)
    ]

module _ {J : Type 0} (m : Manager J) (law : IsSealer m.sealer) where
  -- With OIDC enabled, a handler runs without a principal only if it is that of the health check, the
  -- static files, the login, its callback or the logout; every other handler runs only for a request with a session that
  -- the service sealed and that has not expired, as the user of that session.
  pub serve-IsSession :
      (enabled : m.config.enabled ≡ true) (now : ℕ) (r : Request) (method pattern : Text)
      → ((h : Handler) → serve m now r method pattern ≡ open_to_all h → is_public h ≡ true)
        × ((h : Handler) (p : Principal)
            → serve m now r method pattern ≡ allowed h p
            → IsSession m now r p)
  unfolding serve
  serve-IsSession enabled now r method pattern =
      let routes = all_routes m.config.enabled in
      let found = find_route method pattern routes in
      (
        λ h k.
            for_all found
              (λ route e.
                find_route-IsPlaced method pattern routes route (routes-IsPlaced m.config.enabled)
                  e)
              h k,
        λ h p k.
            let passing = guarded found h p k in
            require_auth-IsSession m law enabled now r p passing,
      )
    where
      after : (g : Guarded) (handler h : Handler) → after_guard handler g ≢ open_to_all h
      after (passed q) handler h k = ground arith
      after unauthorized handler h k = ground arith
      after (to_login u) handler h k = ground arith

      granted :
          (g : Guarded) (handler h : Handler) (q : Principal)
          → after_guard handler g ≡ allowed h q
          → g ≡ passed q
      granted (passed u) handler h q k = ground arith
      granted unauthorized handler h q k = absurd (ground arith)
      granted (to_login u) handler h q k = absurd (ground arith)

      for_all :
          (o : Option Route)
          → ((route : Route) → o ≡ some route → IsPlaced route)
          → (h : Handler) → serve_route m now r o ≡ open_to_all h
          → is_public h ≡ true
      for_all none placed h k = absurd (ground arith)
      for_all (some route) placed h k = elim (Bool-cases route.protected) [
        | inl e ↦ absurd (after (require_auth m now r) route.handler h (rw e at k))
        | inr e ↦
            let same : open_to_all route.handler ≡ open_to_all h = rw e at k in
            let there = placed route refl in ground arith
      ]

      guarded :
          (o : Option Route) (h : Handler) (p : Principal)
          → serve_route m now r o ≡ allowed h p
          → require_auth m now r ≡ passed p
      guarded none h p k = absurd (ground arith)
      guarded (some route) h p k = elim (Bool-cases route.protected) [
        | inl e ↦ granted (require_auth m now r) route.handler h p (rw e at k)
        | inr e ↦ absurd (let l = rw e at k in ground arith)
      ]

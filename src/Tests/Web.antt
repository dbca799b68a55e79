-- ===== src/Tests/Web.antt =====
-- A request for the tickets with a session, one without, one for the health check and one
-- for a static file.
use secarch_tickets.Base.{◌+◌, ◌*◌, ◌≡◌, refl, codes, [], true, trim, is_space}
use secarch_tickets.Base.Floats.{second}
use secarch_tickets.Auth.{Principal}
use secarch_tickets.Auth.SignIn.{Request, login, callback}
use secarch_tickets.Auth.Guard.{unauthorized}
use secarch_tickets.Auth.Sessions.{IsSession}
use secarch_tickets.Web.{
  Handler, health, static, list_tickets, serve, open_to_all, allowed, stopped, is_public,
  serve-IsSession,
}
use secarch_tickets.Tests.SignIn.{manager, start, page, sealer-IsSealer}

abbrev user : Principal
user = record { username = codes "ann"; groups = []; is_admin = true }

allowed_run :
    serve manager (start + 3 * second) page (codes "GET") (codes "/api/tickets")
    ≡ allowed list_tickets user
unfolding serve callback trim login is_space
allowed_run = refl

abbrev stranger : Request
stranger = record page { cookies = [] }

stopped_run :
    serve manager (start + 3 * second) stranger (codes "GET") (codes "/api/tickets")
    ≡ stopped unauthorized
unfolding serve
stopped_run = refl

health_run : serve manager start stranger (codes "GET") (codes "/healthz") ≡ open_to_all health
unfolding serve
health_run = refl

-- A file of the pages, which needs no session.
static_run :
    serve manager start stranger (codes "GET") (codes "/static/*filepath") ≡ open_to_all static
unfolding serve
static_run = refl

serve-IsSession_example :
    ((h : Handler)
      → serve manager (start + 3 * second) page (codes "GET") (codes "/api/tickets") ≡ open_to_all h
      → is_public h ≡ true)
    × ((h : Handler) (p : Principal)
        → serve manager (start + 3 * second) page (codes "GET") (codes "/api/tickets") ≡ allowed h p
        → IsSession manager (start + 3 * second) page p)
serve-IsSession_example =
    serve-IsSession manager sealer-IsSealer refl (start + 3 * second) page (codes "GET")
      (codes "/api/tickets")

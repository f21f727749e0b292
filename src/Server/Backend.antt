-- ===== src/Server/Backend.antt =====
-- What n8n is asked on behalf of a request (knox-proxy/main.go, knox-proxy/middleware/chain.go).
use knox_proxy.Server.{serve_proxy, clock, App, Site}
use knox_proxy.Base.{◌⊎◌, ◌≡◌, some}
use knox_proxy.World.{World}
use knox_proxy.Http.{Response, Request}
use knox_proxy.Context.{RequestUser}
use knox_proxy.Middleware.Chain.{protected_cases, protected_cases, IsCleared}

module _ (site : Site) (w : World) (r : Request) where
  -- Nothing is asked of n8n, and its cookies are kept as they are.
  abbrev pub IsLeftAlone : App w → App w → Type 0
  IsLeftAlone s s' = (s'.outside ≡ s.outside) × (s'.pool ≡ s.pool)

  -- The request is cleared for a user and the proxy serves it, or n8n is left alone.
  abbrev pub AsksFor : App w → Response × App w → Type 0
  AsksFor s result =
      ((user : RequestUser) × IsCleared site.decode site.sanitizer site.web (λ t. t.sessions)
          (clock site w) r s user
        × (result ≡ serve_proxy site w (some user) r s))
      ⊎ IsLeftAlone s result.1

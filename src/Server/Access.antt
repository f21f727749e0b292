-- ===== src/Server/Access.antt =====
-- Who gets through the server of knox-proxy/main.go, whatever the path.
use knox_proxy.Base.{Str, Option, ◌≡◌, false, none, some, refl}
use knox_proxy.Server.{
  without_slash, protected_page, user_api, admin_api, health_page, location_of, backchannel_page,
  page_of, logout_page, serve, callback_page, login_page, serve_proxy, Chance, serve_backchannel,
  serve_logout, serve_callback, with_auth, clock, Page, serve_login, route_page, serve_page,
  serve_jit, App, Site,
}
use knox_proxy.World.{World}
use knox_proxy.Http.{Request}
use knox_proxy.Middleware.{policy, protected, logging, session_for, auth}
use knox_proxy.Context.{Handler}
use knox_proxy.Jit.Repository.{Draw}
use knox_proxy.Jit.Routes.Access.{HasNoKey, no_access}

module _ (site : Site) (w : World) (r : Request) where
  -- The request has no live session and not the key of the admin API.
  pub record IsStranger (s : App w) : Type 0 where
    pub no_session : session_for s.sessions (clock site w s) (site.web.session_cookie r) ≡ none
    pub no_key : HasNoKey site.api r

  -- No ticket, timer or webhook, no cookie of n8n and nothing outside has changed.
  pub record IsUntouched (s s' : App w) : Type 0 where
    pub same_jit : s'.jit ≡ s.jit
    pub same_pool : s'.pool ≡ s.pool
    pub same_outside : s'.outside ≡ s.outside

  untouched : (s : App w) → IsUntouched s s
  untouched s = record { same_jit = refl; same_pool = refl; same_outside = refl }

  with_auth_refuses :
      (next : Handler (App w)) (s : App w) → IsStranger s → (with_auth site w next none r s).1 ≡ s
  unfolding auth
  with_auth_refuses next s stranger = rw (stranger.no_session, auth)

  admin_refuses :
      (draw : Draw) (s : App w) → IsStranger s → (serve_jit site w draw none r s).1.jit ≡ s.jit
  unfolding serve_jit
  admin_refuses draw s stranger =
      (no_access site.api draw r (clock site w s) s.jit stranger.no_key).1

  page_refuses :
      (page : Page) (chance : Chance) (s : App w)
      → IsStranger s
      → IsUntouched s (serve_page site w page chance r s).1
  unfolding serve_page serve_login serve_callback serve_logout serve_backchannel logging protected
      serve_jit
  page_refuses login_page chance s stranger = record {
    same_jit = refl;
    same_pool = refl;
    same_outside = refl;
  }
  page_refuses callback_page chance s stranger = record {
    same_jit = refl;
    same_pool = refl;
    same_outside = refl;
  }
  page_refuses logout_page chance s stranger = record {
    same_jit = refl;
    same_pool = refl;
    same_outside = refl;
  }
  page_refuses backchannel_page chance s stranger = record {
    same_jit = refl;
    same_pool = refl;
    same_outside = refl;
  }
  page_refuses health_page chance s stranger = untouched s
  page_refuses admin_api chance s stranger = record {
    same_jit = admin_refuses chance.draw s stranger;
    same_pool = refl;
    same_outside = refl;
  }
  page_refuses user_api chance s stranger =
      rw (with_auth_refuses (serve_jit site w chance.draw) s stranger) (untouched s)
  page_refuses protected_page chance s stranger =
      rw (with_auth_refuses (policy site.decode site.sanitizer (serve_proxy site w)) s stranger)
        (untouched s)
  page_refuses without_slash chance s stranger = untouched s

  route_refuses :
      (page : Page) (location : Option Str) (chance : Chance) (s : App w)
      → IsStranger s
      → IsUntouched s (route_page site w page location chance r s).1
  unfolding route_page
  route_refuses page (some url) chance s stranger = untouched s
  route_refuses page none chance s stranger = page_refuses page chance s stranger

  -- Whatever its path, a request with neither a live session nor the key of the admin API changes no
  -- ticket, timer or webhook and no cookie of n8n, and nothing is asked of n8n for it.
  pub serve_stranger :
      (chance : Chance) (s : App w) → IsStranger s → IsUntouched s (serve site w chance r s).1
  unfolding serve
  serve_stranger chance s stranger =
      let fresh : App w = record s { closed = false } in
      let refused =
        route_refuses (page_of (site.mux.elements r))
          (location_of (page_of (site.mux.elements r)) (site.mux.clean_location r)) chance fresh
          (record { no_session = stranger.no_session; no_key = stranger.no_key }) in
      record {
        same_jit = refused.same_jit;
        same_pool = refused.same_pool;
        same_outside = refused.same_outside;
      }

-- ===== src/Server/Calls.antt =====
-- Which requests to the server of knox-proxy/main.go reach the JIT system.
use knox_proxy.Server.{
  clock, page_of, serve_proxy, serve_jit, serve_backchannel, Chance, serve_logout, serve_callback,
  Page, serve_login, serve, route_page, serve_page, App, Site, callback_page, login_page,
  logout_page, backchannel_page, health_page, admin_api, user_api, protected_page, without_slash,
  location_of,
}
use knox_proxy.Base.{◌⊎◌, ap, refl, Option-cases, ◌≡◌, Option, Str, false, none, some, inr, inl}
use knox_proxy.World.{World}
use knox_proxy.Http.{Request}
use knox_proxy.Middleware.{user_of, session_for, session_for, auth, logging}
use knox_proxy.Jit.Scheduler.{Jit}
use knox_proxy.Middleware.Chain.{protected_cases}
use knox_proxy.Context.{RequestUser}
use knox_proxy.Jit.Routes.{serve_api}

module _ (site : Site) (w : World) where
  -- The JIT system is as it was, or it has answered the request.
  abbrev pub IsCalled : Chance → Request → App w → Jit → Type 0
  IsCalled chance r s j =
      (j ≡ s.jit)
      ⊎ ((user : Option RequestUser) × (j
            ≡ (serve_api site.api chance.draw user r (clock site w s) s.jit).1))

  page-IsCalled :
      (page : Page) (chance : Chance) (r : Request) (s : App w)
      → IsCalled chance r s (serve_page site w page chance r s).1.jit
  unfolding serve_page serve_login serve_callback serve_logout serve_backchannel serve_jit
      serve_proxy logging auth
  page-IsCalled login_page chance r s = inl refl
  page-IsCalled callback_page chance r s = inl refl
  page-IsCalled logout_page chance r s = inl refl
  page-IsCalled backchannel_page chance r s = inl refl
  page-IsCalled health_page chance r s = inl refl
  page-IsCalled admin_api chance r s = inr (none, refl)
  page-IsCalled user_api chance r s =
      elim (Option-cases (session_for s.sessions (clock site w s) (site.web.session_cookie r))) [
        | inl e ↦ rw (e, auth) (inl refl)
        | inr (session, e) ↦ rw (e, auth) (inr (some (user_of session), refl))
      ]
  page-IsCalled protected_page chance r s =
      elim (protected_cases site.decode site.sanitizer site.web (λ t. t.sessions) (clock site w)
        (serve_proxy site w) none r s) [
          | inl (user, cleared, reached) ↦ inl (ap (λ x. x.1.jit) reached)
          | inr (resp, refusal, given) ↦ inl (ap (λ x. x.1.jit) given)
        ]
  page-IsCalled without_slash chance r s = inl refl

  route-IsCalled :
      (page : Page) (location : Option Str) (chance : Chance) (r : Request) (s : App w)
      → IsCalled chance r s (route_page site w page location chance r s).1.jit
  unfolding route_page
  route-IsCalled page none chance r s = page-IsCalled page chance r s
  route-IsCalled page (some url) chance r s = inl refl

  pub serve-IsCalled :
      (chance : Chance) (r : Request) (s : App w)
      → IsCalled chance r s (serve site w chance r s).1.jit
  unfolding serve
  serve-IsCalled chance r s =
      route-IsCalled (page_of (site.mux.elements r))
        (location_of (page_of (site.mux.elements r)) (site.mux.clean_location r)) chance r
        (record s { closed = false })

-- ===== src/Server/Events.antt =====
-- The server of knox-proxy/main.go over time: requests, the ticks of its goroutines and the timers, in
-- any order.
use mathlib.Core.Path.{subst}
use knox_proxy.Base.{
  Option-cases, Option, ap, sym, non_empty, Bool-cases, lookup, ◌≡◌, Str, false, none, some, inr,
  inl,
}
use knox_proxy.Server.{
  login_page, callback_page, logout_page, backchannel_page, health_page, admin_api, user_api,
  protected_page, without_slash, serve_proxy, serve_jit, location_of, page_of, Page, serve_login,
  route_page, serve_page, with_teams, clock, fire_timer, clean_logins, clean_sessions, serve,
  serve_backchannel, serve_logout, serve_callback, App, Chance, Site,
}
use knox_proxy.World.{World}
use knox_proxy.Http.{Request}
use knox_proxy.Oidc.{logout_handler}
use knox_proxy.Session.{SessionManager, generate_session_id}
use knox_proxy.Session.History.{cleaned, revoked, created, unchanged, destroyed, Changes}
use knox_proxy.Oidc.Laws.{callback_handler_cases}
use knox_proxy.Logout.Laws.{backchannel_logout_cases}
use knox_proxy.Credential.Vault.{VaultProvider}
use knox_proxy.Middleware.{session_for, protected, auth, logging}
use knox_proxy.Middleware.Chain.{protected_cases}

module _ (site : Site) (w : World) where
  -- A session ID that a request draws is not in use.
  abbrev pub IsUnused : Chance → App w → Type 0
  IsUnused chance s =
      (id : Str)
      → generate_session_id chance.random ≡ some id
      → lookup id s.sessions.sessions ≡ none

  -- The ID that the database gives to a new ticket is the canonical text of a UUID.
  abbrev pub IsNewTicket : Chance → Type 0
  IsNewTicket chance = site.api.uuid chance.draw.id ≡ some chance.draw.id

  -- What can happen to the server.
  pub data Runs (start : App w) : App w → Type 0 where
    started : Runs start start
    served :
        (s : App w) (chance : Chance) (r : Request)
        → Runs start s
        → IsUnused chance s
        → IsNewTicket chance
        → Runs start (serve site w chance r s).1
    sessions_cleaned : (s : App w) → Runs start s → Runs start (clean_sessions site w s)
    logins_cleaned : (s : App w) → Runs start s → Runs start (clean_logins site w s)
    timer_fired : (s : App w) (id : Str) → Runs start s → Runs start (fire_timer site w id s)
    -- Vault's accounts are read again.
    teams_read : (s : App w) (vp : VaultProvider) → Runs start s → Runs start (with_teams w vp s)
    -- Time passes, and the outside changes.
    waited :
        (s : App w) (outside : w.State) → Runs start s → Runs start (record s { outside = outside })

  callback-Changes :
      (chance : Chance) (r : Request) (s : App w) (start : SessionManager)
      → IsUnused chance s
      → Changes start s.sessions
      → Changes start (serve_callback site w chance.random r s).1.sessions
  unfolding serve_callback
  callback-Changes chance r s start unused c =
      elim (callback_handler_cases site.oidc chance.random r (clock site w s) s.auth_state
        s.sessions) [
          | inl (entry, claims, raw, id, who, login, drawn, named, same, sent) ↦
              subst (Changes start) (sym same)
                (created s.sessions id who (clock site w s) c (unused id drawn))
          | inr (status, same) ↦ subst (Changes start) (sym same) c
        ]

  logout-Changes :
      (r : Request) (s : App w) (start : SessionManager)
      → Changes start s.sessions
      → Changes start (serve_logout site w r s).1.sessions
  unfolding serve_logout logout_handler
  logout-Changes r s start c = elim (Bool-cases (non_empty (site.oidc.session_cookie r))) [
    | inl e ↦ rw e (destroyed s.sessions (site.oidc.session_cookie r) c)
    | inr e ↦ rw e c
  ]

  backchannel-Changes :
      (r : Request) (s : App w) (start : SessionManager)
      → Changes start s.sessions
      → Changes start (serve_backchannel site w r s).1.sessions
  unfolding serve_backchannel
  backchannel-Changes r s start c = elim (backchannel_logout_cases site.backchannel s.sessions r) [
    | inl (claims, carried, valid, done) ↦
        subst (Changes start) (sym (ap (λ x. x.1) done)) (revoked s.sessions claims.session_id c)
    | inr (status, message, k, done) ↦ subst (Changes start) (sym (ap (λ x. x.1) done)) c
  ]

  page-Changes :
      (page : Page) (chance : Chance) (r : Request) (s : App w) (start : SessionManager)
      → IsUnused chance s
      → Changes start s.sessions
      → Changes start (serve_page site w page chance r s).1.sessions
  unfolding serve_page serve_login logging auth protected serve_jit serve_proxy
  page-Changes login_page chance r s start unused c = c
  page-Changes callback_page chance r s start unused c = callback-Changes chance r s start unused c
  page-Changes logout_page chance r s start unused c = logout-Changes r s start c
  page-Changes backchannel_page chance r s start unused c = backchannel-Changes r s start c
  page-Changes health_page chance r s start unused c = c
  page-Changes admin_api chance r s start unused c = c
  page-Changes user_api chance r s start unused c =
      elim (Option-cases (session_for s.sessions (clock site w s) (site.web.session_cookie r))) [
        | inl e ↦ rw (e, auth) c
        | inr (session, e) ↦ rw (e, auth) c
      ]
  page-Changes protected_page chance r s start unused c =
      elim (protected_cases site.decode site.sanitizer site.web (λ t. t.sessions) (clock site w)
        (serve_proxy site w) none r s) [
          | inl (user, cleared, reached) ↦ subst (λ x. Changes start x.1.sessions) (sym reached) c
          | inr (resp, refusal, given) ↦ subst (λ x. Changes start x.1.sessions) (sym given) c
        ]
  page-Changes without_slash chance r s start unused c = c

  route-Changes :
      (page : Page) (location : Option Str) (chance : Chance) (r : Request) (s : App w)
      (start : SessionManager)
      → IsUnused chance s
      → Changes start s.sessions
      → Changes start (route_page site w page location chance r s).1.sessions
  unfolding route_page
  route-Changes page none chance r s start unused c = page-Changes page chance r s start unused c
  route-Changes page (some url) chance r s start unused c = c

  -- Whatever happens to the server, its sessions change only by the operations of the session manager,
  -- one at a time: a run of the server is a history of the sessions. The session ID that a
  -- request draws is not in use, and the ticket ID is a UUID in its canonical text.
  pub Runs-Changes : {start s : App w} → Runs start s → Changes start.sessions s.sessions
  unfolding serve clean_sessions clean_logins fire_timer with_teams
  Runs-Changes started = unchanged
  Runs-Changes (served s chance r run unused new) =
      route-Changes (page_of (site.mux.elements r))
        (location_of (page_of (site.mux.elements r)) (site.mux.clean_location r)) chance r
        (record s { closed = false }) _ unused (Runs-Changes run)
  Runs-Changes (sessions_cleaned s run) = cleaned s.sessions (clock site w s) (Runs-Changes run)
  Runs-Changes (logins_cleaned s run) = Runs-Changes run
  Runs-Changes (timer_fired s id run) = Runs-Changes run
  Runs-Changes (teams_read s vp run) = Runs-Changes run
  Runs-Changes (waited s outside run) = Runs-Changes run

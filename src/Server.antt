-- ===== src/Server.antt =====
-- knox-proxy/main.go: the routes of the server, and what its goroutines do in the background. The
-- handlers share the sessions, the logins that are under way, the JIT system and the cookies; here
-- one request is served at a time. ServeMux of net/http cleans paths by parameters.
pub mod Startup
pub mod Boot
pub mod Access
pub mod Events
pub mod Revocation
pub mod Backend
pub mod Tickets
pub mod Told
pub mod Table
pub mod OnTime
pub mod Calls
use knox_proxy.Base.{
  ◌&&◌, ◌||◌, ◌==◌, ℕ, if◌then◌else◌, bytes, Bool, Option, Str, String, List, false, true, none,
  some, inr, inl, refl, ◌∷◌, [],
}
use knox_proxy.Http.{set, Response, Request}
use knox_proxy.Jit.Handler.{Api, aborted, Reply, Payload}
use knox_proxy.Middleware.{protected, auth, logging, Web}
use knox_proxy.World.{World}
use knox_proxy.Oidc.{clean_states, logout_handler, callback_handler, login_handler, OidcAuth, Oidc}
use knox_proxy.Jit.Repository.{Draw}
use knox_proxy.Context.{Handler}
use knox_proxy.Logout.{BackchannelLogoutHandler, backchannel_logout}
use knox_proxy.Session.{clean_expired, SessionManager}
use knox_proxy.Proxy.{ProxyHandler, serve_http}
use knox_proxy.Jit.Routes.{serve_api}
use knox_proxy.Jit.Scheduler.{fire, Jit}
use knox_proxy.Json.{Decode}
use knox_proxy.Policy.Sanitizer.{Sanitizer}
use knox_proxy.Cookie.{Pool}
use knox_proxy.Credential.Vault.{vault_credentials, VaultProvider}

-- What a request's URL gives ServeMux.
pub record Mux : Type 0 where
  -- the elements of the cleaned path, each decoded; the last is "" behind a slash
  pub elements : Request → List Str
  -- the Location of the cleaned path, for a path that is not clean
  pub clean_location : Request → Option Str
  -- the Location of the path with a slash behind it
  pub slash_location : Request → Str

pub data Page : Type 0 where
  login_page callback_page logout_page backchannel_page health_page : Page
  admin_api user_api protected_page without_slash : Page

unfoldable pub is_at : List Str → List Str → Bool
is_at [] [] = true
is_at (e ∷ es) (p ∷ ps) = e == p && is_at es ps
is_at _ _ = false

-- There is an element, maybe "", behind those of the pattern.
unfoldable pub is_below : List Str → List Str → Bool
is_below (e ∷ es) [] = true
is_below (e ∷ es) (p ∷ ps) = e == p && is_below es ps
is_below [] _ = false

abbrev auth_page : String → List Str
auth_page name = bytes "auth" ∷ bytes name ∷ []

abbrev api_root : List Str
api_root = bytes "knox-api" ∷ []

abbrev admin_root : List Str
admin_root = bytes "knox-api" ∷ bytes "admin" ∷ []

-- The pattern that matches, the longest first. A pattern that ends in a slash also takes, by a
-- redirect, the path without it.
unfoldable pub page_of : List Str → Page
unfolding is_at is_below
page_of es =
    if is_at es (auth_page "login")
    then login_page
    else if is_at es (auth_page "callback")
    then callback_page
    else if is_at es (auth_page "logout")
    then logout_page
    else if is_at es (auth_page "backchannel-logout")
    then backchannel_page
    else if is_at es (bytes "healthz" ∷ [])
    then health_page
    else if is_below es admin_root
    then admin_api
    else if is_at es admin_root || is_at es api_root
    then without_slash
    else if is_below es api_root
    then user_api
    else protected_page

-- Where a path that is not clean is redirected. One that lacks its slash is redirected to it at once.
unfoldable pub location_of : Page → Option Str → Option Str
location_of without_slash location = none
location_of page location = location

-- writeJSON of knox-proxy/jit/handler.go
unfoldable pub write_json : (Payload → Str) → Reply → Response
write_json encode answer = record {
  status = answer.status;
  header = set (bytes "Content-Type") (bytes "application/json") [];
  body = encode answer.payload;
}

unfoldable pub is_aborted : Payload → Bool
is_aborted aborted = true
is_aborted _ = false

unfoldable pub health : Response
health = record {
  status = 200;
  header = set (bytes "Content-Type") (bytes "application/json") [];
  body = bytes "{\"status\":\"ok\",\"service\":\"knox\",\"version\":\"1.0.0\"}";
}

abbrev pub moved_permanently : Str → Response
moved_permanently url = record { status = 301; header = set (bytes "Location") url []; body = [] }

-- What is fixed when the server starts, and what its handlers call outside.
pub record Site : Type 0 where
  pub mux : Mux
  pub web : Web
  pub oidc : Oidc
  pub backchannel : BackchannelLogoutHandler
  pub api : Api
  pub decode : Decode
  pub sanitizer : Sanitizer
  -- json.Encode
  pub encode : Payload → Str

-- The state of the process, and of what is outside.
pub record App (w : World) : Type 0 where
  pub auth_state : OidcAuth
  pub sessions : SessionManager
  pub jit : Jit
  pub proxy : ProxyHandler
  pub pool : Pool
  pub outside : w.State
  -- The last handler panicked, and net/http closed the connection in place of the answer.
  pub closed : Bool

-- What crypto/rand and the database's clock and IDs give during a request.
pub record Chance : Type 0 where
  pub random : Option Str
  pub draw : Draw

module _ (site : Site) (w : World) where
  abbrev pub clock : App w → ℕ
  clock s = w.now s.outside

  unfoldable pub serve_proxy : Handler (App w)
  serve_proxy user r s =
      let (resp, pool, outside) = serve_http w s.proxy user r s.pool s.outside in
      (resp, record s { pool = pool; outside = outside })

  unfoldable pub serve_jit : Draw → Handler (App w)
  unfolding write_json is_aborted
  serve_jit draw user r s =
      let (answer, j) = serve_api site.api draw user r (clock s) s.jit in
      (write_json site.encode answer, record s { jit = j; closed = is_aborted answer.payload })

  unfoldable pub serve_login : Option Str → Request → App w → Response × App w
  serve_login random r s =
      let (resp, a) = login_handler site.oidc random r (clock s) s.auth_state in
      (resp, record s { auth_state = a })

  unfoldable pub serve_callback : Option Str → Request → App w → Response × App w
  serve_callback random r s =
      let (resp, a, sm) = callback_handler site.oidc random r (clock s) s.auth_state s.sessions in
      (resp, record s { auth_state = a; sessions = sm })

  unfoldable pub serve_logout : Request → App w → Response × App w
  serve_logout r s =
      let (resp, sm) = logout_handler site.oidc r s.auth_state s.sessions in
      (resp, record s { sessions = sm })

  unfoldable pub serve_backchannel : Request → App w → Response × App w
  serve_backchannel r s =
      let (resp, sm) = backchannel_logout site.backchannel r s.sessions in
      (resp, record s { sessions = sm })

  abbrev pub with_auth : Handler (App w) → Handler (App w)
  with_auth = auth site.web (λ s. s.sessions) clock

  unfoldable pub serve_page : Page → Chance → Request → App w → Response × App w
  unfolding health
  serve_page login_page chance r s = serve_login chance.random r s
  serve_page callback_page chance r s = serve_callback chance.random r s
  serve_page logout_page chance r s = serve_logout r s
  serve_page backchannel_page chance r s = serve_backchannel r s
  serve_page health_page chance r s = (health, s)
  serve_page admin_api chance r s = logging (serve_jit chance.draw) none r s
  serve_page user_api chance r s = logging (with_auth (serve_jit chance.draw)) none r s
  serve_page protected_page chance r s =
      protected site.decode site.sanitizer site.web (λ t. t.sessions) clock serve_proxy none r s
  serve_page without_slash chance r s = (moved_permanently (site.mux.slash_location r), s)

  unfoldable pub route_page : Page → Option Str → Chance → Request → App w → Response × App w
  unfolding serve_page
  route_page page none chance r s = serve_page page chance r s
  route_page page (some url) chance r s = (moved_permanently url, s)

  unfoldable pub serve : Chance → Request → App w → Response × App w
  unfolding page_of location_of route_page
  serve chance r s =
      let page = page_of (site.mux.elements r) in
      route_page page (location_of page (site.mux.clean_location r)) chance r
        (record s { closed = false })

  -- A tick of the cleanup of sessions in main.go, every five minutes.
  unfoldable pub clean_sessions : App w → App w
  clean_sessions s = record s { sessions = (clean_expired (clock s) s.sessions).1 }

  -- A tick of cleanStates
  unfoldable pub clean_logins : App w → App w
  clean_logins s = record s { auth_state = clean_states (clock s) s.auth_state }

  -- A timer of the scheduler, with the callback that main.go gives it
  unfoldable pub fire_timer : Str → App w → App w
  fire_timer id s = record s { jit = fire site.api.uuid site.api.webhook_url id (clock s) s.jit }

-- The accounts behind a refresh of Vault's copy.
unfoldable pub with_teams : (w : World) → VaultProvider → App w → App w
with_teams w vp s = record s { proxy = record s.proxy { provider = vault_credentials vp } }

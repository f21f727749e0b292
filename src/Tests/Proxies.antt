-- ===== src/Tests/Proxies.antt =====
-- The chain and the proxy at concrete inputs (knox-proxy/middleware, knox-proxy/proxy).
use knox_proxy.Base.{◌+◌, bytes, ℕ, none, some, ◌∷◌, []}
use knox_proxy.World.{World}
use knox_proxy.Proxy.{serve_http, ProxyHandler}
use knox_proxy.Context.{Handler, RequestUser}
use knox_proxy.Http.{Request}
use knox_proxy.Proxy.Requests.{serve_http-Run, Run}
use knox_proxy.Proxy.Responses.{serve_http-HasNoSetCookie, HasNoSetCookie}
use knox_proxy.Json.{Decode}
use knox_proxy.Middleware.{protected, Web}
use knox_proxy.Session.{new_session_manager, store_session, SessionManager}
use knox_proxy.Policy.Sanitizer.{Sanitizer}
use knox_proxy.Credential.{env_provider}
use knox_proxy.Cookie.{new_pool}

-- The backend answers 401 with a cookie of its own, and counts the requests; every login succeeds.
abbrev world : World
world = record {
  State = ℕ;
  now = λ s. s;
  login = λ email password s.
      (some (record { status = 200; cookies = (bytes "n8n-auth", bytes "c1") ∷ [] }), s + 1);
  send = λ r s. (
    some (record {
      status = 401;
      header = (bytes "Set-Cookie", bytes "n8n-auth=x" ∷ []) ∷ [];
      body = [];
    }),
    s + 1,
  );
}

abbrev handler : ProxyHandler
handler = record {
  provider =
      env_provider ((bytes "a", record { email = bytes "a@x.org"; password = bytes "pw" }) ∷ []);
  group_prefix = bytes "/team-";
  target_scheme = bytes "http";
  target_host = bytes "n8n";
}

abbrev ann : RequestUser
ann = record {
  email = bytes "ann@x.org";
  display_name = bytes "Ann";
  groups = bytes "/team-a" ∷ [];
  jit_roles = bytes "edit:w1" ∷ [];
}

abbrev patch : Request
patch = record {
  method = bytes "PATCH";
  host = bytes "knox";
  scheme = [];
  url_host = [];
  path = bytes "/rest/workflows/w1";
  uri = bytes "/rest/workflows/w1";
  header = (bytes "Cookie", bytes "knox_session=s1; n8n-auth=forged" ∷ []) ∷ [];
  body = some (bytes "{}");
}

serve_http-Run_example :
    Run world handler patch 2 0 (serve_http world handler (some ann) patch (new_pool 30) 0).2
serve_http-Run_example = serve_http-Run world handler (some ann) patch (new_pool 30) 0

serve_http-HasNoSetCookie_example :
    HasNoSetCookie (serve_http world handler (some ann) patch (new_pool 30) 0).0
serve_http-HasNoSetCookie_example =
    serve_http-HasNoSetCookie world handler (some ann) patch (new_pool 30) 0

abbrev decode : Decode
decode body = none

abbrev web : Web
web = record { session_cookie = λ r. bytes "s1"; query_escape = λ s. s }

abbrev sessions : SessionManager
sessions =
    store_session (bytes "s1")
      (record {
        email = bytes "ann@x.org";
        display_name = bytes "Ann";
        groups = bytes "/team-a" ∷ [];
        jit_roles = bytes "edit:w1" ∷ [];
        keycloak_sid = bytes "kc1";
        id_token = [];
      })
      5 (new_session_manager 60)

abbrev all_nodes : Sanitizer
all_nodes = record { dangerous_nodes = [] }

abbrev now : SessionManager → ℕ
now s = 9

-- A handler that forgets all sessions.
abbrev forget : Handler SessionManager
forget context r s = (record { status = 200; header = []; body = [] }, new_session_manager 60)

abbrev chain : Handler SessionManager
chain = protected decode all_nodes web (λ s. s) now forget

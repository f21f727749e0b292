-- ===== src/Proxy.antt =====
-- knox-proxy/proxy/handler.go: requests go to the backend with the cookie of the user's team, and
-- once more if n8n says that the cookie is stale. The headers that ReverseProxy itself drops and adds
-- (hop by hop, X-Forwarded-For) are left out.
pub mod Headers
pub mod Responses
pub mod Requests
use knox_proxy.Base.{
  inr, inl, refl, has_prefix, ◌||◌, take, ◌==◌, eqb, ◌++◌, bytes, non_empty, to_upper, List, Option,
  if◌then◌else◌, ◌*◌, false, true, none, some, ◌∷◌, [], ℕ, Str, Bool,
}
use knox_proxy.Http.{get, add, set, plain_error, del, Header, Request, Response}
use knox_proxy.World.{World}
use knox_proxy.Cookie.{invalidate, browser_id, ok, failed, get_cookie, Pool, Login}
use knox_proxy.Credential.{TeamCredential, CredentialProvider}
use knox_proxy.Context.{resolve_team, RequestUser}

pub record ProxyHandler : Type 0 where
  pub provider : CredentialProvider
  pub group_prefix : Str
  pub target_scheme : Str
  pub target_host : Str

-- 32 MB. It is not an abbrev, so that no proof counts up to it.
unfoldable pub max_body_buffer_size : ℕ
max_body_buffer_size = 32 * 1024 * 1024

abbrev pub original_host : Request → Str
original_host req = if non_empty req.host then req.host else get (bytes "Host") req.header

abbrev pub inject_cookie : Str → Header → Header
inject_cookie [] header = header
inject_cookie (c ∷ cookie) header = set (bytes "Cookie") (bytes "n8n-auth=" ++ (c ∷ cookie)) header

abbrev pub forwarded_proto : Header → Header
forwarded_proto header =
    if non_empty (get (bytes "X-Forwarded-Proto") header)
    then header
    else set (bytes "X-Forwarded-Proto") (bytes "http") header

unfoldable pub director_header : Str → Str → Header → Header
director_header cookie host header = forwarded_proto (
    set (bytes "X-Forwarded-Host") host
      (set (bytes "Browser-Id") browser_id (inject_cookie cookie (del (bytes "Cookie") header))))

-- The cookie is the value in the context; "" is none.
unfoldable pub director : ProxyHandler → Str → Request → Request
unfolding director_header
director h cookie req = record req {
  scheme = h.target_scheme;
  url_host = h.target_host;
  host = original_host req;
  header = director_header cookie (original_host req) req.header;
}

unfoldable pub modify_response : Response → Response
modify_response resp = record resp { header = del (bytes "Set-Cookie") resp.header }

abbrev pub error_handler : Response
error_handler = plain_error 502 (bytes "Bad Gateway")

abbrev pub proxied : Option Response → Response
proxied none = error_handler
proxied (some resp) = modify_response resp

-- bufferedResponse
pub record BufferedResponse : Type 0 where
  pub headers : Header
  pub status_code : ℕ
  pub body : Str
  pub wrote_header : Bool

abbrev pub new_buffered_response : BufferedResponse
new_buffered_response = record { headers = []; status_code = 200; body = []; wrote_header = false }

unfoldable pub write_header : ℕ → BufferedResponse → BufferedResponse
write_header code b =
    if b.wrote_header then b else record b { status_code = code; wrote_header = true }

unfoldable pub write : Str → BufferedResponse → BufferedResponse
write chunk b =
    if b.wrote_header
    then record b { body = b.body ++ chunk }
    else record b { status_code = 200; wrote_header = true; body = b.body ++ chunk }

-- dst.Add for each value of each header.
unfoldable pub add_values : Str → List Str → Header → Header
add_values name [] dst = dst
add_values name (v ∷ vs) dst = add_values name vs (add name v dst)

unfoldable pub add_headers : Header → Header → Header
unfolding add_values
add_headers [] dst = dst
add_headers ((name, vs) ∷ src) dst = add_headers src (add_values name vs dst)

-- What ReverseProxy and http.Error do with the buffer that is their ResponseWriter.
unfoldable pub write_response : Response → BufferedResponse → BufferedResponse
unfolding add_headers write_header write
write_response resp b =
    write resp.body
      (write_header resp.status (record b { headers = add_headers resp.header b.headers }))

-- flushTo, onto the client's writer, of which nothing is written yet.
unfoldable pub flush_to : BufferedResponse → Response
unfolding add_headers
flush_to b = record { status = b.status_code; header = add_headers b.headers []; body = b.body }

unfoldable pub is_streaming_request : Request → Bool
is_streaming_request req =
    to_upper (get (bytes "Upgrade") req.header) == bytes "WEBSOCKET"
    || has_prefix req.path (bytes "/rest/push")
    || has_prefix req.path (bytes "/rest/events")

module _ (w : World) (h : ProxyHandler) where
  -- h.proxy.ServeHTTP with this cookie in the context.
  unfoldable pub reverse_proxy : Str → Request → w.State → Response × w.State
  unfolding director modify_response
  reverse_proxy cookie req s =
      let (resp, s') = w.send (director h cookie req) s in (proxied resp, s')

  abbrev pub Served : Type 0
  Served = Response × Pool × w.State

  unfoldable pub no_backend_session : Pool → w.State → Served
  no_backend_session p s = (plain_error 502 (bytes "Failed to establish backend session"), p, s)

  unfoldable pub finish_stream : Request → Login × Pool × w.State → Served
  finish_stream req (failed e, p, s) = no_backend_session p s
  finish_stream req (ok cookie, p, s) = let (resp, s') = reverse_proxy cookie req s in (resp, p, s')

  unfoldable pub serve_stream : TeamCredential → Request → Pool → w.State → Served
  serve_stream cred req p s = finish_stream req (get_cookie w cred.email cred.password p s)

  unfoldable pub attempt : Str → Request → w.State → BufferedResponse × w.State
  attempt cookie req s =
      let (resp, s') = reverse_proxy cookie req s in (write_response resp new_buffered_response, s')

  -- The second attempt; without a fresh cookie the first answer is given.
  unfoldable pub finish_retry : Request → BufferedResponse → Login × Pool × w.State → Served
  finish_retry req buf (failed e, p, s) = (flush_to buf, p, s)
  finish_retry req buf (ok fresh, p, s) =
      let (buf2, s') = attempt fresh req s in (flush_to buf2, p, s')

  unfoldable pub check_stale : TeamCredential → Request → Pool → BufferedResponse × w.State → Served
  check_stale cred req p (buf, s) =
      if eqb buf.status_code 401
      then finish_retry req buf (get_cookie w cred.email cred.password (invalidate cred.email p) s)
      else (flush_to buf, p, s)

  unfoldable pub finish_regular : TeamCredential → Request → Login × Pool × w.State → Served
  finish_regular cred req (failed e, p, s) = no_backend_session p s
  finish_regular cred req (ok cookie, p, s) = check_stale cred req p (attempt cookie req s)

  -- The body is read up to the limit, and what was read takes its place.
  unfoldable pub serve_buffered : TeamCredential → Request → Option Str → Pool → w.State → Served
  serve_buffered cred req none p s = (plain_error 400 (bytes "Failed to read request body"), p, s)
  serve_buffered cred req (some body) p s =
      finish_regular cred (record req { body = some (take max_body_buffer_size body) })
        (get_cookie w cred.email cred.password p s)

  unfoldable pub serve_regular : TeamCredential → Request → Pool → w.State → Served
  unfolding serve_buffered
  serve_regular cred req p s = serve_buffered cred req req.body p s

  unfoldable pub serve_team : Str → Request → Pool → w.State → Served
  serve_team team req p s = elim (h.provider.get_credential team) [
    | none ↦ (plain_error 500 (bytes "Team configuration error. Contact administrator."), p, s)
    | some cred ↦
        if is_streaming_request req then serve_stream cred req p s else serve_regular cred req p s
  ]

  unfoldable pub serve_user : RequestUser → Request → Pool → w.State → Served
  serve_user user req p s =
      let team = resolve_team user.groups h.group_prefix in
      if team == []
      then (
        plain_error 403 (
            bytes
              "No team assignment found. Ensure your Keycloak account belongs to a team group."),
        p,
        s,
      )
      else serve_team team req p s

  unfoldable pub serve_http : Option RequestUser → Request → Pool → w.State → Served
  serve_http none req p s = (plain_error 401 (bytes "Unauthorized"), p, s)
  serve_http (some user) req p s = serve_user user req p s

-- ===== src/Proxy/Requests.antt =====
-- What the proxy (knox-proxy/proxy/handler.go) does to the outside for one request of a client.
use mathlib.Core.Option.{some-injective}
use mathlib.Core.Option
use knox_proxy.Proxy.{
  serve_buffered, serve_regular, serve_stream, no_backend_session, BufferedResponse, reverse_proxy,
  serve_user, serve_team, finish_stream, finish_regular, check_stale, finish_retry, attempt,
  max_body_buffer_size, is_streaming_request, ProxyHandler, director, serve_http,
}
use knox_proxy.Base.{
  ◌==◌, eqb, Bool-cases, Option, ◌++◌, non_empty, if◌then◌else◌, Option-cases, bytes, suc, take,
  lookup, ℕ, Str, ◌≡◌, false, true, none, some, inr, inl, refl, ◌∷◌, [],
}
use knox_proxy.Http.{Request}
use knox_proxy.World.{World}
use knox_proxy.Cookie.{
  invalidate, browser_id, failed, ok, cached, Login, login_to_n8n, Pool, get_cookie, finish_login,
}
use knox_proxy.Proxy.Headers.{director_sterile}
use knox_proxy.Credential.{TeamCredential}
use knox_proxy.Context.{resolve_team, RequestUser}

-- A request of the client as it is sent on: the same method and path; as Cookie at most one of n8n's
-- own; KNOX's browser ID; and the body, of which only what is below the limit is kept if the request
-- is not a streaming one.
pub record IsOutgoing (req out : Request) : Type 0 where
  pub method : out.method ≡ req.method
  pub path : out.path ≡ req.path
  pub cookie : Str
  pub sterile :
      lookup (bytes "Cookie") out.header
      ≡ (if non_empty cookie then some ((bytes "n8n-auth=" ++ cookie) ∷ []) else none)
  pub browser : lookup (bytes "Browser-Id") out.header ≡ some (browser_id ∷ [])
  pub sent_body : out.body ≡ (
      if is_streaming_request req
      then req.body
      else Option.map (take max_body_buffer_size) req.body)

-- The request that the regular path goes on with.
abbrev truncated : Request → Str → Request
truncated req body = record req { body = some (take max_body_buffer_size body) }

module _ (w : World) (h : ProxyHandler) where
  -- Any number of logins, and at most n requests to the backend.
  pub data Run (req : Request) : ℕ → w.State → w.State → Type 0 where
    done : {n : ℕ} {s : w.State} → Run req n s s
    login :
        {n : ℕ} {s t : w.State} (email password : Str)
        → Run req n (w.login email password s).1 t
        → Run req n s t
    send :
        {n : ℕ} {s t : w.State} (out : Request)
        → IsOutgoing req out
        → Run req n (w.send out s).1 t
        → Run req (suc n) s t

  finish_login_state :
      (email : Str) (p : Pool) (m : Login × w.State) → (finish_login w email p m).2 ≡ m.1
  unfolding finish_login
  finish_login_state email p (ok v, s) = refl
  finish_login_state email p (failed e, s) = refl

  get_cookie-Run :
      (req : Request) (n : ℕ) (email password : Str) (p : Pool) (s t : w.State)
      → Run req n (get_cookie w email password p s).2 t
      → Run req n s t
  unfolding get_cookie login_to_n8n
  get_cookie-Run req n email password p s t r = elim (Option-cases (cached email (w.now s) p)) [
    | inl miss ↦ login email password (
        rw (finish_login_state email p (login_to_n8n w email password s)) at
          (rw (miss, get_cookie) at r))
    | inr (v, hit) ↦ rw (hit, get_cookie) at r
  ]

  director-IsOutgoing_stream :
      (req : Request) (cookie : Str)
      → is_streaming_request req ≡ true
      → IsOutgoing req (director h cookie req)
  director-IsOutgoing_stream req cookie streams =
      let headers = director_sterile h cookie req in
      record {
        method = unfold director in refl;
        path = unfold director in refl;
        cookie = cookie;
        sterile = headers.0;
        browser = headers.1;
        sent_body = unfold director in rw streams refl;
      }

  director-IsOutgoing :
      (req : Request) (body cookie : Str)
      → is_streaming_request req ≡ false
      → req.body ≡ some body
      → IsOutgoing req (director h cookie (truncated req body))
  director-IsOutgoing req body cookie regular readable =
      let headers = director_sterile h cookie (truncated req body) in
      record {
        method = unfold director in refl;
        path = unfold director in refl;
        cookie = cookie;
        sterile = headers.0;
        browser = headers.1;
        sent_body = unfold director in rw (regular, readable) refl;
      }

  module _ (req : Request) (body : Str) (regular : is_streaming_request req ≡ false)
      (readable : req.body ≡ some body) where
    attempt-Run :
        (n : ℕ) (cookie : Str) (s t : w.State)
        → Run req n (attempt w h cookie (truncated req body) s).1 t
        → Run req (suc n) s t
    unfolding attempt reverse_proxy
    attempt-Run n cookie s t r =
        send (director h cookie (truncated req body))
          (director-IsOutgoing req body cookie regular readable) r

    retry-Run :
        (buf : BufferedResponse) (m : Login × Pool × w.State)
        → Run req 1 m.2 (finish_retry w h (truncated req body) buf m).2
    unfolding finish_retry
    retry-Run buf (failed e, p, s) = done
    retry-Run buf (ok fresh, p, s) = attempt-Run 0 fresh s _ done

    stale-Run :
        (cred : TeamCredential) (p : Pool) (buf : BufferedResponse) (s : w.State)
        → Run req 1 s (check_stale w h cred (truncated req body) p (buf, s)).2
    unfolding check_stale
    stale-Run cred p buf s = elim (Bool-cases (eqb buf.status_code 401)) [
      | inl stale ↦ rw stale (
          get_cookie-Run req 1 cred.email cred.password (invalidate cred.email p) s _
            (retry-Run buf _))
      | inr good ↦ rw good done
    ]

    regular-Run :
        (cred : TeamCredential) (m : Login × Pool × w.State)
        → Run req 2 m.2 (finish_regular w h cred (truncated req body) m).2
    unfolding finish_regular no_backend_session
    regular-Run cred (failed e, p, s) = done
    regular-Run cred (ok cookie, p, s) = attempt-Run 1 cookie s _ (
        stale-Run cred p (attempt w h cookie (truncated req body) s).0
          (attempt w h cookie (truncated req body) s).1)

  stream-Run :
      (req : Request) (m : Login × Pool × w.State)
      → is_streaming_request req ≡ true
      → Run req 2 m.2 (finish_stream w h req m).2
  unfolding finish_stream reverse_proxy no_backend_session
  stream-Run req (failed e, p, s) streams = done
  stream-Run req (ok cookie, p, s) streams =
      send (director h cookie req) (director-IsOutgoing_stream req cookie streams) done

  buffered-Run :
      (cred : TeamCredential) (req : Request) (content : Option Str) (p : Pool) (s : w.State)
      → is_streaming_request req ≡ false
      → req.body ≡ content
      → Run req 2 s (serve_buffered w h cred req content p s).2
  unfolding serve_buffered
  buffered-Run cred req none p s regular e = done
  buffered-Run cred req (some body) p s regular e =
      get_cookie-Run req 2 cred.email cred.password p s _ (regular-Run req body regular e cred _)

  team-Run :
      (team : Str) (req : Request) (p : Pool) (s : w.State)
      → Run req 2 s (serve_team w h team req p s).2
  unfolding serve_team serve_stream serve_regular
  team-Run team req p s = elim (Option-cases (h.provider.get_credential team)) [
    | inl unknown ↦ rw (unknown, serve_team) done
    | inr (cred, known) ↦ elim (Bool-cases (is_streaming_request req)) [
      | inl streams ↦
          rw (known, serve_team, streams)
            (get_cookie-Run req 2 cred.email cred.password p s _ (stream-Run req _ streams))
      | inr regular ↦
          rw (known, serve_team, regular) (buffered-Run cred req req.body p s regular refl)
    ]
  ]

  -- For one request of a client the proxy logs in where it has no cookie and sends at most two
  -- requests to the backend, each of them the client's with only n8n's cookie. The body that is sent
  -- for a regular request is cut off at the limit.
  pub serve_http-Run :
      (user : Option RequestUser) (req : Request) (p : Pool) (s : w.State)
      → Run req 2 s (serve_http w h user req p s).2
  unfolding serve_http serve_user
  serve_http-Run none req p s = done
  serve_http-Run (some user) req p s =
      elim (Bool-cases (resolve_team user.groups h.group_prefix == [])) [
        | inl teamless ↦ rw teamless done
        | inr member ↦ rw member (team-Run (resolve_team user.groups h.group_prefix) req p s)
      ]

-- ===== src/Proxy/Responses.antt =====
-- No cookie of n8n reaches the client (knox-proxy/proxy/handler.go).
use knox_proxy.Proxy.{
  serve_buffered, is_streaming_request, serve_regular, serve_stream, BufferedResponse,
  no_backend_session, serve_user, serve_team, finish_regular, check_stale, finish_retry,
  finish_stream, attempt, new_buffered_response, proxied, reverse_proxy, write_response, flush_to,
  modify_response, add_headers, add_values, ProxyHandler, director, serve_http,
}
use knox_proxy.Base.{
  eqb, Option-cases, Bool-cases, ◌∙◌, ◌++◌, eq_refl, lookup-insert, arith, ◌==◌, List, ◌≡◌, Option,
  Str, bytes, lookup, false, none, some, inr, inl, refl, ◌∷◌, [],
}
use knox_proxy.Http.{values, Request, Header, add, Response}
use knox_proxy.World.{World}
use knox_proxy.Proxy.Headers.{lookup-del}
use knox_proxy.Credential.{TeamCredential}
use knox_proxy.Context.{resolve_team, RequestUser}
use knox_proxy.Cookie.{ok, failed, Pool, Login}

abbrev pub HasNoSetCookie : Response → Type 0
HasNoSetCookie resp = lookup (bytes "Set-Cookie") resp.header ≡ none

lookup-add_values :
    (name j : Str) (vs : List Str) (dst : Header)
    → (name == j) ≡ false
    → lookup j (add_values name vs dst) ≡ lookup j dst
unfolding add_values add
lookup-add_values name j [] dst h = refl
lookup-add_values name j (v ∷ vs) dst h = ground (
  arith,
  lookup-add_values name j vs (add name v dst) h,
  lookup-insert name j (values (lookup name dst) ++ v ∷ []) dst,
)

lookup-add_headers :
    (j : Str) (src dst : Header)
    → lookup j src ≡ none
    → lookup j (add_headers src dst) ≡ lookup j dst
unfolding add_headers lookup
lookup-add_headers j [] dst h = refl
lookup-add_headers j ((name, vs) ∷ src) dst h =
    ground
      (arith, lookup-add_headers j src (add_values name vs dst), lookup-add_values name j vs dst)

lookup_empty : (j : Str) → lookup {V = List Str} j [] ≡ none
unfolding lookup
lookup_empty j = refl

proxied-HasNoSetCookie : (resp : Option Response) → HasNoSetCookie (proxied resp)
unfolding modify_response
proxied-HasNoSetCookie none = lookup_empty (bytes "Set-Cookie")
proxied-HasNoSetCookie (some resp) = rw (lookup-del, eq_refl (bytes "Set-Cookie"))

-- Writing a response to a new buffer and flushing the buffer.
flushed-HasNoSetCookie :
    (resp : Response)
    → HasNoSetCookie resp
    → HasNoSetCookie (flush_to (write_response resp new_buffered_response))
unfolding flush_to write_response
flushed-HasNoSetCookie resp h =
    let inner =
      lookup-add_headers (bytes "Set-Cookie") resp.header [] h
      ∙ lookup_empty (bytes "Set-Cookie") in
    lookup-add_headers (bytes "Set-Cookie") (add_headers resp.header []) [] inner
    ∙ lookup_empty (bytes "Set-Cookie")

module _ (w : World) (h : ProxyHandler) where
  reverse_proxy-HasNoSetCookie :
      (cookie : Str) (req : Request) (s : w.State)
      → HasNoSetCookie (reverse_proxy w h cookie req s).0
  unfolding reverse_proxy
  reverse_proxy-HasNoSetCookie cookie req s =
      proxied-HasNoSetCookie (w.send (director h cookie req) s).0

  attempt-HasNoSetCookie :
      (cookie : Str) (req : Request) (s : w.State)
      → HasNoSetCookie (flush_to (attempt w h cookie req s).0)
  unfolding attempt
  attempt-HasNoSetCookie cookie req s =
      flushed-HasNoSetCookie (reverse_proxy w h cookie req s).0
        (reverse_proxy-HasNoSetCookie cookie req s)

  stream-HasNoSetCookie :
      (req : Request) (m : Login × Pool × w.State) → HasNoSetCookie (finish_stream w h req m).0
  unfolding finish_stream no_backend_session
  stream-HasNoSetCookie req (failed e, p, s) = lookup_empty (bytes "Set-Cookie")
  stream-HasNoSetCookie req (ok cookie, p, s) = reverse_proxy-HasNoSetCookie cookie req s

  retry-HasNoSetCookie :
      (req : Request) (buf : BufferedResponse) (m : Login × Pool × w.State)
      → HasNoSetCookie (flush_to buf)
      → HasNoSetCookie (finish_retry w h req buf m).0
  unfolding finish_retry
  retry-HasNoSetCookie req buf (failed e, p, s) k = k
  retry-HasNoSetCookie req buf (ok fresh, p, s) k = attempt-HasNoSetCookie fresh req s

  stale-HasNoSetCookie :
      (cred : TeamCredential) (req : Request) (p : Pool) (buf : BufferedResponse) (s : w.State)
      → HasNoSetCookie (flush_to buf)
      → HasNoSetCookie (check_stale w h cred req p (buf, s)).0
  unfolding check_stale
  stale-HasNoSetCookie cred req p buf s k = elim (Bool-cases (eqb buf.status_code 401)) [
    | inl stale ↦ rw stale (retry-HasNoSetCookie req buf _ k)
    | inr good ↦ rw good k
  ]

  regular-HasNoSetCookie :
      (cred : TeamCredential) (req : Request) (m : Login × Pool × w.State)
      → HasNoSetCookie (finish_regular w h cred req m).0
  unfolding finish_regular no_backend_session
  regular-HasNoSetCookie cred req (failed e, p, s) = lookup_empty (bytes "Set-Cookie")
  regular-HasNoSetCookie cred req (ok cookie, p, s) =
      stale-HasNoSetCookie cred req p (attempt w h cookie req s).0 (attempt w h cookie req s).1
        (attempt-HasNoSetCookie cookie req s)

  team-HasNoSetCookie :
      (team : Str) (req : Request) (p : Pool) (s : w.State)
      → HasNoSetCookie (serve_team w h team req p s).0
  unfolding serve_team serve_stream serve_regular
  team-HasNoSetCookie team req p s = elim (Option-cases (h.provider.get_credential team)) [
    | inl unknown ↦ rw (unknown, serve_team) (lookup_empty (bytes "Set-Cookie"))
    | inr (cred, known) ↦ elim (Bool-cases (is_streaming_request req)) [
      | inl streams ↦ rw (known, serve_team, streams) (stream-HasNoSetCookie req _)
      | inr regular ↦ elim (Option-cases req.body) [
        | inl unread ↦ rw (known, serve_team, regular, unread) (lookup_empty (bytes "Set-Cookie"))
        | inr (body, readable) ↦
            rw (known, serve_team, regular, readable, serve_buffered)
              (regular-HasNoSetCookie cred _ _)
      ]
    ]
  ]

  -- On no path does the answer to the client have a Set-Cookie header, whatever n8n answers.
  pub serve_http-HasNoSetCookie :
      (user : Option RequestUser) (req : Request) (p : Pool) (s : w.State)
      → HasNoSetCookie (serve_http w h user req p s).0
  unfolding serve_http serve_user
  serve_http-HasNoSetCookie none req p s = lookup_empty (bytes "Set-Cookie")
  serve_http-HasNoSetCookie (some user) req p s =
      elim (Bool-cases (resolve_team user.groups h.group_prefix == [])) [
        | inl teamless ↦ rw teamless (lookup_empty (bytes "Set-Cookie"))
        | inr member ↦
            rw member (team-HasNoSetCookie (resolve_team user.groups h.group_prefix) req p s)
      ]

-- ===== src/Proxy/Headers.antt =====
-- Which cookies and headers pass the proxy (knox-proxy/proxy/handler.go), in both directions.
use knox_proxy.Proxy.{inject_cookie, forwarded_proto, original_host, ProxyHandler, director}
use knox_proxy.Base.{
  arith, lookup-delete, lookup-insert, eq_refl, ◌==◌, ◌++◌, non_empty, if◌then◌else◌, ◌≡◌, lookup,
  bytes, Str, false, none, some, refl, ◌∷◌, [],
}
use knox_proxy.Http.{Header, del, set, Request}
use knox_proxy.Cookie.{browser_id}

pub lookup-set :
    (k j v : Str) (m : Header)
    → lookup j (set k v m) ≡ (if k == j then some (v ∷ []) else lookup j m)
unfolding set
lookup-set k j v m = lookup-insert k j (v ∷ []) m

pub lookup-del :
    (k j : Str) (m : Header) → lookup j (del k m) ≡ (if k == j then none else lookup j m)
unfolding del
lookup-del k j m = lookup-delete k j m

-- The headers that the director writes have different names.
proto_cookie : (bytes "X-Forwarded-Proto" == bytes "Cookie") ≡ false
unfolding bytes ◌==◌
proto_cookie = refl

proto_browser : (bytes "X-Forwarded-Proto" == bytes "Browser-Id") ≡ false
unfolding bytes ◌==◌
proto_browser = refl

proto_host : (bytes "X-Forwarded-Proto" == bytes "X-Forwarded-Host") ≡ false
unfolding bytes ◌==◌
proto_host = refl

host_cookie : (bytes "X-Forwarded-Host" == bytes "Cookie") ≡ false
unfolding bytes ◌==◌
host_cookie = refl

host_browser : (bytes "X-Forwarded-Host" == bytes "Browser-Id") ≡ false
unfolding bytes ◌==◌
host_browser = refl

browser_cookie : (bytes "Browser-Id" == bytes "Cookie") ≡ false
unfolding bytes ◌==◌
browser_cookie = refl

lookup-forwarded_proto :
    (j : Str) (m : Header)
    → (bytes "X-Forwarded-Proto" == j) ≡ false
    → lookup j (forwarded_proto m) ≡ lookup j m
lookup-forwarded_proto j m h =
    ground (arith, lookup-set (bytes "X-Forwarded-Proto") j (bytes "http") m)

lookup-inject_cookie :
    (cookie : Str) (m : Header)
    → lookup (bytes "Cookie") (inject_cookie cookie (del (bytes "Cookie") m))
      ≡ (if non_empty cookie then some ((bytes "n8n-auth=" ++ cookie) ∷ []) else none)
lookup-inject_cookie [] m = rw (lookup-del, eq_refl (bytes "Cookie"))
lookup-inject_cookie (c ∷ cookie) m = rw (lookup-set, eq_refl (bytes "Cookie"))

-- The Cookie header of what is sent is the team's cookie alone, or missing if there is none; nothing
-- of the client's cookies is left. The browser ID is always KNOX's.
pub director_sterile :
    (h : ProxyHandler) (cookie : Str) (req : Request)
    → (lookup (bytes "Cookie") (director h cookie req).header
        ≡ (if non_empty cookie then some ((bytes "n8n-auth=" ++ cookie) ∷ []) else none))
      × (lookup (bytes "Browser-Id") (director h cookie req).header ≡ some (browser_id ∷ []))
      × (lookup (bytes "X-Forwarded-Host") (director h cookie req).header
          ≡ some (original_host req ∷ []))
unfolding director
director_sterile h cookie req = (
  rw (lookup-forwarded_proto _ _ proto_cookie, lookup-set, host_cookie, lookup-set, browser_cookie)
      (lookup-inject_cookie cookie req.header),
  rw (
    lookup-forwarded_proto _ _ proto_browser,
    lookup-set,
    host_browser,
    lookup-set,
    eq_refl (bytes "Browser-Id"),
  ),
  rw (lookup-forwarded_proto _ _ proto_host, lookup-set, eq_refl (bytes "X-Forwarded-Host")),
)

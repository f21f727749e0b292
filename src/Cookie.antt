-- ===== src/Cookie.antt =====
-- knox-proxy/cookie/pool.go: n8n's session cookies, kept for each email until they are too old. The
-- lock is free during a login; here no request overtakes another. Those that do are in Interleaved.
pub mod Laws
pub mod Interleaved
use knox_proxy.Base.{
  ltb, eqb, ◌==◌, lookup, if◌then◌else◌, delete, insert, Option, List, bytes, ◌*◌, none, some, ◌∷◌,
  [], ℕ, ◌+◌, Str, Map,
}
use knox_proxy.World.{World, LoginResponse}
use knox_proxy.Session.{second}

pub record CachedCookie : Type 0 where
  pub value : Str
  pub expires_at : ℕ

pub record Pool : Type 0 where
  pub cookies : Map CachedCookie
  pub ttl : ℕ

abbrev pub new_pool : ℕ → Pool
new_pool ttl_seconds = record { cookies = []; ttl = ttl_seconds * second }

abbrev pub browser_id : Str
unfolding bytes
browser_id = bytes "knox-proxy-session"

pub data LoginError : Type 0 where
  request_failed : LoginError
  http_status : ℕ → LoginError
  cookie_not_found : LoginError

pub data Login : Type 0 where
  ok : Str → Login
  failed : LoginError → Login

-- The loop over the cookies of the answer: the first that is called n8n-auth.
unfoldable pub find_cookie : List (Str × Str) → Option Str
find_cookie [] = none
find_cookie ((name, value) ∷ cookies) =
    if name == bytes "n8n-auth" then some value else find_cookie cookies

abbrev pub login_value : Option Str → Login
login_value none = failed cookie_not_found
login_value (some value) = ok value

unfoldable pub login_result : Option LoginResponse → Login
unfolding find_cookie
login_result none = failed request_failed
login_result (some resp) =
    if eqb resp.status 200
    then login_value (find_cookie resp.cookies)
    else failed (http_status resp.status)

-- Now is before the cookie's end.
unfoldable pub cached : Str → ℕ → Pool → Option Str
cached email now p = elim (lookup email p.cookies) [
  | none ↦ none
  | some c ↦ if ltb now c.expires_at then some c.value else none
]

unfoldable pub store : Str → Str → ℕ → Pool → Pool
store email value now p = record p {
  cookies = insert email (record { value = value; expires_at = now + p.ttl }) p.cookies;
}

unfoldable pub invalidate : Str → Pool → Pool
invalidate email p = record p { cookies = delete email p.cookies }

unfoldable pub invalidate_all : Pool → Pool
invalidate_all p = record p { cookies = [] }

module _ (w : World) where
  unfoldable pub login_to_n8n : Str → Str → w.State → Login × w.State
  unfolding login_result
  login_to_n8n email password s =
      let (resp, s') = w.login email password s in (login_result resp, s')

  -- The part of GetCookie behind the cache.
  unfoldable pub finish_login : Str → Pool → Login × w.State → Login × Pool × w.State
  finish_login email p (failed e, s) = (failed e, p, s)
  finish_login email p (ok value, s) = (ok value, store email value (w.now s) p, s)

  unfoldable pub get_cookie : Str → Str → Pool → w.State → Login × Pool × w.State
  unfolding login_to_n8n finish_login cached
  get_cookie email password p s = elim (cached email (w.now s) p) [
    | some value ↦ (ok value, p, s)
    | none ↦ finish_login email p (login_to_n8n email password s)
  ]

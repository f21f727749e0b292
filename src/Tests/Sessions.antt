-- ===== src/Tests/Sessions.antt =====
-- Sessions and cookies at concrete inputs (knox-proxy/auth/session.go, knox-proxy/cookie/pool.go).
use knox_proxy.Base.{
  insert, inr, inl, Str, ◌*◌, ltb, ◌==◌, ◌+◌, arith, if◌then◌else◌, ℕ, bytes, ◌≡◌, lookup, none,
  some, refl, ◌∷◌, [],
}
use knox_proxy.Session.{
  expiry, second, hex_encode, create_session, session_of, destroy_by_keycloak_sid, store_session,
  new_session_manager, get_session, Identity, SessionManager,
}
use knox_proxy.Session.Invariant.{store_session-IsConsistent, IsConsistent}
use knox_proxy.Cookie.{store, finish_login, ok, get_cookie, login_to_n8n, new_pool, cached, Pool}
use knox_proxy.World.{World}
use knox_proxy.Session.Backchannel.{relogin_survives, store_session-IsIndexed, IsIndexed}
use knox_proxy.Session.Access.{long_lifetime, get-create_session}
use knox_proxy.Cookie.Laws.{get_cookie_again}
use knox_proxy.Cookie.Interleaved.{
  begun, logged_in, finished, finish, cached-given, WasGiven, at_rest, log_in, Shared,
}

abbrev nobody : SessionManager
nobody = new_session_manager 60

abbrev ann : Identity
ann = record {
  email = bytes "ann@x.org";
  display_name = bytes "Ann";
  groups = bytes "/team-a" ∷ [];
  jit_roles = bytes "edit:w1" ∷ [];
  keycloak_sid = bytes "kc1";
  id_token = [];
}

nobody-IsConsistent : IsConsistent nobody
unfolding lookup
nobody-IsConsistent = record { ids = λ id s h. cc h; index = λ sid id h. cc h; named = refl }

nobody-IsIndexed : IsIndexed nobody
unfolding lookup
nobody-IsIndexed = λ id s h. cc h

abbrev one : SessionManager
one = store_session (bytes "s1") ann 5 nobody

one-IsConsistent : IsConsistent one
unfolding lookup
one-IsConsistent = store_session-IsConsistent nobody nobody-IsConsistent (bytes "s1") ann 5 refl

one-IsIndexed : IsIndexed one
unfolding lookup
one-IsIndexed =
    store_session-IsIndexed (bytes "s1") ann 5 nobody refl (λ j s h. cc h) nobody-IsIndexed

relogin_survives_example :
    get_session
      (bytes "s1")
      9
      (destroy_by_keycloak_sid (bytes "kc1") (store_session (bytes "s1x") ann 7 one)).1
    ≡ some (session_of (bytes "s1") ann 60 5)
unfolding bytes expiry
relogin_survives_example =
    relogin_survives (bytes "s1") (bytes "s1x") ann ann 5 7 9 nobody (λ e. cc e) (λ e. cc e) refl
      (omega arith)

get-create_session_example :
    get_session (bytes "0102") 9 (create_session (some (1 ∷ 2 ∷ [])) ann 5 nobody).1 ≡ (
      if hex_encode (1 ∷ 2 ∷ []) == bytes "0102"
      then (if ltb (5 + 60 * second) 9
          then none
          else some (session_of (hex_encode (1 ∷ 2 ∷ [])) ann 60 5))
      else get_session (bytes "0102") 9 nobody)
get-create_session_example =
    get-create_session (1 ∷ 2 ∷ []) ann 5 9 nobody (bytes "0102") (omega arith)

abbrev random : Str
random = 1 ∷ 255 ∷ []

abbrev pool : Pool
pool = new_pool 30

-- n8n gives every login the cookie "c1", and the clock stands at the state.
abbrev world : World
world = record {
  State = ℕ;
  now = λ s. s;
  login = λ email password s.
      (some (record { status = 200; cookies = (bytes "n8n-auth", bytes "c1") ∷ [] }), s + 1);
  send = λ r s. (none, s);
}

get_cookie_again_example :
    let served = get_cookie world (bytes "a") (bytes "pw") pool 5 in
    (served.0 ≡ ok (bytes "c1"))
    × (get_cookie world (bytes "a") (bytes "pw") served.1 7 ≡ (
        if ltb (world.now 7) (world.now served.2 + pool.ttl)
        then (ok (bytes "c1"), served.1, 7)
        else finish_login world
            (bytes "a")
            served.1
            (login_to_n8n world (bytes "a") (bytes "pw") 7)))
unfolding cached login_to_n8n ◌==◌ bytes lookup
get_cookie_again_example =
    get_cookie_again world (bytes "a") (bytes "pw") (bytes "c1") pool 5 7 refl refl

abbrev resting : Shared world
resting = at_rest world (new_pool 60) 5

-- Two logins, before the cookie of the one is stored.
abbrev asked_twice : Shared world
asked_twice = log_in world (bytes "b") (bytes "pw") (log_in world (bytes "a") (bytes "pw") resting)

-- The one stores its cookie after the other has asked.
abbrev kept_one : Shared world
kept_one =
    finish world (bytes "a") (world.login (bytes "a") (bytes "pw") resting.outside).0 asked_twice

cached-given_example : WasGiven (bytes "a") (bytes "c1") kept_one.answers
unfolding log_in finish login_to_n8n ◌==◌ bytes store cached lookup insert
cached-given_example =
    cached-given world 60 6 (bytes "a") (bytes "c1") 5 kept_one
      (finished asked_twice (bytes "a") (world.login (bytes "a") (bytes "pw") resting.outside).0
        (logged_in (log_in world (bytes "a") (bytes "pw") resting) (bytes "b") (bytes "pw")
          (logged_in resting (bytes "a") (bytes "pw") begun))
        (inr (inl refl)))
      refl

abbrev ever : SessionManager
ever = new_session_manager 9_223_372_037

long_lifetime_example :
    get_session (hex_encode (1 ∷ 2 ∷ [])) 5 (create_session (some (1 ∷ 2 ∷ [])) ann 5 ever).1 ≡ none
long_lifetime_example =
    long_lifetime (1 ∷ 2 ∷ []) ann 5 5 ever (omega arith) (omega arith) (omega arith) (omega arith)

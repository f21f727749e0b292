-- ===== src/Oidc.antt =====
-- knox-proxy/auth/oidc.go: login by Keycloak. The libraries oauth2 and go-oidc, the query of a request
-- and what net/url makes of one are parameters; log lines are left out. The map of the states has a
-- lock of its own, which each operation holds while it uses the map.
pub mod States
pub mod SignOut
pub mod Laws
pub mod Claims
use mathlib.Core.Option
use knox_proxy.Base.{
  delete, non_empty, eqb, ltb, ◌++◌, if◌then◌else◌, ◌+◌, bytes, keys, lookup, insert, ◌*◌, Map,
  List, Option, ℕ, Str, false, true, none, some, inr, inl, refl, ◌∷◌, [],
}
use knox_proxy.Http.{plain_error, add, set, Request, Response, Header}
use knox_proxy.Session.{
  destroy_session, create_session, second, SessionManager, Identity, hex_encode,
}
use knox_proxy.Jit.Numbers.{decimal}

pub record OidcClaims : Type 0 where
  pub email : Str
  pub name : Str
  pub preferred_username : Str
  pub groups : List Str
  pub session_id : Str
  -- the roles of each client
  pub resource_access : Map (List Str)

pub record StateEntry : Type 0 where
  pub redirect_url : Str
  pub expires_at : ℕ

pub record OidcAuth : Type 0 where
  pub client_id : Str
  pub redirect_url : Str
  pub end_session_endpoint : Str
  pub states : Map StateEntry

-- What the handlers call outside.
pub record Oidc : Type 0 where
  -- r.URL.Query().Get(…)
  pub query : Str → Request → Str
  pub auth_code_url : Str → Str
  -- Exchange, to the token's id_token, if it has one; none is an error.
  pub exchange : Str → Option (Option Str)
  -- Verify, to the claims, if they can be read; none is an error.
  pub verify : Str → Option (Option OidcClaims)
  -- a URL with parameters set in its query, encoded
  pub with_params : Str → List (Str × Str) → Str
  -- a URL with the path "/"
  pub at_root : Str → Str
  -- the Location that http.Redirect writes for a URL
  pub location : Request → Str → Str
  pub session_cookie : Request → Str

abbrev pub ten_minutes : ℕ
ten_minutes = 600 * second

-- generateRandomString, for what crypto/rand gives
unfoldable pub generate_random_string : Option Str → Option Str
generate_random_string random = Option.map hex_encode random

abbrev pub redirect_to : Str → Header → Response
redirect_to url header = record {
  status = 302;
  header = set (bytes "Location") url header;
  body = [];
}

-- A login stores its state.
unfoldable pub put_state : Str → Str → ℕ → OidcAuth → OidcAuth
put_state state redirect now a = record a {
  states =
      insert state (record { redirect_url = redirect; expires_at = now + ten_minutes }) a.states;
}

-- now.After(entry.expiresAt) does not hold.
abbrev pub live_entry : ℕ → Option StateEntry → Option StateEntry
live_entry now none = none
live_entry now (some entry) = if ltb entry.expires_at now then none else some entry

-- A callback uses up its state; none is an invalid or an expired one.
unfoldable pub take_state : Str → ℕ → OidcAuth → Option StateEntry × OidcAuth
take_state state now a = elim (lookup state a.states) [
  | none ↦ (none, a)
  | some entry ↦ (live_entry now (some entry), record a { states = delete state a.states })
]

-- One round of the loop of cleanStates.
unfoldable pub clean_state : ℕ → Str → Map StateEntry → Map StateEntry
clean_state now key states = elim (lookup key states) [
  | none ↦ states
  | some entry ↦ if ltb entry.expires_at now then delete key states else states
]

unfoldable pub clean_keys : ℕ → List Str → Map StateEntry → Map StateEntry
unfolding clean_state
clean_keys now [] states = states
clean_keys now (key ∷ ks) states = clean_keys now ks (clean_state now key states)

-- cleanStates, at one tick
unfoldable pub clean_states : ℕ → OidcAuth → OidcAuth
unfolding clean_keys
clean_states now a = record a { states = clean_keys now (keys a.states) a.states }

abbrev pub or_else : Str → Str → Str
or_else [] t = t
or_else (c ∷ s) t = c ∷ s

unfoldable pub display_name_of : OidcClaims → Str
display_name_of claims = or_else (or_else claims.name claims.preferred_username) claims.email

abbrev roles_or_nil : Option (List Str) → List Str
roles_or_nil none = []
roles_or_nil (some roles) = roles

unfoldable pub jit_roles_of : Str → OidcClaims → List Str
jit_roles_of client_id claims = roles_or_nil (lookup client_id claims.resource_access)

-- The arguments of CreateSession.
unfoldable pub identity_of : Str → OidcClaims → Str → Identity
unfolding display_name_of jit_roles_of
identity_of client_id claims raw_id_token = record {
  email = claims.email;
  display_name = display_name_of claims;
  groups = claims.groups;
  jit_roles = jit_roles_of client_id claims;
  keycloak_sid = claims.session_id;
  id_token = raw_id_token;
}

-- SetSessionCookie of knox-proxy/auth/session.go; net/http leaves Max-Age out if it is 0.
unfoldable pub set_session_cookie : ℕ → Str → Header → Header
set_session_cookie max_age id header =
    add (bytes "Set-Cookie")
      (bytes "knox_session="
        ++ (id
            ++ (bytes "; Path=/"
                ++ ((if eqb max_age 0 then [] else bytes "; Max-Age=" ++ decimal max_age)
                    ++ bytes "; HttpOnly; SameSite=Lax"))))
      header

-- ClearSessionCookie
abbrev pub cleared_cookie : Header → Header
cleared_cookie header =
    add (bytes "Set-Cookie") (bytes "knox_session=; Path=/; Max-Age=0; HttpOnly") header

abbrev pub internal_error : Response
internal_error = plain_error 500 (bytes "Internal error")

module _ (o : Oidc) where
  -- LoginHandler
  unfoldable pub login_handler : Option Str → Request → ℕ → OidcAuth → Response × OidcAuth
  unfolding put_state
  login_handler random r now a = elim (generate_random_string random) [
    | none ↦ (internal_error, a)
    | some state ↦ (
      redirect_to (o.location r (o.auth_code_url state)) [],
      put_state state (o.query (bytes "redirect") r) now a,
    )
  ]

  -- The part of CallbackHandler behind the claims.
  unfoldable pub start_session :
      StateEntry → Request → Option Str × SessionManager → Response × SessionManager
  start_session entry r (none, sm) = (plain_error 500 (bytes "Session creation failed"), sm)
  start_session entry r (some id, sm) = (
    redirect_to (o.location r (or_else entry.redirect_url (bytes "/")))
        (set_session_cookie sm.max_age id []),
    sm,
  )

  unfoldable pub with_verified :
      Str
      → Option Str
      → StateEntry
      → Request
      → ℕ
      → Str
      → Option OidcClaims
      → SessionManager
      → Response × SessionManager
  with_verified client_id random entry r now raw none sm =
      (plain_error 500 (bytes "Failed to read user claims"), sm)
  with_verified client_id random entry r now raw (some claims) sm =
      start_session entry r (create_session random (identity_of client_id claims raw) now sm)

  unfoldable pub with_id_token :
      Str → Option Str → StateEntry → Request → ℕ → Str → SessionManager → Response × SessionManager
  with_id_token client_id random entry r now raw sm = elim (o.verify raw) [
    | none ↦ (plain_error 401 (bytes "Invalid ID token"), sm)
    | some claims ↦ with_verified client_id random entry r now raw claims sm
  ]

  unfoldable pub with_token :
      Str
      → Option Str
      → StateEntry
      → Request
      → ℕ
      → Option (Option Str)
      → SessionManager
      → Response × SessionManager
  with_token client_id random entry r now none sm =
      (plain_error 500 (bytes "Failed to exchange authorization code"), sm)
  with_token client_id random entry r now (some none) sm =
      (plain_error 500 (bytes "No ID token in response"), sm)
  with_token client_id random entry r now (some (some raw)) sm =
      with_id_token client_id random entry r now raw sm

  unfoldable pub with_state :
      Str
      → Option Str
      → Request
      → ℕ
      → Option StateEntry
      → SessionManager
      → Response × SessionManager
  with_state client_id random r now none sm =
      (plain_error 400 (bytes "Invalid or expired state parameter"), sm)
  with_state client_id random r now (some entry) sm =
      if non_empty (o.query (bytes "error") r)
      then (
        plain_error 401 (bytes "Authentication error: " ++ o.query (bytes "error_description") r),
        sm,
      )
      else with_token client_id random entry r now (o.exchange (o.query (bytes "code") r)) sm

  -- CallbackHandler
  unfoldable pub callback_handler :
      Option Str → Request → ℕ → OidcAuth → SessionManager → Response × OidcAuth × SessionManager
  unfolding take_state
  callback_handler random r now a sm =
      let (entry, a') = take_state (o.query (bytes "state") r) now a in
      let (resp, sm') = with_state a.client_id random r now entry sm in (resp, a', sm')

  -- The end of the session at Keycloak, or the login page.
  unfoldable pub logout_target : OidcAuth → Str
  logout_target a = elim a.end_session_endpoint [
    | [] ↦ bytes "/auth/login"
    | c ∷ endpoint ↦ o.with_params (c ∷ endpoint) (
        (bytes "client_id", a.client_id)
        ∷ (bytes "post_logout_redirect_uri", o.at_root a.redirect_url)
        ∷ [])
  ]

  -- LogoutHandler; URLs of the configuration that net/url cannot parse make it panic, and are left out.
  unfoldable pub logout_handler : Request → OidcAuth → SessionManager → Response × SessionManager
  unfolding logout_target
  logout_handler r a sm =
      let id = o.session_cookie r in
      (
        redirect_to (o.location r (logout_target a)) (cleared_cookie []),
        if non_empty id then destroy_session id sm else sm,
      )

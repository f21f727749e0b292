-- ===== src/Tests/Logins.antt =====
-- Logins and logouts at concrete inputs (knox-proxy/auth).
use knox_proxy.Json.{str, null}
use knox_proxy.Base.{
  ◌≢◌, ◌⊎◌, insert, ◌*◌, ◌+◌, if◌then◌else◌, ◌≤◌, ◌≡◌, ◌==◌, bytes, lookup, none, some, refl, ◌∷◌,
  [],
}
use knox_proxy.Middleware.{Web}
use knox_proxy.Oidc.{
  logout_handler, identity_of, start_session, with_verified, with_id_token, with_token, with_state,
  put_state, callback_handler, take_state, OidcAuth, Oidc,
}
use knox_proxy.Session.{
  hex_encode, generate_session_id, create_session, expiry, second, destroy_by_keycloak_sid,
  session_of, store_session, new_session_manager, get_session, UserSession, Identity,
  SessionManager,
}
use knox_proxy.Session.Invariant.{new_session_manager-IsConsistent, IsConsistent}
use knox_proxy.Http.{get, Request}
use knox_proxy.Logout.{logout_event, backchannel_logout, BackchannelLogoutHandler, RawClaims}
use knox_proxy.Logout.Laws.{backchannel_logout_cases, Carries, Decides}
use knox_proxy.Session.History.{
  get_session-bound, revoked, unchanged, history-IsConsistent, Changes-IsConsistent, created,
  Changes,
}
use knox_proxy.Session.Backchannel.{store_session-IsIndexed, IsIndexed}
use knox_proxy.Oidc.Laws.{SignsIn, callback_handler_cases}
use knox_proxy.Oidc.States.{take_state-take_state}
use knox_proxy.Oidc.SignOut.{logout_handler_ends}

abbrev pub web : Web
web = record { session_cookie = λ r. []; query_escape = λ s. s }

abbrev pub oidc : Oidc
oidc = record {
  query = λ name r. name;
  auth_code_url = λ state. state;
  exchange = λ code. none;
  verify = λ raw. none;
  with_params = λ url params. url;
  at_root = λ url. url;
  location = λ r url. url;
  session_cookie = λ r. [];
}

abbrev pub logins : OidcAuth
logins = record {
  client_id = bytes "knox";
  redirect_url = [];
  end_session_endpoint = [];
  states = [];
}

abbrev pub manager : SessionManager
manager = new_session_manager 60

abbrev pub ann : Identity
ann = record {
  email = bytes "ann@x.org";
  display_name = bytes "Ann";
  groups = [];
  jit_roles = [];
  keycloak_sid = bytes "kc1";
  id_token = [];
}

abbrev pub one : SessionManager
one = store_session (bytes "s1") ann 5 manager

abbrev pub ann_session : UserSession
ann_session = session_of (bytes "s1") ann 60 5

-- A login and a logout of the same Keycloak session.
abbrev pub ended : SessionManager
ended = (destroy_by_keycloak_sid (bytes "kc1") one).1

pub one-Changes : Changes manager one
unfolding lookup
one-Changes = created manager (bytes "s1") ann 5 unchanged refl

pub one-IsConsistent : IsConsistent one
one-IsConsistent = Changes-IsConsistent one-Changes (new_session_manager-IsConsistent 60)

pub one-IsIndexed : IsIndexed one
unfolding lookup
one-IsIndexed =
    store_session-IsIndexed (bytes "s1") ann 5 manager refl (λ j s h. cc h) (λ id s h. cc h)

history-IsConsistent_example : IsConsistent ended
history-IsConsistent_example = history-IsConsistent 60 ended (revoked one (bytes "kc1") one-Changes)

get_session-bound_example : 6 ≤ 5 + 60 * second
unfolding get_session lookup store_session ◌==◌ bytes insert expiry
get_session-bound_example = get_session-bound 60 6 one (bytes "s1") ann_session one-Changes refl

abbrev pub pending : OidcAuth
pending = put_state (bytes "a") (bytes "/x") 5 logins

take_state-take_state_example :
    (take_state (bytes "a") 8 (take_state (bytes "a") 7 pending).1).0
    ≡ (if bytes "a" == bytes "a" then none else (take_state (bytes "a") 8 pending).0)
take_state-take_state_example = take_state-take_state (bytes "a") (bytes "a") 7 8 pending

abbrev pub request : Request
request = record {
  method = bytes "POST";
  host = bytes "knox";
  scheme = [];
  url_host = [];
  path = bytes "/auth/backchannel-logout";
  uri = bytes "/auth/backchannel-logout";
  header = [];
  body = some (bytes "logout_token=t");
}

-- A login that Keycloak knows, with a role of this client and one of another.
abbrev known : Oidc
known = record oidc {
  query = λ name r.
      if name == bytes "state" then bytes "a" else if name == bytes "code" then bytes "c" else [];
  exchange = λ code. some (some (bytes "jwt"));
  verify = λ raw. some (
      some (record {
        email = bytes "ann@x.org";
        name = [];
        preferred_username = bytes "ann";
        groups = [];
        session_id = bytes "kc1";
        resource_access =
            (bytes "other", bytes "edit:*" ∷ []) ∷ (bytes "knox", bytes "run:w1" ∷ []) ∷ [];
      }));
}

-- The session that the login makes.
known_login :
    (callback_handler known (some (1 ∷ [])) request 6 pending manager).2
    ≡ store_session
        (bytes "01")
        (record {
          email = bytes "ann@x.org";
          display_name = bytes "ann";
          groups = [];
          jit_roles = bytes "run:w1" ∷ [];
          keycloak_sid = bytes "kc1";
          id_token = bytes "jwt";
        })
        6
        manager
unfolding callback_handler put_state bytes store_session with_state lookup insert ◌==◌ with_token
    with_id_token with_verified start_session create_session generate_session_id hex_encode
    identity_of
known_login = refl

callback_handler_cases_example :
    let (resp, a', sm') = callback_handler known (some (1 ∷ [])) request 6 pending manager in
    SignsIn known (some (1 ∷ [])) request 6 pending manager (resp, sm')
callback_handler_cases_example =
    callback_handler_cases known (some (1 ∷ [])) request 6 pending manager

abbrev pub raw_claims : RawClaims
raw_claims = record {
  issuer = bytes "https://kc";
  audience = some (str (bytes "knox"));
  events = (logout_event, null) ∷ [];
  session_id = bytes "kc1";
}

abbrev pub backchannel : BackchannelLogoutHandler
backchannel = record {
  client_id = bytes "knox";
  issuer_url = bytes "https://kc";
  form = λ r. some (bytes "t");
  verify_signature = λ token. some token;
  decode = λ payload. some raw_claims;
}

backchannel_logout_cases_example :
    Decides backchannel one
      (Carries backchannel request)
      (backchannel_logout backchannel request one)
backchannel_logout_cases_example = backchannel_logout_cases backchannel one request

-- The browser of ann's session.
abbrev signed_in : Oidc
signed_in = record oidc { session_cookie = λ r. bytes "s1" }

logout_handler_ends_example :
    let (resp, sm') = logout_handler signed_in request logins one in
    (get_session (bytes "s1") 9 sm'
      ≡ (if bytes "s1" == bytes "s1" then none else get_session (bytes "s1") 9 one))
    × (resp.status ≡ 302)
    × (lookup (bytes "Set-Cookie") resp.header
        ≡ some (bytes "knox_session=; Path=/; Max-Age=0; HttpOnly" ∷ []))
    × (((logins.end_session_endpoint ≡ [])
          × (get (bytes "Location") resp.header ≡ signed_in.location request (bytes "/auth/login")))
        ⊎ ((logins.end_session_endpoint ≢ [])
            × (get (bytes "Location") resp.header
                ≡ signed_in.location request (
                    signed_in.with_params logins.end_session_endpoint (
                      (bytes "client_id", logins.client_id)
                      ∷ (bytes "post_logout_redirect_uri", signed_in.at_root logins.redirect_url)
                      ∷ [])))))
unfolding bytes
logout_handler_ends_example =
    logout_handler_ends signed_in request logins one (bytes "s1") 9 (λ e. cc e)

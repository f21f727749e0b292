-- ===== src/Oidc/SignOut.antt =====
-- What a logout does (LogoutHandler of knox-proxy/auth/oidc.go).
use knox_proxy.Session.Access.{get-destroy_session}
use knox_proxy.Base.{
  insert, lookup, Map, ◌⊎◌, bytes, ◌==◌, if◌then◌else◌, ℕ, ◌≡◌, non_empty, ◌≢◌, Str, true, none,
  some, inr, inl, refl, ◌∷◌, [],
}
use knox_proxy.Oidc.{StateEntry, logout_target, OidcAuth, Oidc, logout_handler}
use knox_proxy.Http.{add, set, get, Request}
use knox_proxy.Session.{get_session, SessionManager}

filled : (id : Str) → id ≢ [] → non_empty id ≡ true
filled [] h = absurd (h refl)
filled (c ∷ id) h = refl

sent_to :
    (o : Oidc) (r : Request) (client_id redirect_url endpoint : Str) (states : Map StateEntry)
    → let a : OidcAuth = record {
      client_id = client_id;
      redirect_url = redirect_url;
      end_session_endpoint = endpoint;
      states = states;
    } in
      ((endpoint ≡ []) × (o.location r (logout_target o a) ≡ o.location r (bytes "/auth/login")))
      ⊎ ((endpoint ≢ [])
          × (o.location r (logout_target o a)
              ≡ o.location r (
                  o.with_params endpoint (
                    (bytes "client_id", client_id)
                    ∷ (bytes "post_logout_redirect_uri", o.at_root redirect_url)
                    ∷ []))))
unfolding logout_target
sent_to o r client_id redirect_url [] states = inl (refl, refl)
sent_to o r client_id redirect_url (c ∷ endpoint) states = inr (λ e. cc e, refl)

-- A logout with a session cookie ends the session of that cookie, at once and for good, and no other
-- session; and it makes the browser forget the cookie and leave for the end of the session at Keycloak,
-- or for the login page where Keycloak has no such address.
pub logout_handler_ends :
    (o : Oidc) (r : Request) (a : OidcAuth) (sm : SessionManager) (j : Str) (later : ℕ)
    → o.session_cookie r ≢ []
    → let (resp, sm') = logout_handler o r a sm in
      (get_session j later sm' ≡ (if o.session_cookie r == j then none else get_session j later sm))
      × (resp.status ≡ 302)
      × (lookup (bytes "Set-Cookie") resp.header
          ≡ some (bytes "knox_session=; Path=/; Max-Age=0; HttpOnly" ∷ []))
      × (((a.end_session_endpoint ≡ [])
            × (get (bytes "Location") resp.header ≡ o.location r (bytes "/auth/login")))
          ⊎ ((a.end_session_endpoint ≢ [])
              × (get (bytes "Location") resp.header
                  ≡ o.location r (
                      o.with_params a.end_session_endpoint (
                        (bytes "client_id", a.client_id)
                        ∷ (bytes "post_logout_redirect_uri", o.at_root a.redirect_url)
                        ∷ [])))))
unfolding logout_handler set add lookup insert bytes ◌==◌ get
logout_handler_ends o r a sm j later named = (
  rw (filled (o.session_cookie r) named) (get-destroy_session (o.session_cookie r) j later sm),
  refl,
  refl,
  sent_to o r a.client_id a.redirect_url a.end_session_endpoint a.states,
)

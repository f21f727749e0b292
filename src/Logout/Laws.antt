-- ===== src/Logout/Laws.antt =====
-- Which requests end a session (knox-proxy/auth/backchannel.go).
use knox_proxy.Base.{
  ◌==◌, Bool-cases, ℕ, ap, eq_false, non_empty, ◌++◌, bytes, Option-cases, ◌⊎◌, eq_iff, Str, ◌↔◌,
  arith, List, Option, true, none, inr, inl, refl, ◌∷◌, ◌≢◌, lookup, Has, ◌≡◌, some, [],
}
use knox_proxy.Logout.{
  claims_of, backchannel_logout, logout_with_token, logout_with_payload, token_error_text,
  no_content, revoke, is_some, finish_logout, validate_logout_token, audience_contains,
  logout_event, LogoutTokenClaims, BackchannelLogoutHandler,
}
use knox_proxy.Json.{Json}
use knox_proxy.Session.{destroy_by_keycloak_sid, SessionManager}
use knox_proxy.Http.{Response, Request, plain_error}

-- The claims are Keycloak's, for this client, about the end of a session that is named.
pub record IsLogout (h : BackchannelLogoutHandler) (claims : LogoutTokenClaims) : Type 0 where
  pub issued : claims.issuer ≡ h.issuer_url
  pub addressed : Has h.client_id claims.audience
  pub event : Json
  pub ends : lookup logout_event claims.events ≡ some event
  pub named : claims.session_id ≢ []

audience_contains_iff :
    (vs : List Str) (target : Str) → (audience_contains vs target ≡ true) ↔ Has target vs
unfolding audience_contains
audience_contains_iff [] target = ground arith
audience_contains_iff (v ∷ vs) target =
    ground (arith, eq_iff v target, audience_contains_iff vs target)

is_some_iff {ℓ} : {A : Type ℓ} (o : Option A) → is_some o ≡ true → (a : A) × (o ≡ some a)
is_some_iff none h = absurd (cc h)
is_some_iff (some a) h = (a, refl)

non_empty_of : (s : Str) → s ≢ [] → non_empty s ≡ true
non_empty_of [] named = absurd (named refl)
non_empty_of (c ∷ s) named = refl

module _ (h : BackchannelLogoutHandler) (claims : LogoutTokenClaims) where
  validated : validate_logout_token h claims ≡ none → IsLogout h claims
  unfolding validate_logout_token
  validated e =
      let (event, there) = is_some_iff (lookup logout_event claims.events) (ground (arith, e)) in
      record {
        issued = ground (arith, e, eq_iff claims.issuer h.issuer_url);
        addressed = (audience_contains_iff claims.audience h.client_id).0 (ground (arith, e));
        event = event;
        ends = there;
        named = λ p. let q = (eq_iff claims.session_id []).1 p in ground (arith, e, q);
      }

  accepted : IsLogout h claims → validate_logout_token h claims ≡ none
  unfolding validate_logout_token
  accepted l = rw (
    (eq_iff claims.issuer h.issuer_url).1 l.issued,
    (audience_contains_iff claims.audience h.client_id).1 l.addressed,
    l.ends,
    eq_false claims.session_id [] l.named,
  )

  -- A token is accepted exactly if it is Keycloak's, for this client, about the end of a session that
  -- it names.
  pub validate_logout_token_iff : (validate_logout_token h claims ≡ none) ↔ IsLogout h claims
  validate_logout_token_iff = (validated, accepted)

  revoke-named :
      claims.session_id ≢ []
      → (sm : SessionManager) → revoke claims sm ≡ (destroy_by_keycloak_sid claims.session_id sm).1
  unfolding revoke
  revoke-named named sm = rw (non_empty_of claims.session_id named)

  finish_logout_cases :
      (sm : SessionManager)
      → (IsLogout h claims
          × (finish_logout h claims sm
              ≡ (no_content, (destroy_by_keycloak_sid claims.session_id sm).1)))
        ⊎ ((message : Str) × (finish_logout h claims sm ≡ (plain_error 400 message, sm)))
  unfolding finish_logout revoke
  finish_logout_cases sm = elim (Option-cases (validate_logout_token h claims)) [
    | inl e ↦ inl (
      validated e,
      rw (e, finish_logout) (ap (λ sm'. (no_content, sm')) (revoke-named (validated e).named sm)),
    )
    | inr (error, e) ↦ inr (
      bytes "Token validation failed: " ++ token_error_text h claims error,
      rw (e, finish_logout),
    )
  ]

-- The request carries a token that Keycloak has signed, with these claims.
pub record Carries (h : BackchannelLogoutHandler) (r : Request) (claims : LogoutTokenClaims)
    : Type 0 where
  pub method : r.method ≡ bytes "POST"
  pub token : Str
  pub sent : h.form r ≡ some token
  pub payload : Str
  pub signed : h.verify_signature token ≡ some payload
  pub decoded : claims_of h payload ≡ some claims

module _ (h : BackchannelLogoutHandler) (sm : SessionManager) where
  -- A logout is accepted, with the claims of a token, or refused with no session changed.
  abbrev pub Decides : (LogoutTokenClaims → Type 0) → Response × SessionManager → Type 0
  Decides Carried result =
      ((claims : LogoutTokenClaims) × Carried claims
        × IsLogout h claims
        × (result ≡ (no_content, (destroy_by_keycloak_sid claims.session_id sm).1)))
      ⊎ ((status : ℕ) × (message : Str) × ((status ≡ 400) ⊎ (status ≡ 405))
          × (result ≡ (plain_error status message, sm)))

  payload_cases :
      (payload : Str)
      → Decides (λ claims. claims_of h payload ≡ some claims) (logout_with_payload h payload sm)
  unfolding logout_with_payload
  payload_cases payload = elim (Option-cases (claims_of h payload)) [
    | inl e ↦ inr (400, bytes "Invalid token claims", inl refl, rw (e, logout_with_payload))
    | inr (claims, e) ↦ elim (finish_logout_cases h claims sm) [
      | inl (valid, done) ↦ inl (claims, e, valid, rw (e, logout_with_payload) done)
      | inr (message, done) ↦ inr (400, message, inl refl, rw (e, logout_with_payload) done)
    ]
  ]

  token_cases :
      (token : Str)
      → Decides
          (λ claims.
            (payload : Str) × (h.verify_signature token ≡ some payload)
            × (claims_of h payload ≡ some claims))
          (logout_with_token h token sm)
  unfolding logout_with_token
  token_cases [] = inr (400, bytes "Missing logout_token", inl refl, refl)
  token_cases (c ∷ token) = elim (Option-cases (h.verify_signature (c ∷ token))) [
    | inl e ↦ inr (400, bytes "Invalid token signature", inl refl, rw (e, logout_with_token))
    | inr (payload, e) ↦ elim (payload_cases payload) [
      | inl (claims, d, valid, done) ↦
          inl (claims, (payload, e, d), valid, rw (e, logout_with_token) done)
      | inr (status, message, k, done) ↦ inr (status, message, k, rw (e, logout_with_token) done)
    ]
  ]

  -- Sessions end only by a POST with a token that Keycloak has signed for this client, about the end of
  -- a session that it names, and then those that the index has under that name; any other request is
  -- refused with 400 or 405 and changes no session.
  pub backchannel_logout_cases : (r : Request) → Decides (Carries h r) (backchannel_logout h r sm)
  unfolding backchannel_logout
  backchannel_logout_cases r = elim (Bool-cases (r.method == bytes "POST")) [
    | inr e ↦ inr (405, bytes "Method not allowed", inr refl, rw e)
    | inl e ↦ elim (Option-cases (h.form r)) [
      | inl f ↦ inr (400, bytes "Bad request", inl refl, rw (e, f))
      | inr (token, f) ↦ elim (token_cases token) [
        | inl (claims, (payload, v, d), valid, done) ↦ inl (
          claims,
          record {
            method = (eq_iff r.method (bytes "POST")).0 e;
            token = token;
            sent = f;
            payload = payload;
            signed = v;
            decoded = d;
          },
          valid,
          rw (e, f) done,
        )
        | inr (status, message, k, done) ↦ inr (status, message, k, rw (e, f) done)
      ]
    ]
  ]

-- ===== src/Oidc/Laws.antt =====
-- Who gets a session from the callback of knox-proxy/auth/oidc.go.
use knox_proxy.Base.{
  arith, non_empty, ◌⊎◌, Bool-cases, ◌∙◌, sym, ◌≤◌, Option-cases, ap, bytes, ◌≡◌, lookup, Option, ℕ,
  Str, false, none, some, inr, inl, refl, ◌∷◌, [],
}
use knox_proxy.Oidc.{
  set_session_cookie, or_else, callback_handler, take_state, redirect_to, identity_of,
  start_session, StateEntry, with_state, with_token, with_id_token, with_verified, OidcClaims,
  OidcAuth, Oidc,
}
use knox_proxy.Http.{Response, Request}
use knox_proxy.Session.{
  Identity, store_session, generate_session_id, create_session, SessionManager,
}
use knox_proxy.Oidc.Claims.{IsIdentity, identity_of-IsIdentity}

-- The callback answers a login that is under way: its state is stored and has not expired, Keycloak
-- reports no error, and its code was exchanged for an ID token with these claims.
pub record IsLogin (o : Oidc) (r : Request) (now : ℕ) (a : OidcAuth) (entry : StateEntry)
    (claims : OidcClaims) (raw : Str) : Type 0 where
  pub pending : lookup (o.query (bytes "state") r) a.states ≡ some entry
  pub fresh : now ≤ entry.expires_at
  pub no_error : o.query (bytes "error") r ≡ []
  pub exchanged : o.exchange (o.query (bytes "code") r) ≡ some (some raw)
  pub verified : o.verify raw ≡ some (some claims)

empty_of : (s : Str) → non_empty s ≡ false → s ≡ []
empty_of [] h = refl
empty_of (c ∷ s) h = absurd (cc h)

module _ (o : Oidc) (client_id : Str) (random : Option Str) (r : Request) (now : ℕ)
    (sm : SessionManager) where
  -- A session is made for verified claims, and the browser is sent where the login came from; or an
  -- error is answered and no session is touched.
  abbrev pub Starts : (StateEntry → OidcClaims → Str → Type 0) → Response × SessionManager → Type 0
  Starts Verified result =
      ((entry : StateEntry) × (claims : OidcClaims) × (raw : Str) × (id : Str) × Verified entry
          claims raw
        × (generate_session_id random ≡ some id)
        × (result ≡ (
          redirect_to (o.location r (or_else entry.redirect_url (bytes "/")))
              (set_session_cookie sm.max_age id []),
          store_session id (identity_of client_id claims raw) now sm,
        )))
      ⊎ (((result.0.status ≡ 400) ⊎ (result.0.status ≡ 401) ⊎ (result.0.status ≡ 500))
          × (result.1 ≡ sm))

  started :
      (entry : StateEntry) (raw : Str) (claims : OidcClaims)
      → Starts
          (λ e c w. (e ≡ entry) × (c ≡ claims) × (w ≡ raw))
          (start_session o entry r
            (create_session random (identity_of client_id claims raw) now sm))
  unfolding create_session start_session
  started entry raw claims = elim (Option-cases (generate_session_id random)) [
    | inl e ↦ inr (rw (e, create_session) (inr (inr refl), refl))
    | inr (id, e) ↦ inl (entry, claims, raw, id, (refl, refl, refl), e, rw (e, create_session) refl)
  ]

  with_verified_cases :
      (entry : StateEntry) (raw : Str) (claims : Option OidcClaims)
      → Starts
          (λ e c w. (e ≡ entry) × (claims ≡ some c) × (w ≡ raw))
          (with_verified o client_id random entry r now raw claims sm)
  unfolding with_verified
  with_verified_cases entry raw none = inr (inr (inr refl), refl)
  with_verified_cases entry raw (some claims) = elim (started entry raw claims) [
    | inl (f, c, w, id, (d, e, g), k, done) ↦ inl (f, c, w, id, (d, ap some (sym e), g), k, done)
    | inr failed ↦ inr failed
  ]

  with_id_token_cases :
      (entry : StateEntry) (raw : Str)
      → Starts
          (λ e c w. (e ≡ entry) × (o.verify raw ≡ some (some c)) × (w ≡ raw))
          (with_id_token o client_id random entry r now raw sm)
  unfolding with_id_token
  with_id_token_cases entry raw = elim (Option-cases (o.verify raw)) [
    | inl e ↦ inr (rw (e, with_id_token) (inr (inl refl), refl))
    | inr (claims, e) ↦ elim (with_verified_cases entry raw claims) [
      | inl (f, c, w, id, (d, g, l), k, done) ↦
          inl (f, c, w, id, (d, e ∙ ap some g, l), k, rw (e, with_id_token) done)
      | inr failed ↦ inr (rw (e, with_id_token) failed)
    ]
  ]

  with_token_cases :
      (entry : StateEntry) (token : Option (Option Str))
      → Starts
          (λ e c w. (e ≡ entry) × (token ≡ some (some w)) × (o.verify w ≡ some (some c)))
          (with_token o client_id random entry r now token sm)
  unfolding with_token
  with_token_cases entry none = inr (inr (inr refl), refl)
  with_token_cases entry (some none) = inr (inr (inr refl), refl)
  with_token_cases entry (some (some raw)) = elim (with_id_token_cases entry raw) [
    | inl (f, c, w, id, (d, g, l), k, done) ↦ inl (f, c, w, id, (d, rw l refl, rw l g), k, done)
    | inr failed ↦ inr failed
  ]

  with_state_cases :
      (entry : Option StateEntry)
      → Starts
          (λ e c w.
            (entry ≡ some e)
            × (o.query (bytes "error") r ≡ [])
            × (o.exchange (o.query (bytes "code") r) ≡ some (some w))
            × (o.verify w ≡ some (some c)))
          (with_state o client_id random r now entry sm)
  unfolding with_state
  with_state_cases none = inr (inl refl, refl)
  with_state_cases (some entry) = elim (Bool-cases (non_empty (o.query (bytes "error") r))) [
    | inl e ↦ inr (rw e (inr (inl refl), refl))
    | inr e ↦ elim (with_token_cases entry (o.exchange (o.query (bytes "code") r))) [
      | inl (f, c, w, id, (d, g, l), k, done) ↦
          inl (f, c, w, id, (ap some (sym d), empty_of _ e, g, l), k, rw e done)
      | inr failed ↦ inr (rw e failed)
    ]
  ]

taken :
    (state : Str) (now : ℕ) (a : OidcAuth) (entry : StateEntry)
    → (take_state state now a).0 ≡ some entry
    → (lookup state a.states ≡ some entry) × (now ≤ entry.expires_at)
unfolding take_state
taken state now a entry h = elim (Option-cases (lookup state a.states)) [
  | inl e ↦ absurd (cc (rw (e, take_state) at h))
  | inr (e', there) ↦ ground (arith, there, h)
]

callback_cases :
    (o : Oidc) (random : Option Str) (r : Request) (now : ℕ) (a : OidcAuth) (sm : SessionManager)
    → let (resp, a', sm') = callback_handler o random r now a sm in
      Starts o a.client_id random r now sm
        (λ entry claims raw. IsLogin o r now a entry claims raw)
        (resp, sm')
unfolding callback_handler
callback_cases o random r now a sm =
    let state = o.query (bytes "state") r in
    elim (with_state_cases o a.client_id random r now sm (take_state state now a).0) [
      | inl (entry, claims, raw, id, (t, e, x, v), k, done) ↦
          let (there, fresh) = taken state now a entry t in
          inl (
            entry,
            claims,
            raw,
            id,
            record { pending = there; fresh = fresh; no_error = e; exchanged = x; verified = v },
            k,
            done,
          )
      | inr failed ↦ inr failed
    ]

-- A login that is under way ends with a session of the user that its claims name; or the answer is an
-- error, and the sessions are as they were.
abbrev pub SignsIn :
    Oidc → Option Str → Request → ℕ → OidcAuth → SessionManager → Response × SessionManager → Type 0
SignsIn o random r now a sm (resp, sm') =
    ((entry : StateEntry) × (claims : OidcClaims) × (raw : Str) × (id : Str) × (who : Identity)
      × IsLogin o r now a entry claims raw
      × (generate_session_id random ≡ some id)
      × IsIdentity a.client_id claims raw who
      × (sm' ≡ store_session id who now sm)
      × (resp
          ≡ redirect_to (o.location r (or_else entry.redirect_url (bytes "/")))
              (set_session_cookie sm.max_age id [])))
    ⊎ (((resp.status ≡ 400) ⊎ (resp.status ≡ 401) ⊎ (resp.status ≡ 500)) × (sm' ≡ sm))

-- A callback makes exactly one session, for the user that the claims of a verified ID token name, of a
-- login that is under way, with the roles that the claims give for this client and no other, and sends
-- the browser where that login came from; or it answers an error and touches no session.
pub callback_handler_cases :
    (o : Oidc) (random : Option Str) (r : Request) (now : ℕ) (a : OidcAuth) (sm : SessionManager)
    → let (resp, a', sm') = callback_handler o random r now a sm in
      SignsIn o random r now a sm (resp, sm')
callback_handler_cases o random r now a sm = elim (callback_cases o random r now a sm) [
  | inl (entry, claims, raw, id, login, k, done) ↦ inl (
    entry,
    claims,
    raw,
    id,
    identity_of a.client_id claims raw,
    login,
    k,
    identity_of-IsIdentity a.client_id claims raw,
    ap (λ (x : Response × SessionManager). x.1) done,
    ap (λ (x : Response × SessionManager). x.0) done,
  )
  | inr failed ↦ inr failed
]

-- ===== src/Session/Backchannel.antt =====
-- What a backchannel logout (DestroyByKeycloakSID of knox-proxy/auth/session.go) revokes, and what it
-- misses.
use mathlib.Core.Option.{some-injective}
use knox_proxy.Session.{
  expiry, session_of, Identity, store_session, destroy_by_keycloak_sid, UserSession, get_session,
  SessionManager,
}
use knox_proxy.Session.Invariant.{owned_hit, lookup-index_insert, IsConsistent}
use knox_proxy.Base.{
  arith, eq_refl, ◌&&◌, eq_false, eq_iff, insert, ap, non_empty, ◌==◌, lookup-insert, if◌then◌else◌,
  Bool-cases, ◌∙◌, lookup-delete, Map, Option-cases, delete, sym, ◌≤◌, ℕ, ◌↔◌, ◌≡◌, ◌≢◌, lookup,
  Str, false, none, some, inr, inl, [],
}

-- Every session with a Keycloak ID is the one that the index names for this ID.
abbrev pub IsIndexed : SessionManager → Type 0
IsIndexed sm =
    (id : Str) (s : UserSession)
    → lookup id sm.sessions ≡ some s
    → s.keycloak_sid ≢ []
    → lookup s.keycloak_sid sm.sid_index ≡ some id

module _ (sid : Str) (sm : SessionManager) (j : Str) (s : UserSession) (v : IsConsistent sm)
    (ix : IsIndexed sm) (named : sid ≢ []) where
  indexed_of_owned :
      lookup j sm.sessions ≡ some s → s.keycloak_sid ≡ sid → lookup sid sm.sid_index ≡ some j
  indexed_of_owned there e = rw e at (ix j s there (λ p. named (sym e ∙ p)))

  not_indexed :
      lookup sid sm.sid_index ≡ none
      → (lookup j sm.sessions ≡ some s) ↔ ((lookup j sm.sessions ≡ some s) × (s.keycloak_sid ≢ sid))
  not_indexed absent = (λ there. (there, λ e. cc (absent, indexed_of_owned there e)), λ h. h.0)

  indexed :
      (id : Str)
      → lookup sid sm.sid_index ≡ some id
      → (lookup j (delete id sm.sessions) ≡ some s)
        ↔ ((lookup j sm.sessions ≡ some s) × (s.keycloak_sid ≢ sid))
  indexed id found =
      let (owner, kept, owned) = v.index sid id found in
      elim (Bool-cases (id == j)) [
        | inl one ↦ (
          λ there. absurd (cc (rw (lookup-delete, one) at there)),
          λ h.
              let same : owner ≡ s =
                some-injective owner s
                  (sym kept ∙ ap (λ k. lookup k sm.sessions) ((eq_iff id j).0 one) ∙ h.0) in
              absurd (h.1 (sym (ap (λ (u : UserSession). u.keycloak_sid) same) ∙ owned)),
        )
        | inr two ↦ (
          λ there.
              let old = rw (lookup-delete, two) at there in
              (
                old,
                λ e. cc (
                  (eq_iff id j).1 (some-injective id j (sym found ∙ indexed_of_owned old e)),
                  two,
                ),
              ),
          λ h. rw (lookup-delete, two) h.0,
        )
      ]

-- If every session is indexed, a backchannel logout removes each session with the Keycloak ID, and
-- leaves those with another.
pub revokes :
    (sid : Str) (sm : SessionManager) (j : Str) (s : UserSession)
    → IsConsistent sm
    → IsIndexed sm
    → sid ≢ []
    → (lookup j (destroy_by_keycloak_sid sid sm).1.sessions ≡ some s)
      ↔ ((lookup j sm.sessions ≡ some s) × (s.keycloak_sid ≢ sid))
unfolding destroy_by_keycloak_sid
revokes sid sm j s v ix h = elim (Option-cases (lookup sid sm.sid_index)) [
  | inl absent ↦ rw (absent, destroy_by_keycloak_sid) (not_indexed sid sm j s v ix h absent)
  | inr (id, found) ↦ rw (found, destroy_by_keycloak_sid) (indexed sid sm j s v ix h id found)
]

relogin_index :
    (id id' sid sid' : Str) (index : Map Str)
    → sid ≢ []
    → sid' ≡ sid
    → lookup sid (if non_empty sid' then insert sid' id' index else index) ≡ some id'
relogin_index id id' sid sid' index named same =
    rw (lookup-index_insert, owned_hit sid' sid named same)

-- A second login in the same Keycloak session hides the first from the backchannel logout: the
-- older session stays valid until it expires.
pub relogin_survives :
    (id id' : Str) (who who' : Identity) (now now' later : ℕ) (sm : SessionManager)
    → id ≢ id'
    → who.keycloak_sid ≢ []
    → who'.keycloak_sid ≡ who.keycloak_sid
    → later ≤ expiry sm.max_age now
    → get_session id later
        (destroy_by_keycloak_sid who.keycloak_sid
          (store_session id' who' now' (store_session id who now sm))).1
      ≡ some (session_of id who sm.max_age now)
unfolding get_session destroy_by_keycloak_sid store_session
relogin_survives id id' who who' now now' later sm differ named same alive =
    rw
      (
        relogin_index id id' who.keycloak_sid who'.keycloak_sid
            (store_session id who now sm).sid_index named same,
        destroy_by_keycloak_sid,
        lookup-delete,
        lookup-insert,
        eq_false id' id (λ p. differ (sym p)),
        lookup-insert,
        eq_refl id,
      )
      (ground arith)

missed : (owner sid : Str) → owner ≢ sid → (non_empty owner && owner == sid) ≡ false
missed owner sid h = ground (arith, eq_iff owner sid)

-- A login keeps every session indexed, if its ID is not in use and no session has its Keycloak ID.
pub store_session-IsIndexed :
    (id : Str) (who : Identity) (now : ℕ) (sm : SessionManager)
    → lookup id sm.sessions ≡ none
    → ((j : Str) (s : UserSession)
        → lookup j sm.sessions ≡ some s
        → s.keycloak_sid ≢ []
        → s.keycloak_sid ≢ who.keycloak_sid)
    → IsIndexed sm
    → IsIndexed (store_session id who now sm)
unfolding store_session
store_session-IsIndexed id who now sm fresh first ix j s there named = elim (Bool-cases (id == j)) [
  | inl same ↦
      let e = some-injective _ s (rw (lookup-insert, same) at there) in
      let owned = ap (λ (u : UserSession). u.keycloak_sid) e in
      rw (
        lookup-index_insert,
        owned_hit who.keycloak_sid s.keycloak_sid named owned,
        (eq_iff id j).0 same,
      )
  | inr other ↦
      let old = rw (lookup-insert, other) at there in
      rw
        (
          lookup-index_insert,
          missed who.keycloak_sid s.keycloak_sid (λ e. first j s old named (sym e)),
        )
        (ix j s old named)
]

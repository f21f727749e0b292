-- ===== src/Session/Invariant.antt =====
-- The index of Keycloak's session IDs in knox-proxy/auth/session.go never dangles.
use mathlib.Core.Option.{some-injective}
use knox_proxy.Base.{
  Option-cases, ◌≢◌, ◌∙◌, eq_false, ap, inr, sym, inl, eq_iff, lookup-insert, Bool-cases, true,
  false, ◌∷◌, delete, ◌&&◌, if◌then◌else◌, insert, non_empty, ◌==◌, Map, refl, lookup-delete, arith,
  [], lookup, Str, ℕ, ◌≡◌, none, some,
}
use knox_proxy.Session.{
  destroy_by_keycloak_sid, destroy_session, session_of, Identity, new_session_manager,
  remove_session, store_session, UserSession, SessionManager,
}

pub record IsConsistent (sm : SessionManager) : Type 0 where
  -- a session is stored under its ID
  pub ids : (id : Str) (s : UserSession) → lookup id sm.sessions ≡ some s → s.id ≡ id
  -- an entry of the index leads to a session with that Keycloak ID
  pub index :
      (sid id : Str)
      → lookup sid sm.sid_index ≡ some id
      → (s : UserSession) × (lookup id sm.sessions ≡ some s) × (s.keycloak_sid ≡ sid)
  pub named : lookup [] sm.sid_index ≡ none

pub new_session_manager-IsConsistent : (max_age : ℕ) → IsConsistent (new_session_manager max_age)
unfolding lookup
new_session_manager-IsConsistent max_age = record {
  ids = λ id s e. cc e;
  index = λ sid id e. cc e;
  named = refl;
}

-- The index after a write or a delete that is made only for a Keycloak ID that is not empty.
pub lookup-index_insert :
    (owner id sid : Str) (index : Map Str)
    → lookup sid (if non_empty owner then insert owner id index else index)
      ≡ (if non_empty owner && owner == sid then some id else lookup sid index)
lookup-index_insert [] id sid index = refl
lookup-index_insert (c ∷ w) id sid index = lookup-insert (c ∷ w) sid id index

pub lookup-index_delete :
    (owner sid : Str) (index : Map Str)
    → lookup sid (if non_empty owner then delete owner index else index)
      ≡ (if non_empty owner && owner == sid then none else lookup sid index)
lookup-index_delete [] sid index = refl
lookup-index_delete (c ∷ w) sid index = lookup-delete (c ∷ w) sid index

non_empty_owner : (owner : Str) → (non_empty owner && owner == []) ≡ false
unfolding ◌==◌
non_empty_owner [] = refl
non_empty_owner (c ∷ w) = refl

owner_eq : (owner sid : Str) → (non_empty owner && owner == sid) ≡ true → owner ≡ sid
owner_eq owner sid h = ground (arith, eq_iff owner sid)

pub owned_hit :
    (owner sid : Str) → sid ≢ [] → owner ≡ sid → (non_empty owner && owner == sid) ≡ true
owned_hit [] sid h e = absurd (h (sym e))
owned_hit (c ∷ w) sid h e = (eq_iff (c ∷ w) sid).1 e

module _ (sm : SessionManager) (v : IsConsistent sm) where
  store_ids :
      (id : Str) (who : Identity) (now : ℕ) (j : Str) (t : UserSession)
      → lookup j (insert id (session_of id who sm.max_age now) sm.sessions) ≡ some t
      → t.id ≡ j
  store_ids id who now j t e = elim (Bool-cases (id == j)) [
    | inl same ↦
        let r = rw (lookup-insert, same) at e in
        sym (ap (λ (u : UserSession). u.id) (some-injective _ t r)) ∙ (eq_iff id j).0 same
    | inr other ↦ v.ids j t (rw (lookup-insert, other) at e)
  ]

  store_index :
      (id : Str) (who : Identity) (now : ℕ) (sid j : Str)
      → lookup id sm.sessions ≡ none
      → lookup sid (
          if non_empty who.keycloak_sid
          then insert who.keycloak_sid id sm.sid_index
          else sm.sid_index)
        ≡ some j
      → (s : UserSession) × (lookup j (insert id (session_of id who sm.max_age now) sm.sessions)
          ≡ some s)
        × (s.keycloak_sid ≡ sid)
  store_index id who now sid j fresh e =
      elim (Bool-cases (non_empty who.keycloak_sid && who.keycloak_sid == sid)) [
        | inl hit ↦
            let same : id ≡ j = some-injective id j (rw (lookup-index_insert, hit) at e) in
            (
              session_of id who sm.max_age now,
              rw lookup-insert (rw ((eq_iff id j).1 same)),
              owner_eq who.keycloak_sid sid hit,
            )
        | inr miss ↦
            let (s, there, owned) = v.index sid j (rw (lookup-index_insert, miss) at e) in
            let other : (id == j) ≡ false = eq_false id j (λ p. cc (fresh, rw (← p) at there)) in
            (s, rw (lookup-insert, other) there, owned)
      ]

  -- In a consistent manager, a new session under an ID that is not in use keeps the sessions and the
  -- index consistent.
  pub store_session-IsConsistent :
      (id : Str) (who : Identity) (now : ℕ)
      → lookup id sm.sessions ≡ none
      → IsConsistent (store_session id who now sm)
  unfolding store_session
  store_session-IsConsistent id who now fresh = record {
    ids = store_ids id who now;
    index = λ sid j e. store_index id who now sid j fresh e;
    named = rw (lookup-index_insert, non_empty_owner) v.named;
  }

  remove_index :
      (id : Str) (s : UserSession) (sid j : Str)
      → lookup id sm.sessions ≡ some s
      → lookup sid
          (if non_empty s.keycloak_sid then delete s.keycloak_sid sm.sid_index else sm.sid_index)
        ≡ some j
      → (t : UserSession) × (lookup j (delete id sm.sessions) ≡ some t) × (t.keycloak_sid ≡ sid)
  remove_index id s sid j there e =
      elim (Bool-cases (non_empty s.keycloak_sid && s.keycloak_sid == sid)) [
        | inl hit ↦ absurd (cc (rw (lookup-index_delete, hit) at e))
        | inr miss ↦
            let found = rw (lookup-index_delete, miss) at e in
            let (t, stored, owned) = v.index sid j found in
            elim (Bool-cases (id == j)) [
              | inl same ↦
                  let one : s ≡ t =
                    some-injective s t (
                      sym there ∙ ap (λ k. lookup k sm.sessions) ((eq_iff id j).0 same) ∙ stored) in
                  let hit =
                    owned_hit s.keycloak_sid sid (λ p. cc (rw p at found, v.named))
                      (ap (λ (u : UserSession). u.keycloak_sid) one ∙ owned) in
                  absurd (cc (hit, miss))
              | inr other ↦ (t, rw (lookup-delete, other) stored, owned)
            ]
      ]

  pub remove_session-IsConsistent :
      (id : Str) (s : UserSession)
      → lookup id sm.sessions ≡ some s
      → IsConsistent (remove_session id s sm)
  unfolding remove_session
  remove_session-IsConsistent id s there = record {
    ids = λ j t e. ground (arith, lookup-delete id j sm.sessions, v.ids j t);
    index = λ sid j e. remove_index id s sid j there e;
    named = rw (lookup-index_delete, non_empty_owner) v.named;
  }

  -- In a consistent manager, a logout with any ID, in use or not, keeps the sessions and the index
  -- consistent.
  pub destroy_session-IsConsistent : (id : Str) → IsConsistent (destroy_session id sm)
  unfolding destroy_session
  destroy_session-IsConsistent id = elim (Option-cases (lookup id sm.sessions)) [
    | inl absent ↦ rw (absent, destroy_session) v
    | inr (s, there) ↦ rw (there, destroy_session) (remove_session-IsConsistent id s there)
  ]

  by_sid_ids :
      (id : Str) (j : Str) (t : UserSession) → lookup j (delete id sm.sessions) ≡ some t → t.id ≡ j
  by_sid_ids id j t e = ground (arith, lookup-delete id j sm.sessions, v.ids j t)

  by_sid_index :
      (sid id other j : Str)
      → lookup sid sm.sid_index ≡ some id
      → lookup other (delete sid sm.sid_index) ≡ some j
      → (t : UserSession) × (lookup j (delete id sm.sessions) ≡ some t) × (t.keycloak_sid ≡ other)
  by_sid_index sid id other j there e = elim (Bool-cases (sid == other)) [
    | inl same ↦ absurd (cc (rw (lookup-delete, same) at e))
    | inr differ ↦
        let found = rw (lookup-delete, differ) at e in
        let (s, kept, owned) = v.index sid id there in
        let (t, stored, owned') = v.index other j found in
        elim (Bool-cases (id == j)) [
          | inl one ↦
              let same : s ≡ t =
                some-injective s t
                  (sym kept ∙ ap (λ k. lookup k sm.sessions) ((eq_iff id j).0 one) ∙ stored) in
              let agree = sym owned ∙ ap (λ (u : UserSession). u.keycloak_sid) same ∙ owned' in
              absurd (cc ((eq_iff sid other).1 agree, differ))
          | inr two ↦ (t, rw (lookup-delete, two) stored, owned')
        ]
  ]

  -- In a consistent manager, a backchannel logout for any Keycloak ID keeps the sessions and the index
  -- consistent.
  pub destroy_by_keycloak_sid-IsConsistent :
      (sid : Str) → IsConsistent (destroy_by_keycloak_sid sid sm).1
  unfolding destroy_by_keycloak_sid
  destroy_by_keycloak_sid-IsConsistent sid = elim (Option-cases (lookup sid sm.sid_index)) [
    | inl absent ↦ rw (absent, destroy_by_keycloak_sid) v
    | inr (id, there) ↦
        rw (there, destroy_by_keycloak_sid)
          (record {
            ids = by_sid_ids id;
            index = λ other j e. by_sid_index sid id other j there e;
            named = rw lookup-delete (ground (arith, v.named));
          })
  ]

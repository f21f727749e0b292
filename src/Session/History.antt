-- ===== src/Session/History.antt =====
-- Histories of the sessions of knox-proxy/auth/session.go: what holds after any sequence of operations.
use mathlib.Core.Option.{some-injective}
use knox_proxy.Base.{
  lookup-insert, ◌==◌, ◌*◌, lookup-delete, ◌≤◌, Bool-cases, ◌+◌, sym, arith, delete, ◌∙◌, keys,
  Option, List, Option-cases, Map, ◌≡◌, lookup, Str, ℕ, none, some, inr, inl, refl, ◌∷◌, [],
}
use knox_proxy.Session.{
  expiry, second, live, UserSession, remove_session, new_session_manager, Identity, get_session,
  store_session, clean_expired, clean_all, clean_one, destroy_by_keycloak_sid, destroy_session,
  SessionManager,
}
use knox_proxy.Session.Invariant.{
  destroy_by_keycloak_sid-IsConsistent, destroy_session-IsConsistent,
  new_session_manager-IsConsistent, store_session-IsConsistent, IsConsistent,
}
use knox_proxy.Session.Clean.{clean_expired-IsConsistent, clean_expired-sessions}
use knox_proxy.Session.Access.{expiry-bound}

-- A manager comes from another by operations. A login's ID is not in use.
pub data Changes (start : SessionManager) : SessionManager → Type 0 where
  unchanged : Changes start start
  created :
      (sm : SessionManager) (id : Str) (who : Identity) (now : ℕ)
      → Changes start sm
      → lookup id sm.sessions ≡ none
      → Changes start (store_session id who now sm)
  destroyed :
      (sm : SessionManager) (id : Str) → Changes start sm → Changes start (destroy_session id sm)
  revoked :
      (sm : SessionManager) (sid : Str)
      → Changes start sm
      → Changes start (destroy_by_keycloak_sid sid sm).1
  cleaned :
      (sm : SessionManager) (now : ℕ) → Changes start sm → Changes start (clean_expired now sm).1

pub Changes-IsConsistent :
    {start sm : SessionManager} → Changes start sm → IsConsistent start → IsConsistent sm
Changes-IsConsistent unchanged v = v
Changes-IsConsistent (created sm id who now c fresh) v =
    store_session-IsConsistent sm (Changes-IsConsistent c v) id who now fresh
Changes-IsConsistent (destroyed sm id c) v =
    destroy_session-IsConsistent sm (Changes-IsConsistent c v) id
Changes-IsConsistent (revoked sm sid c) v =
    destroy_by_keycloak_sid-IsConsistent sm (Changes-IsConsistent c v) sid
Changes-IsConsistent (cleaned sm now c) v =
    clean_expired-IsConsistent now sm (Changes-IsConsistent c v)

-- After any operations on a new manager, however they are ordered, a session is stored under its ID,
-- and each entry of the index leads to a session with that Keycloak ID. A login's ID is not in use.
pub history-IsConsistent :
    (max_age : ℕ) (sm : SessionManager) → Changes (new_session_manager max_age) sm → IsConsistent sm
history-IsConsistent max_age sm c =
    Changes-IsConsistent c (new_session_manager-IsConsistent max_age)

-- The sessions of the one are sessions of the other, and the lifetime is the same.
abbrev pub IsPart : SessionManager → SessionManager → Type 0
IsPart sm' sm =
    (sm'.max_age ≡ sm.max_age)
    × ((j : Str) (s : UserSession) → lookup j sm'.sessions ≡ some s → lookup j sm.sessions ≡ some s)

delete-IsPart :
    (id j : Str) (m : Map UserSession) (s : UserSession)
    → lookup j (delete id m) ≡ some s
    → lookup j m ≡ some s
delete-IsPart id j m s h = ground (arith, lookup-delete id j m)

destroy_session-IsPart : (id : Str) (sm : SessionManager) → IsPart (destroy_session id sm) sm
unfolding destroy_session remove_session
destroy_session-IsPart id sm = elim (Option-cases (lookup id sm.sessions)) [
  | inl e ↦ rw (e, destroy_session) (refl, λ j s h. h)
  | inr (s, e) ↦ rw (e, destroy_session) (refl, λ j t. delete-IsPart id j sm.sessions t)
]

destroy_by_keycloak_sid-IsPart :
    (sid : Str) (sm : SessionManager) → IsPart (destroy_by_keycloak_sid sid sm).1 sm
unfolding destroy_by_keycloak_sid
destroy_by_keycloak_sid-IsPart sid sm = elim (Option-cases (lookup sid sm.sid_index)) [
  | inl e ↦ rw (e, destroy_by_keycloak_sid) (refl, λ j s h. h)
  | inr (id, e) ↦ rw (e, destroy_by_keycloak_sid) (refl, λ j t. delete-IsPart id j sm.sessions t)
]

clean_one-age :
    (now n : ℕ) (id : Str) (sm : SessionManager) → (clean_one now id (n, sm)).1.max_age ≡ sm.max_age
unfolding clean_one remove_session
clean_one-age now n id sm = ground arith

clean_all-age :
    (now n : ℕ) (ids : List Str) (sm : SessionManager)
    → (clean_all now ids (n, sm)).1.max_age ≡ sm.max_age
unfolding clean_all
clean_all-age now n [] sm = refl
clean_all-age now n (id ∷ ids) sm =
    let (m, sm') = clean_one now id (n, sm) in
    clean_all-age now m ids sm' ∙ clean_one-age now n id sm

live-some :
    (now : ℕ) (found : Option UserSession) (s : UserSession)
    → live now found ≡ some s
    → found ≡ some s
live-some now none s h = absurd (cc h)
live-some now (some t) s h = ground (arith, h)

clean_expired-IsPart : (now : ℕ) (sm : SessionManager) → IsPart (clean_expired now sm).1 sm
unfolding clean_expired
clean_expired-IsPart now sm = (
  clean_all-age now 0 (keys sm.sessions) sm,
  λ j s h. live-some now (lookup j sm.sessions) s (sym (clean_expired-sessions now j sm) ∙ h),
)

-- Each session ends the lifetime after its creation.
abbrev pub IsTimed : ℕ → SessionManager → Type 0
IsTimed max_age sm =
    (sm.max_age ≡ max_age)
    × ((j : Str) (s : UserSession)
        → lookup j sm.sessions ≡ some s
        → s.expires_at ≡ expiry max_age s.created_at)

part-IsTimed :
    {max_age : ℕ} (sm' sm : SessionManager)
    → IsPart sm' sm
    → IsTimed max_age sm
    → IsTimed max_age sm'
part-IsTimed sm' sm (age, part) (timed, ends) = (age ∙ timed, λ j s h. ends j s (part j s h))

store_session-IsTimed :
    {max_age : ℕ} (sm : SessionManager) (id : Str) (who : Identity) (now : ℕ)
    → IsTimed max_age sm
    → IsTimed max_age (store_session id who now sm)
unfolding store_session
store_session-IsTimed sm id who now (age, ends) = (
  age,
  λ j s h. elim (Bool-cases (id == j)) [
    | inl same ↦ let e = some-injective _ s (rw (lookup-insert, same) at h) in rw (← e, ← age) refl
    | inr other ↦ ends j s (rw (lookup-insert, other) at h)
  ],
)

Changes-IsTimed :
    {max_age : ℕ} {sm : SessionManager}
    → Changes (new_session_manager max_age) sm
    → IsTimed max_age sm
unfolding lookup
Changes-IsTimed unchanged = (refl, λ j s h. absurd (cc h))
Changes-IsTimed (created sm id who now c fresh) =
    store_session-IsTimed sm id who now (Changes-IsTimed c)
Changes-IsTimed (destroyed sm id c) =
    part-IsTimed (destroy_session id sm) sm (destroy_session-IsPart id sm) (Changes-IsTimed c)
Changes-IsTimed (revoked sm sid c) =
    part-IsTimed (destroy_by_keycloak_sid sid sm).1 sm (destroy_by_keycloak_sid-IsPart sid sm)
      (Changes-IsTimed c)
Changes-IsTimed (cleaned sm now c) =
    part-IsTimed (clean_expired now sm).1 sm (clean_expired-IsPart now sm) (Changes-IsTimed c)

-- After any operations on a new manager, a session that is had at some instant was created at most
-- the lifetime before: nothing prolongs a session. A login's ID is not in use.
pub get_session-bound :
    (max_age now : ℕ) (sm : SessionManager) (id : Str) (s : UserSession)
    → Changes (new_session_manager max_age) sm
    → get_session id now sm ≡ some s
    → now ≤ s.created_at + max_age * second
unfolding get_session
get_session-bound max_age now sm id s c h =
    let stored = live-some now (lookup id sm.sessions) s h in
    let ends = (Changes-IsTimed c).1 id s stored in
    let bound = expiry-bound max_age s.created_at in ground (arith, stored, ends, bound, h)

-- ===== src/Session/Clean.antt =====
-- CleanExpired (knox-proxy/auth/session.go) removes what has expired and nothing that a client sees.
use knox_proxy.Session.{
  is_expired, keys, remove_session, get_session, clean_expired, clean_all, clean_one,
  SessionManager, live,
}
use knox_proxy.Session.Invariant.{remove_session-IsConsistent, IsConsistent}
use knox_proxy.Base.{
  lookup_missing, mem, lookup-delete, eq_iff, ◌==◌, Bool-cases, arith, if◌then◌else◌, Option-cases,
  ◌≤◌, ◌≡◌, List, ℕ, lookup, Str, inr, inl, refl, ◌∷◌, [],
}

clean_one-sessions :
    (now : ℕ) (id j : Str) (n : ℕ) (sm : SessionManager)
    → lookup j (clean_one now id (n, sm)).1.sessions
      ≡ (if id == j then live now (lookup j sm.sessions) else lookup j sm.sessions)
unfolding clean_one remove_session
clean_one-sessions now id j n sm = ground (arith, eq_iff id j, lookup-delete id j sm.sessions)

clean_all-sessions :
    (now : ℕ) (ids : List Str) (j : Str) (acc : ℕ × SessionManager)
    → lookup j (clean_all now ids acc).1.sessions
      ≡ (if mem j ids then live now (lookup j acc.1.sessions) else lookup j acc.1.sessions)
unfolding clean_all
clean_all-sessions now [] j acc = refl
clean_all-sessions now (id ∷ ids) j (n, sm) = ground (
  arith,
  clean_all-sessions now ids j (clean_one now id (n, sm)),
  clean_one-sessions now id j n sm,
)

-- After the cleanup the sessions are those that had not expired.
pub clean_expired-sessions :
    (now : ℕ) (j : Str) (sm : SessionManager)
    → lookup j (clean_expired now sm).1.sessions ≡ live now (lookup j sm.sessions)
unfolding clean_expired
clean_expired-sessions now j sm =
    ground
      (arith, clean_all-sessions now (keys sm.sessions) j (0, sm), lookup_missing j sm.sessions)

-- No request made at or after the cleanup can tell that it was made.
pub get-clean_expired :
    (now later : ℕ) (j : Str) (sm : SessionManager)
    → now ≤ later
    → get_session j later (clean_expired now sm).1 ≡ get_session j later sm
unfolding get_session
get-clean_expired now later j sm h = rw clean_expired-sessions (ground arith)

clean_one-IsConsistent :
    (now : ℕ) (id : Str) (n : ℕ) (sm : SessionManager)
    → IsConsistent sm
    → IsConsistent (clean_one now id (n, sm)).1
unfolding clean_one
clean_one-IsConsistent now id n sm v = elim (Option-cases (lookup id sm.sessions)) [
  | inl absent ↦ rw (absent, clean_one) v
  | inr (s, there) ↦ elim (Bool-cases (is_expired now s)) [
    | inl old ↦ rw (there, clean_one, old) (remove_session-IsConsistent sm v id s there)
    | inr fresh ↦ rw (there, clean_one, fresh) v
  ]
]

clean_all-IsConsistent :
    (now : ℕ) (ids : List Str) (acc : ℕ × SessionManager)
    → IsConsistent acc.1
    → IsConsistent (clean_all now ids acc).1
unfolding clean_all
clean_all-IsConsistent now [] acc v = v
clean_all-IsConsistent now (id ∷ ids) (n, sm) v =
    clean_all-IsConsistent now ids (clean_one now id (n, sm)) (clean_one-IsConsistent now id n sm v)

-- The cleanup keeps a consistent manager consistent.
pub clean_expired-IsConsistent :
    (now : ℕ) (sm : SessionManager) → IsConsistent sm → IsConsistent (clean_expired now sm).1
unfolding clean_expired
clean_expired-IsConsistent now sm v = clean_all-IsConsistent now (keys sm.sessions) (0, sm) v

-- ===== src/Oidc/States.antt =====
-- The states of the logins that are under way (knox-proxy/auth/oidc.go).
use knox_proxy.Base.{
  lookup_missing, keys, mem, ◌≤◌, List, refl, ◌∷◌, [], lookup-insert, eq_iff, lookup-delete, ◌+◌,
  arith, ltb, ◌==◌, lookup, if◌then◌else◌, ◌≡◌, Map, ℕ, Str, none, some,
}
use knox_proxy.Oidc.{
  clean_states, clean_keys, ten_minutes, live_entry, StateEntry, OidcAuth, put_state, clean_state,
  take_state,
}

-- A state that is stored is good for ten minutes, and the others are as good as they were.
pub take_state-put_state :
    (state j redirect : Str) (now later : ℕ) (a : OidcAuth)
    → (take_state j later (put_state state redirect now a)).0 ≡ (
        if state == j
        then (if ltb (now + ten_minutes) later
            then none
            else some (record { redirect_url = redirect; expires_at = now + ten_minutes }))
        else (take_state j later a).0)
unfolding take_state put_state
take_state-put_state state j redirect now later a = ground (
  arith,
  lookup-insert state j (record { redirect_url = redirect; expires_at = now + ten_minutes })
      a.states,
)

-- A state that was taken, whether it had expired or not, is gone; the others are as good as they were.
pub take_state-take_state :
    (state j : Str) (now later : ℕ) (a : OidcAuth)
    → (take_state j later (take_state state now a).1).0
      ≡ (if state == j then none else (take_state j later a).0)
unfolding take_state
take_state-take_state state j now later a =
    ground (arith, lookup-delete state j a.states, eq_iff state j)

clean_state-lookup :
    (now : ℕ) (key j : Str) (states : Map StateEntry)
    → lookup j (clean_state now key states)
      ≡ (if key == j then live_entry now (lookup j states) else lookup j states)
unfolding clean_state
clean_state-lookup now key j states = ground (arith, eq_iff key j, lookup-delete key j states)

clean_keys-lookup :
    (now : ℕ) (ks : List Str) (j : Str) (states : Map StateEntry)
    → lookup j (clean_keys now ks states)
      ≡ (if mem j ks then live_entry now (lookup j states) else lookup j states)
unfolding clean_keys
clean_keys-lookup now [] j states = refl
clean_keys-lookup now (key ∷ ks) j states = ground (
  arith,
  clean_keys-lookup now ks j (clean_state now key states),
  clean_state-lookup now key j states,
)

-- No callback at or after a cleanup can tell that it was made.
pub take_state-clean_states :
    (now later : ℕ) (j : Str) (a : OidcAuth)
    → now ≤ later
    → (take_state j later (clean_states now a)).0 ≡ (take_state j later a).0
unfolding take_state clean_states
take_state-clean_states now later j a h =
    ground (arith, clean_keys-lookup now (keys a.states) j a.states, lookup_missing j a.states)

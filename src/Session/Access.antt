-- ===== src/Session/Access.antt =====
-- What a session ID gives access to, after each operation of knox-proxy/auth/session.go.
use knox_proxy.Base.{
  eq_refl, ◌∙◌, ◌≤◌, [], ◌∷◌, refl, ◌%◌, ◌/◌, lookup-delete, lookup-insert, inr, eq_iff, arith, ◌*◌,
  inl, ◌+◌, lookup, ltb, Option-cases, ◌==◌, if◌then◌else◌, ◌<◌, All, Str, ℕ, ◌≡◌, none, some,
}
use knox_proxy.Session.{
  expiry, hex_digit, remove_session, session_of, second, Identity, store_session, hex_encode,
  generate_session_id, destroy_session, create_session, get_session, SessionManager,
}

-- A lifetime that a Duration can hold.
pub expiry-fits :
    (max_age now : ℕ) → max_age ≤ 9_223_372_036 → expiry max_age now ≡ now + max_age * second
unfolding expiry
expiry-fits max_age now h = ground arith

pub expiry-bound : (max_age now : ℕ) → expiry max_age now ≤ now + max_age * second
unfolding expiry
expiry-bound max_age now = ground arith

-- Lifetimes from here to the next bound become negative durations.
expiry-wraps :
    (max_age now : ℕ)
    → 9_223_372_036 < max_age
    → max_age ≤ 18_446_744_073
    → 0 < now
    → expiry max_age now < now
unfolding expiry
expiry-wraps max_age now low high later = ground arith

created_session :
    (random : Str) (who : Identity) (now later : ℕ) (sm : SessionManager) (j : Str)
    → get_session j later (create_session (some random) who now sm).1 ≡ (
        if hex_encode random == j
        then (if ltb (expiry sm.max_age now) later
            then none
            else some (session_of (hex_encode random) who sm.max_age now))
        else get_session j later sm)
unfolding get_session create_session generate_session_id store_session
created_session random who now later sm j = rw lookup-insert (ground arith)

-- With a lifetime of at most 9223372036 seconds, a created session can be had until its lifetime has
-- passed and no longer; other IDs give what they gave.
pub get-create_session :
    (random : Str) (who : Identity) (now later : ℕ) (sm : SessionManager) (j : Str)
    → sm.max_age ≤ 9_223_372_036
    → get_session j later (create_session (some random) who now sm).1 ≡ (
        if hex_encode random == j
        then (if ltb (now + sm.max_age * second) later
            then none
            else some (session_of (hex_encode random) who sm.max_age now))
        else get_session j later sm)
get-create_session random who now later sm j fits =
    rw (← expiry-fits sm.max_age now fits) (created_session random who now later sm j)

-- With a longer one, of up to 18446744073 seconds, the product wraps to a negative duration, and a
-- created session cannot be had at all, not even at once.
pub long_lifetime :
    (random : Str) (who : Identity) (now later : ℕ) (sm : SessionManager)
    → 9_223_372_036 < sm.max_age
    → sm.max_age ≤ 18_446_744_073
    → 0 < now
    → now ≤ later
    → get_session (hex_encode random) later (create_session (some random) who now sm).1 ≡ none
long_lifetime random who now later sm low high started at =
    let over = expiry-wraps sm.max_age now low high started in
    created_session random who now later sm (hex_encode random)
    ∙ rw (eq_refl (hex_encode random)) (ground (arith, over, at))

-- A logout takes away its own ID and no other.
pub get-destroy_session :
    (id j : Str) (now : ℕ) (sm : SessionManager)
    → get_session j now (destroy_session id sm) ≡ (if id == j then none else get_session j now sm)
unfolding get_session destroy_session
get-destroy_session id j now sm = elim (Option-cases (lookup id sm.sessions)) [
  | inl absent ↦ rw (absent, destroy_session) (ground (arith, eq_iff id j))
  | inr (s, there) ↦
      rw (there, destroy_session) (unfold remove_session in rw lookup-delete (ground arith))
]

hex_digit_inj : (a b : ℕ) → a < 16 → b < 16 → hex_digit a ≡ hex_digit b → a ≡ b
unfolding hex_digit
hex_digit_inj a b h k e = ground arith

byte_of_nibbles : (c d : ℕ) → c / 16 ≡ d / 16 → c % 16 ≡ d % 16 → c ≡ d
byte_of_nibbles c d h k = omega arith

-- The ID is two hexadecimal digits for each random byte, so different random bytes give different
-- IDs.
pub hex_encode_inj :
    (s t : Str) → All (λ c. c < 256) s → All (λ c. c < 256) t → hex_encode s ≡ hex_encode t → s ≡ t
unfolding hex_encode
hex_encode_inj [] [] h k e = refl
hex_encode_inj [] (d ∷ t) h k e = cc e
hex_encode_inj (c ∷ s) [] h k e = cc e
hex_encode_inj (c ∷ s) (d ∷ t) h k e = ground (
  arith,
  hex_encode_inj s t h.1 k.1,
  hex_digit_inj (c / 16) (d / 16) (omega arith) (omega arith),
  hex_digit_inj (c % 16) (d % 16) (omega arith) (omega arith),
  byte_of_nibbles c d,
)

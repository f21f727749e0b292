-- ===== src/Session.antt =====
-- knox-proxy/auth/session.go: the sessions in memory, and the index of Keycloak's session IDs. Each
-- operation holds the mutex throughout, so a history is a sequence of operations. Instants are
-- nanoseconds.
pub mod Access
pub mod Invariant
pub mod Backchannel
pub mod Clean
pub mod History
use knox_proxy.Base.{
  ◌^◌, keys, inr, inl, refl, ℕ, ◌+◌, ◌-◌, ◌*◌, ◌/◌, ◌%◌, Str, Bool, true, false, Option, none, some,
  List, [], ◌∷◌, lookup, insert, delete, Map, ltb, if◌then◌else◌, non_empty,
}
use mathlib.Core.Option

pub record UserSession : Type 0 where
  pub id : Str
  pub email : Str
  pub display_name : Str
  pub groups : List Str
  pub jit_roles : List Str
  pub keycloak_sid : Str
  pub id_token : Str
  pub created_at : ℕ
  pub expires_at : ℕ

pub record SessionManager : Type 0 where
  pub sessions : Map UserSession
  pub sid_index : Map Str
  -- seconds
  pub max_age : ℕ

abbrev pub new_session_manager : ℕ → SessionManager
new_session_manager max_age = record { sessions = []; sid_index = []; max_age = max_age }

abbrev pub second : ℕ
second = 1_000_000_000

hex_digit : ℕ → ℕ
hex_digit d = if ltb d 10 then b'0' + d else b'a' + (d - 10)

-- hex.EncodeToString
unfoldable pub hex_encode : Str → Str
unfolding hex_digit
hex_encode [] = []
hex_encode (c ∷ s) = hex_digit (c / 16) ∷ hex_digit (c % 16) ∷ hex_encode s

-- `random` is what crypto/rand gives: none is an error.
unfoldable pub generate_session_id : Option Str → Option Str
generate_session_id random = Option.map hex_encode random

-- The arguments of CreateSession.
pub record Identity : Type 0 where
  pub email : Str
  pub display_name : Str
  pub groups : List Str
  pub jit_roles : List Str
  pub keycloak_sid : Str
  pub id_token : Str

-- time.Now().Add(time.Duration(maxAge) * time.Second): the product of two int64 wraps. An instant
-- before 0 is 0.
unfoldable pub expiry : ℕ → ℕ → ℕ
expiry max_age now =
    let lifetime = (max_age * second) % 2 ^ 64 in
    if ltb lifetime (2 ^ 63) then now + lifetime else now - (2 ^ 64 - lifetime)

abbrev pub session_of : Str → Identity → ℕ → ℕ → UserSession
session_of id who max_age now = record {
  id = id;
  email = who.email;
  display_name = who.display_name;
  groups = who.groups;
  jit_roles = who.jit_roles;
  keycloak_sid = who.keycloak_sid;
  id_token = who.id_token;
  created_at = now;
  expires_at = expiry max_age now;
}

-- The part of CreateSession behind the error return.
unfoldable pub store_session : Str → Identity → ℕ → SessionManager → SessionManager
store_session id who now sm = record sm {
  sessions = insert id (session_of id who sm.max_age now) sm.sessions;
  sid_index =
      if non_empty who.keycloak_sid then insert who.keycloak_sid id sm.sid_index else sm.sid_index;
}

unfoldable pub create_session :
    Option Str → Identity → ℕ → SessionManager → Option Str × SessionManager
unfolding store_session
create_session random who now sm = elim (generate_session_id random) [
  | none ↦ (none, sm)
  | some id ↦ (some id, store_session id who now sm)
]

-- now.After(session.ExpiresAt)
abbrev pub is_expired : ℕ → UserSession → Bool
is_expired now session = ltb session.expires_at now

abbrev pub live : ℕ → Option UserSession → Option UserSession
live now none = none
live now (some session) = if is_expired now session then none else some session

unfoldable pub get_session : Str → ℕ → SessionManager → Option UserSession
get_session id now sm = live now (lookup id sm.sessions)

-- What DestroySession and CleanExpired do to a session that is there.
unfoldable pub remove_session : Str → UserSession → SessionManager → SessionManager
remove_session id session sm = record sm {
  sessions = delete id sm.sessions;
  sid_index =
      if non_empty session.keycloak_sid
      then delete session.keycloak_sid sm.sid_index
      else sm.sid_index;
}

unfoldable pub destroy_session : Str → SessionManager → SessionManager
unfolding remove_session
destroy_session id sm = elim (lookup id sm.sessions) [
  | none ↦ sm
  | some session ↦ remove_session id session sm
]

unfoldable pub destroy_by_keycloak_sid : Str → SessionManager → Bool × SessionManager
destroy_by_keycloak_sid sid sm = elim (lookup sid sm.sid_index) [
  | none ↦ (false, sm)
  | some id ↦
      (true, record sm { sessions = delete id sm.sessions; sid_index = delete sid sm.sid_index })
]

-- One round of the loop of CleanExpired, at a key of the map.
unfoldable pub clean_one : ℕ → Str → ℕ × SessionManager → ℕ × SessionManager
clean_one now id (count, sm) = elim (lookup id sm.sessions) [
  | none ↦ (count, sm)
  | some session ↦
      if is_expired now session then (count + 1, remove_session id session sm) else (count, sm)
]

unfoldable pub clean_all : ℕ → List Str → ℕ × SessionManager → ℕ × SessionManager
unfolding clean_one
clean_all now [] acc = acc
clean_all now (id ∷ ids) acc = clean_all now ids (clean_one now id acc)

unfoldable pub clean_expired : ℕ → SessionManager → ℕ × SessionManager
unfolding clean_all
clean_expired now sm = clean_all now (keys sm.sessions) (0, sm)

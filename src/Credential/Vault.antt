-- ===== src/Credential/Vault.antt =====
-- knox-proxy/credential/vault_provider.go: credentials from Vault, of which a copy is kept. Vault and
-- the clock are outside, as are the decoding of its answers and the readability of a URL. A lease is
-- a number of seconds, from 0 on, so small that no Duration overflows.
pub mod Laws
use knox_proxy.Base.{
  zero, ◌||◌, keys, ◌-◌, suc, ◌==◌, ltb, lookup, ◌*◌, ◌+◌, eqb, Bool, if◌then◌else◌, Map, Option,
  Str, ℕ, false, true, none, some, inr, inl, refl, ◌∷◌, [],
}
use knox_proxy.Credential.{TeamCredential, CredentialProvider}
use knox_proxy.Json.{as_string, Json}
use knox_proxy.Session.{second}

-- A status and a body.
abbrev pub HttpAnswer : Type 0
HttpAnswer = ℕ × Str

-- Vault, with its state; a none is an error of the transport.
pub record Vault : Type 1 where
  pub State : Type 0
  pub now : State → ℕ
  -- POST …/v1/auth/approle/login with the role's ID and secret
  pub login : (addr role_id secret_id : Str) → State → Option HttpAnswer × State
  -- GET …/v1/… with the token
  pub read : (addr path token : Str) → State → Option HttpAnswer × State
  -- http.NewRequest accepts the URL.
  pub is_url : (addr path : Str) → Bool
  -- json.Unmarshal: the token and its lease, the teams' accounts, the fields of a secret
  pub decode_login : Str → Option (Str × ℕ)
  pub decode_teams : Str → Option (Map TeamCredential)
  pub decode_secret : Str → Option (Map Json)

pub record VaultProvider : Type 0 where
  pub vault_addr : Str
  pub role_id : Str
  pub secret_id : Str
  pub secret_path : Str
  pub cache_ttl : ℕ
  pub cache : Map TeamCredential
  pub cache_expiry : ℕ
  pub vault_token : Str
  pub token_expiry : ℕ

pub data VaultError : Type 0 where
  incomplete_configuration bad_url : VaultError
  request_failed parse_failed not_a_string : VaultError
  bad_status : ℕ → VaultError

-- What an answer comes to, if its body is read by `decode`.
pub data Answer {ℓ} (A : Type ℓ) : Type ℓ where
  answered : A → Answer A
  error : VaultError → Answer A

abbrev pub decoded_answer {ℓ} : {A : Type ℓ} → Option A → Answer A
decoded_answer none = error parse_failed
decoded_answer (some a) = answered a

unfoldable pub read_answer {ℓ} : {A : Type ℓ} → (Str → Option A) → Option HttpAnswer → Answer A
read_answer decode none = error request_failed
read_answer decode (some (status, body)) =
    if eqb status 200 then decoded_answer (decode body) else error (bad_status status)

-- A lease of 0 counts as an hour.
unfoldable pub lease_time : ℕ → ℕ
lease_time lease = if eqb lease 0 then 3600 * second else lease * second

-- The token is given up 30 seconds before it ends. The clock is past its first 30 seconds.
unfoldable pub with_login : Str × ℕ → ℕ → VaultProvider → VaultProvider
unfolding lease_time
with_login (token, lease) now vp = record vp {
  vault_token = token;
  token_expiry = now + lease_time lease - 30 * second;
}

-- The copy that GetCredential reads.
unfoldable pub with_cache : Map TeamCredential → ℕ → VaultProvider → VaultProvider
with_cache teams now vp = record vp { cache = teams; cache_expiry = now + vp.cache_ttl }

-- What a method returns: its result or an error, the provider, and the outside.
abbrev pub Returned {κ} : Type κ → (A : Type 0) → Type κ
Returned S A = Answer A × VaultProvider × S

abbrev pub fresh_provider : (addr role_id secret_id path : Str) → ℕ → VaultProvider
fresh_provider addr role_id secret_id path ttl_seconds = record {
  vault_addr = addr;
  role_id = role_id;
  secret_id = secret_id;
  secret_path = path;
  cache_ttl = ttl_seconds * second;
  cache = [];
  cache_expiry = 0;
  vault_token = [];
  token_expiry = 0;
}

-- GetCredential and ListTeams
unfoldable pub vault_credentials : VaultProvider → CredentialProvider
vault_credentials vp = record {
  get_credential = λ team. lookup team vp.cache;
  list_teams = keys vp.cache;
}

-- The value of a key, "" if it is missing.
unfoldable pub secret_field : Str → Map Json → Answer Str
secret_field key secret = elim (lookup key secret) [
  | none ↦ answered []
  | some v ↦ elim (as_string (some v)) [ none ↦ error not_a_string | some s ↦ answered s ]
]

abbrev pub bind_answer {ℓ κ} : {A : Type ℓ} {B : Type κ} → Answer A → (A → Answer B) → Answer B
bind_answer (answered a) f = f a
bind_answer (error e) f = error e

module _ (v : Vault) where
  finish_auth : VaultProvider → v.State → Answer (Str × ℕ) → Returned v.State (Unit {0})
  finish_auth vp s (error e) = (error e, vp, s)
  finish_auth vp s (answered login) = (answered tt, with_login login (v.now s) vp, s)

  unfoldable pub authenticate : VaultProvider → v.State → Returned v.State (Unit {0})
  unfolding finish_auth with_login read_answer
  authenticate vp s =
      let (resp, s') = v.login vp.vault_addr vp.role_id vp.secret_id s in
      finish_auth vp s' (read_answer v.decode_login resp)

  -- The start of refreshCache and of ReadSecret: a new token if the old one has expired.
  unfoldable pub renew_token : VaultProvider → v.State → Returned v.State (Unit {0})
  unfolding authenticate
  renew_token vp s =
      if ltb vp.token_expiry (v.now s) then authenticate vp s else (answered tt, vp, s)

  -- The request for a secret, behind the token.
  unfoldable pub read_path :
      {A : Type 0} → Str → (Str → Option A) → Returned v.State (Unit {0}) → Returned v.State A
  unfolding read_answer
  read_path path decode (error e, vp, s) = (error e, vp, s)
  read_path path decode (answered _, vp, s) =
      if v.is_url vp.vault_addr path
      then (let (resp, s') = v.read vp.vault_addr path vp.vault_token s in
          (read_answer decode resp, vp, s'))
      else (error bad_url, vp, s)

  store_teams : Returned v.State (Map TeamCredential) → Returned v.State (Unit {0})
  store_teams (error e, vp, s) = (error e, vp, s)
  store_teams (answered teams, vp, s) = (answered tt, with_cache teams (v.now s) vp, s)

  unfoldable pub refresh_cache : VaultProvider → v.State → Returned v.State (Unit {0})
  unfolding renew_token read_path store_teams with_cache
  refresh_cache vp s = store_teams (read_path vp.secret_path v.decode_teams (renew_token vp s))

  unfoldable pub read_secret : Str → Str → VaultProvider → v.State → Returned v.State Str
  unfolding renew_token read_path secret_field
  read_secret path key vp s =
      let (answer, vp', s') = read_path path v.decode_secret (renew_token vp s) in
      (bind_answer answer (secret_field key), vp', s')

  -- backgroundRefresh, for a number of ticks; an error is only logged.
  unfoldable pub background_refresh : ℕ → VaultProvider → v.State → VaultProvider × v.State
  background_refresh zero vp s = (vp, s)
  background_refresh (suc n) vp s =
      let (_, vp', s') = refresh_cache vp s in background_refresh n vp' s'

  first_load : Returned v.State (Unit {0}) → Returned v.State (Unit {0})
  first_load (error e, vp, s) = (error e, vp, s)
  first_load (answered _, vp, s) = refresh_cache vp s

  -- NewVaultProvider, before the goroutine is started
  unfoldable pub new_vault_provider :
      (addr role_id secret_id path : Str) → ℕ → v.State → Returned v.State (Unit {0})
  unfolding authenticate refresh_cache first_load
  new_vault_provider addr role_id secret_id path ttl_seconds s =
      let vp = fresh_provider addr role_id secret_id path ttl_seconds in
      if addr == [] || role_id == [] || secret_id == []
      then (error incomplete_configuration, vp, s)
      else first_load (authenticate vp s)

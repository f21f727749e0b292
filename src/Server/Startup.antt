-- ===== src/Server/Startup.antt =====
-- The start of the server in knox-proxy/main.go: the key of the admin API, the teams' accounts, and the
-- cookies that are fetched ahead. What is only logged is left out.
use mathlib.Core.Option
use knox_proxy.Base.{
  arith, ◌==◌, if◌then◌else◌, ◌≡◌, List, Str, lookup, Map, none, some, refl, ◌∷◌, [],
}
use knox_proxy.Credential.Vault.{read_secret, answered, error, VaultProvider, Vault, Answer}
use knox_proxy.Config.{Config, TeamCredentialConfig}
use knox_proxy.World.{World}
use knox_proxy.Credential.{CredentialProvider, TeamCredential}
use knox_proxy.Cookie.{get_cookie, Pool}

-- The answer of ReadSecret; an error leaves the admin API off.
unfoldable pub with_api_key : Answer Str → Config → Config
with_api_key (error e) cfg = cfg
with_api_key (answered []) cfg = cfg
with_api_key (answered (c ∷ key)) cfg = record cfg { knox_api_key = c ∷ key }

unfoldable pub api_key_from_vault :
    (v : Vault) → Config → VaultProvider → v.State → Config × VaultProvider × v.State
unfolding with_api_key
api_key_from_vault v cfg vp s =
    if cfg.knox_api_key == []
    then (let (answer, vp', s') =
          read_secret v cfg.knox_api_key_vault_path cfg.knox_api_key_vault_field vp s in
        (with_api_key answer cfg, vp', s'))
    else (cfg, vp, s)

abbrev pub team_credential : TeamCredentialConfig → TeamCredential
team_credential account = record { email = account.email; password = account.password }

-- The copy of the accounts in the configuration.
unfoldable pub credential_map : Map TeamCredentialConfig → Map TeamCredential
credential_map [] = []
credential_map ((name, account) ∷ teams) = (name, team_credential account) ∷ credential_map teams

module _ (w : World) (provider : CredentialProvider) where
  unfoldable pub pre_warm_team : Str → Pool × w.State → Pool × w.State
  pre_warm_team team (p, s) = elim (provider.get_credential team) [
    | none ↦ (p, s)
    | some cred ↦ let (_, p', s') = get_cookie w cred.email cred.password p s in (p', s')
  ]

  -- The loop over the teams; an error does not end it.
  unfoldable pub pre_warm : List Str → Pool × w.State → Pool × w.State
  unfolding pre_warm_team
  pre_warm [] p = p
  pre_warm (team ∷ teams) p = pre_warm teams (pre_warm_team team p)

-- A team has the account that the configuration gives it.
pub credential_map-lookup :
    (team : Str) (teams : Map TeamCredentialConfig)
    → lookup team (credential_map teams) ≡ Option.map team_credential (lookup team teams)
unfolding credential_map lookup
credential_map-lookup team [] = refl
credential_map-lookup team ((name, account) ∷ teams) =
    ground (arith, credential_map-lookup team teams)

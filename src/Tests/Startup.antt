-- ===== src/Tests/Startup.antt =====
-- The configuration, Vault and the database at concrete inputs (knox-proxy/config/config.go,
-- knox-proxy/credential/vault_provider.go, knox-proxy/jit/db.go).
use knox_proxy.Retry.Laws.{IsReached, new_db_iff}
use knox_proxy.Config.{load_with_secret, load_with_credentials, get_env_bool}
use knox_proxy.Retry.{new_oidc_auth}
use mathlib.Core.Path.{subst}
use mathlib.Core.Option.{some-injective}
use knox_proxy.Base.{sym, true, none, some, refl, ◌∷◌, [], ◌==◌}
use knox_proxy.Base.{refl, ◌∷◌, ◌<◌, ◌↔◌, ℕ, ltb, ◌≡◌, bytes, true, none, some, []}
use knox_proxy.Config.{Config, config_of, loaded, load_from_env, Environment}
use knox_proxy.Retry.{new_db}
use knox_proxy.Credential.Vault.{refresh_cache, fresh_provider, VaultProvider, Vault}
use knox_proxy.Credential.Vault.Laws.{refresh_cache_cases, Refreshed}
use knox_proxy.Config.Variables.{load_from_env_iff}
use knox_proxy.Config.Reads.{IsLoaded}
use knox_proxy.World.{World}
use knox_proxy.Jit.Ticket.{approved, Ticket}
use knox_proxy.Jit.Repository.{Db}
use knox_proxy.Server.Boot.{ready, assemble, boot, Started, Machine}
use knox_proxy.Credential.{env_provider}
use knox_proxy.Cookie.{new_pool}
use knox_proxy.Server.Boot.Ready.{boot_ready, IsAround}
use knox_proxy.Jit.Migration.{migrate, Database}

-- Every variable is set to the same text.
abbrev env : Environment
env = record {
  getenv = λ name. bytes "x";
  random = none;
  base64 = λ s. s;
  decode_credentials = λ s. some [];
}

load_from_env_iff_example :
    (load_from_env env ≡ loaded (config_of env (bytes "x") []))
    ↔ IsLoaded env (config_of env (bytes "x") [])
load_from_env_iff_example = load_from_env_iff env (config_of env (bytes "x") [])

new_db_iff_example :
    (new_db (λ i. some i) (λ i pool. ltb 2 i) ≡ some 3)
    ↔ ((k : ℕ) × (k < 10) × IsReached (λ i. some i) (λ i pool. ltb 2 i) k 3)
new_db_iff_example = new_db_iff (λ i. some i) (λ i pool. ltb 2 i) 3

-- A clock that stands still, a login that works, and a secret that is empty.
abbrev pub vault : Vault
vault = record {
  State = ℕ;
  now = λ s. s;
  login = λ addr role_id secret_id s. (some (200, []), s);
  read = λ addr path token s. (some (200, []), s);
  is_url = λ addr path. true;
  decode_login = λ b. some (bytes "token", 60);
  decode_teams = λ b. some [];
  decode_secret = λ b. none;
}

abbrev provider : VaultProvider
provider = fresh_provider (bytes "http://v") (bytes "r") (bytes "s") (bytes "secret") 300

refresh_cache_cases_example : Refreshed vault provider (refresh_cache vault provider 5)
refresh_cache_cases_example = refresh_cache_cases vault provider 5

-- A clock, and an n8n that does not answer.
abbrev pub world : World
world = record {
  State = ℕ;
  now = λ s. s;
  login = λ email password s. (none, s);
  send = λ r s. (none, s);
}

abbrev pub ticket : Ticket
ticket = record {
  id = bytes "u1";
  ticket_number = bytes "JIT-20260101-0A0B";
  email = bytes "ann@x.org";
  display_name = bytes "Ann";
  team = bytes "a";
  workflow_id = bytes "w1";
  access_type = bytes "run";
  description = bytes "a nightly fix";
  period_start = 100;
  period_end = 200;
  status = approved;
  status_reason = [];
  updated_by = [];
  created_at = 1;
  updated_at = 1;
}

abbrev pub table : Db
table = record { tickets = ticket ∷ []; faults = [] }

abbrev pub database : Database
database = record { table = some (ticket ∷ []); faults = [] }

abbrev pub machine : Machine
machine = record {
  env = env;
  discover = λ i. some none;
  open_pool = λ i. some database;
  ping = λ i db. true;
  nodes_file = λ name. none;
  parse_url = λ url. some (bytes "http", url);
}

abbrev config : Config
config = config_of env (bytes "x") []

-- The server that starts on this machine.
abbrev pub booted : Started world
booted =
    assemble world vault machine config
      (record {
        client_id = bytes "x";
        redirect_url = bytes "x";
        end_session_endpoint = [];
        states = [];
      })
      (env_provider []) (bytes "http", bytes "x") (new_pool 3600, 6) table

pub starts : boot world vault machine 6 5 ≡ ready booted
unfolding boot migrate load_from_env load_with_secret bytes load_with_credentials get_env_bool ◌==◌
    config_of new_oidc_auth new_db env_provider
starts = refl

boot_ready_example :
    (base : Config) × (found : Database) × (db : Db) × (k : ℕ) × IsLoaded env base
    × (k < 10)
    × IsReached machine.open_pool machine.ping k found
    × (migrate found ≡ some db)
    × IsAround world vault machine base booted db
boot_ready_example = boot_ready world vault machine 6 booted 5 starts

-- The one table behind the migration.
pub migrated_table :
    (found : Database) (db : Db)
    → new_db machine.open_pool machine.ping ≡ some found
    → migrate found ≡ some db
    → table ≡ db
unfolding new_db migrate
migrated_table found db reached migrated =
    let same : database ≡ found = some-injective database found reached in
    some-injective table db (subst (λ d. migrate d ≡ some db) (sym same) migrated)

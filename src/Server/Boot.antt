-- ===== src/Server/Boot.antt =====
-- The start of the server in knox-proxy/main.go, in its order, up to the first error that ends it. The
-- audit log and what is only logged are left out. Discovery, the parsing of a URL, the pool of database
-- connections are parameters.
pub mod Ready
use knox_proxy.Base.{
  ◌*◌, true, inr, inl, refl, ◌∷◌, Bool, negsuc, if◌then◌else◌, Str, pos, Option, ℕ, ℤ, false, none,
  some, [],
}
use knox_proxy.Config.{loaded, failed, load_from_env, Loaded, Config, ConfigError, Environment}
use knox_proxy.World.{World}
use knox_proxy.Credential.Vault.{
  vault_credentials, answered, error, new_vault_provider, Returned, Vault, VaultError,
}
use knox_proxy.Policy.Sanitizer.{NodesFile, new_sanitizer, Sanitizer}
use knox_proxy.Credential.{env_provider, CredentialProvider}
use knox_proxy.Server.{Site, App}
use knox_proxy.Server.Startup.{pre_warm, credential_map, api_key_from_vault}
use knox_proxy.Oidc.{OidcAuth}
use knox_proxy.Cookie.{new_pool, Pool}
use knox_proxy.Jit.Repository.{Db}
use knox_proxy.Retry.{new_oidc_auth, new_db}
use knox_proxy.Session.{second, new_session_manager}
use knox_proxy.Jit.Scheduler.{init_from_db}
use knox_proxy.Jit.Migration.{migrate, Database}

-- A negative number of seconds or days counts as 0: nothing lasts either way.
abbrev pub natural : ℤ → ℕ
natural (pos n) = n
natural (negsuc n) = 0

pub record Machine : Type 0 where
  pub env : Environment
  -- an attempt of oidc.NewProvider, to the end_session_endpoint that the provider tells
  pub discover : ℕ → Option (Option Str)
  -- an attempt of sql.Open, to the database, and of Ping
  pub open_pool : ℕ → Option Database
  pub ping : ℕ → Database → Bool
  -- the file of dangerous nodes; none for ""
  pub nodes_file : Str → Option NodesFile
  -- url.Parse, to the scheme and the host
  pub parse_url : Str → Option (Str × Str)

pub data BootError : Type 0 where
  no_config : ConfigError → BootError
  no_oidc no_backend no_database no_migration : BootError
  no_vault : VaultError → BootError

-- The server when it starts to listen: its configuration, with the key of the admin API, the
-- sanitizer, and the state of the process.
pub record Started (w : World) : Type 0 where
  pub config : Config
  pub sanitizer : Sanitizer
  pub app : App w

pub data Boot (w : World) : Type 0 where
  ready : Started w → Boot w
  exited : BootError → Boot w

-- What the provider of credentials comes to.
pub data Accounts (S : Type 0) : Type 0 where
  provided : Config → CredentialProvider → S → Accounts S
  unavailable : VaultError → Accounts S

module _ (w : World) (v : Vault) (m : Machine) where
  -- Behind NewVaultProvider.
  unfoldable pub with_vault : Config → Returned v.State (Unit {0}) → Accounts v.State
  unfolding api_key_from_vault
  with_vault cfg (error e, vp, s) = unavailable e
  with_vault cfg (answered _, vp, s) =
      let (cfg', vp', s') = api_key_from_vault v cfg vp s in
      provided cfg' (vault_credentials vp') s'

  unfoldable pub accounts_of : Config → v.State → Accounts v.State
  unfolding with_vault credential_map
  accounts_of cfg s =
      if cfg.enable_vault
      then with_vault cfg (
          new_vault_provider v cfg.vault_addr cfg.vault_role_id cfg.vault_secret_id
            cfg.vault_secret_path (natural cfg.vault_cache_ttl) s)
      else provided cfg (env_provider (credential_map cfg.team_credentials)) s

  -- The cookies fetched ahead.
  unfoldable pub warmed : Config → CredentialProvider → w.State → Pool × w.State
  unfolding pre_warm
  warmed cfg provider out =
      pre_warm w provider provider.list_teams (new_pool (natural cfg.cookie_ttl), out)

  -- The end of main, before the server listens.
  unfoldable pub assemble :
      Config → OidcAuth → CredentialProvider → Str × Str → Pool × w.State → Db → Started w
  assemble cfg a provider (scheme, host) (pool, out) db = record {
    config = cfg;
    sanitizer = new_sanitizer cfg.dangerous_nodes (m.nodes_file cfg.dangerous_nodes_file);
    app = record {
      auth_state = a;
      sessions = new_session_manager (natural cfg.session_max_age);
      jit = init_from_db (w.now out) (record { db = db; timers = []; sent = [] });
      proxy = record {
        provider = provider;
        group_prefix = cfg.keycloak_group_prefix;
        target_scheme = scheme;
        target_host = host;
      };
      pool = pool;
      outside = out;
      closed = false;
    };
  }

  unfoldable pub with_migration :
      Config → OidcAuth → CredentialProvider → Str × Str → Pool × w.State → Option Db → Boot w
  unfolding assemble
  with_migration cfg a provider target warm none = exited no_migration
  with_migration cfg a provider target warm (some db) =
      ready (assemble cfg a provider target warm db)

  unfoldable pub with_database :
      Config → OidcAuth → CredentialProvider → Str × Str → Pool × w.State → Option Database → Boot w
  unfolding with_migration migrate
  with_database cfg a provider target warm none = exited no_database
  with_database cfg a provider target warm (some db) =
      with_migration cfg a provider target warm (migrate db)

  unfoldable pub with_backend :
      Config → OidcAuth → CredentialProvider → Option (Str × Str) → Pool × w.State → Boot w
  unfolding with_database
  with_backend cfg a provider none warm = exited no_backend
  with_backend cfg a provider (some target) warm =
      with_database cfg a provider target warm (new_db m.open_pool m.ping)

  unfoldable pub with_accounts : OidcAuth → w.State → Accounts v.State → Boot w
  unfolding with_backend warmed
  with_accounts a out (unavailable e) = exited (no_vault e)
  with_accounts a out (provided cfg provider s) =
      with_backend cfg a provider (m.parse_url cfg.n8n_backend_url) (warmed cfg provider out)

  unfoldable pub with_oidc : Config → Option OidcAuth → w.State → v.State → Boot w
  unfolding with_accounts accounts_of
  with_oidc cfg none out s = exited no_oidc
  with_oidc cfg (some a) out s = with_accounts a out (accounts_of cfg s)

  unfoldable pub with_config : Loaded → w.State → v.State → Boot w
  unfolding with_oidc
  with_config (failed e) out s = exited (no_config e)
  with_config (loaded cfg) out s =
      with_oidc cfg
        (new_oidc_auth m.discover (λ endpoint. endpoint) cfg.oidc_client_id cfg.oidc_redirect_url)
        out s

  unfoldable pub boot : w.State → v.State → Boot w
  unfolding with_config
  boot out s = with_config (load_from_env m.env) out s

-- What NewHandler of knox-proxy/jit/handler.go, NewBackchannelLogoutHandler and Policy are given. The
-- days are so few that no Duration overflows.
unfoldable pub configured : (w : World) → Started w → Site → Site
configured w st site = record site {
  sanitizer = st.sanitizer;
  api = record site.api {
    webhook_url = st.config.jit_webhook_url;
    max_duration = natural st.config.jit_max_duration_days * 24 * 3600 * second;
    api_key = st.config.knox_api_key;
    group_prefix = st.config.keycloak_group_prefix;
  };
  backchannel = record site.backchannel {
    client_id = st.config.oidc_client_id;
    issuer_url = st.config.oidc_issuer_url;
  };
}

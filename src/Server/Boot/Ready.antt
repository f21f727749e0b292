-- ===== src/Server/Boot/Ready.antt =====
-- What has succeeded when the server of knox-proxy/main.go starts to listen.
use mathlib.Core.Option
use mathlib.Core.Path.{subst}
use knox_proxy.Retry.Laws.{IsReached, new_db_iff}
use knox_proxy.Jit.Scheduler.Laws.{init_from_db-lookup, HasUniqueIds, IsListed}
use knox_proxy.Base.{
  if◌then◌else◌, Bool, ◌∷◌, ◌∙◌, ap, ◌==◌, lookup, ◌<◌, Str, Bool-cases, ℕ, ◌≡◌, Option, false,
  true, none, some, inr, inl, refl, [],
}
use knox_proxy.World.{World}
use knox_proxy.Credential.Vault.{error, answered, Answer, Returned, VaultProvider, Vault}
use knox_proxy.Server.Startup.{with_api_key, api_key_from_vault}
use knox_proxy.Server.Boot.{
  with_vault, warmed, provided, unavailable, accounts_of, assemble, natural, ready, with_backend,
  with_database, with_migration, Accounts, boot, with_config, with_oidc, with_accounts, Started,
  Machine,
}
use knox_proxy.Config.{load_from_env, failed, loaded, Loaded, Config}
use knox_proxy.Jit.Repository.{query_fails, Db}
use knox_proxy.Oidc.{OidcAuth}
use knox_proxy.Jit.Scheduler.{Jit, next_transition, timer_for, is_pending, init_from_db}
use knox_proxy.Jit.Ticket.{Ticket}
use knox_proxy.Credential.{CredentialProvider}
use knox_proxy.Session.{new_session_manager}
use knox_proxy.Retry.{new_oidc_auth, new_db}
use knox_proxy.Config.Variables.{load_from_env_iff}
use knox_proxy.Config.Reads.{IsLoaded}
use knox_proxy.Cookie.{Pool}
use knox_proxy.Jit.Migration.{migrate, Database}

-- The configurations differ at most in the key of the admin API.
abbrev pub IsButKey : Config → Config → Type 0
IsButKey base cfg = cfg ≡ record base { knox_api_key = cfg.knox_api_key }

with_api_key-IsButKey :
    (answer : Answer Str) (cfg : Config) → IsButKey cfg (with_api_key answer cfg)
unfolding with_api_key
with_api_key-IsButKey (error e) cfg = refl
with_api_key-IsButKey (answered []) cfg = refl
with_api_key-IsButKey (answered (c ∷ key)) cfg = refl

api_key_from_vault-IsButKey :
    (v : Vault) (cfg : Config) (vp : VaultProvider) (s : v.State)
    → IsButKey cfg (api_key_from_vault v cfg vp s).0
unfolding api_key_from_vault
api_key_from_vault-IsButKey v cfg vp s = elim (Bool-cases (cfg.knox_api_key == [])) [
  | inl e ↦ rw e (with_api_key-IsButKey _ cfg)
  | inr e ↦ rw e refl
]

either_way {ℓ κ} :
    {A : Type ℓ} {P : Type κ} (b : Bool) {x y r : A}
    → (x ≡ r → P)
    → (y ≡ r → P)
    → (if b then x else y) ≡ r
    → P
either_way true f g h = f h
either_way false f g h = g h

module _ (w : World) (v : Vault) (m : Machine) where
  abbrev discovered : Config → Option OidcAuth
  discovered cfg =
      new_oidc_auth m.discover (λ endpoint. endpoint) cfg.oidc_client_id cfg.oidc_redirect_url

  -- The process that main has put together around this table, with the configuration that was loaded,
  -- but for a key from Vault, a provider that was discovered, and a backend whose URL could be read.
  pub record IsAround (base : Config) (st : Started w) (db : Db) : Type 0 where
    pub same_config : IsButKey base st.config
    pub logins : discovered base ≡ some st.app.auth_state
    pub no_sessions : st.app.sessions ≡ new_session_manager (natural st.config.session_max_age)
    pub scheduled :
        st.app.jit
        ≡ init_from_db (w.now st.app.outside) (record { db = db; timers = []; sent = [] })
    pub backend :
        m.parse_url st.config.n8n_backend_url
        ≡ some (st.app.proxy.target_scheme, st.app.proxy.target_host)

  -- The table behind the migration, of the first connection that was made.
  abbrev pub Migrates : Option Database → Db → Type 0
  Migrates reached db = (found : Database) × (reached ≡ some found) × (migrate found ≡ some db)

  with_vault-IsButKey :
      (base cfg : Config) (provider : CredentialProvider) (s : v.State)
      (r : Returned v.State (Unit {0}))
      → with_vault w v m base r ≡ provided cfg provider s
      → IsButKey base cfg
  unfolding with_vault
  with_vault-IsButKey base cfg provider s (error e, vp, t) h = absurd (cc h)
  with_vault-IsButKey base cfg provider s (answered u, vp, t) h =
      let same : (api_key_from_vault v base vp t).0 ≡ cfg = cc h in
      subst (IsButKey base) same (api_key_from_vault-IsButKey v base vp t)

  accounts_of-IsButKey :
      (base cfg : Config) (provider : CredentialProvider) (s t : v.State)
      → accounts_of w v m base s ≡ provided cfg provider t
      → IsButKey base cfg
  unfolding accounts_of
  accounts_of-IsButKey base cfg provider s t h =
      either_way base.enable_vault (λ e. with_vault-IsButKey base cfg provider t _ e)
        (λ e. let same : base ≡ cfg = cc e in subst (IsButKey base) same refl) h

  module _ (base cfg : Config) (a : OidcAuth) (provider : CredentialProvider) (st : Started w)
      (key : IsButKey base cfg) (found_oidc : discovered base ≡ some a) where
    migration_ready :
        (target : Str × Str) (warm : Pool × w.State) (migrated : Option Db)
        → m.parse_url cfg.n8n_backend_url ≡ some target
        → with_migration w v m cfg a provider target warm migrated ≡ ready st
        → (db : Db) × (migrated ≡ some db) × IsAround base st db
    unfolding with_migration assemble
    migration_ready target warm none parsed h = absurd (cc h)
    migration_ready target warm (some db) parsed h =
        let same : assemble w v m cfg a provider target warm db ≡ st = cc h in
        (
          db,
          refl,
          subst (λ x. IsAround base x db) same
              (record {
                same_config = key;
                logins = found_oidc;
                no_sessions = refl;
                scheduled = refl;
                backend = parsed;
              }),
        )

    database_ready :
        (target : Str × Str) (warm : Pool × w.State) (reached : Option Database)
        → m.parse_url cfg.n8n_backend_url ≡ some target
        → with_database w v m cfg a provider target warm reached ≡ ready st
        → (db : Db) × Migrates reached db × IsAround base st db
    unfolding with_database
    database_ready target warm none parsed h = absurd (cc h)
    database_ready target warm (some found) parsed h =
        let (db, migrated, around) = migration_ready target warm (migrate found) parsed h in
        (db, (found, refl, migrated), around)

    backend_ready :
        (parsed : Option (Str × Str)) (warm : Pool × w.State)
        → m.parse_url cfg.n8n_backend_url ≡ parsed
        → with_backend w v m cfg a provider parsed warm ≡ ready st
        → (db : Db) × Migrates (new_db m.open_pool m.ping) db × IsAround base st db
    unfolding with_backend
    backend_ready none warm e h = absurd (cc h)
    backend_ready (some target) warm e h =
        database_ready target warm (new_db m.open_pool m.ping) e h

  module _ (out : w.State) (st : Started w) where
    accounts_ready :
        (base : Config) (a : OidcAuth) (s : v.State) (accounts : Accounts v.State)
        → discovered base ≡ some a
        → accounts_of w v m base s ≡ accounts
        → with_accounts w v m a out accounts ≡ ready st
        → (db : Db) × Migrates (new_db m.open_pool m.ping) db × IsAround base st db
    unfolding with_accounts
    accounts_ready base a s (unavailable e) found same h = absurd (cc h)
    accounts_ready base a s (provided cfg provider t) found same h =
        backend_ready base cfg a provider st (accounts_of-IsButKey base cfg provider s t same) found
          (m.parse_url cfg.n8n_backend_url) (warmed w v m cfg provider out) refl h

    oidc_ready :
        (s : v.State) (base : Config) (a : Option OidcAuth)
        → discovered base ≡ a
        → with_oidc w v m base a out s ≡ ready st
        → (db : Db) × Migrates (new_db m.open_pool m.ping) db × IsAround base st db
    unfolding with_oidc
    oidc_ready s base none found h = absurd (cc h)
    oidc_ready s base (some a) found h =
        accounts_ready base a s (accounts_of w v m base s) found refl h

    config_ready :
        (s : v.State) (loading : Loaded)
        → with_config w v m loading out s ≡ ready st
        → (base : Config) × (db : Db) × (loading ≡ loaded base)
          × Migrates (new_db m.open_pool m.ping) db
          × IsAround base st db
    unfolding with_config
    config_ready s (failed e) h = absurd (cc h)
    config_ready s (loaded base) h =
        let (db, reached, around) = oidc_ready s base (discovered base) refl h in
        (base, db, refl, reached, around)

    -- The server listens only if the configuration could be loaded, the provider of logins was
    -- discovered, one of the first ten attempts reached the database and the migration succeeded. It
    -- then has that configuration, but for a key of the admin API from Vault, that provider, no
    -- session, and the timers that InitFromDB sets for the table.
    pub boot_ready :
        (s : v.State)
        → boot w v m out s ≡ ready st
        → (base : Config) × (found : Database) × (db : Db) × (k : ℕ) × IsLoaded m.env base
          × (k < 10)
          × IsReached m.open_pool m.ping k found
          × (migrate found ≡ some db)
          × IsAround base st db
    unfolding boot
    boot_ready s h =
        let (base, db, loads, (found, reached, migrated), around) =
          config_ready s (load_from_env m.env) h in
        let (k, below, first) = (new_db_iff m.open_pool m.ping found).0 reached in
        (base, found, db, k, (load_from_env_iff m.env base).0 loads, below, first, migrated, around)

    tickets-init :
        (now : ℕ) (db : Db)
        → (init_from_db now (record { db = db; timers = []; sent = [] })).db.tickets ≡ db.tickets
    unfolding init_from_db
    tickets-init now db = elim (Bool-cases (query_fails db)) [ inl e ↦ rw e | inr e ↦ rw e ]

    -- If the migrated table can be read and no two of its tickets have the same ID, each ticket that
    -- waits for a transition has the timer of that transition when the server starts to listen.
    pub boot_timers :
        (s : v.State) (t : Ticket)
        → ((found : Database) (db : Db)
            → new_db m.open_pool m.ping ≡ some found
            → migrate found ≡ some db
            → (query_fails db ≡ false) × HasUniqueIds db.tickets)
        → boot w v m out s ≡ ready st
        → IsListed t st.app.jit.db.tickets
        → is_pending t.status ≡ true
        → lookup t.id st.app.jit.timers
          ≡ Option.map (timer_for (w.now st.app.outside)) (next_transition t)
    boot_timers s t readable h listed waits =
        let (base, found, db, k, loads, below, first, migrated, around) = boot_ready s h in
        let now = w.now st.app.outside in
        let (fine, unique) =
          readable found db ((new_db_iff m.open_pool m.ping found).1 (k, below, first)) migrated in
        let here : IsListed t db.tickets =
          subst (IsListed t) (ap (λ (j : Jit). j.db.tickets) around.scheduled ∙ tickets-init now db)
            listed in
        ap (λ (j : Jit). lookup t.id j.timers) around.scheduled
        ∙ init_from_db-lookup now (record { db = db; timers = []; sent = [] }) t fine unique here
            waits

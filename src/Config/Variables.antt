-- ===== src/Config/Variables.antt =====
-- Why the configuration says what the variables of the environment (knox-proxy/config/config.go).
use mathlib.Core.Path.{subst}
use mathlib.Core.Option.{some-injective}
-- What a variable with this text says: the text, or the default if it is "".
use knox_proxy.Base.{
  ◌↔◌, ◌∙◌, Option-cases, ap, sym, pos, Map, bytes, ◌⊎◌, ◌≡◌, Bool, ◌≢◌, Str, false, true, some,
  inr, inl, refl, ◌∷◌, [],
}
use knox_proxy.Config.{
  loaded, vault_enabled, TeamCredentialConfig, load_from_env, get_env_int, get_env_bool, get_env,
  config_of, credentials_of, session_secret_of, value_or, Config, redirect_url_of, Environment,
}
use knox_proxy.Config.Laws.{loads_iff, CanLoad}
use knox_proxy.Config.Reads.{
  Reads, IsLoaded, value_or-Reads, Reads-value_or, get_or-read, read-get_or, redirect-Reads,
  nodes_said, said_nodes, redirect_said,
}

module _ (env : Environment) where
  secret_said :
      (text secret : Str)
      → session_secret_of env text ≡ some secret
      → ((text ≢ []) × (secret ≡ text))
        ⊎ ((text ≡ [])
            × ((random : Str) × (env.random ≡ some random) × (secret ≡ env.base64 random)))
  unfolding session_secret_of
  secret_said (c ∷ s) secret h = inl (λ e. cc e, sym (some-injective (c ∷ s) secret h))
  secret_said [] secret h = elim (Option-cases env.random) [
    | inl e ↦ absurd (cc (rw e at h))
    | inr (random, e) ↦
        inr (refl, (random, e, sym (some-injective (env.base64 random) secret (rw e at h))))
  ]

  said_secret :
      (text secret : Str)
      → ((text ≢ []) × (secret ≡ text))
        ⊎ ((text ≡ [])
            × ((random : Str) × (env.random ≡ some random) × (secret ≡ env.base64 random)))
      → session_secret_of env text ≡ some secret
  unfolding session_secret_of
  said_secret [] secret (inl (h, e)) = absurd (h refl)
  said_secret [] secret (inr (h, (random, there, e))) = rw (there, e) refl
  said_secret (c ∷ s) secret (inl (h, e)) = ap some (sym e)
  said_secret (c ∷ s) secret (inr (h, (random, there, e))) = absurd (cc h)

  -- Whose accounts they are.
  abbrev AreAccounts : Bool → Map TeamCredentialConfig → Type 0
  AreAccounts vault credentials =
      ((vault ≡ true) × (credentials ≡ []))
      ⊎ ((vault ≡ false)
          × ((text : Str) × Reads (env.getenv (bytes "N8N_TEAM_CREDENTIALS")) (bytes "{}") text
              × (env.decode_credentials text ≡ some credentials)))

  accounts_said :
      (vault : Bool) (credentials : Map TeamCredentialConfig)
      → credentials_of env vault ≡ some credentials
      → AreAccounts vault credentials
  unfolding credentials_of get_env
  accounts_said true credentials h = inl (refl, sym (some-injective [] credentials h))
  accounts_said false credentials h = inr (
    refl,
    (value_or (env.getenv (bytes "N8N_TEAM_CREDENTIALS")) (bytes "{}"), value_or-Reads _ _, h),
  )

  said_accounts :
      (vault : Bool) (credentials : Map TeamCredentialConfig)
      → AreAccounts vault credentials
      → credentials_of env vault ≡ some credentials
  unfolding credentials_of get_env
  said_accounts true credentials (inl (h, e)) = ap some (sym e)
  said_accounts true credentials (inr (h, _)) = absurd (cc h)
  said_accounts false credentials (inl (h, e)) = absurd (cc h)
  said_accounts false credentials (inr (h, (text, said, decoded))) =
      ap env.decode_credentials (sym (Reads-value_or _ _ text said)) ∙ decoded

  config_of-IsLoaded :
      (secret : Str) (credentials : Map TeamCredentialConfig)
      → CanLoad env secret credentials
      → IsLoaded env (config_of env secret credentials)
  unfolding config_of get_env get_env_int get_env_bool vault_enabled
  config_of-IsLoaded secret credentials can = record {
    n8n_backend_url = value_or-Reads _ _;
    n8n_internal_url = value_or-Reads _ _;
    oidc_issuer_url = value_or-Reads _ _;
    oidc_client_id = value_or-Reads _ _;
    oidc_client_secret = value_or-Reads _ _;
    keycloak_group_prefix = value_or-Reads _ _;
    vault_addr = value_or-Reads _ _;
    vault_role_id = value_or-Reads _ _;
    vault_secret_id = value_or-Reads _ _;
    vault_secret_path = value_or-Reads _ _;
    dangerous_nodes_file = value_or-Reads _ _;
    jit_database_url = value_or-Reads _ _;
    jit_webhook_url = value_or-Reads _ _;
    knox_api_key = value_or-Reads _ _;
    knox_api_key_vault_path = value_or-Reads _ _;
    knox_api_key_vault_field = value_or-Reads _ _;
    proxy_port = get_or-read _ _;
    session_max_age = get_or-read _ _;
    vault_cache_ttl = get_or-read _ _;
    cookie_ttl = get_or-read _ _;
    jit_max_duration_days = get_or-read _ _;
    enable_vault = get_or-read _ _;
    oidc_redirect_url = redirect-Reads _ _;
    dangerous_nodes = nodes_said _;
    session_secret = secret_said _ secret can.secret_there;
    team_credentials = accounts_said _ credentials can.accounts;
    issuer = can.issuer;
    client_secret = can.client_secret;
  }

  module _ (c : Config) (h : IsLoaded env c) where
    vault_said : c.enable_vault ≡ get_env_bool env (bytes "ENABLE_VAULT") false
    unfolding get_env_bool
    vault_said = read-get_or _ _ _ h.enable_vault

    port_said : c.proxy_port ≡ get_env_int env (bytes "PROXY_PORT") (pos 8443)
    unfolding get_env_int
    port_said = read-get_or _ _ _ h.proxy_port

    url_said :
        c.oidc_redirect_url
        ≡ redirect_url_of
            (get_env env (bytes "OIDC_REDIRECT_URL") [])
            (get_env_int env (bytes "PROXY_PORT") (pos 8443))
    unfolding get_env
    url_said =
        Reads-value_or _ _ _ h.oidc_redirect_url
        ∙ sym (redirect_said (env.getenv (bytes "OIDC_REDIRECT_URL")) c.proxy_port)
        ∙ ap (redirect_url_of (value_or (env.getenv (bytes "OIDC_REDIRECT_URL")) [])) port_said

    IsLoaded-config_of : c ≡ config_of env c.session_secret c.team_credentials
    unfolding config_of get_env get_env_int vault_enabled
    IsLoaded-config_of = λ i. record {
      n8n_backend_url = Reads-value_or _ _ _ h.n8n_backend_url i;
      n8n_internal_url = Reads-value_or _ _ _ h.n8n_internal_url i;
      oidc_issuer_url = Reads-value_or _ _ _ h.oidc_issuer_url i;
      oidc_client_id = Reads-value_or _ _ _ h.oidc_client_id i;
      oidc_client_secret = Reads-value_or _ _ _ h.oidc_client_secret i;
      keycloak_group_prefix = Reads-value_or _ _ _ h.keycloak_group_prefix i;
      vault_addr = Reads-value_or _ _ _ h.vault_addr i;
      vault_role_id = Reads-value_or _ _ _ h.vault_role_id i;
      vault_secret_id = Reads-value_or _ _ _ h.vault_secret_id i;
      vault_secret_path = Reads-value_or _ _ _ h.vault_secret_path i;
      dangerous_nodes_file = Reads-value_or _ _ _ h.dangerous_nodes_file i;
      jit_database_url = Reads-value_or _ _ _ h.jit_database_url i;
      jit_webhook_url = Reads-value_or _ _ _ h.jit_webhook_url i;
      knox_api_key = Reads-value_or _ _ _ h.knox_api_key i;
      knox_api_key_vault_path = Reads-value_or _ _ _ h.knox_api_key_vault_path i;
      knox_api_key_vault_field = Reads-value_or _ _ _ h.knox_api_key_vault_field i;
      proxy_port = read-get_or _ _ _ h.proxy_port i;
      session_max_age = read-get_or _ _ _ h.session_max_age i;
      vault_cache_ttl = read-get_or _ _ _ h.vault_cache_ttl i;
      cookie_ttl = read-get_or _ _ _ h.cookie_ttl i;
      jit_max_duration_days = read-get_or _ _ _ h.jit_max_duration_days i;
      enable_vault = vault_said i;
      oidc_redirect_url = url_said i;
      dangerous_nodes = said_nodes _ _ h.dangerous_nodes i;
      session_secret = c.session_secret;
      team_credentials = c.team_credentials;
    }

    IsLoaded-CanLoad : CanLoad env c.session_secret c.team_credentials
    IsLoaded-CanLoad = record {
      secret_there = said_secret _ c.session_secret h.session_secret;
      accounts =
          subst (λ vault. credentials_of env vault ≡ some c.team_credentials) vault_said
            (said_accounts c.enable_vault c.team_credentials h.team_credentials);
      issuer = h.issuer;
      client_secret = h.client_secret;
    }

  -- A configuration is loaded exactly if each of its fields is what its variable says, or the field's
  -- default where the variable is "" or is not the number or Boolean that it should be; the secret of
  -- the sessions is its variable or made of random bytes, the accounts are empty with Vault and else
  -- those that are decoded, and the issuer and the client's secret are set.
  pub load_from_env_iff : (c : Config) → (load_from_env env ≡ loaded c) ↔ IsLoaded env c
  load_from_env_iff c = (
    λ h.
        let (secret, credentials, can, same) = (loads_iff env c).0 h in
        subst (IsLoaded env) (sym same) (config_of-IsLoaded secret credentials can),
    λ h.
        (loads_iff env c).1
          (c.session_secret, c.team_credentials, IsLoaded-CanLoad c h, IsLoaded-config_of c h),
  )

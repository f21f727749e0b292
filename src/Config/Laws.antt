-- ===== src/Config/Laws.antt =====
-- When the configuration can be loaded (knox-proxy/config/config.go).
use knox_proxy.Base.{
  ◌∙◌, sym, ap, ◌↔◌, Option-cases, eq_false, ◌==◌, Bool-cases, inr, inl, ◌≢◌, bytes, ◌≡◌, Map, Str,
  false, some, refl, ◌∷◌, [],
}
use knox_proxy.Config.{
  load_with_credentials, load_with_secret, load_from_env, loaded, Config, get_env, config_of,
  check_required, get_env_bool, credentials_of, session_secret_of, TeamCredentialConfig, value_or,
  Environment,
}

-- A secret is set or random bytes can be had, the accounts can be read or are Vault's, and the issuer
-- and the client's secret are set.
pub record CanLoad (env : Environment) (secret : Str) (credentials : Map TeamCredentialConfig)
    : Type 0 where
  pub secret_there : session_secret_of env (env.getenv (bytes "SESSION_SECRET")) ≡ some secret
  pub accounts :
      credentials_of env (get_env_bool env (bytes "ENABLE_VAULT") false) ≡ some credentials
  pub issuer : env.getenv (bytes "OIDC_ISSUER_URL") ≢ []
  pub client_secret : env.getenv (bytes "OIDC_CLIENT_SECRET") ≢ []

pub value_or_empty : (s : Str) → value_or s [] ≡ s
value_or_empty [] = refl
value_or_empty (c ∷ s) = refl

not_empty : (s : Str) → (s == []) ≡ false → s ≢ []
unfolding ◌==◌
not_empty [] h = absurd (cc h)
not_empty (c ∷ s) h = λ e. cc e

module _ (env : Environment) where
  check_sound :
      (cfg c : Config)
      → check_required env cfg ≡ loaded c
      → (cfg.oidc_issuer_url ≢ []) × (cfg.oidc_client_secret ≢ []) × (c ≡ cfg)
  unfolding check_required
  check_sound cfg c h = elim (Bool-cases (cfg.oidc_issuer_url == [])) [
    | inl e ↦ absurd (cc (rw e at h))
    | inr e ↦ elim (Bool-cases (cfg.oidc_client_secret == [])) [
      | inl f ↦ absurd (cc (rw (e, f) at h))
      | inr f ↦
          let same : loaded cfg ≡ loaded c = rw (e, f) at h in
          (not_empty cfg.oidc_issuer_url e, not_empty cfg.oidc_client_secret f, cc same)
    ]
  ]

  check_complete :
      (cfg : Config)
      → cfg.oidc_issuer_url ≢ []
      → cfg.oidc_client_secret ≢ []
      → check_required env cfg ≡ loaded cfg
  unfolding check_required
  check_complete cfg issuer secret =
      rw (eq_false cfg.oidc_issuer_url [] issuer, eq_false cfg.oidc_client_secret [] secret)

  issuer_of :
      (secret : Str) (credentials : Map TeamCredentialConfig)
      → ((config_of env secret credentials).oidc_issuer_url ≡ env.getenv (bytes "OIDC_ISSUER_URL"))
        × ((config_of env secret credentials).oidc_client_secret
            ≡ env.getenv (bytes "OIDC_CLIENT_SECRET"))
  unfolding config_of get_env
  issuer_of secret credentials = (value_or_empty _, value_or_empty _)

  -- What is loaded, with what.
  abbrev pub LoadsAs : Config → Type 0
  LoadsAs c =
      (secret : Str) × (credentials : Map TeamCredentialConfig) × CanLoad env secret credentials
      × (c ≡ config_of env secret credentials)

  load_unfolded :
      load_from_env env
      ≡ load_with_secret env (session_secret_of env (env.getenv (bytes "SESSION_SECRET")))
  unfolding load_from_env get_env
  load_unfolded =
      ap (λ s. load_with_secret env (session_secret_of env s))
        (value_or_empty (env.getenv (bytes "SESSION_SECRET")))

  loads_sound : (c : Config) → load_from_env env ≡ loaded c → LoadsAs c
  unfolding load_with_secret load_with_credentials
  loads_sound c h =
      let h' = sym load_unfolded ∙ h in
      let vault = get_env_bool env (bytes "ENABLE_VAULT") false in
      elim (Option-cases (session_secret_of env (env.getenv (bytes "SESSION_SECRET")))) [
        | inl e ↦ absurd (cc (rw e at h'))
        | inr (secret, e) ↦
            let found : load_with_credentials env secret (credentials_of env vault) ≡ loaded c =
              sym (ap (load_with_secret env) e) ∙ h' in
            elim (Option-cases (credentials_of env vault)) [
              | inl f ↦ absurd (cc (sym (ap (load_with_credentials env secret) f) ∙ found))
              | inr (credentials, f) ↦
                  let same = issuer_of secret credentials in
                  let (issuer, client, c_is) =
                    check_sound (config_of env secret credentials) c
                      (sym (ap (load_with_credentials env secret) f) ∙ found) in
                  (
                    secret,
                    credentials,
                    record {
                      secret_there = e;
                      accounts = f;
                      issuer = λ empty. issuer (same.0 ∙ empty);
                      client_secret = λ empty. client (same.1 ∙ empty);
                    },
                    c_is,
                  )
            ]
      ]

  loads_complete : (c : Config) → LoadsAs c → load_from_env env ≡ loaded c
  unfolding load_with_secret load_with_credentials
  loads_complete c (secret, credentials, can, c_is) =
      let same = issuer_of secret credentials in
      load_unfolded
      ∙ ap (load_with_secret env) can.secret_there
      ∙ ap (load_with_credentials env secret) can.accounts
      ∙ check_complete (config_of env secret credentials) (λ empty. can.issuer (sym same.0 ∙ empty))
          (λ empty. can.client_secret (sym same.1 ∙ empty))
      ∙ ap loaded (sym c_is)

  pub loads_iff : (c : Config) → (load_from_env env ≡ loaded c) ↔ LoadsAs c
  loads_iff c = (loads_sound c, loads_complete c)

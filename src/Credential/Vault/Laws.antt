-- ===== src/Credential/Vault/Laws.antt =====
-- What the copy of the credentials holds (knox-proxy/credential/vault_provider.go).
use mathlib.Core.Path.{subst}
use knox_proxy.Base.{
  zero, sym, suc, ◌∙◌, Option-cases, eqb_iff, eqb, ◌⊎◌, ltb, Option, Bool-cases, ℕ, Str, ◌≡◌, Map,
  none, some, inr, inl, refl,
}
use knox_proxy.Credential.Vault.{
  bad_url, decoded_answer, background_refresh, refresh_cache, read_path, finish_auth, with_cache,
  answered, error, VaultError, HttpAnswer, Answer, authenticate, with_login, store_teams,
  read_answer, renew_token, VaultProvider, Vault,
}
use knox_proxy.Credential.{TeamCredential}

module _ (v : Vault) where
  -- At some instant Vault answered a request for the secret, with a token, by this map.
  abbrev pub WasRead : VaultProvider → Map TeamCredential → Type 0
  WasRead vp teams =
      (token : Str) × (s : v.State) × (body : Str) × ((v.read vp.vault_addr vp.secret_path token
          s).0
        ≡ some (200, body))
      × (v.decode_teams body ≡ some teams)

  -- The provider is the same, but for its token.
  pub record KeepsCache (vp vp' : VaultProvider) : Type 0 where
    pub same_cache : vp'.cache ≡ vp.cache
    pub same_expiry : vp'.cache_expiry ≡ vp.cache_expiry
    pub same_addr : vp'.vault_addr ≡ vp.vault_addr
    pub same_path : vp'.secret_path ≡ vp.secret_path
    pub same_ttl : vp'.cache_ttl ≡ vp.cache_ttl

  abbrev kept : {vp : VaultProvider} → KeepsCache vp vp
  kept = record {
    same_cache = refl;
    same_expiry = refl;
    same_addr = refl;
    same_path = refl;
    same_ttl = refl;
  }

  finish_auth-KeepsCache :
      (vp : VaultProvider) (s : v.State) (answer : Answer (Str × ℕ))
      → KeepsCache vp (finish_auth v vp s answer).1
  unfolding finish_auth with_login
  finish_auth-KeepsCache vp s (error e) = kept
  finish_auth-KeepsCache vp s (answered (token, lease)) = record {
    same_cache = refl;
    same_expiry = refl;
    same_addr = refl;
    same_path = refl;
    same_ttl = refl;
  }

  renew_token-KeepsCache : (vp : VaultProvider) (s : v.State) → KeepsCache vp (renew_token v vp s).1
  unfolding renew_token authenticate
  renew_token-KeepsCache vp s = elim (Bool-cases (ltb vp.token_expiry (v.now s))) [
    | inl e ↦ rw e (finish_auth-KeepsCache vp _ _)
    | inr e ↦ rw e kept
  ]

  decoded_of :
      {A : Type 0} (decode : Str → Option A) (body : Str) (a : A)
      → decoded_answer (decode body) ≡ answered a
      → decode body ≡ some a
  decoded_of decode body a h = elim (Option-cases (decode body)) [
    | inl e ↦ absurd (cc (rw e at h))
    | inr (b, e) ↦ e ∙ cc (rw e at h)
  ]

  answer_of_200 :
      {A : Type 0} (decode : Str → Option A) (resp : Option HttpAnswer) (a : A)
      → read_answer decode resp ≡ answered a
      → (body : Str) × (resp ≡ some (200, body)) × (decode body ≡ some a)
  unfolding read_answer
  answer_of_200 decode none a h = absurd (cc h)
  answer_of_200 decode (some (status, body)) a h = elim (Bool-cases (eqb status 200)) [
    | inr e ↦ absurd (cc (rw e at h))
    | inl e ↦
        let is_200 = (eqb_iff status 200).0 e in
        (body, rw is_200 refl, decoded_of decode body a (rw e at h))
  ]

  Answer-cases :
      {A : Type 0} (m : Answer A)
      → ((e : VaultError) × (m ≡ error e)) ⊎ ((a : A) × (m ≡ answered a))
  Answer-cases (error e) = inl (e, refl)
  Answer-cases (answered a) = inr (a, refl)

  -- An error, or teams that Vault has answered.
  abbrev pub Reads : VaultProvider → Answer (Map TeamCredential) → Type 0
  Reads vp m =
      ((e : VaultError) × (m ≡ error e))
      ⊎ ((teams : Map TeamCredential) × (m ≡ answered teams) × WasRead vp teams)

  read_cases :
      (vp vp' : VaultProvider) (s : v.State)
      → KeepsCache vp vp'
      → Reads vp
          (read_answer v.decode_teams (v.read vp'.vault_addr vp.secret_path vp'.vault_token s).0)
  read_cases vp vp' s k =
      let resp = (v.read vp'.vault_addr vp.secret_path vp'.vault_token s).0 in
      elim (Answer-cases (read_answer v.decode_teams resp)) [
        | inl failed ↦ inl failed
        | inr (teams, h) ↦
            let (body, there, good) = answer_of_200 v.decode_teams resp teams h in
            inr (teams, h, (vp'.vault_token, s, body, rw (← k.same_addr) there, good))
      ]

  -- The request for the teams, behind the token.
  read_teams_cases :
      (vp : VaultProvider) (m : Answer (Unit {0}) × VaultProvider × v.State)
      → KeepsCache vp m.1
      → let read = read_path v vp.secret_path v.decode_teams m in
        KeepsCache vp read.1 × Reads vp read.0
  unfolding read_path
  read_teams_cases vp (error e, vp', s) k = (k, inl (e, refl))
  read_teams_cases vp (answered _, vp', s) k =
      elim (Bool-cases (v.is_url vp'.vault_addr vp.secret_path)) [
        | inr bad ↦ rw bad (k, inl (bad_url, refl))
        | inl good ↦ rw good (k, read_cases vp vp' s k)
      ]

  -- What a refresh comes to.
  abbrev pub Refreshed : VaultProvider → Answer (Unit {0}) × VaultProvider × v.State → Type 0
  Refreshed vp result =
      (((e : VaultError) × (result.0 ≡ error e)) × KeepsCache vp result.1)
      ⊎ ((result.0 ≡ answered tt)
          × WasRead vp result.1.cache
          × (result.1.vault_addr ≡ vp.vault_addr)
          × (result.1.secret_path ≡ vp.secret_path))

  store_teams_cases :
      (vp : VaultProvider) (m : Answer (Map TeamCredential) × VaultProvider × v.State)
      → KeepsCache vp m.1
      → Reads vp m.0
      → Refreshed vp (store_teams v m)
  unfolding store_teams with_cache
  store_teams_cases vp (error e, vp', s) k h = inl ((e, refl), k)
  store_teams_cases vp (answered teams, vp', s) k (inl (e, h)) = absurd (cc h)
  store_teams_cases vp (answered teams, vp', s) k (inr (teams', h, w)) =
      let same : teams' ≡ teams = cc h in
      inr (refl, subst (WasRead vp) same w, k.same_addr, k.same_path)

  -- A refresh that fails keeps the copy of the credentials and its age; one that does not leaves
  -- exactly the accounts that Vault answered, with status 200.
  pub refresh_cache_cases : (vp : VaultProvider) (s : v.State) → Refreshed vp (refresh_cache v vp s)
  unfolding refresh_cache
  refresh_cache_cases vp s =
      let (k, r) = read_teams_cases vp (renew_token v vp s) (renew_token-KeepsCache vp s) in
      store_teams_cases vp (read_path v vp.secret_path v.decode_teams (renew_token v vp s)) k r

  refreshed_again :
      (vp vp' : VaultProvider) (teams : Map TeamCredential)
      → vp'.vault_addr ≡ vp.vault_addr
      → vp'.secret_path ≡ vp.secret_path
      → WasRead vp' teams
      → WasRead vp teams
  refreshed_again vp vp' teams addr path (token, s, body, answer, good) =
      (token, s, body, rw (← addr, ← path) answer, good)

  -- However often the copy is refreshed and whatever Vault answers, it holds what it held at first or
  -- all the accounts that Vault answered to one request, with status 200.
  pub background_refresh-cache :
      (n : ℕ) (vp : VaultProvider) (s : v.State)
      → ((background_refresh v n vp s).0.cache ≡ vp.cache)
        ⊎ WasRead vp (background_refresh v n vp s).0.cache
  unfolding background_refresh
  background_refresh-cache zero vp s = inl refl
  background_refresh-cache (suc n) vp s =
      let (_, vp', s') = refresh_cache v vp s in
      elim (refresh_cache_cases vp s) [
        | inl (failed, k) ↦ elim (background_refresh-cache n vp' s') [
          | inl e ↦ inl (e ∙ k.same_cache)
          | inr w ↦ inr (refreshed_again vp vp' _ k.same_addr k.same_path w)
        ]
        | inr (done, w, addr, path) ↦ elim (background_refresh-cache n vp' s') [
          | inl e ↦ inr (subst (WasRead vp) (sym e) w)
          | inr w' ↦ inr (refreshed_again vp vp' _ addr path w')
        ]
      ]

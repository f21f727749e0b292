-- ===== src/Retry.antt =====
-- The loops that wait for what the proxy needs at its start: NewDB of knox-proxy/jit/db.go and
-- NewOIDCAuth of knox-proxy/auth/oidc.go. What each attempt gives is a parameter, by its number; the
-- three seconds between two attempts are left out.
pub mod Laws
use knox_proxy.Base.{
  zero, if◌then◌else◌, suc, Str, Bool, Option, ℕ, false, true, none, some, inr, inl, refl, ◌∷◌, [],
}
use knox_proxy.Oidc.{OidcAuth}

-- At most n attempts from number i on, up to the first that succeeds.
unfoldable pub retry {ℓ} : {A : Type ℓ} → ℕ → ℕ → (ℕ → Option A) → Option A
retry zero i attempt = none
retry (suc n) i attempt = elim (attempt i) [ some a ↦ some a | none ↦ retry n (suc i) attempt ]

abbrev pub attempts : ℕ
attempts = 10

-- One round of NewDB: sql.Open, and Ping on the pool that it gives.
unfoldable pub open_db {ℓ} :
    {Pool : Type ℓ} → (ℕ → Option Pool) → (ℕ → Pool → Bool) → ℕ → Option Pool
open_db open_pool ping i = elim (open_pool i) [
  | none ↦ none
  | some pool ↦ if ping i pool then some pool else none
]

-- NewDB, without the settings of the pool; none is an error.
unfoldable pub new_db {ℓ} : {Pool : Type ℓ} → (ℕ → Option Pool) → (ℕ → Pool → Bool) → Option Pool
unfolding retry open_db
new_db open_pool ping = retry attempts 0 (open_db open_pool ping)

-- The end_session_endpoint of a provider's discovery document, if the document can be read.
abbrev pub endpoint_or_empty : Option Str → Str
endpoint_or_empty none = []
endpoint_or_empty (some url) = url

-- NewOIDCAuth, for what oidc.NewProvider gives.
unfoldable pub new_oidc_auth {ℓ} :
    {Provider : Type ℓ}
    → (ℕ → Option Provider)
    → (Provider → Option Str)
    → (client_id redirect_url : Str) → Option OidcAuth
unfolding retry
new_oidc_auth new_provider end_session client_id redirect_url =
    elim (retry attempts 0 new_provider) [
      | none ↦ none
      | some provider ↦ some (record {
        client_id = client_id;
        redirect_url = redirect_url;
        end_session_endpoint = endpoint_or_empty (end_session provider);
        states = [];
      })
    ]

-- ===== src/Credential.antt =====
-- knox-proxy/credential: the n8n account of each team.
pub mod Vault
use knox_proxy.Base.{keys, lookup, List, Str, Option, Map}

pub record TeamCredential : Type 0 where
  pub email : Str
  pub password : Str

-- The interface CredentialProvider; `none` is an error.
pub record CredentialProvider : Type 0 where
  pub get_credential : Str → Option TeamCredential
  pub list_teams : List Str

-- NewEnvProvider copies the map; its methods read the copy.
unfoldable pub env_provider : Map TeamCredential → CredentialProvider
env_provider teams = record { get_credential = λ team. lookup team teams; list_teams = keys teams }

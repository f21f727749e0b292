-- ===== src/Oidc/Claims.antt =====
-- Whom the claims of an ID token name (knox-proxy/auth/oidc.go).
use knox_proxy.Base.{◌≢◌, ◌⊎◌, Option-cases, ◌≡◌, lookup, Str, none, some, inr, inl, refl, ◌∷◌, []}
use knox_proxy.Oidc.{jit_roles_of, display_name_of, or_else, identity_of, OidcClaims}
use knox_proxy.Session.{Identity}

-- The name that is shown: the name, else the user's name, else the e-mail address.
abbrev pub IsDisplayName : OidcClaims → Str → Type 0
IsDisplayName claims name =
    ((claims.name ≢ []) × (name ≡ claims.name))
    ⊎ ((claims.name ≡ []) × (claims.preferred_username ≢ []) × (name ≡ claims.preferred_username))
    ⊎ ((claims.name ≡ []) × (claims.preferred_username ≡ []) × (name ≡ claims.email))

-- Who the claims say it is, with the roles that they give for this client, or none if they give none.
pub record IsIdentity (client_id : Str) (claims : OidcClaims) (raw : Str) (who : Identity)
    : Type 0 where
  pub email : who.email ≡ claims.email
  pub display_name : IsDisplayName claims who.display_name
  pub groups : who.groups ≡ claims.groups
  pub jit_roles :
      (lookup client_id claims.resource_access ≡ some who.jit_roles)
      ⊎ ((lookup client_id claims.resource_access ≡ none) × (who.jit_roles ≡ []))
  pub keycloak_sid : who.keycloak_sid ≡ claims.session_id
  pub id_token : who.id_token ≡ raw

or_else_cases : (s t : Str) → ((s ≢ []) × (or_else s t ≡ s)) ⊎ ((s ≡ []) × (or_else s t ≡ t))
or_else_cases [] t = inr (refl, refl)
or_else_cases (c ∷ s) t = inl (λ e. cc e, refl)

identity_of-IsDisplayName : (claims : OidcClaims) → IsDisplayName claims (display_name_of claims)
unfolding display_name_of
identity_of-IsDisplayName claims = elim (or_else_cases claims.name claims.preferred_username) [
  | inl (named, e) ↦ rw e (elim (or_else_cases claims.name claims.email) [
    | inl (_, f) ↦ inl (named, f)
    | inr (empty, f) ↦ absurd (named empty)
  ])
  | inr (empty, e) ↦ rw e (elim (or_else_cases claims.preferred_username claims.email) [
    | inl (there, f) ↦ inr (inl (empty, there, f))
    | inr (missing, f) ↦ inr (inr (empty, missing, f))
  ])
]

pub identity_of-IsIdentity :
    (client_id : Str) (claims : OidcClaims) (raw : Str)
    → IsIdentity client_id claims raw (identity_of client_id claims raw)
unfolding identity_of jit_roles_of
identity_of-IsIdentity client_id claims raw = record {
  email = refl;
  display_name = identity_of-IsDisplayName claims;
  groups = refl;
  jit_roles = elim (Option-cases (lookup client_id claims.resource_access)) [
    | inl e ↦ rw e (inr (refl, refl))
    | inr (roles, e) ↦ rw e (inl refl)
  ];
  keycloak_sid = refl;
  id_token = refl;
}

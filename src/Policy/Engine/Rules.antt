-- ===== src/Policy/Engine/Rules.antt =====
-- The rules of knox-proxy/policy/engine.go, stated without its branches: which mutations a user's
-- roles permit.
use knox_proxy.Base.{
  ◌||◌, ◌==◌, ℕ, ◌≤◌, Str, true, List, [], ◌∷◌, bytes, eq_iff, Has, All, ◌≡◌, ◌≢◌, refl, ◌↔◌, ◌⊎◌,
  arith,
}
use knox_proxy.Json.{Decode}
use knox_proxy.Policy.Engine.{
  internal_resource, is_id_byte, all_id_bytes, matches_path_id, extract_workflow_id_from_body,
  role_for, wildcard_for, check_roles,
}

-- A letter, a digit, '-' or '_'.
abbrev pub IsIdByte : ℕ → Type 0
IsIdByte c =
    ((b'a' ≤ c) × (c ≤ b'z'))
    ⊎ ((b'A' ≤ c) × (c ≤ b'Z'))
    ⊎ ((b'0' ≤ c) × (c ≤ b'9'))
    ⊎ (c ≡ b'-')
    ⊎ (c ≡ b'_')

abbrev pub IsWorkflowId : Str → Type 0
IsWorkflowId id = (id ≢ []) × All IsIdByte id

pub is_id_byte_iff : (c : ℕ) → (is_id_byte c ≡ true) ↔ IsIdByte c
unfolding is_id_byte
is_id_byte_iff c = ground arith

pub all_id_bytes_iff : (s : Str) → (all_id_bytes s ≡ true) ↔ All IsIdByte s
unfolding all_id_bytes
all_id_bytes_iff [] = (λ _. tt, λ _. refl)
all_id_bytes_iff (c ∷ s) =
    let here = is_id_byte_iff c in
    let later = all_id_bytes_iff s in
    (
      λ h. (here.0 (ground arith), later.0 (ground arith)),
      λ h. ground (arith, here.1 h.0, later.1 h.1),
    )

pub matches_path_id_iff : (s : Str) → (matches_path_id s ≡ true) ↔ IsWorkflowId s
matches_path_id_iff [] = (λ h. unfold matches_path_id in cc, λ h. absurd (h.0 refl))
matches_path_id_iff (c ∷ s) =
    let all = all_id_bytes_iff (c ∷ s) in
    (λ h. (cc, all.0 (unfold matches_path_id in h)), λ h. unfold matches_path_id in all.1 h.1)

-- The user holds the role for this workflow, or the one for all workflows.
abbrev pub HoldsRole : Str → Str → List Str → Type 0
HoldsRole action id roles = Has (role_for action id) roles ⊎ Has (wildcard_for action) roles

pub check_roles_iff :
    (action id : Str) (roles : List Str)
    → ((check_roles action id roles).allowed ≡ true) ↔ HoldsRole action id roles
unfolding check_roles
check_roles_iff action id [] = ground arith
check_roles_iff action id (role ∷ roles) = ground (
  arith,
  check_roles_iff action id roles,
  eq_iff role (role_for action id),
  eq_iff role (wildcard_for action),
)

-- The action on a workflow that a mutation below /rest asks for, by the elements of its path behind
-- the first. The workflow of a run may be named in the body.
pub data Asks (decode : Decode) (body : Str) (resource : Str) (rest : List Str) (action id : Str)
    : Type 0 where
  create_execution :
      resource ≡ bytes "executions"
      → rest ≡ []
      → action ≡ bytes "run"
      → extract_workflow_id_from_body decode body ≡ id
      → Asks decode body resource rest action id
  run_named_in_body :
      resource ≡ bytes "workflows"
      → rest ≡ bytes "run" ∷ []
      → action ≡ bytes "run"
      → extract_workflow_id_from_body decode body ≡ id
      → Asks decode body resource rest action id
  change :
      resource ≡ bytes "workflows"
      → rest ≡ id ∷ []
      → id ≢ bytes "run"
      → action ≡ bytes "edit"
      → Asks decode body resource rest action id
  run :
      (sub : Str) (more : List Str)
      → resource ≡ bytes "workflows"
      → rest ≡ id ∷ sub ∷ more
      → (sub ≡ bytes "run") ⊎ (sub ≡ bytes "test")
      → action ≡ bytes "run"
      → Asks decode body resource rest action id
  change_part :
      (sub : Str) (more : List Str)
      → resource ≡ bytes "workflows"
      → rest ≡ id ∷ sub ∷ more
      → sub ≢ bytes "run"
      → sub ≢ bytes "test"
      → action ≡ bytes "edit"
      → Asks decode body resource rest action id

-- The mutations that a user with these roles may make.
pub data Permits (decode : Decode) (body : Str) (resource : Str) (rest roles : List Str)
    : Type 0 where
  internal :
      (resource ≡ bytes "telemetry") ⊎ (resource ≡ bytes "ph")
      → Permits decode body resource rest roles
  manipulate_execution :
      resource ≡ bytes "executions"
      → rest ≢ []
      → roles ≢ []
      → Permits decode body resource rest roles
  by_role :
      (action id : Str)
      → Asks decode body resource rest action id
      → IsWorkflowId id
      → HoldsRole action id roles
      → Permits decode body resource rest roles

pub internal_resource_iff :
    (resource : Str)
    → (internal_resource resource ≡ true)
      ↔ ((resource ≡ bytes "telemetry") ⊎ (resource ≡ bytes "ph"))
unfolding internal_resource
internal_resource_iff r = ground (arith, eq_iff r (bytes "telemetry"), eq_iff r (bytes "ph"))

pub runs :
    (sub : Str)
    → (sub ≡ bytes "run") ⊎ (sub ≡ bytes "test")
    → (sub == bytes "run" || sub == bytes "test") ≡ true
runs sub h = ground (arith, eq_iff sub (bytes "run"), eq_iff sub (bytes "test"))

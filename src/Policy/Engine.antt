-- ===== src/Policy/Engine.antt =====
-- knox-proxy/policy/engine.go: which requests a user's JIT roles allow.
pub mod Rules
mod Sound
mod Complete
pub mod Access
pub mod Privilege
pub mod Normal
use knox_proxy.Base.{
  Str, Bool, true, false, not, ◌&&◌, ◌||◌, Option, none, some, List, [], ◌∷◌, ◌++◌, bytes, ◌==◌,
  has_prefix, trim_prefix, split, to_upper, lookup, non_empty, leb, eqb, ℕ, Map, if◌then◌else◌,
}
use knox_proxy.Json.{Json, Decode, as_string, as_object}
use knox_proxy.Policy.CleanPath.{clean}

pub record Decision : Type 0 where
  pub allowed : Bool
  pub reason : Str

abbrev pub allow : Str → Decision
allow reason = record { allowed = true; reason = reason }

abbrev pub deny : Str → Decision
deny reason = record { allowed = false; reason = reason }

-- pathIDRegex, ^[a-zA-Z0-9\-_]+$
unfoldable pub is_id_byte : ℕ → Bool
is_id_byte c =
    (leb b'a' c && leb c b'z')
    || (leb b'A' c && leb c b'Z')
    || (leb b'0' c && leb c b'9')
    || eqb c b'-'
    || eqb c b'_'

unfoldable pub all_id_bytes : Str → Bool
all_id_bytes [] = true
all_id_bytes (c ∷ s) = is_id_byte c && all_id_bytes s

unfoldable pub matches_path_id : Str → Bool
unfolding all_id_bytes is_id_byte
matches_path_id s = non_empty s && all_id_bytes s

-- internalResourceWhitelist
unfoldable pub internal_resource : Str → Bool
internal_resource resource = resource == bytes "telemetry" || resource == bytes "ph"

-- A string that is there and not empty.
abbrev non_empty_string : Option Str → Option Str
non_empty_string (some (c ∷ s)) = some (c ∷ s)
non_empty_string _ = none

-- The two places of the payload where an ID may stand, in the order in which they are tried.
unfoldable pub payload_id : Map Json → Str
payload_id payload =
    elim (non_empty_string (elim (as_object (lookup (bytes "workflowData") payload)) [
      | none ↦ none
      | some data_fields ↦ as_string (lookup (bytes "id") data_fields)
    ])) [
      | some id ↦ id
      | none ↦ elim (non_empty_string (as_string (lookup (bytes "workflowId") payload))) [
        | some id ↦ id
        | none ↦ []
      ]
    ]

unfoldable pub extract_workflow_id_from_body : Decode → Str → Str
unfolding payload_id
extract_workflow_id_from_body decode [] = []
extract_workflow_id_from_body decode (c ∷ body) = elim (decode (c ∷ body)) [
  | none ↦ []
  | some payload ↦ payload_id payload
]

-- What the first part of evaluateMutation comes to: a decision, or an action on a workflow that
-- needs a role.
pub data Demand : Type 0 where
  decided : Decision → Demand
  needs : (action id : Str) → Demand

-- POST /rest/executions and POST /rest/workflows/run: the workflow is named in the body.
unfoldable pub run_in_body : Decode → Str → Str → Demand
run_in_body decode body reason =
    let id = extract_workflow_id_from_body decode body in
    if id == [] then decided (deny reason) else needs (bytes "run") id

unfoldable pub execution_demand : Decode → List Str → Str → List Str → Demand
execution_demand decode [] body roles =
    run_in_body decode body (bytes "cannot determine workflow ID from executions payload")
execution_demand decode (_ ∷ _) body [] =
    decided (deny (bytes "cannot manipulate executions without any JIT roles"))
execution_demand decode (_ ∷ _) body (_ ∷ _) =
    decided (allow (bytes "execution manipulation allowed — user holds at least one JIT role"))

-- `parts[2:]` of a path below /rest/workflows.
unfoldable pub workflow_demand : Decode → List Str → Str → Demand
workflow_demand decode [] body =
    decided (deny (bytes "creating new workflows is not allowed via JIT"))
workflow_demand decode (id ∷ []) body =
    if id == bytes "run"
    then run_in_body decode body
        (bytes "cannot determine workflow ID from manual run payload (workflow not saved?)")
    else needs (bytes "edit") id
workflow_demand decode (id ∷ sub ∷ _) body =
    if sub == bytes "run" || sub == bytes "test"
    then needs (bytes "run") id
    else needs (bytes "edit") id

unfoldable pub demand : Decode → List Str → Str → List Str → Demand
unfolding internal_resource
demand decode (_ ∷ resource ∷ rest) body roles =
    if internal_resource resource
    then decided (allow (bytes "internal resource '" ++ (resource ++ bytes "' whitelisted")))
    else if resource == bytes "executions"
    then execution_demand decode rest body roles
    else if resource == bytes "workflows"
    then workflow_demand decode rest body
    else decided (deny (bytes "mutation on /rest/" ++ (resource ++ bytes " is not allowed")))
demand decode _ body roles = decided (deny (bytes "mutation on unknown API path"))

abbrev pub role_for : Str → Str → Str
role_for action id = action ++ (b':' ∷ id)

abbrev pub wildcard_for : Str → Str
wildcard_for action = action ++ bytes ":*"

-- The loop over the user's roles.
unfoldable pub check_roles : Str → Str → List Str → Decision
check_roles action id [] =
    deny (bytes "missing JIT role '" ++ (role_for action id ++ bytes "' — request denied"))
check_roles action id (role ∷ roles) =
    if role == role_for action id
    then allow (bytes "JIT role '" ++ (role_for action id ++ bytes "' matched"))
    else if role == wildcard_for action
    then allow (bytes "JIT wildcard role '" ++ (wildcard_for action ++ bytes "' matched"))
    else check_roles action id roles

unfoldable pub judge : Demand → List Str → Decision
judge (decided d) roles = d
judge (needs action id) roles =
    if matches_path_id id
    then check_roles action id roles
    else deny (bytes "invalid workflow ID format: " ++ id)

unfoldable pub path_parts : Str → List Str
path_parts clean_path = split b'/' (trim_prefix clean_path (b'/' ∷ []))

unfoldable pub evaluate_mutation : Decode → Str → Str → List Str → Decision
evaluate_mutation decode clean_path body roles =
    judge (demand decode (path_parts clean_path) body roles) roles

-- The paths to which the rules apply.
unfoldable pub is_api_path : Str → Bool
is_api_path p = has_prefix p (bytes "/rest/") || has_prefix p (bytes "/api/")

unfoldable pub is_read_only : Str → Bool
is_read_only m = m == bytes "GET" || m == bytes "HEAD" || m == bytes "OPTIONS"

unfoldable pub evaluate : Decode → Str → Str → Str → List Str → Decision
evaluate decode method path body roles =
    if not (is_api_path (clean path))
    then allow (bytes "non-API path")
    else if is_read_only (to_upper method)
    then allow (bytes "read-only method")
    else evaluate_mutation decode (clean path) body roles

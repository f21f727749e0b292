-- ===== src/Tests/Policies.antt =====
-- The policy engine, the sanitizer and path.Clean at concrete inputs (knox-proxy/policy).
use knox_proxy.Base.{
  eq_iff, trim_prefix, split, has_prefix, Map, join, ◌↔◌, ◌≡◌, ◌==◌, to_upper, bytes, if◌then◌else◌,
  Str, List, false, true, none, some, refl, ◌∷◌, [],
}
use knox_proxy.Json.{nil, end, field, obj, Json, cons, arr, str, Decode}
use knox_proxy.Policy.Engine.{is_read_only, is_api_path, path_parts, evaluate}
use knox_proxy.Policy.CleanPath.{resolve, clean}
use knox_proxy.Policy.Sanitizer.{is_enabled, sanitize_workflow_body, Sanitizer}
use knox_proxy.Policy.Engine.Privilege.{edit_needs_edit_role}
use knox_proxy.Policy.Engine.Normal.{evaluate_normal}
use knox_proxy.Policy.Engine.Rules.{Permits}
use knox_proxy.Policy.Engine.Rules.{change}
use knox_proxy.Policy.Engine.Access.{evaluate_iff}
use knox_proxy.Policy.Sanitizer.Laws.{sanitize_iff, NodesPass}

-- Two bodies that can be decoded: one names a workflow, the other holds a node.
abbrev decode : Decode
decode body =
    if body == bytes "run w1"
    then some ((bytes "workflowId", str (bytes "w1")) ∷ [])
    else if body == bytes "nodes"
    then some
        ((bytes "nodes", arr (cons (obj (field (bytes "type") (str (bytes "ssh")) end)) nil)) ∷ [])
    else none

abbrev editor : List Str
editor = bytes "edit:w1" ∷ []

abbrev runner : List Str
runner = bytes "run:w1" ∷ []

abbrev w1 : Str
w1 = bytes "/rest/workflows/w1"

evaluate_iff_example : ((evaluate decode (bytes "PATCH") w1 [] editor).allowed ≡ true) ↔ (
    (api : Str) × (resource : Str) × (rest : List Str) × (path_parts (clean w1)
      ≡ api ∷ resource ∷ rest)
    × Permits decode [] resource rest editor)
unfolding is_api_path has_prefix bytes clean join split ◌==◌ is_read_only to_upper
evaluate_iff_example = evaluate_iff decode (bytes "PATCH") w1 [] editor refl refl

edit_needs_edit_role_example : (evaluate decode (bytes "PATCH") w1 [] runner).allowed ≡ false
unfolding is_api_path has_prefix bytes clean resolve join split ◌==◌ is_read_only to_upper
    path_parts trim_prefix
edit_needs_edit_role_example =
    edit_needs_edit_role decode (bytes "PATCH") w1 [] (bytes "rest") (bytes "workflows")
      (bytes "w1") (bytes "w1" ∷ []) runner refl refl refl
      (change refl refl (λ e. cc ((eq_iff (bytes "w1") (bytes "run")).1 e)) refl) (refl, tt)

evaluate_normal_example :
    evaluate decode (to_upper (bytes "patch")) (clean (bytes "/rest//x/../workflows/w1")) [] editor
    ≡ evaluate decode (bytes "patch") (bytes "/rest//x/../workflows/w1") [] editor
unfolding has_prefix bytes
evaluate_normal_example =
    evaluate_normal decode (bytes "patch") (bytes "/rest//x/../workflows/w1") [] editor refl

abbrev no_ssh : Sanitizer
no_ssh = record { dangerous_nodes = (bytes "ssh", true) ∷ [] }

sanitize_iff_example :
    (sanitize_workflow_body decode no_ssh (bytes "nodes") ≡ none)
    ↔ ((workflow : Map Json) × (decode (bytes "nodes") ≡ some workflow) × NodesPass no_ssh workflow)
unfolding is_enabled
sanitize_iff_example = sanitize_iff decode no_ssh (bytes "nodes") refl

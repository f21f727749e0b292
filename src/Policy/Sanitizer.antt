-- ===== src/Policy/Sanitizer.antt =====
-- knox-proxy/policy/sanitizer.go: request bodies with dangerous n8n node types are refused.
pub mod Laws
use knox_proxy.Base.{
  Str, Bool, true, false, not, Option, none, some, List, [], ◌∷◌, bytes, lookup, insert, trim_space,
  Map, if◌then◌else◌, non_empty,
}
use knox_proxy.Json.{Json, Decode, as_string, as_object, as_array}

pub record Sanitizer : Type 0 where
  pub dangerous_nodes : Map Bool

-- The loops of NewSanitizer and loadFromFile: trimmed names that are not empty.
unfoldable pub add_nodes : List Str → Map Bool → Map Bool
add_nodes [] nodes = nodes
add_nodes (n ∷ ns) nodes =
    add_nodes ns (if non_empty (trim_space n) then insert (trim_space n) true nodes else nodes)

-- The file: reading it, and decoding it as YAML or as JSON, can fail.
pub record NodesFile : Type 0 where
  pub content : Option Str
  pub yaml : Str → Option (List Str)
  pub json : Str → Option (List Str)

unfoldable pub file_nodes : NodesFile → List Str
file_nodes file = elim file.content [
  | none ↦ []
  | some text ↦ elim (file.yaml text) [
    | some nodes ↦ nodes
    | none ↦ elim (file.json text) [ some nodes ↦ nodes | none ↦ [] ]
  ]
]

unfoldable pub load_from_file : NodesFile → Sanitizer → Sanitizer
unfolding add_nodes file_nodes
load_from_file file s = record { dangerous_nodes = add_nodes (file_nodes file) s.dangerous_nodes }

-- `none` for a configFile that is "".
unfoldable pub new_sanitizer : List Str → Option NodesFile → Sanitizer
unfolding load_from_file
new_sanitizer nodes file =
    let s : Sanitizer = record { dangerous_nodes = add_nodes nodes [] } in
    elim file [ none ↦ s | some f ↦ load_from_file f s ]

unfoldable pub is_enabled : Sanitizer → Bool
is_enabled s = non_empty s.dangerous_nodes

pub data SanitizeError : Type 0 where
  invalid_json : SanitizeError
  dangerous_node : (node_type name : Str) → SanitizeError

-- s.dangerousNodes[nodeType], false where it is missing
unfoldable pub is_dangerous : Sanitizer → Str → Bool
is_dangerous s node_type = elim (lookup node_type s.dangerous_nodes) [ some b ↦ b | none ↦ false ]

abbrev pub or_empty : Option Str → Str
or_empty none = []
or_empty (some s) = s

-- node["type"].(string) of an element that is an object
unfoldable pub node_type_of : Json → Option Str
node_type_of node = elim (as_object (some node)) [
  | none ↦ none
  | some node_fields ↦ as_string (lookup (bytes "type") node_fields)
]

unfoldable pub node_name_of : Json → Str
node_name_of node = elim (as_object (some node)) [
  | none ↦ []
  | some node_fields ↦ or_empty (as_string (lookup (bytes "name") node_fields))
]

-- The loop over the nodes.
unfoldable pub check_nodes : Sanitizer → List Json → Option SanitizeError
check_nodes s [] = none
check_nodes s (node ∷ nodes) = elim (node_type_of node) [
  | none ↦ check_nodes s nodes
  | some node_type ↦
      if is_dangerous s node_type
      then some (dangerous_node node_type (node_name_of node))
      else check_nodes s nodes
]

unfoldable pub sanitize_workflow_body : Decode → Sanitizer → Str → Option SanitizeError
sanitize_workflow_body decode s body = if not (is_enabled s) then none else (elim (decode body) [
  | none ↦ some invalid_json
  | some workflow ↦ elim (as_array (lookup (bytes "nodes") workflow)) [
    | none ↦ none
    | some nodes ↦ check_nodes s nodes
  ]
])

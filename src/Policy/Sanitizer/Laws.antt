-- ===== src/Policy/Sanitizer/Laws.antt =====
-- Which bodies the sanitizer (knox-proxy/policy/sanitizer.go) lets through, and which node types it
-- blocks.
use knox_proxy.Base.{
  insert, eq_false, eq_iff, non_empty, lookup-insert, arith, if◌then◌else◌, ◌∙◌, sym, ◌≢◌, Bool, ap,
  refl, ◌⊎◌, false, Bool-cases, inr, inl, lookup, Option-cases, Map, All, ◌↔◌, none, List, some,
  Str, true, [], ◌∷◌, ◌≡◌, bytes, trim_space,
}
use mathlib.Core.Option.{some-injective}
use knox_proxy.Json.{Json, Decode, as_array}
use knox_proxy.Policy.Sanitizer.{
  new_sanitizer, add_nodes, is_dangerous, is_enabled, sanitize_workflow_body, check_nodes,
  node_type_of, Sanitizer,
}

-- An object whose "type" is a string that is on the list.
abbrev pub IsBlocked : Sanitizer → Json → Type 0
IsBlocked s node = (t : Str) × (node_type_of node ≡ some t) × (is_dangerous s t ≡ true)

same_type :
    (s : Sanitizer) (node : Json) (t : Str)
    → node_type_of node ≡ some t
    → is_dangerous s t ≡ false
    → ¬ IsBlocked s node
same_type s node t typed good (u, e, d) =
    cc (ap (is_dangerous s) (some-injective t u (sym typed ∙ e)), good, d)

untyped_passes : (s : Sanitizer) (node : Json) → node_type_of node ≡ none → ¬ IsBlocked s node
untyped_passes s node untyped (u, e, d) = cc (e, untyped)

check_nodes_iff :
    (s : Sanitizer) (nodes : List Json)
    → (check_nodes s nodes ≡ none) ↔ All (λ node. ¬ IsBlocked s node) nodes
unfolding check_nodes
check_nodes_iff s [] = (λ _. tt, λ _. refl)
check_nodes_iff s (node ∷ nodes) =
    let ih = check_nodes_iff s nodes in
    elim (Option-cases (node_type_of node)) [
      | inl untyped ↦ (
        λ h. (untyped_passes s node untyped, ih.0 (rw (untyped, check_nodes) at h)),
        λ h. rw (untyped, check_nodes) (ih.1 h.1),
      )
      | inr (t, typed) ↦ elim (Bool-cases (is_dangerous s t)) [
        | inl bad ↦ (
          λ h. absurd (cc (rw (typed, bad, check_nodes) at h)),
          λ h. absurd (h.0 (t, typed, bad)),
        )
        | inr good ↦ (
          λ h. (same_type s node t typed good, ih.0 (rw (typed, good, check_nodes) at h)),
          λ h. rw (typed, good, check_nodes) (ih.1 h.1),
        )
      ]
    ]

-- What is asked of the "nodes" of a decoded body.
abbrev pub NodesPass : Sanitizer → Map Json → Type 0
NodesPass s workflow =
    (nodes : List Json)
    → as_array (lookup (bytes "nodes") workflow) ≡ some nodes
    → All (λ node. ¬ IsBlocked s node) nodes

sanitize_sound :
    (decode : Decode) (s : Sanitizer) (body : Str)
    → is_enabled s ≡ true
    → sanitize_workflow_body decode s body ≡ none
    → (workflow : Map Json) × (decode body ≡ some workflow) × NodesPass s workflow
unfolding sanitize_workflow_body
sanitize_sound decode s body on h = elim (Option-cases (decode body)) [
  | inl bad ↦ absurd (cc (rw (on, bad) at h))
  | inr (w, ok) ↦
      (w, ok, λ nodes e. (check_nodes_iff s nodes).0 (rw (on, ok, e, sanitize_workflow_body) at h))
]

sanitize_complete :
    (decode : Decode) (s : Sanitizer) (body : Str)
    → is_enabled s ≡ true
    → ((workflow : Map Json) × (decode body ≡ some workflow) × NodesPass s workflow)
    → sanitize_workflow_body decode s body ≡ none
unfolding sanitize_workflow_body
sanitize_complete decode s body on (w, ok, pass) =
    elim (Option-cases (as_array (lookup (bytes "nodes") w))) [
      | inl absent ↦ rw (on, ok, absent)
      | inr (nodes, e) ↦ rw (on, ok, e) ((check_nodes_iff s nodes).1 (pass nodes e))
    ]

-- With a list of dangerous types, a body passes exactly if it is a JSON object whose "nodes", where
-- they are an array, hold no object with a dangerous type.
pub sanitize_iff :
    (decode : Decode) (s : Sanitizer) (body : Str)
    → is_enabled s ≡ true
    → (sanitize_workflow_body decode s body ≡ none)
      ↔ ((workflow : Map Json) × (decode body ≡ some workflow) × NodesPass s workflow)
sanitize_iff decode s body on =
    (sanitize_sound decode s body on, sanitize_complete decode s body on)

-- The type is one of the names, without the white space round it.
abbrev pub IsListed : Str → List Str → Type 0
IsListed t [] = ⊥
IsListed t (n ∷ ns) = (trim_space n ≡ t) ⊎ IsListed t ns

-- One round of the loop.
abbrev added : Str → Map Bool → Map Bool
added w nodes = if non_empty w then insert w true nodes else nodes

added_iff :
    (t w : Str) (nodes : Map Bool)
    → t ≢ []
    → (lookup t (added w nodes) ≡ some true) ↔ ((w ≡ t) ⊎ (lookup t nodes ≡ some true))
added_iff t [] nodes h = (λ e. inr e, λ e. ground arith)
added_iff t (c ∷ w) nodes h = ground (arith, lookup-insert (c ∷ w) t true nodes, eq_iff (c ∷ w) t)

add_nodes_sound :
    (t : Str) (names : List Str) (nodes : Map Bool)
    → t ≢ []
    → lookup t (add_nodes names nodes) ≡ some true
    → IsListed t names ⊎ (lookup t nodes ≡ some true)
unfolding add_nodes
add_nodes_sound t [] nodes h e = inr e
add_nodes_sound t (n ∷ ns) nodes h e = ground (
  arith,
  add_nodes_sound t ns (added (trim_space n) nodes) h e,
  (added_iff t (trim_space n) nodes h).0,
)

add_nodes_complete :
    (t : Str) (names : List Str) (nodes : Map Bool)
    → t ≢ []
    → IsListed t names ⊎ (lookup t nodes ≡ some true)
    → lookup t (add_nodes names nodes) ≡ some true
unfolding add_nodes
add_nodes_complete t [] nodes h e = ground arith
add_nodes_complete t (n ∷ ns) nodes h e = ground (
  arith,
  add_nodes_complete t ns (added (trim_space n) nodes) h,
  (added_iff t (trim_space n) nodes h).1,
)

added_empty :
    (w : Str) (nodes : Map Bool) → lookup [] nodes ≡ none → lookup [] (added w nodes) ≡ none
added_empty [] nodes h = h
added_empty (c ∷ w) nodes h =
    rw (lookup-insert (c ∷ w) [] true nodes, eq_false (c ∷ w) [] (λ e. cc e)) h

-- The empty name is never stored.
add_nodes_empty :
    (names : List Str) (nodes : Map Bool)
    → lookup [] nodes ≡ none
    → lookup [] (add_nodes names nodes) ≡ none
unfolding add_nodes
add_nodes_empty [] nodes h = h
add_nodes_empty (n ∷ ns) nodes h =
    add_nodes_empty ns (added (trim_space n) nodes) (added_empty (trim_space n) nodes h)

is_dangerous_iff :
    (s : Sanitizer) (t : Str) → (is_dangerous s t ≡ true) ↔ (lookup t s.dangerous_nodes ≡ some true)
unfolding is_dangerous
is_dangerous_iff s t = ground arith

-- Built from an inline list alone, the sanitizer blocks exactly the names of the list, trimmed,
-- that are not empty.
pub new_sanitizer_blocks :
    (names : List Str) (t : Str)
    → (is_dangerous (new_sanitizer names none) t ≡ true) ↔ ((t ≢ []) × IsListed t names)
unfolding new_sanitizer lookup
new_sanitizer_blocks names t =
    let blocked = is_dangerous_iff (new_sanitizer names none) t in
    (
      λ h.
          let e = blocked.0 h in
          let not_empty : t ≢ [] = λ p. cc (rw p at e, add_nodes_empty names [] refl) in
          (not_empty, ground (arith, add_nodes_sound t names [] not_empty e)),
      λ h. blocked.1 (add_nodes_complete t names [] h.0 (inl h.1)),
    )

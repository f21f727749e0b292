-- ===== src/Policy/Engine/Privilege.antt =====
-- How the roles that a user holds bear on Evaluate (knox-proxy/policy/engine.go).
use knox_proxy.Base.{
  eq_false, sym, has_prefix, ◌⊎◌, to_upper, inr, inl, Bool-cases, ◌≢◌, Str, true, false, List, [],
  ◌∷◌, bytes, Has, All, ◌≡◌, refl, arith,
}
use knox_proxy.Json.{Decode}
use knox_proxy.Policy.CleanPath.{clean}
use knox_proxy.Policy.Engine.{
  demand, check_roles, needs, evaluate_mutation, workflow_demand, judge, path_parts, wildcard_for,
  role_for, is_read_only, is_api_path, evaluate,
}
use knox_proxy.Policy.Engine.Rules.{
  change_part, change, run, run_named_in_body, create_execution, check_roles_iff, Asks, by_role,
  manipulate_execution, internal, Permits, HoldsRole,
}
use knox_proxy.Policy.Engine.Access.{evaluate_iff}
use knox_proxy.Policy.Engine.Complete.{demand-workflows}

-- Every role of the first list is in the second.
abbrev pub Includes : List Str → List Str → Type 0
Includes roles more = (r : Str) → Has r roles → Has r more

HoldsRole-mono :
    (action id : Str) (roles more : List Str)
    → Includes roles more
    → HoldsRole action id roles
    → HoldsRole action id more
HoldsRole-mono action id roles more i (inl exact) = inl (i (role_for action id) exact)
HoldsRole-mono action id roles more i (inr wild) = inr (i (wildcard_for action) wild)

Includes-ne-nil : (roles more : List Str) → Includes roles more → roles ≢ [] → more ≢ []
Includes-ne-nil [] more i h e = h refl
Includes-ne-nil (r ∷ rs) [] i h e = i r (inl refl)
Includes-ne-nil (r ∷ rs) (m ∷ ms) i h e = cc e

Permits-mono :
    (decode : Decode) (body resource : Str) (rest roles more : List Str)
    → Includes roles more
    → Permits decode body resource rest roles
    → Permits decode body resource rest more
Permits-mono decode body resource rest roles more i (internal r) = internal r
Permits-mono decode body resource rest roles more i (manipulate_execution e x y) =
    manipulate_execution e x (Includes-ne-nil roles more i y)
Permits-mono decode body resource rest roles more i (by_role action id asks valid held) =
    by_role action id asks valid (HoldsRole-mono action id roles more i held)

-- More roles never forbid: what is allowed with some roles is allowed with any roles that include
-- them.
pub evaluate_mono :
    (decode : Decode) (method path body : Str) (roles more : List Str)
    → Includes roles more
    → (evaluate decode method path body roles).allowed ≡ true
    → (evaluate decode method path body more).allowed ≡ true
evaluate_mono decode method path body roles more i h =
    elim (Bool-cases (is_api_path (clean path))) [
      | inr outside ↦ unfold evaluate in rw outside
      | inl api ↦ elim (Bool-cases (is_read_only (to_upper method))) [
        | inl reads ↦ unfold evaluate in rw (api, reads)
        | inr mutates ↦
            let only = evaluate_iff decode method path body roles api mutates in
            let (a, r, rest, e, p) = only.0 h in
            (evaluate_iff decode method path body more api mutates).1
              (a, r, rest, e, Permits-mono decode body r rest roles more i p)
      ]
    ]

only_internal :
    (decode : Decode) (body resource : Str) (rest : List Str)
    → Permits decode body resource rest []
    → (resource ≡ bytes "telemetry") ⊎ (resource ≡ bytes "ph")
only_internal decode body resource rest (internal r) = r
only_internal decode body resource rest (manipulate_execution e x y) = absurd (y refl)
only_internal decode body resource rest (by_role action id asks valid (inl held)) = absurd held
only_internal decode body resource rest (by_role action id asks valid (inr held)) = absurd held

-- A user without roles may only read the API, and post to the two internal resources.
pub evaluate_without_roles :
    (decode : Decode) (method path body : Str)
    → is_api_path (clean path) ≡ true
    → is_read_only (to_upper method) ≡ false
    → (evaluate decode method path body []).allowed ≡ true
    → (api : Str) × (resource : Str) × (rest : List Str) × (path_parts (clean path)
        ≡ api ∷ resource ∷ rest)
      × ((resource ≡ bytes "telemetry") ⊎ (resource ≡ bytes "ph"))
evaluate_without_roles decode method path body api mutates h =
    let (a, r, rest, e, p) = (evaluate_iff decode method path body [] api mutates).0 h in
    (a, r, rest, e, only_internal decode body r rest p)

Has-All {κ} : (P : Str → Type κ) (s : Str) (roles : List Str) → Has s roles → All P roles → P s
Has-All P s [] h all = absurd h
Has-All P s (r ∷ rs) (inl e) all = rw e at (all.0)
Has-All P s (r ∷ rs) (inr later) all = Has-All P s rs later all.1

edit_prefix : (id : Str) → has_prefix (role_for (bytes "edit") id) (bytes "edit:") ≡ true
unfolding bytes has_prefix
edit_prefix id = refl

edit_prefix_wildcard : has_prefix (wildcard_for (bytes "edit")) (bytes "edit:") ≡ true
unfolding bytes has_prefix
edit_prefix_wildcard = refl

abbrev pub IsNoEditRole : Str → Type 0
IsNoEditRole role = has_prefix role (bytes "edit:") ≡ false

not-HoldsRole_edit :
    (id : Str) (roles : List Str) → All IsNoEditRole roles → ¬ HoldsRole (bytes "edit") id roles
not-HoldsRole_edit id roles all (inl exact) =
    cc (edit_prefix id, Has-All IsNoEditRole (role_for (bytes "edit") id) roles exact all)
not-HoldsRole_edit id roles all (inr wild) =
    cc (edit_prefix_wildcard, Has-All IsNoEditRole (wildcard_for (bytes "edit")) roles wild all)

needs_edit_denied :
    (id : Str) (roles : List Str)
    → All IsNoEditRole roles
    → (judge (needs (bytes "edit") id) roles).allowed ≡ false
unfolding judge
needs_edit_denied id roles all = elim (Bool-cases ((check_roles (bytes "edit") id roles).allowed)) [
  | inl held ↦ absurd (not-HoldsRole_edit id roles all ((check_roles_iff _ id roles).0 held))
  | inr missing ↦ ground arith
]

run-ne-edit : bytes "run" ≢ bytes "edit"
unfolding bytes
run-ne-edit e = cc e

Asks-edit_denied :
    (decode : Decode) (body api resource id : Str) (rest roles : List Str)
    → Asks decode body resource rest (bytes "edit") id
    → All IsNoEditRole roles
    → (judge (demand decode (api ∷ resource ∷ rest) body roles) roles).allowed ≡ false
unfolding workflow_demand
Asks-edit_denied decode body api resource id rest roles (create_execution e r a b) all =
    absurd (run-ne-edit (sym a))
Asks-edit_denied decode body api resource id rest roles (run_named_in_body e r a b) all =
    absurd (run-ne-edit (sym a))
Asks-edit_denied decode body api resource id rest roles (run sub more e r s a) all =
    absurd (run-ne-edit (sym a))
Asks-edit_denied decode body api resource id rest roles (change e r n a) all =
    rw (e, demand-workflows, r, eq_false id (bytes "run") n) (needs_edit_denied id roles all)
Asks-edit_denied decode body api resource id rest roles (change_part sub more e r n m a) all =
    rw (e, demand-workflows, r, eq_false sub (bytes "run") n, eq_false sub (bytes "test") m)
      (needs_edit_denied id roles all)

-- With no role that begins with "edit:", a change of a workflow or of a part of it is denied,
-- whatever other roles the user holds.
pub edit_needs_edit_role :
    (decode : Decode) (method path body api resource id : Str) (rest roles : List Str)
    → is_api_path (clean path) ≡ true
    → is_read_only (to_upper method) ≡ false
    → path_parts (clean path) ≡ api ∷ resource ∷ rest
    → Asks decode body resource rest (bytes "edit") id
    → All IsNoEditRole roles
    → (evaluate decode method path body roles).allowed ≡ false
unfolding evaluate evaluate_mutation
edit_needs_edit_role decode method path body api resource id rest roles is_api mutates parts asks
      all =
    rw (is_api, mutates, parts) (Asks-edit_denied decode body api resource id rest roles asks all)

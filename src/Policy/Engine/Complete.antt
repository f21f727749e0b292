-- ===== src/Policy/Engine/Complete.antt =====
-- What the rules permit, evaluateMutation (knox-proxy/policy/engine.go) allows.
use knox_proxy.Base.{
  eq_refl, eq_false, ◌∙◌, sym, inl, inr, ◌==◌, Bool-cases, Str, true, List, [], ◌∷◌, bytes, eq_iff,
  ◌≡◌, ◌≢◌, refl, arith,
}
use knox_proxy.Json.{Decode}
use knox_proxy.Policy.Engine.{
  demand, workflow_demand, execution_demand, run_in_body, Demand, extract_workflow_id_from_body,
  judge,
}
use knox_proxy.Policy.Engine.Rules.{
  change_part, runs, run, by_role, change, manipulate_execution, run_named_in_body, check_roles_iff,
  create_execution, internal_resource_iff, matches_path_id_iff, internal, HoldsRole, Permits, Asks,
  IsWorkflowId,
}

-- The two resources that roles are about are not internal.
demand-executions :
    (decode : Decode) (api body : Str) (rest roles : List Str)
    → demand decode (api ∷ bytes "executions" ∷ rest) body roles
      ≡ execution_demand decode rest body roles
unfolding demand bytes ◌==◌
demand-executions decode api body rest roles = refl

pub demand-workflows :
    (decode : Decode) (api body : Str) (rest roles : List Str)
    → demand decode (api ∷ bytes "workflows" ∷ rest) body roles ≡ workflow_demand decode rest body
unfolding demand bytes ◌==◌
demand-workflows decode api body rest roles = refl

module _ (decode : Decode) (body resource : Str) (roles : List Str) where
  needs_complete :
      (action id : Str)
      → IsWorkflowId id
      → HoldsRole action id roles
      → (judge (Demand.needs action id) roles).allowed ≡ true
  unfolding judge
  needs_complete action id valid held =
      rw ((matches_path_id_iff id).1 valid) ((check_roles_iff action id roles).1 held)

  run_in_body_complete :
      (reason id : Str)
      → extract_workflow_id_from_body decode body ≡ id
      → IsWorkflowId id
      → HoldsRole (bytes "run") id roles
      → (judge (run_in_body decode body reason) roles).allowed ≡ true
  unfolding run_in_body
  run_in_body_complete reason id e valid held =
      elim (Bool-cases (extract_workflow_id_from_body decode body == [])) [
        | inl absent ↦ absurd (valid.0 (sym e ∙ (eq_iff _ _).0 absent))
        | inr present ↦ rw (present, e) (needs_complete (bytes "run") id valid held)
      ]

  manipulate_complete :
      (rest : List Str)
      → rest ≢ []
      → roles ≢ []
      → (judge (execution_demand decode rest body roles) roles).allowed ≡ true
  unfolding execution_demand judge
  manipulate_complete rest x y = ground arith

  by_role_complete :
      (api : Str) (rest : List Str) (action id : Str)
      → Asks decode body resource rest action id
      → IsWorkflowId id
      → HoldsRole action id roles
      → (judge (demand decode (api ∷ resource ∷ rest) body roles) roles).allowed ≡ true
  unfolding execution_demand workflow_demand
  by_role_complete api rest action id (create_execution e r a b) valid held =
      rw (e, demand-executions, r) (run_in_body_complete _ id b valid (rw a at held))
  by_role_complete api rest action id (run_named_in_body e r a b) valid held =
      rw (e, demand-workflows, r, eq_refl (bytes "run"))
        (run_in_body_complete _ id b valid (rw a at held))
  by_role_complete api rest action id (change e r n a) valid held =
      rw (e, demand-workflows, r, eq_false id (bytes "run") n)
        (needs_complete (bytes "edit") id valid (rw a at held))
  by_role_complete api rest action id (run sub more e r s a) valid held =
      rw (e, demand-workflows, r, runs sub s) (needs_complete (bytes "run") id valid (rw a at held))
  by_role_complete api rest action id (change_part sub more e r n m a) valid held =
      rw (e, demand-workflows, r, eq_false sub (bytes "run") n, eq_false sub (bytes "test") m)
        (needs_complete (bytes "edit") id valid (rw a at held))

  pub mutation_complete :
      (api : Str) (rest : List Str)
      → Permits decode body resource rest roles
      → (judge (demand decode (api ∷ resource ∷ rest) body roles) roles).allowed ≡ true
  mutation_complete api rest (internal r) =
      unfold demand judge in rw ((internal_resource_iff resource).1 r)
  mutation_complete api rest (manipulate_execution e x y) =
      rw (e, demand-executions) (manipulate_complete rest x y)
  mutation_complete api rest (by_role action id asks valid held) =
      by_role_complete api rest action id asks valid held

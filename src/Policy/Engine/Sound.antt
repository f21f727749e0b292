-- ===== src/Policy/Engine/Sound.antt =====
-- What evaluateMutation (knox-proxy/policy/engine.go) allows, the rules permit.
use knox_proxy.Base.{
  ◌||◌, ap, inl, inr, ◌==◌, Bool-cases, Str, true, List, [], ◌∷◌, bytes, eq_iff, ◌≡◌, refl, arith,
}
use knox_proxy.Json.{Decode}
use knox_proxy.Policy.Engine.{
  demand, internal_resource, workflow_demand, execution_demand, run_in_body, Demand,
  extract_workflow_id_from_body, judge,
}
use knox_proxy.Policy.Engine.Rules.{
  change_part, run, check_roles_iff, internal_resource_iff, change, manipulate_execution,
  matches_path_id_iff, internal, run_named_in_body, create_execution, by_role, Permits, Asks,
}

module _ (decode : Decode) (body resource : Str) (roles : List Str) where
  needs_sound :
      (rest : List Str) (action id : Str)
      → Asks decode body resource rest action id
      → (judge (Demand.needs action id) roles).allowed ≡ true
      → Permits decode body resource rest roles
  unfolding judge
  needs_sound rest action id asks h =
      by_role action id asks ((matches_path_id_iff id).0 (ground arith))
        ((check_roles_iff action id roles).0 (ground arith))

  -- With no ID in the body nothing is allowed.
  run_in_body_sound :
      (rest : List Str) (reason : Str)
      → Asks decode body resource rest (bytes "run") (extract_workflow_id_from_body decode body)
      → (judge (run_in_body decode body reason) roles).allowed ≡ true
      → Permits decode body resource rest roles
  unfolding run_in_body
  run_in_body_sound rest reason asks h =
      elim (Bool-cases (extract_workflow_id_from_body decode body == [])) [
        | inl absent ↦ absurd (unfold judge in cc (rw absent at h))
        | inr present ↦ needs_sound rest (bytes "run") _ asks (rw present at h)
      ]

  execution_sound :
      (rest : List Str)
      → resource ≡ bytes "executions"
      → (judge (execution_demand decode rest body roles) roles).allowed ≡ true
      → Permits decode body resource rest roles
  unfolding execution_demand judge
  execution_sound [] e h = run_in_body_sound [] _ (create_execution e refl refl refl) h
  execution_sound (x ∷ xs) e h = manipulate_execution e (λ p. cc p) (λ p. cc (rw p at h))

  workflow_sound :
      (rest : List Str)
      → resource ≡ bytes "workflows"
      → (judge (workflow_demand decode rest body) roles).allowed ≡ true
      → Permits decode body resource rest roles
  unfolding workflow_demand
  workflow_sound [] e h = unfold judge in cc h
  workflow_sound (id ∷ []) e h = elim (Bool-cases (id == bytes "run")) [
    | inl manual ↦
        let named = (eq_iff _ _).0 manual in
        run_in_body_sound (id ∷ []) _ (run_named_in_body e (ap (λ x. x ∷ []) named) refl refl)
          (rw manual at h)
    | inr other ↦
        needs_sound (id ∷ []) (bytes "edit") id (change e refl (λ p. cc ((eq_iff _ _).1 p)) refl)
          (rw other at h)
  ]
  workflow_sound (id ∷ sub ∷ more) e h =
      elim (Bool-cases (sub == bytes "run" || sub == bytes "test")) [
        | inl runs ↦
            needs_sound _ (bytes "run") id
              (run sub more e refl
                (ground (arith, eq_iff sub (bytes "run"), eq_iff sub (bytes "test"))) refl)
              (rw runs at h)
        | inr edits ↦
            needs_sound _ (bytes "edit") id
              (change_part sub more e refl (ground (arith, eq_iff sub (bytes "run")))
                (ground (arith, eq_iff sub (bytes "test"))) refl)
              (rw edits at h)
      ]

  pub mutation_sound :
      (api : Str) (rest : List Str)
      → (judge (demand decode (api ∷ resource ∷ rest) body roles) roles).allowed ≡ true
      → Permits decode body resource rest roles
  unfolding demand
  mutation_sound api rest h = elim (Bool-cases (internal_resource resource)) [
    | inl yes_internal ↦ internal ((internal_resource_iff resource).0 yes_internal)
    | inr external ↦ elim (Bool-cases (resource == bytes "executions")) [
      | inl ex ↦ execution_sound rest ((eq_iff _ _).0 ex) (rw (external, ex) at h)
      | inr not_ex ↦ elim (Bool-cases (resource == bytes "workflows")) [
        | inl wf ↦ workflow_sound rest ((eq_iff _ _).0 wf) (rw (external, not_ex, wf) at h)
        | inr other ↦ absurd (unfold judge in cc (rw (external, not_ex, other) at h))
      ]
    ]
  ]

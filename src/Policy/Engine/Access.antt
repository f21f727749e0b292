-- ===== src/Policy/Engine/Access.antt =====
-- When Evaluate (knox-proxy/policy/engine.go) allows a request.
use knox_proxy.Base.{false, to_upper, Str, true, List, [], ◌∷◌, ◌≡◌, refl, ◌↔◌}
use knox_proxy.Json.{Decode}
use knox_proxy.Policy.Engine.{
  path_parts, is_read_only, is_api_path, evaluate_mutation, evaluate, demand, judge,
}
use knox_proxy.Policy.CleanPath.{clean}
use knox_proxy.Policy.Engine.Rules.{Permits}
use knox_proxy.Policy.Engine.Sound.{mutation_sound}
use knox_proxy.Policy.Engine.Complete.{mutation_complete}

judge_sound :
    (decode : Decode) (body : Str) (roles parts : List Str)
    → (judge (demand decode parts body roles) roles).allowed ≡ true
    → (api : Str) × (resource : Str) × (rest : List Str) × (parts ≡ api ∷ resource ∷ rest)
      × Permits decode body resource rest roles
judge_sound decode body roles [] h = unfold judge demand in cc h
judge_sound decode body roles (a ∷ []) h = unfold judge demand in cc h
judge_sound decode body roles (a ∷ r ∷ rest) h =
    (a, r, rest, refl, mutation_sound decode body r roles a rest h)

-- Below /rest/ and /api/, a request whose method is not GET, HEAD or OPTIONS in any case is allowed
-- exactly if its cleaned path has an element behind the first and the roles permit the mutation.
pub evaluate_iff :
    (decode : Decode) (method path body : Str) (roles : List Str)
    → is_api_path (clean path) ≡ true
    → is_read_only (to_upper method) ≡ false
    → ((evaluate decode method path body roles).allowed ≡ true) ↔ (
        (api : Str) × (resource : Str) × (rest : List Str) × (path_parts (clean path)
          ≡ api ∷ resource ∷ rest)
        × Permits decode body resource rest roles)
unfolding evaluate evaluate_mutation
evaluate_iff decode method path body roles api mutates =
    rw (api, mutates)
      (
        judge_sound decode body roles (path_parts (clean path)),
        λ h. rw h.3 (mutation_complete decode body h.1 roles h.0 h.2 h.4),
      )

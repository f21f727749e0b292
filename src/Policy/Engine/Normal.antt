-- ===== src/Policy/Engine/Normal.antt =====
-- Evaluate (knox-proxy/policy/engine.go) does not depend on how the method and the path are spelled.
use knox_proxy.Base.{to_upper_idem, to_upper, has_prefix, List, Str, true, [], ◌∷◌, ◌≡◌}
use knox_proxy.Json.{Decode}
use knox_proxy.Policy.CleanPath.{clean}
use knox_proxy.Policy.CleanPath.Laws.{clean_idem}
use knox_proxy.Policy.Engine.{evaluate}

-- The decision for a rooted path is the one for its clean form, with the method in upper case: no
-- spelling by "//", "/./", "/../" or case gets another answer.
pub evaluate_normal :
    (decode : Decode) (method path body : Str) (roles : List Str)
    → has_prefix path (b'/' ∷ []) ≡ true
    → evaluate decode (to_upper method) (clean path) body roles
      ≡ evaluate decode method path body roles
unfolding evaluate
evaluate_normal decode method path body roles rooted = rw (clean_idem path rooted, to_upper_idem)

-- ===== src/Tools/Scope/Masks.antt =====
-- Names in the joined masks of a scope (tools/scope.go: Deny).
use awesome_go_agents.Base.{◌≡◌, refl, List, [], ◌∷◌, ◌++◌, String, arith, ◌||◌}
use awesome_go_agents.Tools.Scope.{has_name}

pub has_name-append :
    (name : String) (ms ns : List String)
    → has_name name (ms ++ ns) ≡ (has_name name ms || has_name name ns)
unfolding has_name
has_name-append name [] ns = refl
has_name-append name (m ∷ ms) ns = ground (arith, has_name-append name ms ns)

-- ===== src/Tools/Scope/Handles.antt =====
-- Disposing of the masks of a scope (tools/scope.go: RestrictHandle, DenyHandle).
use awesome_go_agents.Base.{true, false, ◌≡◌, refl, List, String, arith}
use awesome_go_agents.Tools.Scope.{
  Scope, has_name, deny_with_handle, deny_names, unregister, visible_inherited,
}
use awesome_go_agents.Tools.Scope.Masks.{has_name-append}

-- Two denials taken out in the order in which they were put in. The disposal of the first lifts both,
-- while the second is in force: the scope is as it was before either. The disposal of the second puts
-- the names of the first back: the scope is as if only the first denial had been made, and its names
-- are not visible although both handles are disposed of.
pub deny_with_handle-resurrects :
    (first second : List String) (name : String) (s : Scope)
    → has_name name first ≡ true
    → let (s1, h1) = deny_with_handle first s in
      let (s2, h2) = deny_with_handle second s1 in
      let (s3, d1) = unregister h1 s2 in
      let (s4, d2) = unregister h2 s3 in (s3 ≡ s) × (s4 ≡ s1) × (visible_inherited s4 name ≡ false)
unfolding deny_with_handle unregister visible_inherited deny_names
deny_with_handle-resurrects first second name s h =
    (refl, refl, ground (arith, h, has_name-append name s.deny first))

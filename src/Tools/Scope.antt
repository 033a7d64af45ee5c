-- ===== src/Tools/Scope.antt =====
-- The visibility of tools in a scope (tools/scope.go).
--
-- The sets of names are lists, read by membership and by emptiness alone; a nil map and an empty one
-- are the empty list. Only the masks are modelled: the local registry, the lookup of a tool in a
-- registry, what `ModelTools` lists and what `Run` finds are left out.
use awesome_go_agents.Base.{
  ℕ, Bool, true, false, not, ◌&&◌, ◌||◌, Option, none, some, List, [], ◌∷◌, ◌++◌, String, str_eq,
  if◌then◌else◌, select,
}
pub mod Masks
pub mod Handles

pub record Scope : Type 0 where
  pub allow : List String
  pub deny : List String

unfoldable pub has_name : String → List String → Bool
has_name name [] = false
has_name name (n ∷ ns) = str_eq n name || has_name name ns

abbrev pub is_none : List String → Bool
is_none [] = true
is_none (n ∷ ns) = false

-- `Restrict`: none is `ErrInvalidArguments`.
unfoldable pub restrict : List String → Scope → Option Scope
unfolding has_name
restrict names s =
    if is_none names || has_name "" names then none else some (record s { allow = names })

unfoldable pub deny_names : List String → Scope → Scope
deny_names names s = record s { deny = s.deny ++ names }

-- A handle holds the mask that its disposal restores; a second disposal does nothing.
pub data Registration : Type 0 where
  allow_handle : List String → Registration
  deny_handle : List String → Registration
  disposed : Registration

unfoldable pub restrict_handle : List String → Scope → Option (Scope × Registration)
unfolding restrict
restrict_handle names s = elim (restrict names s) [
  | none ↦ none
  | some s' ↦ some (s', allow_handle s.allow)
]

unfoldable pub deny_with_handle : List String → Scope → Scope × Registration
unfolding deny_names
deny_with_handle names s = (deny_names names s, deny_handle s.deny)

-- The disposal of a handle.
unfoldable pub unregister : Registration → Scope → Scope × Registration
unregister (allow_handle previous) s = (record s { allow = previous }, disposed)
unregister (deny_handle previous) s = (record s { deny = previous }, disposed)
unregister disposed s = (s, disposed)

unfoldable pub visible_inherited : Scope → String → Bool
unfolding has_name
visible_inherited s name =
    if has_name name s.deny then false else if is_none s.allow then true else has_name name s.allow

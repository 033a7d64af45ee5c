-- ===== src/Base/Maps.antt =====
-- A Go `map[string]V` as a function: a missing key gives the value that the source reads there,
-- the zero value or an absent entry.
use Prim.Native.String.{String}
use text.Mathlib.TextEquality.{eq_iff}
use text.Mathlib.TextPositions.{eq_refl}
use mathlib.Core.Path.{◌≡◌, ap, fun_ext}
use mathlib.Core.Logic.{◌≢◌, inl, inr}
use native.Mathlib.Omega.{arith}
use awesome_go_agents.Base.Tests.{if◌then◌else◌, str_eq, Bool-cases}

module _ {ℓ} {V : Type ℓ} where
  -- `m[k] = v`
  abbrev pub update : (String → V) → String → V → String → V
  update m k v j = if str_eq k j then v else m j

  pub update_self : (m : String → V) (k : String) (v : V) → update m k v k ≡ v
  update_self m k v = rw (eq_refl k)

  pub update_ne : (m : String → V) (k j : String) (v : V) → k ≢ j → update m k v j ≡ m j
  update_ne m k j v h = ground (arith, eq_iff k j)

  -- Writing back what is there changes nothing.
  pub update_back : (m : String → V) (k : String) → update m k (m k) ≡ m
  update_back m k = fun_ext (λ j. elim (Bool-cases (str_eq k j)) [
    | inl same ↦ rw same (ap m ((eq_iff k j).0 same))
    | inr differ ↦ rw differ
  ])

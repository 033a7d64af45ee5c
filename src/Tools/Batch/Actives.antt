-- ===== src/Tools/Batch/Actives.antt =====
-- The list of the active calls of a batch (tools/registry.go: runRollingBatch).
use awesome_go_agents.Base.{
  ℕ, zero, suc, ◌≡◌, ◌≢◌, refl, Bool, true, false, ◌||◌, List, [], ◌∷◌, ◌++◌, ◌==◌, arith, length,
}
use awesome_go_agents.Tools.Batch.{remove, chosen}

abbrev pub is_active : ℕ → List ℕ → Bool
is_active i [] = false
is_active i (j ∷ js) = j == i || is_active i js

pub is_active-append :
    (i j : ℕ) (js : List ℕ) → is_active i (js ++ (j ∷ [])) ≡ (is_active i js || j == i)
is_active-append i j [] = ground arith
is_active-append i j (k ∷ js) = ground (arith, is_active-append i j js)

pub is_active-chosen : (k i : ℕ) (js : List ℕ) → is_active (chosen k i js) (i ∷ js) ≡ true
unfolding chosen
is_active-chosen k i [] = ground arith
is_active-chosen zero i (j ∷ js) = ground arith
is_active-chosen (suc k) i (j ∷ js) = ground (arith, is_active-chosen k j js)

pub is_active-remove : (i j : ℕ) (js : List ℕ) → i ≢ j → is_active j (remove i js) ≡ is_active j js
unfolding remove
is_active-remove i j [] h = refl
is_active-remove i j (k ∷ js) h = ground (arith, is_active-remove i j js h)

pub length-remove :
    (i : ℕ) (js : List ℕ) → is_active i js ≡ true → suc (length (remove i js)) ≡ length js
unfolding remove
length-remove i [] h = absurd (cc)
length-remove i (j ∷ js) h = ground (arith, length-remove i js)

-- ===== src/Tools/Batch/Draining.antt =====
-- What draining keeps, and that it empties the pool (tools/registry.go: runRollingBatch).
use awesome_go_agents.Base.{
  ℕ, zero, suc, ◌+◌, ◌-◌, ◌≡◌, refl, sym, ap, ◌∙◌, Bool, true, List, [], ◌∷◌, arith, length,
}
use awesome_go_agents.Tools.Batch.{
  Setup, Pool, chosen, finish, note, drain_from, drain_one, drain_all, Outcome, abort_rest,
  set_outcome,
}
use awesome_go_agents.Tools.Batch.Actives.{is_active, is_active-chosen, length-remove}

-- A property that the end of an active call keeps.
module _ {ℓ} (P : Pool → Type ℓ) (c : Setup) (counts : Bool)
    (step : (p : Pool) (i : ℕ)
      → is_active i p.active ≡ true
      → P p
      → P (note c counts i (finish c i p))) where
  drain_from-keeps :
      (k : ℕ) (js : List ℕ) (p : Pool) → js ≡ p.active → P p → P (drain_from c counts k js p)
  unfolding drain_from
  drain_from-keeps k [] p e v = v
  drain_from-keeps k (i ∷ js) p e v =
      step p (chosen k i js) (ap (is_active (chosen k i js)) (sym e) ∙ is_active-chosen k i js) v

  pub drain_one-keeps : (k : ℕ) (p : Pool) → P p → P (drain_one c counts k p)
  unfolding drain_one
  drain_one-keeps k p v = drain_from-keeps k p.active p refl v

  pub drain_all-keeps : (n : ℕ) (pick : ℕ → ℕ) (p : Pool) → P p → P (drain_all c counts n pick p)
  unfolding drain_all
  drain_all-keeps zero pick p v = v
  drain_all-keeps (suc n) pick p v =
      drain_all-keeps n pick (drain_one c counts (pick n) p) (drain_one-keeps (pick n) p v)

drain_from-fewer :
    (c : Setup) (counts : Bool) (k : ℕ) (js : List ℕ) (p : Pool)
    → js ≡ p.active
    → length (drain_from c counts k js p).active ≡ length js - 1
unfolding drain_from finish note
drain_from-fewer c counts k [] p e = ap length (sym e)
drain_from-fewer c counts k (i ∷ js) p e = omega (
  arith,
  length-remove (chosen k i js) p.active
      (ap (is_active (chosen k i js)) (sym e) ∙ is_active-chosen k i js),
  ap length e,
)

pub drain_one-fewer :
    (c : Setup) (counts : Bool) (k : ℕ) (p : Pool)
    → length (drain_one c counts k p).active ≡ length p.active - 1
unfolding drain_one
drain_one-fewer c counts k p = drain_from-fewer c counts k p.active p refl

pub drain_all-empties :
    (c : Setup) (counts : Bool) (n : ℕ) (pick : ℕ → ℕ) (p : Pool)
    → n ≡ length p.active
    → length (drain_all c counts n pick p).active ≡ 0
unfolding drain_all
drain_all-empties c counts zero pick p e = sym e
drain_all-empties c counts (suc n) pick p e =
    drain_all-empties c counts n pick (drain_one c counts (pick n) p)
      (omega (arith, drain_one-fewer c counts (pick n) p))

-- Marking the rest starts and drains nothing, and takes the counter to the end.
pub abort_rest_active :
    (o : Outcome) (remaining : ℕ) (p : Pool)
    → ((abort_rest o remaining p).active ≡ p.active)
      × ((abort_rest o remaining p).trace ≡ p.trace)
      × ((abort_rest o remaining p).next ≡ p.next + remaining)
unfolding abort_rest
abort_rest_active o zero p = (refl, refl, omega arith)
abort_rest_active o (suc remaining) p =
    let (same, quiet, further) =
      abort_rest_active o remaining
        (record p { next = suc p.next; outcomes = set_outcome p.next o p.outcomes }) in
    (same, quiet, omega (arith, further))

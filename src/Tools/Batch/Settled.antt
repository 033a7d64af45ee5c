-- ===== src/Tools/Batch/Settled.antt =====
-- Every call of a batch gets its outcome, and the loop ends (tools/registry.go: runRollingBatch).
use awesome_go_agents.Base.{
  ℕ, zero, suc, ◌≡◌, ◌<◌, ◌≤◌, inl, inr, refl, Bool, true, false, ◌&&◌, List, [], ◌∷◌, leb,
  if◌then◌else◌, arith, length, Bool-cases,
}
use awesome_go_agents.Tools.Batch.{
  Setup, Pool, Round, Progress, going, ended, new_pool, pass, is_idle, loop, run_rolling_batch,
}
use awesome_go_agents.Tools.Batch.Passed.{Passed, IsDone, Passed-IsDone}
use awesome_go_agents.Tools.Batch.Advances.{weight, Advances, ends, goes, pass-Advances}

-- What the loop returns.
abbrev pub Ends : Setup → Progress → Type 0
Ends c out = (q : Pool) × (out ≡ ended q) × IsDone c q

idle_length : (js : List ℕ) → is_idle js ≡ true → length js ≡ 0
idle_length [] h = refl
idle_length (j ∷ js) h = absurd (cc)

busy_length : (js : List ℕ) → is_idle js ≡ false → 0 < length js
busy_length [] h = absurd (cc)
busy_length (j ∷ js) h = omega arith

after_pass :
    (c : Setup) (w : ℕ) (out : Progress) (next : Pool → Progress)
    → Advances c w out
    → ((q : Pool) → Passed c q → weight c q < w → Ends c (next q))
    → Ends c (elim out [ going q ↦ next q | ended q ↦ ended q ])
after_pass c w out next (ends {q} d) h = (q, refl, d)
after_pass c w out next (goes {q} v less) h = h q v less

if_Ends :
    (c : Setup) (b : Bool) (x y : Progress)
    → (b ≡ true → Ends c x)
    → (b ≡ false → Ends c y)
    → Ends c (if b then x else y)
if_Ends c true x y h k = h refl
if_Ends c false x y h k = k refl

both : (n m : ℕ) (b : Bool) → (leb n m && b) ≡ true → (n ≤ m) × (b ≡ true)
both n m b h = (ground arith, ground arith)

-- Some call is waiting or active where the loop goes on.
pub still_left :
    (c : Setup) (p : Pool) → (leb c.total p.next && is_idle p.active) ≡ false → 0 < weight c p
still_left c p h = elim (Bool-cases (is_idle p.active)) [
  | inl idle ↦ ground (arith, h, idle)
  | inr busy ↦ omega (arith, busy_length p.active busy)
]

loop-Ends :
    (c : Setup) (rounds : ℕ → Round) (fuel : ℕ) (p : Pool)
    → weight c p < fuel
    → Passed c p
    → Ends c (loop c rounds fuel p)
unfolding loop
loop-Ends c rounds zero p h v = absurd (omega arith)
loop-Ends c rounds (suc fuel) p h v =
    let out = pass c (rounds fuel) p in
    if_Ends c (leb c.total p.next && is_idle p.active) (ended p)
      (elim out [ going q ↦ loop c rounds fuel q | ended q ↦ ended q ])
      (λ over.
        let (all, idle) = both c.total p.next (is_idle p.active) over in
        (p, refl, Passed-IsDone c p (omega (arith, v.bound)) (idle_length p.active idle) v))
      (λ more.
        after_pass c (weight c p) out (loop c rounds fuel)
          (pass-Advances c (rounds fuel) p (still_left c p more) v)
          (λ q kept less. loop-Ends c rounds fuel q (omega arith) kept))

-- A batch ends, whatever the scheduler and the cancellation do: within one pass more than there are
-- calls the loop is left with no call active, and then every call of the batch has at its own place
-- the completion of its own run, or the mark that it was never dispatched.
pub run_rolling_batch-Ends : (c : Setup) (rounds : ℕ → Round) → Ends c (run_rolling_batch c rounds)
unfolding run_rolling_batch new_pool
run_rolling_batch-Ends c rounds =
    loop-Ends c rounds (suc c.total) new_pool (omega arith)
      (record { bound = omega arith; answered = λ i below. absurd (omega arith) })

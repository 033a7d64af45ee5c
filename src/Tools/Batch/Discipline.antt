-- ===== src/Tools/Batch/Discipline.antt =====
-- How the calls of a batch overlap (tools/registry.go: runRollingBatch).
use awesome_go_agents.Base.{
  ℕ, zero, suc, ◌-◌, ◌≡◌, ◌<◌, ◌≤◌, inl, inr, refl, sym, ap, ◌∙◌, Bool, true, false, not, ◌&&◌,
  ◌||◌, Option, none, some, List, [], ◌∷◌, ◌++◌, ltb, leb, if◌then◌else◌, arith, length, Bool-cases,
}
use awesome_go_agents.Tools.Batch.{
  Setup, Pool, Round, Outcome, aborted_cancelled, aborted_concluded, Action, started, finished,
  Progress, going, ended, new_pool, limit, remove, launch, launch_safe, finish, note, drain_one,
  drain_all, abort_rest, run_exclusive, stop, exclusive, advance, pass, is_idle, loop,
  run_rolling_batch,
}
use mathlib.Core.Path.{subst}
use awesome_go_agents.Tools.Batch.Actives.{is_active}
use awesome_go_agents.Tools.Batch.Launching.{launch_safe-keeps}
use awesome_go_agents.Tools.Batch.Draining.{
  drain_one-keeps, drain_all-keeps, drain_all-empties, abort_rest_active,
}
use awesome_go_agents.Tools.Batch.Passed.{Passed}
use awesome_go_agents.Tools.Batch.Advances.{weight, Advances, pass-Advances}
use awesome_go_agents.Tools.Batch.Settled.{still_left, run_rolling_batch-Ends}

pub all_safe : (ℕ → Bool) → List ℕ → Bool
all_safe safe [] = true
all_safe safe (i ∷ is) = safe i && all_safe safe is

-- Whether an action may follow, with the calls that are running: a call starts where nothing runs, or
-- it is safe, only safe calls run and they are fewer than the limit; a call that ends was running.
pub admit : Setup → Action → List ℕ → Option (List ℕ)
unfolding all_safe
admit c (started i) running =
    if is_idle running
      || (c.is_safe i && all_safe c.is_safe running && ltb (length running) (limit c))
    then some (running ++ (i ∷ []))
    else none
admit c (finished i) running = if is_active i running then some (remove i running) else none

-- The calls that run after a trace, its latest action first; none where some action may not follow.
pub running_after : Setup → List Action → Option (List ℕ)
unfolding admit
running_after c [] = some []
running_after c (a ∷ earlier) = elim (running_after c earlier) [
  | none ↦ none
  | some running ↦ admit c a running
]

-- The pool agrees with its trace.
record Disciplined (c : Setup) (p : Pool) : Type 0 where
  agrees : running_after c p.trace ≡ some p.active
  safe : all_safe c.is_safe p.active ≡ true

all_safe-append :
    (safe : ℕ → Bool) (is : List ℕ) (i : ℕ)
    → all_safe safe is ≡ true
    → safe i ≡ true
    → all_safe safe (is ++ (i ∷ [])) ≡ true
unfolding all_safe
all_safe-append safe [] i h k = ground (arith, k)
all_safe-append safe (j ∷ is) i h k = ground (arith, h, k, all_safe-append safe is i)

all_safe-remove :
    (safe : ℕ → Bool) (i : ℕ) (is : List ℕ)
    → all_safe safe is ≡ true
    → all_safe safe (remove i is) ≡ true
unfolding all_safe remove
all_safe-remove safe i [] h = refl
all_safe-remove safe i (j ∷ is) h = ground (arith, h, all_safe-remove safe i is)

launch-Disciplined :
    (c : Setup) (p : Pool)
    → length p.active < limit c
    → c.is_safe p.next ≡ true
    → Disciplined c p
    → Disciplined c (launch p)
unfolding launch running_after admit
launch-Disciplined c p room safe v = record {
  agrees = rw v.agrees (ground (arith, room, safe, v.safe));
  safe = all_safe-append c.is_safe p.active p.next v.safe safe;
}

finish-Disciplined :
    (c : Setup) (counts : Bool) (p : Pool) (i : ℕ)
    → is_active i p.active ≡ true
    → Disciplined c p
    → Disciplined c (note c counts i (finish c i p))
unfolding note finish running_after admit
finish-Disciplined c counts p i is v = record {
  agrees = rw v.agrees (ground (arith, is));
  safe = all_safe-remove c.is_safe i p.active v.safe;
}

empty_list : (js : List ℕ) → length js ≡ 0 → js ≡ []
empty_list [] h = refl
empty_list (j ∷ js) h = absurd (omega arith)

alone :
    (c : Setup) (i : ℕ) (js : List ℕ) (earlier : List Action)
    → length js ≡ 0
    → running_after c earlier ≡ some js
    → running_after c (finished i ∷ started i ∷ earlier) ≡ some js
unfolding running_after admit remove
alone c i [] earlier h agrees = rw agrees (ground arith)
alone c i (j ∷ js) earlier h agrees = absurd (omega arith)

run_exclusive-Disciplined :
    (c : Setup) (p : Pool)
    → length p.active ≡ 0
    → Disciplined c p
    → Disciplined c (run_exclusive c p)
unfolding run_exclusive
run_exclusive-Disciplined c p idle v = record {
  agrees = alone c p.next p.active p.trace idle v.agrees;
  safe = v.safe;
}

abort_rest-Disciplined :
    (c : Setup) (o : Outcome) (remaining : ℕ) (p : Pool)
    → Disciplined c p
    → Disciplined c (abort_rest o remaining p)
abort_rest-Disciplined c o remaining p v =
    let (active, quiet, next) = abort_rest_active o remaining p in
    record {
      agrees = ap (running_after c) quiet ∙ v.agrees ∙ ap some (sym active);
      safe = ap (all_safe c.is_safe) active ∙ v.safe;
    }

drain_all-Disciplined :
    (c : Setup) (counts : Bool) (n : ℕ) (pick : ℕ → ℕ) (p : Pool)
    → Disciplined c p
    → Disciplined c (drain_all c counts n pick p)
drain_all-Disciplined c counts n pick p v =
    drain_all-keeps (Disciplined c) c counts (λ q i is h. finish-Disciplined c counts q i is h) n
      pick p v

-- The pool of a progress is disciplined.
data Orderly (c : Setup) : Progress → Type 0 where
  goes : {q : Pool} → Disciplined c q → Orderly c (going q)
  ends : {q : Pool} → Disciplined c q → Orderly c (ended q)

either :
    (c : Setup) (b : Bool) (x y : Progress)
    → Orderly c x
    → Orderly c y
    → Orderly c (if b then x else y)
either c true x y h k = h
either c false x y h k = k

stop-Orderly :
    (c : Setup) (o : Outcome) (r : Round) (p : Pool) → Disciplined c p → Orderly c (stop c o r p)
unfolding stop
stop-Orderly c o r p v =
    let q = abort_rest o (c.total - p.next) p in
    ends (
      drain_all-Disciplined c false (length q.active) r.pick q
        (abort_rest-Disciplined c o (c.total - p.next) p v))

exclusive-Orderly :
    (c : Setup) (r : Round) (p : Pool)
    → length p.active ≡ 0
    → Disciplined c p
    → Orderly c (exclusive c r p)
unfolding exclusive
exclusive-Orderly c r p idle v =
    either c r.cancelled_late (ended (abort_rest aborted_cancelled (c.total - p.next) p))
      (if p.terminal then going p else going (run_exclusive c p))
      (ends (abort_rest-Disciplined c aborted_cancelled (c.total - p.next) p v))
      (either c p.terminal (going p) (going (run_exclusive c p)) (goes v)
        (goes (run_exclusive-Disciplined c p idle v)))

advance-Orderly : (c : Setup) (r : Round) (p : Pool) → Disciplined c p → Orderly c (advance c r p)
unfolding advance
advance-Orderly c r p v =
    let q = drain_all c true (length p.active) r.pick p in
    either c (ltb p.next c.total && not (c.is_safe p.next)) (exclusive c r q)
      (going (drain_one c true (r.pick 0) p))
      (exclusive-Orderly c r q (drain_all-empties c true (length p.active) r.pick p refl)
        (drain_all-Disciplined c true (length p.active) r.pick p v))
      (goes (
        drain_one-keeps (Disciplined c) c true (λ s i is h. finish-Disciplined c true s i is h)
          (r.pick 0) p v))

pass-Orderly :
    (c : Setup) (r : Round) (p : Pool) → p.next ≤ c.total → Disciplined c p → Orderly c (pass c r p)
unfolding pass
pass-Orderly c r p bound v =
    let q = launch_safe c (c.total - p.next) p in
    let launched =
      launch_safe-keeps (Disciplined c) c
        (λ s below room safe h. launch-Disciplined c s room safe h) (c.total - p.next) p
        (omega arith) v in
    either c r.cancelled (stop c aborted_cancelled r p)
      (if p.terminal then stop c aborted_concluded r p else advance c r q)
      (stop-Orderly c aborted_cancelled r p v)
      (either c p.terminal (stop c aborted_concluded r p) (advance c r q)
        (stop-Orderly c aborted_concluded r p v) (advance-Orderly c r q launched))

after_pass :
    (c : Setup) (w : ℕ) (out : Progress) (next : Pool → Progress)
    → Advances c w out
    → Orderly c out
    → ((q : Pool) → Passed c q → Disciplined c q → Orderly c (next q))
    → Orderly c (elim out [ going q ↦ next q | ended q ↦ ended q ])
after_pass c w out next (Advances.ends d) (ends v) h = ends v
after_pass c w out next (Advances.goes {q} p less) (goes v) h = h q p v

loop-Orderly :
    (c : Setup) (rounds : ℕ → Round) (fuel : ℕ) (p : Pool)
    → Passed c p
    → Disciplined c p
    → Orderly c (loop c rounds fuel p)
unfolding loop
loop-Orderly c rounds zero p h v = goes v
loop-Orderly c rounds (suc fuel) p h v =
    let out = pass c (rounds fuel) p in
    let over = leb c.total p.next && is_idle p.active in
    let go_on : Progress = elim out [ going q ↦ loop c rounds fuel q | ended q ↦ ended q ] in
    elim (Bool-cases over) [
      | inl done ↦ rw done (ends v)
      | inr more ↦ rw more (
          after_pass c (weight c p) out (loop c rounds fuel)
            (pass-Advances c (rounds fuel) p (still_left c p more) h)
            (pass-Orderly c (rounds fuel) p h.bound v)
            (λ q passed kept. loop-Orderly c rounds fuel q passed kept))
    ]

abbrev pool_of : Progress → Pool
pool_of (going q) = q
pool_of (ended q) = q

Orderly-Disciplined : (c : Setup) (out : Progress) → Orderly c out → Disciplined c (pool_of out)
Orderly-Disciplined c out (goes v) = v
Orderly-Disciplined c out (ends v) = v

new_pool-Disciplined : (c : Setup) → Disciplined c new_pool
unfolding running_after new_pool all_safe
new_pool-Disciplined c = record { agrees = refl; safe = refl }

new_pool-Passed : (c : Setup) → Passed c new_pool
unfolding new_pool
new_pool-Passed c = record { bound = omega arith; answered = λ i below. absurd (omega arith) }

-- Calls overlap only as they may. In the trace of a batch every call starts where no call runs, or it
-- is safe, all the calls that run are safe and they are fewer than the limit: so an exclusive call
-- runs by itself and at most `limit` calls run at once. At the end no call is running.
pub run_rolling_batch-trace :
    (c : Setup) (rounds : ℕ → Round)
    → (q : Pool) × (run_rolling_batch c rounds ≡ ended q) × (running_after c q.trace ≡ some [])
run_rolling_batch-trace c rounds =
    let (q, ended_with, done) = run_rolling_batch-Ends c rounds in
    let all : Orderly c (run_rolling_batch c rounds) =
      unfold run_rolling_batch in
      loop-Orderly c rounds (suc c.total) new_pool (new_pool-Passed c) (new_pool-Disciplined c) in
    let v =
      subst (Disciplined c) (ap pool_of ended_with)
        (Orderly-Disciplined c (run_rolling_batch c rounds) all) in
    (q, ended_with, v.agrees ∙ ap some (empty_list q.active done.idle))

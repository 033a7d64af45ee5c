-- ===== src/Tools/Batch.antt =====
-- The rolling pool that runs the tool calls of one step (tools/registry.go: runRollingBatch).
--
-- A call is its index. What the rest of the program contributes is a `Setup`: which calls may run
-- beside others (`executionMode`, taken to give the same answer each time) and with what each run
-- completes. What the scheduler contributes is a `Round` for every pass of the loop: whether the
-- context is found cancelled at its two checks, and which of the active calls the channel `done`
-- delivers next. The trace, latest action first, is not part of the source: it records the calls
-- of `run` and their returns.
use awesome_go_agents.Base.{
  ℕ, zero, suc, ◌+◌, ◌-◌, Bool, true, false, not, ◌&&◌, ◌||◌, Option, none, some, List, [], ◌∷◌,
  ◌++◌, ℤ, pos, negsuc, ltb, leb, ◌==◌, if◌then◌else◌, length,
}
pub mod Actives
pub mod Launching
pub mod Draining
pub mod Passed
pub mod Advances
pub mod Settled
pub mod Discipline

pub data Continuation : Type 0 where
  resume conclude deferred : Continuation

-- A `*Result`, or nil, and whether there is an error beside it.
pub record Completion : Type 0 where
  pub result : Option (Continuation × Bool)
  pub failed : Bool

-- `isTerminal`: the flag of a result is `ConcludesTurn`.
unfoldable pub is_terminal : Completion → Bool
is_terminal d = elim d.result [
  | none ↦ false
  | some (Continuation.resume, concludes) ↦ concludes
  | some (Continuation.conclude, concludes) ↦ true
  | some (Continuation.deferred, concludes) ↦ true
]

pub record Setup : Type 0 where
  pub total : ℕ
  pub max_parallel : ℤ
  pub is_safe : ℕ → Bool
  pub completion : ℕ → Completion

-- `aborted_cancelled` and `aborted_concluded` are the two `ErrAbortedBeforeDispatch`.
pub data Outcome : Type 0 where
  unset aborted_cancelled aborted_concluded : Outcome
  completed : Completion → Outcome

pub data Action : Type 0 where
  started finished : ℕ → Action

pub record Pool : Type 0 where
  pub next : ℕ
  pub active : List ℕ
  pub terminal : Bool
  pub outcomes : ℕ → Outcome
  pub trace : List Action

pub record Round : Type 0 where
  pub cancelled : Bool
  pub cancelled_late : Bool
  pub pick : ℕ → ℕ

unfoldable pub new_pool : Pool
new_pool = record { next = 0; active = []; terminal = false; outcomes = λ i. unset; trace = [] }

-- `limit <= 0 || limit > len(calls)`
unfoldable pub limit_of : ℤ → ℕ → ℕ
limit_of (pos m) total = if m == 0 || ltb total m then total else m
limit_of (negsuc m) total = total

abbrev pub limit : Setup → ℕ
limit c = limit_of c.max_parallel c.total

-- `outcomes[i] = o`
unfoldable pub set_outcome : ℕ → Outcome → (ℕ → Outcome) → ℕ → Outcome
set_outcome i o f j = if i == j then o else f j

unfoldable pub remove : ℕ → List ℕ → List ℕ
remove i [] = []
remove i (j ∷ js) = if i == j then js else j ∷ remove i js

-- The active call at a place, the last one where there are fewer.
unfoldable pub chosen : ℕ → ℕ → List ℕ → ℕ
chosen k i [] = i
chosen zero i (j ∷ js) = i
chosen (suc k) i (j ∷ js) = chosen k j js

-- `launch`, and `next++`
unfoldable pub launch : Pool → Pool
launch p = record p {
  next = suc p.next;
  active = p.active ++ (p.next ∷ []);
  trace = started p.next ∷ p.trace;
}

-- The loop that launches safe calls; `remaining` is `len(calls) - next`.
unfoldable pub launch_safe : Setup → ℕ → Pool → Pool
unfolding launch limit_of
launch_safe c zero p = p
launch_safe c (suc remaining) p =
    let rest = launch_safe c remaining (launch p) in
    if ltb (length p.active) (limit c) && c.is_safe p.next then rest else p

-- What `drainOne` does for the call that it receives.
unfoldable pub finish : Setup → ℕ → Pool → Pool
unfolding set_outcome remove
finish c i p = record p {
  active = remove i p.active;
  outcomes = set_outcome i (completed (c.completion i)) p.outcomes;
  trace = finished i ∷ p.trace;
}

-- `terminal = terminal || isTerminal(item.result)`, where the caller of `drainOne` looks at the item.
unfoldable pub note : Setup → Bool → ℕ → Pool → Pool
unfolding is_terminal
note c counts i p = record p { terminal = p.terminal || (counts && is_terminal (c.completion i)) }

unfoldable pub drain_from : Setup → Bool → ℕ → List ℕ → Pool → Pool
unfolding finish note chosen
drain_from c counts k [] p = p
drain_from c counts k (i ∷ rest) p = note c counts (chosen k i rest) (finish c (chosen k i rest) p)

unfoldable pub drain_one : Setup → Bool → ℕ → Pool → Pool
unfolding drain_from
drain_one c counts k p = drain_from c counts k p.active p

-- `for active > 0 { drainOne() }`, with the number of active calls.
unfoldable pub drain_all : Setup → Bool → ℕ → (ℕ → ℕ) → Pool → Pool
unfolding drain_one
drain_all c counts zero pick p = p
drain_all c counts (suc n) pick p = drain_all c counts n pick (drain_one c counts (pick n) p)

-- `markUnstarted` and `markTerminal`; `remaining` is `len(calls) - next`.
unfoldable pub abort_rest : Outcome → ℕ → Pool → Pool
unfolding set_outcome
abort_rest o zero p = p
abort_rest o (suc remaining) p =
    abort_rest o remaining
      (record p { next = suc p.next; outcomes = set_outcome p.next o p.outcomes })

-- The exclusive call runs by itself.
unfoldable pub run_exclusive : Setup → Pool → Pool
unfolding set_outcome is_terminal
run_exclusive c p = record p {
  next = suc p.next;
  terminal = is_terminal (c.completion p.next);
  outcomes = set_outcome p.next (completed (c.completion p.next)) p.outcomes;
  trace = finished p.next ∷ started p.next ∷ p.trace;
}

pub data Progress : Type 0 where
  going ended : Pool → Progress

-- `break` after the rest is marked and the active calls are drained.
unfoldable pub stop : Setup → Outcome → Round → Pool → Progress
unfolding abort_rest drain_all
stop c o r p =
    let q = abort_rest o (c.total - p.next) p in
    ended (drain_all c false (length q.active) r.pick q)

-- The branch of an exclusive call, after the active calls are drained.
unfoldable pub exclusive : Setup → Round → Pool → Progress
unfolding abort_rest run_exclusive
exclusive c r p =
    if r.cancelled_late
    then ended (abort_rest aborted_cancelled (c.total - p.next) p)
    else if p.terminal
    then going p
    else going (run_exclusive c p)

-- A pass of the loop after its checks and its launches.
unfoldable pub advance : Setup → Round → Pool → Progress
unfolding drain_all exclusive drain_one
advance c r p =
    if ltb p.next c.total && not (c.is_safe p.next)
    then exclusive c r (drain_all c true (length p.active) r.pick p)
    else going (drain_one c true (r.pick 0) p)

unfoldable pub pass : Setup → Round → Pool → Progress
unfolding stop advance launch_safe
pass c r p =
    if r.cancelled
    then stop c aborted_cancelled r p
    else if p.terminal
    then stop c aborted_concluded r p
    else advance c r (launch_safe c (c.total - p.next) p)

abbrev pub is_idle : List ℕ → Bool
is_idle [] = true
is_idle (i ∷ is) = false

-- The loop, on fuel: `going` where the fuel does not suffice.
unfoldable pub loop : Setup → (ℕ → Round) → ℕ → Pool → Progress
unfolding pass
loop c rounds zero p = going p
loop c rounds (suc fuel) p =
    if leb c.total p.next && is_idle p.active
    then ended p
    else elim (pass c (rounds fuel) p) [ going q ↦ loop c rounds fuel q | ended q ↦ ended q ]

-- `runRollingBatch`: every pass but the last lowers the number of calls that are waiting or active.
unfoldable pub run_rolling_batch : Setup → (ℕ → Round) → Progress
unfolding loop new_pool
run_rolling_batch c rounds = loop c rounds (suc c.total) new_pool

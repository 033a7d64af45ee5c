-- ===== src/Scenarios/Batches.antt =====
-- Batches of four calls of which the third is exclusive (tools/registry.go: runRollingBatch).
use awesome_go_agents.Base.{ℕ, ◌≡◌, refl, false, not, some, List, [], ◌∷◌, pos, ◌==◌, if◌then◌else◌}
use awesome_go_agents.Tools.Batch.{
  Setup, Pool, Round, Outcome, aborted_concluded, Action, started, finished, Progress, ended,
  Continuation, run_rolling_batch,
}
use awesome_go_agents.Tools.Batch.Settled.{Ends, run_rolling_batch-Ends}
use awesome_go_agents.Tools.Batch.Discipline.{running_after, run_rolling_batch-trace}

-- The exclusive call concludes the turn; two safe calls may overlap.
abbrev third_concludes : Setup
third_concludes = record {
  total = 4;
  max_parallel = pos 2;
  is_safe = λ i. not (i == 2);
  completion = λ i.
      if i == 2
      then record { result = some (Continuation.conclude, false); failed = false }
      else record { result = some (Continuation.resume, false); failed = false };
}

-- No cancellation, and the later of two calls ends first.
abbrev later_first : ℕ → Round
later_first fuel = record { cancelled = false; cancelled_late = false; pick = λ n. 1 }

-- What the batch leaves, its trace and the place of the fourth call.
abbrev left_by : Progress → List Action × Outcome
left_by (ended p) = (p.trace, p.outcomes 3)
left_by (Progress.going p) = ([], Outcome.unset)

third_concludes_run : left_by (run_rolling_batch third_concludes later_first) ≡ (
  finished 2 ∷ started 2 ∷ finished 0 ∷ finished 1 ∷ started 1 ∷ started 0 ∷ [],
  aborted_concluded,
)
unfolding run_rolling_batch
third_concludes_run = refl

run_rolling_batch-Ends_example :
    Ends third_concludes (run_rolling_batch third_concludes later_first)
run_rolling_batch-Ends_example = run_rolling_batch-Ends third_concludes later_first

run_rolling_batch-trace_example :
    (q : Pool) × (run_rolling_batch third_concludes later_first ≡ ended q)
    × (running_after third_concludes q.trace ≡ some [])
run_rolling_batch-trace_example = run_rolling_batch-trace third_concludes later_first

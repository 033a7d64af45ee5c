-- ===== src/Job/Output.antt =====
-- Reading the output of a job (integration/local/jobs.go: Output).

use awesome_go_agents.Base.{
  ℕ, Bool, not, ◌&&◌, some, List, [], ◌∷◌, ◌++◌, String, ltb, if◌then◌else◌, length, drop,
}
use awesome_go_agents.Job.{
  State, LocalJob, Manager, set_job, Result, is_running, find_job, timed_out, ok, err,
}

-- "\n... [output truncated] ...\n"
abbrev pub truncated_marker : List ℕ
truncated_marker =
    10 ∷ 46 ∷ 46 ∷ 46 ∷ 32 ∷ 91 ∷ 111 ∷ 117 ∷ 116 ∷ 112 ∷ 117 ∷ 116 ∷ 32 ∷ 116 ∷ 114 ∷ 117 ∷ 110
    ∷ 99 ∷ 97 ∷ 116 ∷ 101 ∷ 100 ∷ 93 ∷ 32 ∷ 46 ∷ 46 ∷ 46 ∷ 10 ∷ []

-- The text before the marker, and the job with its read position.
unfoldable pub read_text : Bool → LocalJob → List ℕ × LocalJob
read_text tail j =
    let all = j.output.bytes in
    if not tail
    then (all, j)
    else if ltb j.last_read (length all)
    then (drop j.last_read all, record j { last_read = length all })
    else ([], j)

unfoldable pub read_found :
    ℕ → Bool → Result LocalJob → Manager → Result (Manager × (List ℕ × State))
unfolding read_text set_job
read_found id tail (err e) m = err e
read_found id tail (ok j) m =
    let (text, j') = read_text tail j in
    ok (
      record m { jobs = set_job id (some j') m.jobs },
      (if j.output.over then text ++ truncated_marker else text, j.status),
    )

-- `Output` after the wait.
unfoldable pub read_output : ℕ → Bool → String → Manager → Result (Manager × (List ℕ × State))
unfolding find_job read_found
read_output id tail owner m = read_found id tail (find_job id owner m) m

-- `Output`: with `wait`, a job that runs is waited for, and `woken` says whether it ended before the
-- context or the timeout did. The state after the wait is the second manager.
unfoldable pub output :
    ℕ → Bool → Bool → Bool → String → Manager → Manager → Result (Manager × (List ℕ × State))
unfolding find_job read_output
output id wait tail woken owner before after = elim (find_job id owner before) [
  | err e ↦ err e
  | ok j ↦
      if wait && is_running j.status && not woken
      then err timed_out
      else read_output id tail owner after
]

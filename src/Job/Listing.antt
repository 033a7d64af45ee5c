-- ===== src/Job/Listing.antt =====
-- The listing of jobs, and the removal of old ones (integration/local/jobs.go: List, purgeLocked).

use awesome_go_agents.Base.{
  ℕ, ◌+◌, Bool, false, Option, none, some, List, [], ◌∷◌, ◌++◌, String, ℤ, ltb, if◌then◌else◌,
}
use awesome_go_agents.Job.{State, LocalJob, Manager, set_job, is_denied}

-- `j.finished != nil && j.finished.Before(cutoff)`
unfoldable pub is_expired : ℕ → ℕ → Option LocalJob → Bool
is_expired now retention none = false
is_expired now retention (some j) = elim j.finished [
  | none ↦ false
  | some t ↦ ltb (t + retention) now
]

-- `purgeLocked`: the ids that stay, and the jobs that stay.
unfoldable pub kept : ℕ → ℕ → (ℕ → Option LocalJob) → List ℕ → List ℕ
unfolding is_expired
kept now retention jobs [] = []
kept now retention jobs (id ∷ ids) =
    if is_expired now retention (jobs id)
    then kept now retention jobs ids
    else id ∷ kept now retention jobs ids

unfoldable pub purge_jobs :
    ℕ → ℕ → (ℕ → Option LocalJob) → List ℕ → (ℕ → Option LocalJob) → ℕ → Option LocalJob
unfolding is_expired set_job
purge_jobs now retention jobs [] left = left
purge_jobs now retention jobs (id ∷ ids) left =
    purge_jobs now retention jobs ids
      (if is_expired now retention (jobs id) then set_job id none left else left)

unfoldable pub purge : ℕ → Manager → Manager
unfolding kept purge_jobs
purge now m = record m {
  jobs = purge_jobs now m.retention m.jobs m.order m.jobs;
  order = kept now m.retention m.jobs m.order;
}

pub record Descriptor : Type 0 where
  pub id : ℕ
  pub kind : String
  pub status : State
  pub started_at : ℕ
  pub finished_at : Option ℕ
  pub exit_code : ℤ

unfoldable pub describe : ℕ → LocalJob → Descriptor
describe id j = record {
  id = id;
  kind = j.kind;
  status = j.status;
  started_at = j.started_at;
  finished_at = j.finished;
  exit_code = j.exit_code;
}

unfoldable pub entry : ℕ → String → Option LocalJob → List Descriptor
unfolding is_denied describe
entry id owner none = []
entry id owner (some j) = if is_denied owner j then [] else describe id j ∷ []

unfoldable pub entries : String → (ℕ → Option LocalJob) → List ℕ → List Descriptor
unfolding entry
entries owner jobs [] = []
entries owner jobs (id ∷ ids) = entry id owner (jobs id) ++ entries owner jobs ids

-- `List`
unfoldable pub list_jobs : ℕ → String → Manager → Manager × List Descriptor
unfolding purge entries
list_jobs now owner m = let m' = purge now m in (m', entries owner m'.jobs m'.order)

-- ===== src/Job/Owners.antt =====
-- A job is seen by its owner only (integration/local/jobs.go: Output, Kill, List).
use awesome_go_agents.Base.{
  ℕ, ◌≡◌, ◌≢◌, inl, inr, refl, Bool, true, Option, none, some, List, [], ◌∷◌, String, arith, All,
  All-append, Bool-cases, eq_iff,
}
use awesome_go_agents.Job.{Manager, LocalJob, err, access_denied, is_denied, find_job, kill}
use awesome_go_agents.Job.Listing.{Descriptor, entry, entries, list_jobs, purge, describe}
use awesome_go_agents.Job.Output.{output}

is_denied_other :
    (owner : String) (j : LocalJob) → owner ≢ "" → j.owner ≢ owner → is_denied owner j ≡ true
unfolding is_denied
is_denied_other owner j h k = ground (arith, eq_iff owner "", eq_iff j.owner owner)

find_job_other :
    (id : ℕ) (owner : String) (j : LocalJob) (m : Manager)
    → m.jobs id ≡ some j
    → owner ≢ ""
    → j.owner ≢ owner
    → find_job id owner m ≡ err access_denied
unfolding find_job
find_job_other id owner j m e h k = rw (e, find_job) (rw (is_denied_other owner j h k) refl)

-- What an owner lists is his own.
abbrev pub Owned : String → (ℕ → Option LocalJob) → Descriptor → Type 0
Owned owner jobs d = (j : LocalJob) × (jobs d.id ≡ some j) × (j.owner ≡ owner)

entry-Owned :
    (id : ℕ) (owner : String) (jobs : ℕ → Option LocalJob) (o : Option LocalJob)
    → owner ≢ ""
    → jobs id ≡ o
    → All (Owned owner jobs) (entry id owner o)
unfolding entry
entry-Owned id owner jobs none h e = tt
entry-Owned id owner jobs (some j) h e = elim (Bool-cases (is_denied owner j)) [
  | inl denied ↦ rw denied tt
  | inr seen ↦ rw seen (
    (
      j,
      unfold describe in e,
      unfold is_denied in ground (arith, seen, eq_iff owner "", eq_iff j.owner owner),
    ),
    tt,
  )
]

entries-Owned :
    (owner : String) (jobs : ℕ → Option LocalJob) (ids : List ℕ)
    → owner ≢ ""
    → All (Owned owner jobs) (entries owner jobs ids)
unfolding entries
entries-Owned owner jobs [] h = tt
entries-Owned owner jobs (id ∷ ids) h =
    All-append (Owned owner jobs) (entry id owner (jobs id)) (entries owner jobs ids)
      (entry-Owned id owner jobs (jobs id) h refl) (entries-Owned owner jobs ids h)

-- For a caller that names an owner, a job of another owner can neither be killed nor read, and what
-- the caller lists are jobs of that owner.
pub find_job-isolated :
    (id : ℕ) (owner : String) (j : LocalJob) (m : Manager)
    → m.jobs id ≡ some j
    → owner ≢ ""
    → j.owner ≢ owner
    → (now : ℕ) (wait tail woken : Bool) (after : Manager)
    → (kill id owner m ≡ err access_denied)
      × (output id wait tail woken owner m after ≡ err access_denied)
      × All (Owned owner (purge now m).jobs) (list_jobs now owner m).1
unfolding kill output list_jobs
find_job-isolated id owner j m e h k now wait tail woken after =
    let other = find_job_other id owner j m e h k in
    (
      rw (other, kill) refl,
      rw (other, output) refl,
      entries-Owned owner (purge now m).jobs (purge now m).order h,
    )

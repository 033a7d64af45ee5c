-- ===== src/Job/Terminal.antt =====
-- How the state of a job changes (integration/local/jobs.go).
use awesome_go_agents.Base.{
  ℕ, suc, ◌≡◌, ◌≢◌, ◌⊎◌, ◌≤◌, refl, sym, ap, ◌∙◌, Bool, true, false, Option, none, some, List, [],
  ◌∷◌, String, ℤ, ◌==◌, if◌then◌else◌, arith, Bool-cases, Option-cases, inl, inr, All,
}
use awesome_go_agents.Job.{
  is_all_space, LocalJob, Manager, Result, ok, err, RunError, set_job, start, finish, exit_found,
  exit_job, find_job, stop, kill_found, kill,
}
use awesome_go_agents.Job.Listing.{is_expired, purge_jobs, purge, list_jobs}
use awesome_go_agents.Job.Output.{read_text, read_found, read_output}

-- The calls that change a manager. A call that fails changes nothing.
pub data Call : Type 0 where
  starts : ℕ → String → String → String → Call
  exits : ℕ → ℕ → List ℕ → ℤ → RunError → Call
  kills : ℕ → String → Call
  lists : ℕ → String → Call
  reads : ℕ → Bool → String → Call

abbrev after {ℓ} : {A : Type ℓ} → Manager → Result (Manager × A) → Manager
after m (ok (m', a)) = m'
after m (err e) = m

abbrev pub after_kill : Manager → Result Manager → Manager
after_kill m (ok m') = m'
after_kill m (err e) = m

pub apply : Call → Manager → Manager
unfolding start exit_job kill list_jobs read_output
apply (starts now workdir kind owner) m = after m (start now workdir kind owner m)
apply (exits now id out code e) m = exit_job now id out code e m
apply (kills id owner) m = after_kill m (kill id owner m)
apply (lists now owner) m = (list_jobs now owner m).0
apply (reads id tail owner) m = after m (read_output id tail owner m)

pub run : List Call → Manager → Manager
unfolding apply
run [] m = m
run (c ∷ cs) m = run cs (apply c m)

-- The job is gone, or it satisfies the property; its id is used.
abbrev pub Has : (LocalJob → Type 0) → Option LocalJob → Type 0
Has P none = Unit
Has P (some j) = P j

pub record Holds (P : LocalJob → Type 0) (id : ℕ) (m : Manager) : Type 0 where
  pub used : id ≤ m.next
  pub has : Has P (m.jobs id)

-- Changing another job, or this one within the property.
set_job-Has :
    (P : LocalJob → Type 0) (id k : ℕ) (o : Option LocalJob) (jobs : ℕ → Option LocalJob)
    → (id ≡ k → Has P o)
    → Has P (jobs k)
    → Has P (set_job id o jobs k)
unfolding set_job
set_job-Has P id k o jobs own h = elim (Bool-cases (id == k)) [
  | inl same ↦ rw same (own (ground arith))
  | inr other ↦ rw other h
]

pub find_job_found :
    (id : ℕ) (owner : String) (j : LocalJob) (m : Manager)
    → find_job id owner m ≡ ok j
    → m.jobs id ≡ some j
unfolding find_job
find_job_found id owner j m e = ground (arith, Option-cases (m.jobs id), e)

-- A property that the changes of a single job keep, where its process returns an allowed error.
pub record IsStable (allowed : RunError → Bool) (P : LocalJob → Type 0) : Type 0 where
  pub stops : (j : LocalJob) → P j → P (stop j)
  pub reads : (tail : Bool) (j : LocalJob) → P j → P (read_text tail j).1
  pub exits :
      (now : ℕ) (out : List ℕ) (code : ℤ) (e : RunError) (j : LocalJob)
      → allowed e ≡ true
      → P j
      → P (finish now out code e j)

-- The process of this job, if it ends, returns an allowed error.
abbrev pub Allows : ℕ → (RunError → Bool) → Call → Type 0
Allows id allowed (exits now k out code e) = (k ≢ id) ⊎ (allowed e ≡ true)
Allows id allowed _ = Unit

module _ (allowed : RunError → Bool) (P : LocalJob → Type 0) (s : IsStable allowed P) where
  from_Has : (o : Option LocalJob) (j : LocalJob) → o ≡ some j → Has P o → P j
  from_Has o j e h = rw e at h

  start-Holds :
      (now id : ℕ) (workdir kind owner : String) (m : Manager)
      → Holds P id m
      → Holds P id (after m (start now workdir kind owner m))
  unfolding start
  start-Holds now id workdir kind owner m v = elim (Bool-cases (is_all_space workdir)) [
    | inl blank ↦ rw blank v
    | inr named ↦ rw named (record {
      used = omega (arith, v.used);
      has = set_job-Has P (suc m.next) id _ m.jobs (λ e. absurd (omega (arith, v.used))) v.has;
    })
  ]

  -- Writing a job back that was found and changed within the property.
  write_back :
      (k id : ℕ) (j j' : LocalJob) (m : Manager)
      → m.jobs k ≡ some j
      → (P j → P j')
      → Holds P id m
      → Holds P id (record m { jobs = set_job k (some j') m.jobs })
  write_back k id j j' m there change v = record {
    used = v.used;
    has =
        set_job-Has P k id (some j') m.jobs
          (λ same. change (from_Has (m.jobs id) j (ap m.jobs (sym same) ∙ there) v.has)) v.has;
  }

  exit_found-Holds :
      (now k id : ℕ) (out : List ℕ) (code : ℤ) (e : RunError) (o : Option LocalJob) (m : Manager)
      → (k ≢ id) ⊎ (allowed e ≡ true)
      → m.jobs k ≡ o
      → Holds P id m
      → Holds P id (exit_found now k out code e o m)
  unfolding exit_found
  exit_found-Holds now k id out code e none m permitted there v = v
  exit_found-Holds now k id out code e (some j) m (inr permitted) there v =
      write_back k id j (finish now out code e j) m there (s.exits now out code e j permitted) v
  exit_found-Holds now k id out code e (some j) m (inl other) there v = record {
    used = v.used;
    has = set_job-Has P k id _ m.jobs (λ same. absurd (other same)) v.has;
  }

  kill_found-Holds :
      (k id : ℕ) (owner : String) (r : Result LocalJob) (m : Manager)
      → find_job k owner m ≡ r
      → Holds P id m
      → Holds P id (after_kill m (kill_found k r m))
  unfolding kill_found
  kill_found-Holds k id owner (err e) m found v = v
  kill_found-Holds k id owner (ok j) m found v =
      write_back k id j (stop j) m (find_job_found k owner j m found) (s.stops j) v

  read_found-Holds :
      (k id : ℕ) (tail : Bool) (owner : String) (r : Result LocalJob) (m : Manager)
      → find_job k owner m ≡ r
      → Holds P id m
      → Holds P id (after m (read_found k tail r m))
  unfolding read_found
  read_found-Holds k id tail owner (err e) m found v = v
  read_found-Holds k id tail owner (ok j) m found v =
      write_back k id j (read_text tail j).1 m (find_job_found k owner j m found) (s.reads tail j) v

  dropped :
      (b : Bool) (k id : ℕ) (left : ℕ → Option LocalJob)
      → Has P (left id)
      → Has P ((if b then set_job k none left else left) id)
  dropped true k id left h = set_job-Has P k id none left (λ same. tt) h
  dropped false k id left h = h

  purge_jobs-Has :
      (now retention id : ℕ) (jobs : ℕ → Option LocalJob) (ids : List ℕ)
      (left : ℕ → Option LocalJob)
      → Has P (left id)
      → Has P (purge_jobs now retention jobs ids left id)
  unfolding purge_jobs
  purge_jobs-Has now retention id jobs [] left h = h
  purge_jobs-Has now retention id jobs (k ∷ ids) left h =
      purge_jobs-Has now retention id jobs ids _
        (dropped (is_expired now retention (jobs k)) k id left h)

  apply-Holds :
      (id : ℕ) (c : Call) (m : Manager)
      → Allows id allowed c
      → Holds P id m
      → Holds P id (apply c m)
  unfolding apply
  apply-Holds id (starts now workdir kind owner) m permitted v =
      start-Holds now id workdir kind owner m v
  apply-Holds id (exits now k out code e) m permitted v =
      unfold exit_job in exit_found-Holds now k id out code e (m.jobs k) m permitted refl v
  apply-Holds id (kills k owner) m permitted v =
      unfold kill in kill_found-Holds k id owner (find_job k owner m) m refl v
  apply-Holds id (lists now owner) m permitted v =
      unfold list_jobs purge in
      record { used = v.used; has = purge_jobs-Has now m.retention id m.jobs m.order m.jobs v.has }
  apply-Holds id (reads k tail owner) m permitted v =
      unfold read_output in read_found-Holds k id tail owner (find_job k owner m) m refl v

  pub run-Holds :
      (id : ℕ) (cs : List Call) (m : Manager)
      → All (Allows id allowed) cs
      → Holds P id m
      → Holds P id (run cs m)
  unfolding run
  run-Holds id [] m permitted v = v
  run-Holds id (c ∷ cs) m permitted v =
      run-Holds id cs (apply c m) permitted.1 (apply-Holds id c m permitted.0 v)

-- ===== src/Job/Lifecycle.antt =====
-- What lasts of a job's state (integration/local/jobs.go: Start, Kill, purgeLocked).
use awesome_go_agents.Base.{
  ℕ, ◌≡◌, ◌≢◌, inl, ◌≤◌, refl, sym, ap, ◌∙◌, Bool, true, false, not, Option, none, some, List, [],
  ◌∷◌, String, ℤ, arith, All,
}
use mathlib.Core.Path.{subst}
use awesome_go_agents.Job.{
  exit_found, State, running, completed, failed, killed, LocalJob, BoundedBuffer, Manager, Result,
  ok, err, RunError, no_error, canceled, other_error, set_job, exit_status, finish, exit_job,
  is_running, is_other, find_job, write, stop, kill, kill_found,
}
use awesome_go_agents.Job.Output.{read_text}
use awesome_go_agents.Job.Terminal.{
  Call, starts, exits, kills, lists, reads, run, Has, Holds, IsStable, Allows, run-Holds,
  find_job_found,
}

-- A process that is cancelled returns no other error.
abbrev pub is_clean : RunError → Bool
is_clean e = not (is_other e)

killed-IsStable : IsStable is_clean (λ j. j.status ≡ killed)
unfolding stop read_text finish exit_status
killed-IsStable = record {
  stops = λ j h. ground (arith, h);
  reads = λ tail j h. ground (arith, h);
  exits = λ now out code e j clean h. ground (arith, h, clean);
}

set_job_same :
    (id : ℕ) (o : Option LocalJob) (jobs : ℕ → Option LocalJob) → set_job id o jobs id ≡ o
unfolding set_job
set_job_same id o jobs = ground arith

stop_running : (j : LocalJob) → is_running j.status ≡ true → (stop j).status ≡ killed
unfolding stop
stop_running j h = ground (arith, h)

kill-killed :
    (id : ℕ) (owner : String) (j : LocalJob) (r : Result LocalJob) (m m' : Manager)
    → m.jobs id ≡ some j
    → is_running j.status ≡ true
    → find_job id owner m ≡ r
    → kill_found id r m ≡ ok m'
    → Has (λ k. k.status ≡ killed) (m'.jobs id) × (m'.next ≡ m.next)
unfolding kill_found
kill-killed id owner j (err e) m m' there on found h = absurd (cc)
kill-killed id owner j (ok k) m m' there on found h =
    let q : Manager = record m { jobs = set_job id (some (stop k)) m.jobs } in
    let same : k ≡ j = cc (find_job_found id owner k m found, there) in
    let e : q ≡ m' = cc in
    subst (λ (s : Manager). Has (λ i. i.status ≡ killed) (s.jobs id) × (s.next ≡ m.next)) e
      (rw (set_job_same id (some (stop k)) m.jobs)
        (stop_running k (ap (λ (i : LocalJob). is_running i.status) same ∙ on), refl))

-- A job that `Kill` found running is killed from then on, until it is removed: no later call changes
-- its state, where its own process, whenever it ends, returns no error but the cancellation.
pub kill-lasting :
    (id : ℕ) (owner : String) (j : LocalJob) (m m' : Manager) (cs : List Call)
    → id ≤ m.next
    → m.jobs id ≡ some j
    → is_running j.status ≡ true
    → kill id owner m ≡ ok m'
    → All (Allows id is_clean) cs
    → Has (λ k. k.status ≡ killed) ((run cs m').jobs id)
unfolding kill
kill-lasting id owner j m m' cs used there on h clean =
    let (now, next) = kill-killed id owner j (find_job id owner m) m m' there on refl h in
    let v : Holds (λ k. k.status ≡ killed) id m' = record {
      used = omega (arith, next);
      has = now;
    } in
    (run-Holds is_clean (λ k. k.status ≡ killed) killed-IsStable id cs m' clean v).has

-- The fields that the end of a process sets.
abbrev pub Ended : State → ℤ → BoundedBuffer → ℕ → LocalJob → Type 0
Ended st code out now j =
    (is_running j.status ≡ false)
    × (j.status ≡ st)
    × (j.exit_code ≡ code)
    × (j.output ≡ out)
    × (j.finished ≡ some now)

Ended-IsStable :
    (st : State) (code : ℤ) (out : BoundedBuffer) (now : ℕ)
    → IsStable (λ e. false) (Ended st code out now)
unfolding stop read_text
Ended-IsStable st code out now = record {
  stops = λ j h. rw (h.0) h;
  reads = λ tail j h. ground (arith, h);
  exits = λ then' out' code' e j never h. absurd (cc);
}

exit_status_ended :
    (e : RunError) (code : ℤ) (st : State) → is_running (exit_status e code st) ≡ false
unfolding exit_status
exit_status_ended no_error code running = ground arith
exit_status_ended no_error code completed = ground arith
exit_status_ended no_error code failed = ground arith
exit_status_ended no_error code killed = ground arith
exit_status_ended canceled code running = ground arith
exit_status_ended canceled code completed = ground arith
exit_status_ended canceled code failed = ground arith
exit_status_ended canceled code killed = ground arith
exit_status_ended other_error code running = ground arith
exit_status_ended other_error code completed = ground arith
exit_status_ended other_error code failed = ground arith
exit_status_ended other_error code killed = ground arith

-- The goroutine of a job ends once.
abbrev pub EndsNoMore : ℕ → Call → Type 0
EndsNoMore id (exits now k out code e) = k ≢ id
EndsNoMore id _ = Unit

no_end_Allows : (id : ℕ) (cs : List Call) → All (EndsNoMore id) cs → All (Allows id (λ e. false)) cs
no_end_Allows id [] h = tt
no_end_Allows id (starts now workdir kind owner ∷ cs) h = (tt, no_end_Allows id cs h.1)
no_end_Allows id (exits now k out code e ∷ cs) h = (inl h.0, no_end_Allows id cs h.1)
no_end_Allows id (kills k owner ∷ cs) h = (tt, no_end_Allows id cs h.1)
no_end_Allows id (lists now owner ∷ cs) h = (tt, no_end_Allows id cs h.1)
no_end_Allows id (reads k tail owner ∷ cs) h = (tt, no_end_Allows id cs h.1)

weaken :
    (P Q : LocalJob → Type 0) (o : Option LocalJob)
    → ((j : LocalJob) → P j → Q j)
    → Has P o
    → Has Q o
weaken P Q none f h = tt
weaken P Q (some j) f h = f j h

exit_job_step :
    (now id : ℕ) (out : List ℕ) (code : ℤ) (e : RunError) (j : LocalJob) (m : Manager)
    → m.jobs id ≡ some j
    → exit_job now id out code e m
      ≡ record m { jobs = set_job id (some (finish now out code e j)) m.jobs }
unfolding exit_job exit_found
exit_job_step now id out code e j m there = ap (λ o. exit_found now id out code e o m) there

-- The end of a process settles its job: whatever calls follow, kills of the job and ends of other
-- jobs included, the job has the state, the exit code, the output and the time that the end gave it,
-- until it is removed. (A process ends once.)
pub exit_job-lasting :
    (now id : ℕ) (out : List ℕ) (code : ℤ) (e : RunError) (j : LocalJob) (m : Manager)
    (cs : List Call)
    → id ≤ m.next
    → m.jobs id ≡ some j
    → All (EndsNoMore id) cs
    → Has
        (λ k.
          (k.status ≡ exit_status e code j.status)
          × (k.exit_code ≡ code)
          × (k.output ≡ write out j.output)
          × (k.finished ≡ some now))
        ((run cs (exit_job now id out code e m)).jobs id)
exit_job-lasting now id out code e j m cs used there once =
    let ended = Ended (exit_status e code j.status) code (write out j.output) now in
    let after : Manager = record m { jobs = set_job id (some (finish now out code e j)) m.jobs } in
    let settled : ended (finish now out code e j) =
      unfold finish in (exit_status_ended e code j.status, refl, refl, refl, refl) in
    let v : Holds ended id after = record {
      used = used;
      has =
          subst (Has ended) (sym (set_job_same id (some (finish now out code e j)) m.jobs)) settled;
    } in
    let last =
      (run-Holds (λ e'. false) ended
        (Ended-IsStable (exit_status e code j.status) code (write out j.output) now) id cs after
        (no_end_Allows id cs once) v).has in
    subst
      (λ s.
        Has
          (λ k.
            (k.status ≡ exit_status e code j.status)
            × (k.exit_code ≡ code)
            × (k.output ≡ write out j.output)
            × (k.finished ≡ some now))
          ((run cs s).jobs id))
      (sym (exit_job_step now id out code e j m there))
      (weaken ended _ ((run cs after).jobs id) (λ k h. (h.1, h.2, h.3, h.4)) last)

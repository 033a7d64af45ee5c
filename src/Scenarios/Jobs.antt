-- ===== src/Scenarios/Jobs.antt =====
-- A manager with jobs of two owners (integration/local/jobs.go).
use awesome_go_agents.Base.{
  inr, ℕ, ◌≡◌, ◌≤◌, refl, true, false, Option, none, some, List, [], ◌∷◌, ◌++◌, String, pos, negsuc,
  All, arith, length, take, eq_iff,
}
use awesome_go_agents.Job.{
  running, killed, BoundedBuffer, write, LocalJob, Manager, access_denied, err, no_error, canceled,
  exit_job, exit_status, kill, set_job,
}
use awesome_go_agents.Job.Listing.{list_jobs, purge}
use awesome_go_agents.Job.Output.{output}
use awesome_go_agents.Job.Buffer.{write_lem}
use awesome_go_agents.Job.Owners.{Owned, find_job-isolated}
use awesome_go_agents.Job.Terminal.{Call, starts, exits, kills, lists, reads, run, Has}
use awesome_go_agents.Job.Lifecycle.{kill-lasting, exit_job-lasting}
use awesome_go_agents.Job.Tail.{Step, writes, tail_run, tail_run_lem}

abbrev small_buffer : BoundedBuffer
small_buffer = record { max = 5; bytes = 1 ∷ 2 ∷ 3 ∷ []; over = false }

write_lem_example :
    ((write (4 ∷ 5 ∷ 6 ∷ []) small_buffer).bytes ≡ 1 ∷ 2 ∷ 3 ∷ 4 ∷ 5 ∷ [])
    × (length (write (4 ∷ 5 ∷ 6 ∷ []) small_buffer).bytes ≤ 5)
    × ((write (4 ∷ 5 ∷ 6 ∷ []) small_buffer).over ≡ false
        → (write (4 ∷ 5 ∷ 6 ∷ []) small_buffer).bytes ≡ 1 ∷ 2 ∷ 3 ∷ 4 ∷ 5 ∷ 6 ∷ [])
write_lem_example = write_lem (4 ∷ 5 ∷ 6 ∷ []) small_buffer (omega arith)

abbrev shell_job : String → LocalJob
shell_job owner = record {
  owner = owner;
  kind = "shell";
  status = running;
  started_at = 7;
  finished = none;
  exit_code = pos 0;
  output = record { max = 8; bytes = []; over = false };
  last_read = 0;
}

abbrev two_jobs : ℕ → Option LocalJob
unfolding set_job
two_jobs = set_job 1 (some (shell_job "a")) (set_job 2 (some (shell_job "b")) (λ id. none))

abbrev shared : Manager
shared = record { max_output = 8; retention = 100; jobs = two_jobs; order = 1 ∷ 2 ∷ []; next = 2 }

find_job-isolated_example :
    (kill 2 "a" shared ≡ err access_denied)
    × (output 2 true true false "a" shared shared ≡ err access_denied)
    × All (Owned "a" (purge 9 shared).jobs) (list_jobs 9 "a" shared).1
unfolding two_jobs
find_job-isolated_example =
    find_job-isolated 2 "a" (shell_job "b") shared refl (λ e. ground (arith, eq_iff "a" ""))
      (λ e. ground (arith, eq_iff "b" "a")) 9 true true false shared

-- The process of the killed job ends, the job is listed, read and killed again.
abbrev after_kill : List Call
after_kill =
    exits 20 1 (65 ∷ []) (negsuc 0) canceled
    ∷ lists 30 "a"
    ∷ reads 1 true ""
    ∷ kills 1 "a"
    ∷ starts 40 "/w" "shell" "b"
    ∷ []

abbrev one_killed : Manager
one_killed = record shared {
  jobs = set_job 1 (some (record (shell_job "a") { status = killed })) two_jobs;
}

kill-lasting_example : Has (λ k. k.status ≡ killed) ((run after_kill one_killed).jobs 1)
unfolding kill two_jobs
kill-lasting_example =
    kill-lasting 1 "a" (shell_job "a") shared one_killed after_kill (omega arith) refl refl refl
      (inr refl, (tt, (tt, (tt, (tt, tt)))))

exit_job-lasting_example :
    Has
      (λ k.
        (k.status ≡ exit_status no_error (pos 3) running)
        × (k.exit_code ≡ pos 3)
        × (k.output ≡ write (65 ∷ []) (shell_job "b").output)
        × (k.finished ≡ some 20))
      ((run after_kill (exit_job 20 2 (65 ∷ []) (pos 3) no_error shared)).jobs 2)
unfolding two_jobs
exit_job-lasting_example =
    exit_job-lasting 20 2 (65 ∷ []) (pos 3) no_error (shell_job "b") shared after_kill (omega arith)
      refl ((λ same. omega arith), (tt, (tt, (tt, (tt, tt)))))

abbrev steps : List Step
steps = writes (1 ∷ 2 ∷ []) ∷ Step.reads ∷ writes (3 ∷ []) ∷ writes (4 ∷ []) ∷ Step.reads ∷ []

tail_run_lem_example :
    let (texts, last) = tail_run steps (shell_job "a") in
    ([] ++ texts ≡ take last.last_read last.output.bytes)
    × (last.last_read ≤ length last.output.bytes)
tail_run_lem_example = tail_run_lem steps (shell_job "a") (omega arith)

-- ===== src/Job.antt =====
-- Background jobs (job/types.go, integration/local/jobs.go, the buffer of integration/local/process.go).
--
-- The id "job-n" is the number n, and any other id is one that no job has. Output is a list of bytes,
-- and times are numbers. The goroutine of a job ends in one step, `exit_job`. `Job/Listing.antt` and
-- `Job/Output.antt` have the listing and the reading of output.
use Prim.Native.Char.{code}
use awesome_go_agents.Base.{
  ℕ, zero, suc, ◌+◌, ◌-◌, Bool, true, false, not, ◌&&◌, ◌||◌, Option, none, some, List, [], ◌∷◌,
  ◌++◌, String, ℤ, pos, negsuc, ltb, leb, ◌==◌, if◌then◌else◌, length, take, drop, str_eq,
}
pub mod Listing
pub mod Output
pub mod Buffer
pub mod Owners
pub mod Terminal
pub mod Lifecycle
pub mod Tail

pub data State : Type 0 where
  running completed failed killed : State

pub record BoundedBuffer : Type 0 where
  pub max : ℕ
  pub bytes : List ℕ
  pub over : Bool

-- `boundedBuffer.Write`
unfoldable pub write : List ℕ → BoundedBuffer → BoundedBuffer
write p b =
    let room = b.max - length b.bytes in
    if room == 0
    then record b { over = true }
    else if ltb room (length p)
    then record b { bytes = b.bytes ++ take room p; over = true }
    else record b { bytes = b.bytes ++ p }

pub record LocalJob : Type 0 where
  pub owner : String
  pub kind : String
  pub status : State
  pub started_at : ℕ
  pub finished : Option ℕ
  pub exit_code : ℤ
  pub output : BoundedBuffer
  pub last_read : ℕ

pub record Manager : Type 0 where
  pub max_output : ℕ
  pub retention : ℕ
  pub jobs : ℕ → Option LocalJob
  pub order : List ℕ
  pub next : ℕ

-- 8 MiB and 24 hours, where an option is not positive.
unfoldable pub effective : ℤ → ℕ → ℕ
effective (pos zero) default = default
effective (pos (suc n)) default = suc n
effective (negsuc n) default = default

unfoldable pub new_manager : ℤ → ℤ → Manager
unfolding effective
new_manager max_output retention = record {
  max_output = effective max_output 8388608;
  retention = effective retention 86400000000000;
  jobs = λ id. none;
  order = [];
  next = 0;
}

-- `m.jobs[id] = j`, and `delete(m.jobs, id)`.
unfoldable pub set_job : ℕ → Option LocalJob → (ℕ → Option LocalJob) → ℕ → Option LocalJob
set_job id j jobs k = if id == k then j else jobs k

-- `unicode.IsSpace`, and `strings.TrimSpace(s) == ""`.
is_space : ℕ → Bool
is_space c =
    (leb 9 c && leb c 13)
    || c == 32
    || c == 133
    || c == 160
    || c == 5760
    || (leb 8192 c && leb c 8202)
    || c == 8232
    || c == 8233
    || c == 8239
    || c == 8287
    || c == 12288

unfoldable pub is_all_space : String → Bool
unfolding is_space
is_all_space String.[] = true
is_all_space (String.◌∷◌ c s) = is_space (code c) && is_all_space s

unfoldable pub new_job : ℕ → String → String → ℕ → LocalJob
new_job now owner kind max = record {
  owner = owner;
  kind = kind;
  status = running;
  started_at = now;
  finished = none;
  exit_code = pos 0;
  output = record { max = max; bytes = []; over = false };
  last_read = 0;
}

pub data Error : Type 0 where
  no_workdir not_found access_denied timed_out : Error

pub data Result {ℓ} (A : Type ℓ) : Type ℓ where
  ok : A → Result A
  err : Error → Result A

-- `Start`, up to the goroutine.
unfoldable pub start : ℕ → String → String → String → Manager → Result (Manager × ℕ)
unfolding is_all_space new_job set_job
start now workdir kind owner m =
    let id = suc m.next in
    if is_all_space workdir
    then err no_workdir
    else ok (
      record m {
        next = id;
        jobs = set_job id (some (new_job now owner kind m.max_output)) m.jobs;
        order = m.order ++ (id ∷ []);
      },
      id,
    )

-- What `Run` returns beside its result: no error, a cancellation, or another error.
pub data RunError : Type 0 where
  no_error canceled other_error : RunError

abbrev pub is_killed : State → Bool
is_killed killed = true
is_killed _ = false

abbrev pub is_running : State → Bool
is_running running = true
is_running _ = false

abbrev pub is_other : RunError → Bool
is_other other_error = true
is_other _ = false

-- `res.ExitCode != 0`
abbrev pub is_nonzero : ℤ → Bool
is_nonzero (pos zero) = false
is_nonzero _ = true

unfoldable pub exit_status : RunError → ℤ → State → State
exit_status e exit_code st =
    let ended = if is_other e then failed else if not (is_killed st) then completed else st in
    if is_nonzero exit_code && not (is_killed ended) then failed else ended

-- What the goroutine writes when `Run` returns.
unfoldable pub finish : ℕ → List ℕ → ℤ → RunError → LocalJob → LocalJob
unfolding write exit_status
finish now out exit_code e j = record j {
  output = write out j.output;
  status = exit_status e exit_code j.status;
  exit_code = exit_code;
  finished = some now;
}

-- The end of the goroutine of a job, which writes whatever the job is then. (Where `List` has removed
-- the job, it writes into one that nobody reads.)
unfoldable pub exit_found : ℕ → ℕ → List ℕ → ℤ → RunError → Option LocalJob → Manager → Manager
unfolding finish set_job
exit_found now id out exit_code e none m = m
exit_found now id out exit_code e (some j) m = record m {
  jobs = set_job id (some (finish now out exit_code e j)) m.jobs;
}

unfoldable pub exit_job : ℕ → ℕ → List ℕ → ℤ → RunError → Manager → Manager
unfolding exit_found
exit_job now id out exit_code e m = exit_found now id out exit_code e (m.jobs id) m

-- `owner != "" && j.owner != owner`
unfoldable pub is_denied : String → LocalJob → Bool
is_denied owner j = not (str_eq owner "") && not (str_eq j.owner owner)

unfoldable pub find_job : ℕ → String → Manager → Result LocalJob
unfolding is_denied
find_job id owner m = elim (m.jobs id) [
  | none ↦ err not_found
  | some j ↦ if is_denied owner j then err access_denied else ok j
]

unfoldable pub stop : LocalJob → LocalJob
stop j = if is_running j.status then record j { status = killed } else j

unfoldable pub kill_found : ℕ → Result LocalJob → Manager → Result Manager
unfolding stop set_job
kill_found id (err e) m = err e
kill_found id (ok j) m = ok (record m { jobs = set_job id (some (stop j)) m.jobs })

-- `Kill`
unfoldable pub kill : ℕ → String → Manager → Result Manager
unfolding find_job kill_found
kill id owner m = kill_found id (find_job id owner m) m

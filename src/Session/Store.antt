-- ===== src/Session/Store.antt =====
-- The in-memory event store (session/store.go): its state, the plain appends and the reads.
--
-- The mutex makes each call one step on the state. A call takes the session id and what it reads
-- from outside: `draws` holds, for each position of the batch, the clock reading and the random
-- token that the loop would take there. A failed call returns no new state.
use awesome_go_agents.Base.{
  ℕ, zero, suc, ◌+◌, ◌-◌, ◌≤◌, Bool, true, false, not, ◌&&◌, ◌||◌, Option, none, some, List, [],
  ◌∷◌, ◌++◌, String, ltb, leb, ◌==◌, if◌then◌else◌, str_eq, update, u64, u64_mod, length, take,
  drop, select,
}
use awesome_go_agents.Session.Errors.{Result, ok, err, guard, ◌>>◌, ◌>>=◌, wrong_session}
use awesome_go_agents.Session.Blocks.{ContentBlock, is_blank}
use awesome_go_agents.Session.Event.{Event, normalize}
use awesome_go_agents.Session.Event.Validate.{validate}
pub mod Sequences
pub mod Commits
pub mod Reads
pub mod Retries
pub mod Valid

-- fenced.go
pub record Lease : Type 0 where
  pub session_id : String
  pub owner : String
  pub token : String
  pub fence : ℕ
  pub expires_at : ℕ

pub record CompactionCheckpoint : Type 0 where
  pub session_id : String
  pub generation : ℕ
  pub transaction_id : String
  pub through_seq : ℕ
  pub shadowed_seqs : List ℕ
  pub summary : String
  pub summary_blocks : List ContentBlock
  pub summary_sha256 : String
  pub source_fingerprint : String

pub record MemoryStore : Type 0 where
  pub next : String → ℕ
  pub events : String → List Event
  pub leases : String → Option Lease
  pub fences : String → ℕ
  pub checkpoints : String → List CompactionCheckpoint

-- `NewMemoryStore`
unfoldable pub new_memory_store : MemoryStore
new_memory_store = record {
  next = λ sid. 0;
  events = λ sid. [];
  leases = λ sid. none;
  fences = λ sid. 0;
  checkpoints = λ sid. [];
}

-- What the loop over a batch takes from outside at each position.
pub record Draws : Type 0 where
  pub clock : ℕ → ℕ
  pub token : ℕ → String

-- The checks before anything is written.
unfoldable pub check_batch : String → List Event → Result (Unit {0})
check_batch sid [] = ok tt
check_batch sid (e ∷ es) = do
  validate e
  guard (is_blank e.session_id || str_eq e.session_id sid) wrong_session
  check_batch sid es

-- An event without a session takes the store's.
unfoldable pub adopt : String → Event → Event
adopt sid e = if is_blank e.session_id then record e { session_id = sid } else e

-- `e.Seq = next; e.Normalize()`
unfoldable pub assign : ℕ → ℕ → Event → Event
unfolding normalize
assign now n e = normalize now (record e { seq = n })

-- The loop of `Append`: the stored events, and `next` after it.
unfoldable pub stamp_all : Draws → String → ℕ → ℕ → List Event → List Event × ℕ
unfolding adopt assign
stamp_all d sid i next [] = ([], next)
stamp_all d sid i next (e ∷ es) =
    let (stored, last) = stamp_all d sid (suc i) (u64 (next + 1)) es in
    (assign (d.clock i) next (adopt sid e) ∷ stored, last)

-- `next - 1`
unfoldable pub before : ℕ → ℕ
before next = u64 (next + u64_mod - 1)

-- What `Append` writes after its checks.
unfoldable pub write_batch : Draws → String → List Event → MemoryStore → MemoryStore × ℕ
unfolding stamp_all before
write_batch d sid es s =
    let (stored, next) = stamp_all d sid 0 (u64 (s.next sid + 1)) es in
    (
      record s {
        next = update s.next sid (before next);
        events = update s.events sid (s.events sid ++ stored);
      },
      before next,
    )

unfoldable pub append : Draws → String → List Event → MemoryStore → Result (MemoryStore × ℕ)
unfolding check_batch write_batch
append d sid [] s = ok (s, s.next sid)
append d sid (e ∷ es) s = do check_batch sid (e ∷ es); ok (write_batch d sid (e ∷ es) s)

-- The map from event ids to the stored events that the committing appends build.
unfoldable pub index_ids : (String → Option Event) → List Event → String → Option Event
index_ids existing [] = existing
index_ids existing (e ∷ es) =
    index_ids (if is_blank e.id then existing else update existing e.id (some e)) es

-- The variables of a committing loop; `recorded` is `s.next[sessionID]`.
pub record Commit : Type 0 where
  pub committed : List Event
  pub log : List Event
  pub existing : String → Option Event
  pub recorded : ℕ
  pub next : ℕ

-- A retried event takes the copy that is stored, a new one is stamped and stored.
unfoldable pub commit_new : ℕ → Event → Commit → Commit
commit_new now e c =
    let e' = assign now c.next e in
    record {
      committed = c.committed ++ (e' ∷ []);
      log = c.log ++ (e' ∷ []);
      existing = update c.existing e'.id (some e');
      recorded = c.next;
      next = u64 (c.next + 1);
    }

-- An event without an id takes a random token.
unfoldable pub identify : String → Event → Event
identify token e = if is_blank e.id then record e { id = token } else e

unfoldable pub commit_event : ℕ → Event → Option Event → Commit → Commit
unfolding commit_new assign
commit_event now e (some prior) c = record c { committed = c.committed ++ (prior ∷ []) }
commit_event now e none c = commit_new now e c

-- The loop of `AppendCommitted`.
unfoldable pub commit_all : Draws → String → ℕ → List Event → Commit → Commit
unfolding commit_event adopt identify
commit_all d sid i [] c = c
commit_all d sid i (e ∷ es) c =
    let e' = identify (d.token i) (adopt sid e) in
    commit_all d sid (suc i) es (commit_event (d.clock i) e' (c.existing e'.id) c)

unfoldable pub start_commit : String → MemoryStore → Commit
unfolding index_ids
start_commit sid s = record {
  committed = [];
  log = s.events sid;
  existing = index_ids (λ k. none) (s.events sid);
  recorded = s.next sid;
  next = u64 (s.next sid + 1);
}

-- The state and the committed batch after the loop.
unfoldable pub finish_commit : String → MemoryStore → Commit → MemoryStore × List Event
finish_commit sid s c = (
  record s { next = update s.next sid c.recorded; events = update s.events sid c.log },
  c.committed,
)

unfoldable pub append_committed :
    Draws → String → List Event → MemoryStore → Result (MemoryStore × List Event)
unfolding check_batch start_commit commit_all finish_commit
append_committed d sid es s = do
  check_batch sid es
  ok (finish_commit sid s (commit_all d sid 0 es (start_commit sid s)))

-- The loop of `Load`; `out` is the output so far. A limit of 0 or less is none, so the limit is
-- given by its positive part.
unfoldable pub load_from : ℕ → ℕ → List Event → List Event → List Event
load_from after_seq limit out [] = out
load_from after_seq limit out (e ∷ es) =
    let out' = out ++ (e ∷ []) in
    let onward = load_from after_seq limit out' es in
    let skip = load_from after_seq limit out es in
    if ltb after_seq e.seq
    then (if ltb 0 limit && leb limit (length out') then out' else onward)
    else skip

unfoldable pub load : String → ℕ → ℕ → MemoryStore → List Event
unfolding load_from
load sid after_seq limit s = load_from after_seq limit [] (s.events sid)

unfoldable pub tail : String → ℕ → MemoryStore → List Event
tail sid limit s =
    let all = s.events sid in
    if limit == 0 || leb (length all) limit then all else drop (length all - limit) all

unfoldable pub sequence : String → MemoryStore → ℕ
sequence sid s = s.next sid

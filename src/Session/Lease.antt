-- ===== src/Session/Lease.antt =====
-- Leases and fenced writes of the in-memory store (session/fenced.go).
--
-- Every call of `time.Now()` is an argument, in the order of the calls; instants and durations are
-- nanoseconds, and do not overflow. A fenced append checks the fence, gives the read lock back, and
-- checks the lease again under the write lock: the part under the write lock is an operation of its
-- own, since other calls may come between.
use awesome_go_agents.Base.{
  ℕ, suc, ◌+◌, Bool, true, false, not, ◌&&◌, ◌||◌, Option, none, some, List, [], ◌∷◌, ◌++◌, String,
  ℤ, pos, negsuc, ltb, ◌==◌, if◌then◌else◌, str_eq, update, u64, u64_mod, ◌-◌,
}
use awesome_go_agents.Session.Errors.{Result, ok, err, guard, ◌>>◌, ◌>>=◌, lease_held, lease_lost}
use awesome_go_agents.Session.Blocks.{is_blank}
use awesome_go_agents.Session.Event.{Event}
use awesome_go_agents.Session.Store.{
  Lease, CompactionCheckpoint, MemoryStore, Draws, Commit, check_batch, adopt, assign, identify,
  index_ids, before, start_commit, commit_event, finish_commit,
}
pub mod Committing
pub mod Sequences
pub mod Retries
pub mod Expiry

-- `30 * time.Second`
abbrev pub default_ttl : ℕ
default_ttl = 30000000000

unfoldable pub effective_ttl : ℤ → ℕ
effective_ttl (pos n) = if n == 0 then default_ttl else n
effective_ttl (negsuc n) = default_ttl

-- `time.Now().Before(expires)`
abbrev pub unexpired : ℕ → Lease → Bool
unexpired now l = ltb now l.expires_at

unfoldable pub held : ℕ → Option Lease → Bool
held now none = false
held now (some l) = unexpired now l

unfoldable pub claim_lease :
    ℕ → ℕ → String → String → String → ℤ → MemoryStore → Result (MemoryStore × Lease)
unfolding held effective_ttl
claim_lease now now' token sid owner ttl s =
    let lease : Lease = record {
      session_id = sid;
      owner = owner;
      token = token;
      fence = u64 (s.fences sid + 1);
      expires_at = now' + effective_ttl ttl;
    } in
    if held now (s.leases sid)
    then err lease_held
    else ok (
      record s {
        fences = update s.fences sid lease.fence;
        leases = update s.leases sid (some lease);
      },
      lease,
    )

-- The lease is the one that is held, and has not expired.
unfoldable pub current_lease : ℕ → Lease → Option Lease → Bool
current_lease now l none = false
current_lease now l (some c) = str_eq c.token l.token && c.fence == l.fence && unexpired now c

unfoldable pub renewed : ℕ → Option Lease → Option Lease
renewed now' none = none
renewed now' (some c) = some (record c { expires_at = now' + default_ttl })

unfoldable pub renew_result : String → Option Lease → MemoryStore → Result (MemoryStore × Lease)
renew_result sid none s = err lease_lost
renew_result sid (some c) s = ok (record s { leases = update s.leases sid (some c) }, c)

unfoldable pub renew_lease : ℕ → ℕ → Lease → MemoryStore → Result (MemoryStore × Lease)
unfolding current_lease renewed renew_result
renew_lease now now' l s =
    if current_lease now l (s.leases l.session_id)
    then renew_result l.session_id (renewed now' (s.leases l.session_id)) s
    else err lease_lost

unfoldable pub release_lease : Lease → MemoryStore → MemoryStore
release_lease l s = elim (s.leases l.session_id) [
  | none ↦ s
  | some c ↦
      if str_eq c.token l.token then record s { leases = update s.leases l.session_id none } else s
]

unfoldable pub check_fence : ℕ → Lease → MemoryStore → Result (Unit {0})
unfolding current_lease
check_fence now l s =
    guard (s.fences l.session_id == l.fence && current_lease now l (s.leases l.session_id))
      lease_lost

-- The ids in the stored log, as `AppendFenced` collects them.
unfoldable pub has_id : String → List Event → Bool
has_id id [] = false
has_id id (e ∷ es) = (not (is_blank e.id) && str_eq e.id id) || has_id id es

-- The loop of `AppendFenced`: the new events, and the sequence numbers `next` and `last`.
unfoldable pub fence_all : Draws → String → List Event → ℕ → ℕ → ℕ → List Event → List Event × ℕ
unfolding has_id adopt assign
fence_all d sid log i next last [] = ([], last)
fence_all d sid log i next last (e ∷ es) =
    let skipped = fence_all d sid log (suc i) next last es in
    let kept = fence_all d sid log (suc i) (u64 (next + 1)) next es in
    if not (is_blank e.id) && has_id e.id log
    then skipped
    else (assign (d.clock i) next (adopt sid e) ∷ kept.0, kept.1)

unfoldable pub store_fenced : String → List Event → ℕ → MemoryStore → MemoryStore
store_fenced sid [] last s = s
store_fenced sid (e ∷ es) last s = record s {
  next = update s.next sid last;
  events = update s.events sid (s.events sid ++ (e ∷ es));
}

-- What `AppendFenced` writes, its lease checked.
unfoldable pub write_fenced : Draws → String → List Event → MemoryStore → MemoryStore × ℕ
unfolding fence_all store_fenced
write_fenced d sid es s =
    let (stored, last) = fence_all d sid (s.events sid) 0 (u64 (s.next sid + 1)) (s.next sid) es in
    (store_fenced sid stored last s, last)

-- The part of `AppendFenced` under the write lock.
unfoldable pub fenced_locked :
    Draws → ℕ → Lease → List Event → MemoryStore → Result (MemoryStore × ℕ)
unfolding current_lease write_fenced
fenced_locked d now l es s =
    if current_lease now l (s.leases l.session_id)
    then ok (write_fenced d l.session_id es s)
    else err lease_lost

unfoldable pub append_fenced :
    Draws → ℕ → ℕ → Lease → List Event → MemoryStore → Result (MemoryStore × ℕ)
unfolding check_batch check_fence fenced_locked
append_fenced d now now' l es s = do
  check_batch l.session_id es
  check_fence now l s
  fenced_locked d now' l es s

-- The loop of `AppendFencedCommitted`: unlike that of `AppendCommitted` it does not look up an id that
-- it has drawn.
unfoldable pub fenced_prior : String → String → (String → Option Event) → Option Event
fenced_prior given id existing = if is_blank given then none else existing id

unfoldable pub commit_fenced_all : Draws → String → ℕ → List Event → Commit → Commit
unfolding commit_event adopt identify fenced_prior
commit_fenced_all d sid i [] c = c
commit_fenced_all d sid i (e ∷ es) c =
    let e' = identify (d.token i) (adopt sid e) in
    commit_fenced_all d sid (suc i) es
      (commit_event (d.clock i) e' (fenced_prior e.id e'.id c.existing) c)

-- It records the last number at its end, if anything was committed.
unfoldable pub closing : List Event → ℕ → ℕ → ℕ
unfolding before
closing [] old next = old
closing (e ∷ es) old next = before next

unfoldable pub close_commit : ℕ → Commit → Commit
unfolding closing
close_commit old c = record c { recorded = closing c.committed old c.next }

unfoldable pub write_committed :
    Draws → String → List Event → MemoryStore → MemoryStore × List Event
unfolding commit_fenced_all start_commit finish_commit close_commit
write_committed d sid es s =
    finish_commit sid s
      (close_commit (s.next sid) (commit_fenced_all d sid 0 es (start_commit sid s)))

unfoldable pub committed_locked :
    Draws → ℕ → Lease → List Event → MemoryStore → Result (MemoryStore × List Event)
unfolding current_lease write_committed
committed_locked d now l es s =
    if current_lease now l (s.leases l.session_id)
    then ok (write_committed d l.session_id es s)
    else err lease_lost

unfoldable pub append_fenced_committed :
    Draws → ℕ → ℕ → Lease → List Event → MemoryStore → Result (MemoryStore × List Event)
unfolding check_batch check_fence committed_locked
append_fenced_committed d now now' l es s = do
  check_batch l.session_id es
  check_fence now l s
  committed_locked d now' l es s

-- The part of `SaveCompactionCheckpoint` under the write lock.
unfoldable pub write_checkpoint : CompactionCheckpoint → MemoryStore → MemoryStore
write_checkpoint r s = record s {
  checkpoints = update s.checkpoints r.session_id (s.checkpoints r.session_id ++ (r ∷ []));
}

unfoldable pub save_compaction_checkpoint :
    ℕ → Lease → CompactionCheckpoint → MemoryStore → Result MemoryStore
unfolding check_fence write_checkpoint
save_compaction_checkpoint now l r s = do check_fence now l s; ok (write_checkpoint r s)

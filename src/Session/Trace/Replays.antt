-- ===== src/Session/Trace/Replays.antt =====
-- What the store has accepted can be replayed (session/store.go, session/fenced.go, and the checks of
-- session/session.go: hydrate).
use awesome_go_agents.Base.{
  ℕ, suc, ◌+◌, ◌≡◌, refl, ◌∙◌, List, [], ◌∷◌, String, All, All-append, inl, inr, update,
  str_eq-cases, not, ◌&&◌, Bool-cases, u64,
}
use awesome_go_agents.Session.Errors.{Result, ok, err, lease_lost, ◌>>◌, >>=-eq-ok}
use awesome_go_agents.Session.Event.{Event, validate_type}
use awesome_go_agents.Session.Event.Validate.{validate}
use awesome_go_agents.Session.Store.{
  Lease, MemoryStore, Draws, new_memory_store, check_batch, write_batch, append, commit_all,
  start_commit, finish_commit, append_committed,
}
use awesome_go_agents.Session.Blocks.{is_blank}
use awesome_go_agents.Session.Store.Valid.{
  IsValid, check_batch-IsValid, commit_all-IsValid, stamp_all-IsValid, stamped_data,
}
use awesome_go_agents.Session.Lease.Committing.{commit_fenced_all-IsValid}
use awesome_go_agents.Session.Lease.{
  current_lease, has_id, fence_all, store_fenced, write_fenced, fenced_locked, write_committed,
  committed_locked, close_commit, write_checkpoint,
}
use awesome_go_agents.Session.Trace.Settle.{
  settle_if, claim_lease-SameLogs, renew_lease-SameLogs, release_lease-SameLogs,
}
use awesome_go_agents.Session.Trace.{
  Call, plain, committing, claim, renew, release, fenced, fenced_committing, checkpoint, settle,
  apply, run,
}
use awesome_go_agents.Session.Cache.{check_replay}

-- The log of every session is valid.
abbrev Replayable : MemoryStore → Type 0
Replayable s = (sid : String) → All IsValid (s.events sid)

update-Replayable :
    (sid : String) (log : List Event) (s s' : MemoryStore)
    → s'.events ≡ update s.events sid log
    → All IsValid log
    → Replayable s
    → Replayable s'
update-Replayable sid log s s' e h v j =
    rw e
      (elim (str_eq-cases sid j) [ inl (same, p) ↦ rw same h | inr (differ, p) ↦ rw differ (v j) ])

-- The checks that come before the lock were passed.
abbrev pub Checked : Call → Type 0
Checked (fenced d now l es) = check_batch l.session_id es ≡ ok tt
Checked (fenced_committing d now l es) = check_batch l.session_id es ≡ ok tt
Checked _ = Unit

-- Checks, then a write that may rely on them.
settle_valid {ℓ} :
    {A : Type ℓ} (m : Result (Unit {0})) (s : MemoryStore) (out : MemoryStore × A)
    → Replayable s
    → (m ≡ ok tt → Replayable out.0)
    → Replayable (settle s (m >> ok out))
unfolding settle
settle_valid (ok u) s out old new = new refl
settle_valid (err e) s out old new = old

append-Replayable :
    (d : Draws) (sid : String) (es : List Event) (s : MemoryStore)
    → Replayable s
    → Replayable (settle s (append d sid es s))
unfolding append settle write_batch
append-Replayable d sid [] s v = v
append-Replayable d sid (e ∷ es) s v =
    settle_valid (check_batch sid (e ∷ es)) s (write_batch d sid (e ∷ es) s) v (λ h.
      update-Replayable sid _ s (write_batch d sid (e ∷ es) s).0 refl
        (All-append IsValid (s.events sid) _ (v sid)
          (stamp_all-IsValid d sid 0 _ (e ∷ es) (check_batch-IsValid sid (e ∷ es) h)))
        v)

append_committed-Replayable :
    (d : Draws) (sid : String) (es : List Event) (s : MemoryStore)
    → Replayable s
    → Replayable (settle s (append_committed d sid es s))
unfolding append_committed finish_commit start_commit
append_committed-Replayable d sid es s v =
    settle_valid (check_batch sid es) s
      (finish_commit sid s (commit_all d sid 0 es (start_commit sid s))) v
      (λ h.
        update-Replayable sid _ s
          (finish_commit sid s (commit_all d sid 0 es (start_commit sid s))).0 refl
          (commit_all-IsValid d sid 0 es (start_commit sid s) (check_batch-IsValid sid es h)
            (v sid))
          v)

fence_all-IsValid :
    (d : Draws) (sid : String) (log : List Event) (i next last : ℕ) (es : List Event)
    → All IsValid es
    → All IsValid (fence_all d sid log i next last es).0
unfolding fence_all
fence_all-IsValid d sid log i next last [] h = tt
fence_all-IsValid d sid log i next last (e ∷ es) h =
    elim (Bool-cases (not (is_blank e.id) && has_id e.id log)) [
      | inl seen ↦ rw seen (fence_all-IsValid d sid log (suc i) next last es h.1)
      | inr new ↦ rw new (
        stamped_data (d.clock i) next sid e ∙ h.0,
        fence_all-IsValid d sid log (suc i) (u64 (next + 1)) next es h.1,
      )
    ]

store_fenced-Replayable :
    (sid : String) (stored : List Event) (last : ℕ) (s : MemoryStore)
    → All IsValid stored
    → Replayable s
    → Replayable (store_fenced sid stored last s)
unfolding store_fenced
store_fenced-Replayable sid [] last s h v = v
store_fenced-Replayable sid (e ∷ es) last s h v =
    update-Replayable sid _ s (store_fenced sid (e ∷ es) last s) refl
      (All-append IsValid (s.events sid) (e ∷ es) (v sid) h) v

fenced_locked-Replayable :
    (d : Draws) (now : ℕ) (l : Lease) (es : List Event) (s : MemoryStore)
    → All IsValid es
    → Replayable s
    → Replayable (settle s (fenced_locked d now l es s))
unfolding fenced_locked write_fenced
fenced_locked-Replayable d now l es s h v =
    let sid = l.session_id in
    let stored = fence_all d sid (s.events sid) 0 (u64 (s.next sid + 1)) (s.next sid) es in
    settle_if Replayable (current_lease now l (s.leases sid)) s (write_fenced d sid es s) lease_lost
      v
      (store_fenced-Replayable sid stored.0 stored.1 s
        (fence_all-IsValid d sid (s.events sid) 0 (u64 (s.next sid + 1)) (s.next sid) es h) v)

committed_locked-Replayable :
    (d : Draws) (now : ℕ) (l : Lease) (es : List Event) (s : MemoryStore)
    → All IsValid es
    → Replayable s
    → Replayable (settle s (committed_locked d now l es s))
unfolding committed_locked write_committed finish_commit start_commit close_commit
committed_locked-Replayable d now l es s h v =
    let sid = l.session_id in
    settle_if Replayable (current_lease now l (s.leases sid)) s (write_committed d sid es s)
      lease_lost v
      (update-Replayable sid _ s (write_committed d sid es s).0 refl
        (commit_fenced_all-IsValid d sid 0 es (start_commit sid s) h (v sid)) v)

same_logs : (s s' : MemoryStore) → s'.events ≡ s.events → Replayable s → Replayable s'
same_logs s s' e v sid = rw e (v sid)

apply-Replayable : (c : Call) (s : MemoryStore) → Checked c → Replayable s → Replayable (apply c s)
unfolding apply write_checkpoint
apply-Replayable (plain d sid es) s h v = append-Replayable d sid es s v
apply-Replayable (committing d sid es) s h v = append_committed-Replayable d sid es s v
apply-Replayable (claim now now' token sid owner ttl) s h v =
    same_logs s (apply (claim now now' token sid owner ttl) s)
      (claim_lease-SameLogs now now' token sid owner ttl s).1 v
apply-Replayable (renew now now' l) s h v =
    same_logs s (apply (renew now now' l) s) (renew_lease-SameLogs now now' l s).1 v
apply-Replayable (release l) s h v =
    same_logs s (apply (release l) s) (release_lease-SameLogs l s).1 v
apply-Replayable (fenced d now l es) s h v =
    fenced_locked-Replayable d now l es s (check_batch-IsValid l.session_id es h) v
apply-Replayable (fenced_committing d now l es) s h v =
    committed_locked-Replayable d now l es s (check_batch-IsValid l.session_id es h) v
apply-Replayable (checkpoint r) s h v = v

run-Replayable :
    (cs : List Call) (s : MemoryStore) → All Checked cs → Replayable s → Replayable (run cs s)
unfolding run
run-Replayable [] s h v = v
run-Replayable (c ∷ cs) s h v = run-Replayable cs (apply c s) h.1 (apply-Replayable c s h.0 v)

typed_valid : (e : Event) → validate e ≡ ok tt → validate_type e.type e.format_version ≡ ok tt
unfolding validate
typed_valid e h = (>>=-eq-ok (validate_type e.type e.format_version) _ h).1

check_replay-IsValid : (es : List Event) → All IsValid es → check_replay es ≡ ok tt
unfolding check_replay
check_replay-IsValid [] h = refl
check_replay-IsValid (e ∷ es) h = rw (typed_valid e h.0, h.0, check_replay-IsValid es h.1) refl

-- What was accepted can be replayed: whatever calls are made on a new store, the fenced ones after
-- their batch passed its checks, the log of every session passes the checks that a worker makes
-- before it serves the log, so no accepted event ever makes a later hydration fail.
pub run-check_replay :
    (cs : List Call) (sid : String)
    → All Checked cs
    → check_replay ((run cs new_memory_store).events sid) ≡ ok tt
run-check_replay cs sid h =
    check_replay-IsValid ((run cs new_memory_store).events sid)
      (run-Replayable cs new_memory_store h (λ j. unfold new_memory_store in tt) sid)

-- ===== src/Session/Trace/Sequences.antt =====
-- Over any interleaving of calls (session/store.go, session/fenced.go) every session's log is
-- numbered 1, 2, 3, ...
use awesome_go_agents.Base.{
  ℕ, ◌+◌, ◌<◌, ◌≡◌, refl, List, [], ◌∷◌, String, length, u64_mod, arith, inl, inr, str_eq-cases, ap,
}
use mathlib.Core.Path.{subst}
use awesome_go_agents.Session.Errors.{lease_lost}
use awesome_go_agents.Session.Event.{Event}
use awesome_go_agents.Session.Store.{
  Lease, MemoryStore, Draws, append, append_committed, check_batch, write_batch, finish_commit,
  commit_all, start_commit, new_memory_store,
}
use awesome_go_agents.Session.Store.Sequences.{
  IsSequenced, GrewBy, set_log, write_batch-GrewBy, append_committed-GrewBy,
}
use awesome_go_agents.Session.Lease.{
  fenced_locked, committed_locked, write_checkpoint, write_fenced, write_committed, store_fenced,
  current_lease,
}
use awesome_go_agents.Session.Lease.Sequences.{write_fenced-GrewBy, write_committed-GrewBy}
use awesome_go_agents.Session.Trace.Settle.{
  SameLogs, settle_checked, settle_if, claim_lease-SameLogs, renew_lease-SameLogs,
  release_lease-SameLogs,
}
use awesome_go_agents.Session.Trace.{
  Call, plain, committing, claim, renew, release, fenced, fenced_committing, checkpoint, settle,
  apply, run, batch_size, total_size,
}

-- What a call of `w` events may do to the session `j`.
abbrev Advances : ℕ → String → MemoryStore → MemoryStore → Type 0
Advances w j s s' = s.next j + w + 2 < u64_mod → IsSequenced s j → GrewBy w j s s'

-- A call that leaves the session's log and counter alone.
Advances-same :
    (w : ℕ) (j : String) (s s' : MemoryStore)
    → s'.next j ≡ s.next j
    → s'.events j ≡ s.events j
    → Advances w j s s'
Advances-same w j s s' n e b v =
    (record { counted = rw (n, e) v.counted; contiguous = rw e v.contiguous }, omega arith)

Advances-set_log :
    (w : ℕ) (sid j : String) (n : ℕ) (log : List Event) (s : MemoryStore)
    → Advances w sid s (set_log sid n log s)
    → Advances w j s (set_log sid n log s)
Advances-set_log w sid j n log s h = elim (str_eq-cases sid j) [
  | inl (same, p) ↦ subst (λ k. Advances w k s (set_log sid n log s)) p h
  | inr (differ, p) ↦ Advances-same w j s (set_log sid n log s) (rw differ) (rw differ)
]

Advances-SameLogs : (w : ℕ) (j : String) (s s' : MemoryStore) → SameLogs s s' → Advances w j s s'
Advances-SameLogs w j s s' same =
    Advances-same w j s s' (ap (λ f. f j) same.0) (ap (λ f. f j) same.1)

write_batch-Advances :
    (d : Draws) (sid j : String) (es : List Event) (s : MemoryStore)
    → Advances (length es) j s (write_batch d sid es s).0
unfolding write_batch
write_batch-Advances d sid j es s =
    Advances-set_log (length es) sid j _ _ s (write_batch-GrewBy d sid es s)

append-Advances :
    (d : Draws) (sid j : String) (es : List Event) (s : MemoryStore)
    → Advances (length es) j s (settle s (append d sid es s))
unfolding append settle
append-Advances d sid j [] s = Advances-same 0 j s s refl refl
append-Advances d sid j (e ∷ es) s =
    settle_checked (Advances (length (e ∷ es)) j s) (check_batch sid (e ∷ es)) s
      (write_batch d sid (e ∷ es) s) (Advances-same _ j s s refl refl)
      (write_batch-Advances d sid j (e ∷ es) s)

append_committed-Advances :
    (d : Draws) (sid j : String) (es : List Event) (s : MemoryStore)
    → Advances (length es) j s (settle s (append_committed d sid es s))
unfolding append_committed finish_commit
append_committed-Advances d sid j es s =
    settle_checked (Advances (length es) j s) (check_batch sid es) s
      (finish_commit sid s (commit_all d sid 0 es (start_commit sid s)))
      (Advances-same _ j s s refl refl)
      (Advances-set_log (length es) sid j _ _ s (append_committed-GrewBy d sid es s))

store_fenced-Advances :
    (w : ℕ) (sid j : String) (stored : List Event) (last : ℕ) (s : MemoryStore)
    → Advances w sid s (store_fenced sid stored last s)
    → Advances w j s (store_fenced sid stored last s)
unfolding store_fenced
store_fenced-Advances w sid j [] last s h = Advances-same w j s s refl refl
store_fenced-Advances w sid j (e ∷ es) last s h = Advances-set_log w sid j last _ s h

fenced_locked-Advances :
    (d : Draws) (now : ℕ) (l : Lease) (j : String) (es : List Event) (s : MemoryStore)
    → Advances (length es) j s (settle s (fenced_locked d now l es s))
unfolding fenced_locked write_fenced
fenced_locked-Advances d now l j es s =
    settle_if (Advances (length es) j s) (current_lease now l (s.leases l.session_id)) s
      (write_fenced d l.session_id es s) lease_lost (Advances-same _ j s s refl refl)
      (store_fenced-Advances (length es) l.session_id j _ _ s
        (write_fenced-GrewBy d l.session_id es s))

committed_locked-Advances :
    (d : Draws) (now : ℕ) (l : Lease) (j : String) (es : List Event) (s : MemoryStore)
    → Advances (length es) j s (settle s (committed_locked d now l es s))
unfolding committed_locked write_committed finish_commit
committed_locked-Advances d now l j es s =
    settle_if (Advances (length es) j s) (current_lease now l (s.leases l.session_id)) s
      (write_committed d l.session_id es s) lease_lost (Advances-same _ j s s refl refl)
      (Advances-set_log (length es) l.session_id j _ _ s
        (write_committed-GrewBy d l.session_id es s))

-- Every call, whatever its outcome.
apply-Advances : (c : Call) (s : MemoryStore) (j : String) → Advances (batch_size c) j s (apply c s)
unfolding apply write_checkpoint
apply-Advances (plain d sid es) s j = append-Advances d sid j es s
apply-Advances (committing d sid es) s j = append_committed-Advances d sid j es s
apply-Advances (claim now now' token sid owner ttl) s j =
    Advances-SameLogs 0 j s _ (claim_lease-SameLogs now now' token sid owner ttl s)
apply-Advances (renew now now' l) s j =
    Advances-SameLogs 0 j s _ (renew_lease-SameLogs now now' l s)
apply-Advances (release l) s j = Advances-SameLogs 0 j s _ (release_lease-SameLogs l s)
apply-Advances (fenced d now l es) s j = fenced_locked-Advances d now l j es s
apply-Advances (fenced_committing d now l es) s j = committed_locked-Advances d now l j es s
apply-Advances (checkpoint r) s j = Advances-same 0 j s (write_checkpoint r s) refl refl

-- A run from any store whose logs are numbered.
run-Advances :
    (cs : List Call) (s : MemoryStore) (j : String) → Advances (total_size cs) j s (run cs s)
unfolding run
run-Advances [] s j b v = (v, omega arith)
run-Advances (c ∷ cs) s j b v =
    let step = apply-Advances c s j (omega arith) v in
    let rest = run-Advances cs (apply c s) j (omega (arith, step.1)) step.0 in
    (rest.0, omega (arith, rest.1, step.1))

new-IsSequenced : (sid : String) → IsSequenced new_memory_store sid
unfolding new_memory_store
new-IsSequenced sid = record { counted = refl; contiguous = tt }

-- After any interleaving of appends, fenced appends, claims, renewals, releases and checkpoints on
-- a new store, with fewer than 2 ^ 64 - 2 events handed in, the log of every session carries the
-- sequence numbers 1, 2, 3, ... without a gap, and `next` is its length.
pub run-IsSequenced :
    (cs : List Call) (sid : String)
    → total_size cs + 2 < u64_mod
    → IsSequenced (run cs new_memory_store) sid
unfolding new_memory_store
run-IsSequenced cs sid h =
    (run-Advances cs new_memory_store sid (omega arith) (new-IsSequenced sid)).0

-- ===== src/Session/Trace.antt =====
-- Calls of the in-memory store (session/store.go, session/fenced.go) in any order, by any workers.
--
-- A call is what runs under one hold of the write lock, so a list of calls is an interleaving: the
-- batch and fence checks that come before the lock read only, and are passed over. Reads are too.
use awesome_go_agents.Base.{ℕ, suc, ◌+◌, List, [], ◌∷◌, String, ℤ, length}
use awesome_go_agents.Session.Errors.{Result, ok, err}
use awesome_go_agents.Session.Event.{Event}
use awesome_go_agents.Session.Store.{
  Lease, CompactionCheckpoint, MemoryStore, Draws, append, append_committed,
}
use awesome_go_agents.Session.Lease.{
  claim_lease, renew_lease, release_lease, fenced_locked, committed_locked, write_checkpoint,
}
pub mod Settle
pub mod Sequences
pub mod AppendOnly
pub mod Fencing
pub mod Superseded
pub mod Exclusive
pub mod Replays

pub data Call : Type 0 where
  plain : Draws → String → List Event → Call
  committing : Draws → String → List Event → Call
  claim : ℕ → ℕ → String → String → String → ℤ → Call
  renew : ℕ → ℕ → Lease → Call
  release : Lease → Call
  fenced : Draws → ℕ → Lease → List Event → Call
  fenced_committing : Draws → ℕ → Lease → List Event → Call
  checkpoint : CompactionCheckpoint → Call

-- The state after a call that may fail: an error leaves it as it was.
unfoldable pub settle {ℓ} : {A : Type ℓ} → MemoryStore → Result (MemoryStore × A) → MemoryStore
settle s (ok r) = r.0
settle s (err e) = s

unfoldable pub apply : Call → MemoryStore → MemoryStore
unfolding settle
apply (plain d sid es) s = settle s (append d sid es s)
apply (committing d sid es) s = settle s (append_committed d sid es s)
apply (claim now now' token sid owner ttl) s = settle s (claim_lease now now' token sid owner ttl s)
apply (renew now now' l) s = settle s (renew_lease now now' l s)
apply (release l) s = release_lease l s
apply (fenced d now l es) s = settle s (fenced_locked d now l es s)
apply (fenced_committing d now l es) s = settle s (committed_locked d now l es s)
apply (checkpoint r) s = write_checkpoint r s

unfoldable pub run : List Call → MemoryStore → MemoryStore
unfolding apply
run [] s = s
run (c ∷ cs) s = run cs (apply c s)

-- How many events a call hands in.
abbrev pub batch_size : Call → ℕ
batch_size (plain d sid es) = length es
batch_size (committing d sid es) = length es
batch_size (fenced d now l es) = length es
batch_size (fenced_committing d now l es) = length es
batch_size _ = 0

abbrev pub total_size : List Call → ℕ
total_size [] = 0
total_size (c ∷ cs) = batch_size c + total_size cs

-- How many claims a run makes.
abbrev pub claims : List Call → ℕ
claims [] = 0
claims (claim now now' token sid owner ttl ∷ cs) = suc (claims cs)
claims (_ ∷ cs) = claims cs

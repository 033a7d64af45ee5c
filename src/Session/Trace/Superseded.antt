-- ===== src/Session/Trace/Superseded.antt =====
-- A lease that was superseded can never write again (session/fenced.go).
use awesome_go_agents.Base.{
  ℕ, ◌+◌, ◌<◌, ◌≡◌, refl, List, String, ℤ, Option, none, some, false, u64_mod, arith, eq_refl, sym,
  ◌∙◌,
}
use awesome_go_agents.Session.Errors.{ok, err, lease_lost}
use awesome_go_agents.Session.Event.{Event}
use awesome_go_agents.Session.Store.{
  MemoryStore, Lease, Draws, CompactionCheckpoint, new_memory_store,
}
use awesome_go_agents.Session.Lease.{
  claim_lease, renew_lease, check_fence, fenced_locked, committed_locked,
  save_compaction_checkpoint, current_lease,
}
use awesome_go_agents.Session.Trace.{Call, run, claims}
use awesome_go_agents.Session.Trace.Fencing.{CarriesFence, IsFenced, run-Guards}

-- No operation accepts the lease, at any time.
abbrev pub IsRefused : Lease → MemoryStore → Type 0
IsRefused l s =
    ((now : ℕ) → check_fence now l s ≡ err lease_lost)
    × ((now now' : ℕ) → renew_lease now now' l s ≡ err lease_lost)
    × ((d : Draws) (now : ℕ) (es : List Event) → fenced_locked d now l es s ≡ err lease_lost)
    × ((d : Draws) (now : ℕ) (es : List Event) → committed_locked d now l es s ≡ err lease_lost)
    × ((now : ℕ) (r : CompactionCheckpoint) → save_compaction_checkpoint now l r s ≡ err lease_lost)

current_lease_stale :
    (now f : ℕ) (l : Lease) (c : Option Lease)
    → CarriesFence c f
    → l.fence < f
    → current_lease now l c ≡ false
unfolding current_lease
current_lease_stale now f l none v h = refl
current_lease_stale now f l (some c) v h = ground arith

pub IsRefused-stale :
    (l : Lease) (s : MemoryStore)
    → IsFenced s l.session_id
    → l.fence < s.fences l.session_id
    → IsRefused l s
unfolding check_fence renew_lease fenced_locked committed_locked save_compaction_checkpoint
IsRefused-stale l s v h =
    let stale =
      λ (now : ℕ). current_lease_stale now (s.fences l.session_id) l (s.leases l.session_id) v h in
    (
      λ now. ground (arith, stale now),
      λ now now'. rw (stale now),
      λ d now es. rw (stale now),
      λ d now es. rw (stale now),
      λ now r. ground (arith, stale now),
    )

-- A claim returns a lease of its session that carries the fence it set, one above the last.
pub claim_lease-fence :
    (now now' : ℕ) (token sid owner : String) (ttl : ℤ) (s s' : MemoryStore) (l : Lease)
    → s.fences sid + 1 < u64_mod
    → claim_lease now now' token sid owner ttl s ≡ ok (s', l)
    → (l.session_id ≡ sid)
      × (l.fence ≡ s.fences sid + 1)
      × (s'.fences sid ≡ s.fences sid + 1)
      × (s'.leases sid ≡ some l)
unfolding claim_lease
claim_lease-fence now now' token sid owner ttl s s' l b h = ground (arith, eq_refl sid)

-- Once a session was claimed again, the lease of the earlier claim is refused for good. A worker
-- holds `old` from a claim at some point of a run on a new store; later another claim of the
-- session succeeds; then, after any further calls of any workers, the fence check, the renewal, both
-- fenced appends and the checkpoint refuse `old` with `ErrLeaseLost`, whatever the clock shows.
-- (Fewer than 2 ^ 64 claims are made in all.)
pub superseded-IsRefused :
    (sid : String) (before_old between after_new : List Call) (now₁ now₁' : ℕ)
    (token₁ owner₁ : String) (ttl₁ : ℤ) (now₂ now₂' : ℕ) (token₂ owner₂ : String) (ttl₂ : ℤ)
    (s₁ s₂ : MemoryStore) (old new : Lease)
    → claims before_old + claims between + claims after_new + 2 < u64_mod
    → claim_lease now₁ now₁' token₁ sid owner₁ ttl₁ (run before_old new_memory_store) ≡ ok (s₁, old)
    → claim_lease now₂ now₂' token₂ sid owner₂ ttl₂ (run between s₁) ≡ ok (s₂, new)
    → IsRefused old (run after_new s₂)
unfolding new_memory_store
superseded-IsRefused sid cs₁ cs₂ cs₃ now₁ now₁' t₁ o₁ ttl₁ now₂ now₂' t₂ o₂ ttl₂ s₁ s₂ old new b h₁
      h₂ =
    let g₁ = run-Guards cs₁ new_memory_store sid (omega arith) tt in
    let c₁ = claim_lease-fence now₁ now₁' t₁ sid o₁ ttl₁ _ s₁ old (omega (arith, g₁.2)) h₁ in
    let v₁ : IsFenced s₁ sid = rw (c₁.3) (c₁.1 ∙ sym c₁.2) in
    let g₂ = run-Guards cs₂ s₁ sid (omega (arith, g₁.2, c₁.2)) v₁ in
    let c₂ =
      claim_lease-fence now₂ now₂' t₂ sid o₂ ttl₂ _ s₂ new (omega (arith, g₁.2, c₁.2, g₂.2)) h₂ in
    let v₂ : IsFenced s₂ sid = rw (c₂.3) (c₂.1 ∙ sym c₂.2) in
    let g₃ = run-Guards cs₃ s₂ sid (omega (arith, g₁.2, c₁.2, g₂.2, c₂.2)) v₂ in
    IsRefused-stale old (run cs₃ s₂) (rw c₁.0 g₃.0)
      (rw c₁.0 (omega (arith, c₁.1, c₁.2, g₂.1, c₂.2, g₃.1)))

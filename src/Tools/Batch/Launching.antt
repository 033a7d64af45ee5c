-- ===== src/Tools/Batch/Launching.antt =====
-- What a run of launches keeps (tools/registry.go: runRollingBatch).
use awesome_go_agents.Base.{
  ℕ, zero, suc, ◌+◌, ◌≡◌, ◌<◌, Bool, true, ◌&&◌, ltb, arith, length, inl, inr, Bool-cases,
}
use awesome_go_agents.Tools.Batch.{Setup, Pool, launch, launch_safe, limit}

both_true : (n m : ℕ) (b : Bool) → (ltb n m && b) ≡ true → (n < m) × (b ≡ true)
both_true n m b h = (ground arith, ground arith)

-- A property that each launch keeps: the call is one of the batch, safe, and below the limit.
pub launch_safe-keeps {ℓ} :
    (P : Pool → Type ℓ) (c : Setup)
    → ((p : Pool)
        → p.next < c.total
        → length p.active < limit c
        → c.is_safe p.next ≡ true
        → P p
        → P (launch p))
    → (remaining : ℕ) (p : Pool) → p.next + remaining ≡ c.total
    → P p
    → P (launch_safe c remaining p)
unfolding launch_safe
launch_safe-keeps P c step zero p e v = v
launch_safe-keeps P c step (suc remaining) p e v =
    let test = ltb (length p.active) (limit c) && c.is_safe p.next in
    elim (Bool-cases test) [
      | inl go ↦
          let (below, safe) = both_true (length p.active) (limit c) (c.is_safe p.next) go in
          rw go (
            launch_safe-keeps P c step remaining (launch p) (unfold launch in omega arith)
              (step p (omega arith) below safe v))
      | inr wait ↦ rw wait v
    ]

-- ===== src/Session/Lease/Sequences.antt =====
-- The fenced appends (session/fenced.go) keep a session's log numbered 1, 2, 3, ...
use awesome_go_agents.Base.{
  ℕ, suc, ◌+◌, ◌≤◌, ◌<◌, ◌≡◌, refl, List, [], ◌∷◌, ◌++◌, String, length, u64, u64_mod, arith,
  Bool-cases, eq_refl, sym, inl, inr, ◌∙◌, not, ◌&&◌,
}
use awesome_go_agents.Session.Blocks.{is_blank}
use awesome_go_agents.Session.Event.{Event}
use awesome_go_agents.Session.Store.{
  MemoryStore, Draws, assign, before, start_commit, finish_commit,
}
use awesome_go_agents.Session.Store.Sequences.{
  IsContiguous, IsContiguous-append, IsSequenced, GrewBy, log-append, set_log-IsSequenced,
  start_commit-IsCommitting,
}
use awesome_go_agents.Session.Lease.Committing.{length-committed, commit_fenced_all-IsCommitting}
use awesome_go_agents.Session.Lease.{
  commit_fenced_all, has_id, fence_all, store_fenced, write_fenced, closing, close_commit,
  write_committed,
}

-- The loop of `AppendFenced` numbers the events that it keeps, and returns the last number.
fence_all-IsContiguous :
    (d : Draws) (sid : String) (log : List Event) (i last : ℕ) (es : List Event)
    → last + length es + 1 < u64_mod
    → let out = fence_all d sid log i (suc last) last es in
      IsContiguous (suc last) out.0 × (out.1 ≡ last + length out.0) × (length out.0 ≤ length es)
unfolding fence_all assign
fence_all-IsContiguous d sid log i last [] h = (tt, omega arith, omega arith)
fence_all-IsContiguous d sid log i last (e ∷ es) h =
    let same : u64 (suc last + 1) ≡ suc (suc last) = omega arith in
    elim (Bool-cases (not (is_blank e.id) && has_id e.id log)) [
      | inl skip ↦
          let rest = fence_all-IsContiguous d sid log (suc i) last es (omega arith) in
          rw skip (rest.0, rest.1, omega (arith, rest.2))
      | inr keep ↦
          let rest = fence_all-IsContiguous d sid log (suc i) (suc last) es (omega arith) in
          rw (keep, same) ((refl, rest.0), omega (arith, rest.1), omega (arith, rest.2))
    ]

store_fenced-GrewBy :
    (sid : String) (stored : List Event) (last w : ℕ) (s : MemoryStore)
    → IsSequenced s sid
    → IsContiguous (suc (s.next sid)) stored
    → last ≡ s.next sid + length stored
    → length stored ≤ w
    → GrewBy w sid s (store_fenced sid stored last s)
unfolding store_fenced
store_fenced-GrewBy sid [] last w s v c e h = (v, omega arith)
store_fenced-GrewBy sid (x ∷ xs) last w s v c e h = (
  set_log-IsSequenced sid last (s.events sid ++ (x ∷ xs)) s
      (omega (arith, log-append (s.events sid) (x ∷ xs), v.counted))
      (IsContiguous-append 1 _ (s.events sid) (x ∷ xs) (omega (arith, v.counted)) v.contiguous c),
  rw eq_refl (omega arith),
)

pub write_fenced-GrewBy :
    (d : Draws) (sid : String) (es : List Event) (s : MemoryStore)
    → s.next sid + length es + 2 < u64_mod
    → IsSequenced s sid
    → GrewBy (length es) sid s (write_fenced d sid es s).0
unfolding write_fenced
write_fenced-GrewBy d sid es s h v =
    let same : u64 (s.next sid + 1) ≡ suc (s.next sid) = omega arith in
    let loop = fence_all-IsContiguous d sid (s.events sid) 0 (s.next sid) es (omega arith) in
    rw same (store_fenced-GrewBy sid _ _ (length es) s v loop.0 loop.1 loop.2)

closing_lem :
    (committed : List Event) (old next recorded : ℕ)
    → next ≡ suc recorded
    → next < u64_mod
    → (length committed ≡ 0 → recorded ≡ old)
    → closing committed old next ≡ recorded
unfolding closing before
closing_lem [] old next recorded e b h = sym (h refl)
closing_lem (x ∷ xs) old next recorded e b h = omega arith

-- An empty batch leaves the counter, any other batch commits something.
recorded-commit_fenced_all :
    (d : Draws) (sid : String) (es : List Event) (s : MemoryStore)
    → let c = commit_fenced_all d sid 0 es (start_commit sid s) in
      length c.committed ≡ 0 → c.recorded ≡ s.next sid
unfolding commit_fenced_all start_commit
recorded-commit_fenced_all d sid [] s h = refl
recorded-commit_fenced_all d sid (e ∷ es) s h =
    absurd (omega (arith, length-committed d sid 0 (e ∷ es) (start_commit sid s)))

pub write_committed-GrewBy :
    (d : Draws) (sid : String) (es : List Event) (s : MemoryStore)
    → s.next sid + length es + 2 < u64_mod
    → IsSequenced s sid
    → GrewBy (length es) sid s (write_committed d sid es s).0
unfolding write_committed finish_commit close_commit
write_committed-GrewBy d sid es s h v =
    let c = commit_fenced_all d sid 0 es (start_commit sid s) in
    let start = start_commit-IsCommitting sid s (omega arith) v in
    let loop =
      commit_fenced_all-IsCommitting d sid 0 es (start_commit sid s) (omega (arith, start.ahead))
        start in
    let e =
      closing_lem c.committed (s.next sid) c.next c.recorded loop.0.ahead
        (omega (arith, start.ahead, loop.1)) (recorded-commit_fenced_all d sid es s) in
    (
      set_log-IsSequenced sid _ _ s (e ∙ loop.0.counted) loop.0.contiguous,
      rw (eq_refl, e) (omega (arith, start.ahead, loop.0.ahead, loop.1)),
    )

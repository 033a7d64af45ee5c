-- ===== src/Session/Store/Sequences.antt =====
-- The log of a session holds the sequence numbers 1, 2, 3, ... without a gap, and every append of
-- the store (session/store.go, session/fenced.go) keeps it so.
use awesome_go_agents.Base.{
  ℕ, suc, ◌+◌, ◌≤◌, ◌<◌, ◌≡◌, refl, List, [], ◌∷◌, ◌++◌, String, length, u64, u64_mod, update,
  arith, length-append, update, Option, none, some, eq_refl, ap, ◌∙◌,
}
use awesome_go_agents.Session.Event.{Event}
use awesome_go_agents.Session.Store.{
  MemoryStore, Draws, Commit, adopt, assign, before, stamp_all, write_batch, commit_all,
  commit_event, identify, start_commit, finish_commit,
}

-- The events carry n, n + 1, n + 2, ...
abbrev pub IsContiguous : ℕ → List Event → Type 0
IsContiguous n [] = Unit
IsContiguous n (e ∷ es) = (e.seq ≡ n) × IsContiguous (suc n) es

pub IsContiguous-append :
    (n m : ℕ) (xs ys : List Event)
    → m ≡ n + length xs
    → IsContiguous n xs
    → IsContiguous m ys
    → IsContiguous n (xs ++ ys)
IsContiguous-append n m [] ys e h k = let e' : m ≡ n = omega arith in rw e' at k
IsContiguous-append n m (x ∷ xs) ys e h k =
    (h.0, IsContiguous-append (suc n) m xs ys (omega arith) h.1 k)

pub log-append : (xs ys : List Event) → length (xs ++ ys) ≡ length xs + length ys
log-append xs ys = length-append xs ys

-- `s.next` counts the log.
pub record IsSequenced (s : MemoryStore) (sid : String) : Type 0 where
  pub counted : s.next sid ≡ length (s.events sid)
  pub contiguous : IsContiguous 1 (s.events sid)

assign-seq : (now n : ℕ) (e : Event) → (assign now n e).seq ≡ n
unfolding assign
assign-seq now n e = refl

pub before-suc : (n : ℕ) → n < u64_mod → before (suc n) ≡ n
unfolding before
before-suc n h = omega arith

-- The loop of `Append` numbers the batch from `next` on.
pub stamp_all-IsContiguous :
    (d : Draws) (sid : String) (i next : ℕ) (es : List Event)
    → next + length es < u64_mod
    → let out = stamp_all d sid i next es in
      IsContiguous next out.0 × (length out.0 ≡ length es) × (out.1 ≡ next + length es)
unfolding stamp_all
stamp_all-IsContiguous d sid i next [] h = (tt, refl, omega arith)
stamp_all-IsContiguous d sid i next (e ∷ es) h =
    let same : u64 (next + 1) ≡ suc next = omega arith in
    let ih = stamp_all-IsContiguous d sid (suc i) (suc next) es (omega arith) in
    rw same ((refl, ih.0), ap suc ih.1, ih.2 ∙ omega arith)

-- The session's log and its counter replaced, as every append ends.
abbrev pub set_log : String → ℕ → List Event → MemoryStore → MemoryStore
set_log sid n log s = record s { next = update s.next sid n; events = update s.events sid log }

pub set_log-IsSequenced :
    (sid : String) (n : ℕ) (log : List Event) (s : MemoryStore)
    → n ≡ length log
    → IsContiguous 1 log
    → IsSequenced (set_log sid n log s) sid
set_log-IsSequenced sid n log s h k = record { counted = rw eq_refl h; contiguous = rw eq_refl k }

pub write_batch-IsSequenced :
    (d : Draws) (sid : String) (es : List Event) (s : MemoryStore)
    → s.next sid + length es + 1 < u64_mod
    → IsSequenced s sid
    → IsSequenced (write_batch d sid es s).0 sid
      × ((write_batch d sid es s).1 ≡ s.next sid + length es)
      × ((write_batch d sid es s).0.next sid ≡ s.next sid + length es)
unfolding write_batch
write_batch-IsSequenced d sid es s h v =
    let same : u64 (s.next sid + 1) ≡ suc (s.next sid) = omega arith in
    let loop = stamp_all-IsContiguous d sid 0 (suc (s.next sid)) es (omega arith) in
    let stored = (stamp_all d sid 0 (suc (s.next sid)) es).0 in
    let log =
      IsContiguous-append 1 _ (s.events sid) stored (omega (arith, v.counted)) v.contiguous
        loop.0 in
    rw same (
      set_log-IsSequenced sid _ _ s (omega (arith, log-append (s.events sid) stored, v.counted))
          log,
      omega arith,
      rw eq_refl (omega arith),
    )

-- The loop of the committing appends keeps its log numbered and its counters in step with it.
pub record IsCommitting (c : Commit) : Type 0 where
  pub counted : c.recorded ≡ length c.log
  pub ahead : c.next ≡ suc c.recorded
  pub contiguous : IsContiguous 1 c.log

pub commit_event-IsCommitting :
    (now : ℕ) (e : Event) (prior : Option Event) (c : Commit)
    → c.next + 1 < u64_mod
    → IsCommitting c
    → IsCommitting (commit_event now e prior c) × ((commit_event now e prior c).next ≤ suc c.next)
unfolding commit_event assign
commit_event-IsCommitting now e (some p) c h v =
    (record { counted = v.counted; ahead = v.ahead; contiguous = v.contiguous }, omega arith)
commit_event-IsCommitting now e none c h v =
    let e' = assign now c.next e in
    (
      record {
        counted = omega (arith, log-append c.log (e' ∷ []), v.ahead, v.counted);
        ahead = omega arith;
        contiguous =
            IsContiguous-append 1 c.next c.log (e' ∷ []) (omega (arith, v.ahead, v.counted))
              v.contiguous (refl, tt);
      },
      omega arith,
    )

pub commit_all-IsCommitting :
    (d : Draws) (sid : String) (i : ℕ) (es : List Event) (c : Commit)
    → c.next + length es + 1 < u64_mod
    → IsCommitting c
    → IsCommitting (commit_all d sid i es c) × ((commit_all d sid i es c).next ≤ c.next + length es)
unfolding commit_all
commit_all-IsCommitting d sid i [] c h v = (v, omega arith)
commit_all-IsCommitting d sid i (e ∷ es) c h v =
    let e' = identify (d.token i) (adopt sid e) in
    let step = commit_event-IsCommitting (d.clock i) e' (c.existing e'.id) c (omega arith) v in
    let rest =
      commit_all-IsCommitting d sid (suc i) es (commit_event (d.clock i) e' (c.existing e'.id) c)
        (omega (arith, step.1)) step.0 in
    (rest.0, omega (arith, rest.1, step.1))

pub start_commit-IsCommitting :
    (sid : String) (s : MemoryStore)
    → s.next sid + 1 < u64_mod
    → IsSequenced s sid
    → IsCommitting (start_commit sid s)
unfolding start_commit
start_commit-IsCommitting sid s h v = record {
  counted = v.counted;
  ahead = omega arith;
  contiguous = v.contiguous;
}

-- A store whose session `sid` has a numbered log that grew by at most `w` events.
abbrev pub GrewBy : ℕ → String → MemoryStore → MemoryStore → Type 0
GrewBy w sid s s' = IsSequenced s' sid × (s'.next sid ≤ s.next sid + w)

pub write_batch-GrewBy :
    (d : Draws) (sid : String) (es : List Event) (s : MemoryStore)
    → s.next sid + length es + 2 < u64_mod
    → IsSequenced s sid
    → GrewBy (length es) sid s (write_batch d sid es s).0
write_batch-GrewBy d sid es s h v =
    let out = write_batch-IsSequenced d sid es s (omega arith) v in (out.0, omega (arith, out.2))

pub append_committed-GrewBy :
    (d : Draws) (sid : String) (es : List Event) (s : MemoryStore)
    → s.next sid + length es + 2 < u64_mod
    → IsSequenced s sid
    → GrewBy (length es) sid s (finish_commit sid s (commit_all d sid 0 es (start_commit sid s))).0
unfolding finish_commit start_commit
append_committed-GrewBy d sid es s h v =
    let c =
      commit_all-IsCommitting d sid 0 es (start_commit sid s) (omega arith)
        (start_commit-IsCommitting sid s (omega arith) v) in
    (
      set_log-IsSequenced sid _ _ s c.0.counted c.0.contiguous,
      rw eq_refl (omega (arith, c.0.ahead, c.1)),
    )

-- ===== src/Session/Cache/Synced.antt =====
-- The in-memory tail is the log (session/session.go).
use awesome_go_agents.Base.{
  ℕ, suc, ◌+◌, ◌≡◌, ◌<◌, ◌≤◌, refl, ap, ◌∙◌, Bool, true, false, Option, none, some, List, [], ◌∷◌,
  ◌++◌, String, u64_mod, length, arith, leb, All, by_test, if◌then◌else◌, inl, inr, update, eq_refl,
  str_eq-cases,
}
use mathlib.Core.Path.{subst}
use awesome_go_agents.Session.Event.{Event}
use awesome_go_agents.Session.Blocks.{is_blank}
use awesome_go_agents.Session.Store.{
  MemoryStore, Draws, Commit, adopt, assign, identify, index_ids, commit_event, commit_all,
  start_commit, finish_commit,
}
use awesome_go_agents.Session.Store.Sequences.{
  IsContiguous, IsSequenced, IsCommitting, commit_event-IsCommitting, start_commit-IsCommitting,
}
use awesome_go_agents.Session.Cache.{Session, extend}

pub extend-append :
    (xs ys : List Event) (c : List Event × ℕ) → extend (xs ++ ys) c ≡ extend ys (extend xs c)
unfolding extend
extend-append [] ys c = refl
extend-append (x ∷ xs) ys (cached, seq) = extend-append xs ys _

-- The events by id are no later than a number.
abbrev Bounded : ℕ → (String → Option Event) → Type 0
Bounded n existing = (k : String) (e : Event) → existing k ≡ some e → e.seq ≤ n

update-Bounded :
    (n : ℕ) (e : Event) (existing : String → Option Event)
    → e.seq ≤ n
    → Bounded n existing
    → Bounded n (update existing e.id (some e))
update-Bounded n e existing h v k x found = elim (str_eq-cases e.id k) [
  | inl (same, p) ↦
      let stored : some e ≡ some x = rw same at found in
      let is : e ≡ x = cc in subst (λ (y : Event). y.seq ≤ n) is h
  | inr (other, p) ↦ v k x (rw other at found)
]

either-Bounded :
    (n : ℕ) (b : Bool) (f g : String → Option Event)
    → Bounded n f
    → Bounded n g
    → Bounded n (if b then f else g)
either-Bounded n true f g h k = h
either-Bounded n false f g h k = k

-- The loop of the store against the tail: extended by what is committed so far, a tail that was the
-- log is the log, and no stored event is later than its end.
record Follows (start : List Event × ℕ) (c : Commit) : Type 0 where
  tail : extend c.committed start ≡ (c.log, c.recorded)
  bounded : Bounded c.recorded c.existing

extend_old :
    (e : Event) (log : List Event) (n : ℕ) → e.seq ≤ n → extend (e ∷ []) (log, n) ≡ (log, n)
unfolding extend
extend_old e log n h = let hit : leb e.seq n ≡ true = ground arith in rw hit refl

extend_new :
    (e : Event) (log : List Event) (n : ℕ)
    → n < e.seq
    → extend (e ∷ []) (log, n) ≡ (log ++ (e ∷ []), e.seq)
unfolding extend
extend_new e log n h = let miss : leb e.seq n ≡ false = ground arith in rw miss refl

commit_event-Follows :
    (now : ℕ) (e : Event) (prior : Option Event) (start : List Event × ℕ) (c : Commit)
    → c.existing e.id ≡ prior
    → c.next ≡ suc c.recorded
    → Follows start c
    → Follows start (commit_event now e prior c)
unfolding commit_event assign
commit_event-Follows now e (some p) start c found ahead v = record {
  tail =
      extend-append c.committed (p ∷ []) start
      ∙ ap (extend (p ∷ [])) v.tail
      ∙ extend_old p c.log c.recorded (v.bounded e.id p found);
  bounded = v.bounded;
}
commit_event-Follows now e none start c found ahead v =
    let e' = assign now c.next e in
    record {
      tail =
          extend-append c.committed (e' ∷ []) start
          ∙ ap (extend (e' ∷ [])) v.tail
          ∙ extend_new e' c.log c.recorded (omega (arith, ahead));
      bounded =
          update-Bounded c.next e' c.existing (omega arith)
            (λ k x h. omega (arith, v.bounded k x h, ahead));
    }

commit_all-Follows :
    (d : Draws) (sid : String) (i : ℕ) (es : List Event) (start : List Event × ℕ) (c : Commit)
    → c.next + length es + 1 < u64_mod
    → IsCommitting c
    → Follows start c
    → Follows start (commit_all d sid i es c)
unfolding commit_all
commit_all-Follows d sid i [] start c h w v = v
commit_all-Follows d sid i (e ∷ es) start c h w v =
    let e' = identify (d.token i) (adopt sid e) in
    let c' = commit_event (d.clock i) e' (c.existing e'.id) c in
    let (next, less) =
      commit_event-IsCommitting (d.clock i) e' (c.existing e'.id) c (omega arith) w in
    commit_all-Follows d sid (suc i) es start c' (omega (arith, less)) next
      (commit_event-Follows (d.clock i) e' (c.existing e'.id) start c refl w.ahead v)

index_ids-Bounded :
    (n m : ℕ) (es : List Event) (existing : String → Option Event)
    → n + length es ≤ suc m
    → IsContiguous n es
    → Bounded m existing
    → Bounded m (index_ids existing es)
unfolding index_ids
index_ids-Bounded n m [] existing h v b = b
index_ids-Bounded n m (e ∷ es) existing h v b = index_ids-Bounded (suc n) m es _ (omega arith) v.1 (
    either-Bounded m (is_blank e.id) existing (update existing e.id (some e)) b
      (update-Bounded m e existing (omega (arith, v.0)) b))

start_commit-Follows :
    (sid : String) (s : MemoryStore)
    → IsSequenced s sid
    → Follows (s.events sid, s.next sid) (start_commit sid s)
unfolding start_commit extend
start_commit-Follows sid s v = record {
  tail = refl;
  bounded =
      index_ids-Bounded 1 (s.next sid) (s.events sid) (λ k. none) (omega (arith, v.counted))
        v.contiguous (λ k e h. absurd (cc));
}

-- Extended by the batches that are under way, the tail of a hydrated session is the log of the store,
-- and `cachedSeq` is its counter; no event under way is later.
pub record IsSynced (under_way : List Event) (ss : Session) (s : MemoryStore) : Type 0 where
  pub numbered : IsSequenced s ss.id
  pub tail :
      ss.hydrated ≡ true
      → extend under_way (ss.cached, ss.cached_seq) ≡ (s.events ss.id, s.next ss.id)
  pub fresh : ss.hydrated ≡ false → ss.cached_seq ≡ 0
  pub old : All (λ e. e.seq ≤ s.next ss.id) under_way

-- Where a tail ends, no event is later than its end.
pub extend_top :
    (es : List Event) (c : List Event) (n : ℕ)
    → (n ≤ (extend es (c, n)).1) × All (λ e. e.seq ≤ (extend es (c, n)).1) es
unfolding extend
extend_top [] c n = (omega arith, tt)
extend_top (e ∷ es) c n =
    by_test
      (λ (p : List Event × ℕ). (n ≤ (extend es p).1) × All (λ x. x.seq ≤ (extend es p).1) (e ∷ es))
      (leb e.seq n) (c, n) (c ++ (e ∷ []), e.seq)
      (λ hit.
        let (above, rest) = extend_top es c n in
        let low : e.seq ≤ n = ground arith in (above, (omega arith, rest)))
      (λ miss.
        let (above, rest) = extend_top es (c ++ (e ∷ [])) e.seq in
        let high : n < e.seq = ground arith in (omega arith, (above, rest)))

pub extend_all_old :
    (es : List Event) (c : List Event) (n : ℕ) → All (λ e. e.seq ≤ n) es → extend es (c, n) ≡ (c, n)
unfolding extend
extend_all_old [] c n h = refl
extend_all_old (e ∷ es) c n (low, h) =
    let hit : leb e.seq n ≡ true = ground arith in rw hit (extend_all_old es c n h)

start_commit_next :
    (sid : String) (s : MemoryStore)
    → s.next sid + 1 < u64_mod
    → (start_commit sid s).next ≡ suc (s.next sid)
unfolding start_commit
start_commit_next sid s h = omega arith

-- What the store commits, and the tail extended by it.
pub commit-tail :
    (d : Draws) (es : List Event) (sid : String) (s : MemoryStore)
    → s.next sid + length es + 2 < u64_mod
    → IsSequenced s sid
    → let (s', committed) = finish_commit sid s (commit_all d sid 0 es (start_commit sid s)) in
      extend committed (s.events sid, s.next sid) ≡ (s'.events sid, s'.next sid)
unfolding finish_commit
commit-tail d es sid s h v =
    let c = start_commit sid s in
    let follows =
      commit_all-Follows d sid 0 es (s.events sid, s.next sid) c
        (omega (arith, start_commit_next sid s (omega arith)))
        (start_commit-IsCommitting sid s (omega arith) v) (start_commit-Follows sid s v) in
    rw (eq_refl sid) follows.tail

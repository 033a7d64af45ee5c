-- ===== src/Tools/Batch/Advances.antt =====
-- A pass of the loop lowers the number of calls that are waiting or active (tools/registry.go:
-- runRollingBatch).
use awesome_go_agents.Base.{
  ℕ, zero, suc, ◌+◌, ◌-◌, ◌≡◌, ◌<◌, ◌≤◌, ◌⊎◌, inl, inr, refl, ap, ◌∙◌, Bool, true, false, not, ◌&&◌,
  [], ◌∷◌, ltb, ◌==◌, if◌then◌else◌, arith, length, Bool-cases, length-append, ℤ, pos, negsuc,
}
use mathlib.Core.Path.{subst}
use awesome_go_agents.Tools.Batch.{
  Setup, Pool, Round, Outcome, aborted_cancelled, aborted_concluded, Progress, going, ended, limit,
  limit_of, launch, launch_safe, finish, note, drain_one, drain_all, abort_rest, run_exclusive,
  stop, exclusive, advance, pass,
}
use awesome_go_agents.Tools.Batch.Launching.{launch_safe-keeps}
use awesome_go_agents.Tools.Batch.Draining.{
  drain_one-keeps, drain_all-keeps, drain_one-fewer, drain_all-empties, abort_rest_active,
}
use awesome_go_agents.Tools.Batch.Passed.{
  Answers, Passed, launch-Passed, finish-Passed, abort_rest-Passed, run_exclusive-Passed, IsDone,
  Passed-IsDone,
}

-- The calls that are waiting or active.
abbrev pub weight : Setup → Pool → ℕ
weight c p = (c.total - p.next) + length p.active

-- A pass ends the loop with every call answered, or lowers the weight.
pub data Advances (c : Setup) (w : ℕ) : Progress → Type 0 where
  ends : {q : Pool} → IsDone c q → Advances c w (ended q)
  goes : {q : Pool} → Passed c q → weight c q < w → Advances c w (going q)

drain_all_next :
    (c : Setup) (counts : Bool) (n : ℕ) (pick : ℕ → ℕ) (p : Pool) (m : ℕ)
    → p.next ≡ m
    → (drain_all c counts n pick p).next ≡ m
drain_all_next c counts n pick p m e =
    drain_all-keeps (λ q. q.next ≡ m) c counts (λ q i is h. unfold note finish in h) n pick p e

drain_all-Passed :
    (c : Setup) (counts : Bool) (n : ℕ) (pick : ℕ → ℕ) (p : Pool)
    → Passed c p
    → Passed c (drain_all c counts n pick p)
drain_all-Passed c counts n pick p v =
    drain_all-keeps (Passed c) c counts (λ q i is h. finish-Passed c counts q i h) n pick p v

stop-Advances :
    (c : Setup) (o : Outcome) (r : Round) (p : Pool) (w : ℕ)
    → ((i : ℕ) → Answers c i o)
    → Passed c p
    → Advances c w (stop c o r p)
unfolding stop
stop-Advances c o r p w own v =
    let q = abort_rest o (c.total - p.next) p in
    let (active, quiet, next) = abort_rest_active o (c.total - p.next) p in
    let whole : p.next + (c.total - p.next) ≡ c.total = omega (arith, v.bound) in
    let marked = abort_rest-Passed c o own (c.total - p.next) p whole v in
    ends (
      Passed-IsDone c (drain_all c false (length q.active) r.pick q)
        (drain_all_next c false (length q.active) r.pick q c.total (next ∙ whole))
        (drain_all-empties c false (length q.active) r.pick q refl)
        (drain_all-Passed c false (length q.active) r.pick q marked))

limit_of_pos : (m : ℤ) (total : ℕ) → 0 < total → 0 < limit_of m total
unfolding limit_of
limit_of_pos (pos m) total h = ground arith
limit_of_pos (negsuc m) total h = h

refused : (n m : ℕ) (b : Bool) → (ltb n m && b) ≡ false → (b ≡ false) ⊎ (m ≤ n)
refused n m true h = inr (ground arith)
refused n m false h = inl refl

-- Both branches of a test.
choose :
    (c : Setup) (w : ℕ) (b : Bool) (x y : Progress)
    → (b ≡ true → Advances c w x)
    → (b ≡ false → Advances c w y)
    → Advances c w (if b then x else y)
choose c w true x y h k = h refl
choose c w false x y h k = k refl

-- Where the launches stop.
launch_safe_stops :
    (c : Setup) (remaining : ℕ) (p : Pool)
    → p.next + remaining ≡ c.total
    → let q = launch_safe c remaining p in
      (q.next ≡ c.total) ⊎ ((c.is_safe q.next ≡ false) ⊎ (limit c ≤ length q.active))
unfolding launch_safe
launch_safe_stops c zero p e = inl (omega arith)
launch_safe_stops c (suc remaining) p e =
    let test = ltb (length p.active) (limit c) && c.is_safe p.next in
    elim (Bool-cases test) [
      | inl go ↦ rw go (launch_safe_stops c remaining (launch p) (unfold launch in omega arith))
      | inr wait ↦ rw wait (inr (refused (length p.active) (limit c) (c.is_safe p.next) wait))
    ]

weight-launch_safe :
    (c : Setup) (p : Pool)
    → p.next ≤ c.total
    → weight c (launch_safe c (c.total - p.next) p) ≡ weight c p
weight-launch_safe c p h =
    launch_safe-keeps (λ q. weight c q ≡ weight c p) c
      (λ q below room safe e.
        unfold launch in omega (arith, e, length-append q.active (q.next ∷ [])))
      (c.total - p.next) p (omega arith) refl

exclusive-Advances :
    (c : Setup) (r : Round) (p : Pool) (w : ℕ)
    → p.next < c.total
    → length p.active ≡ 0
    → weight c p ≤ w
    → (p.terminal ≡ true → weight c p < w)
    → Passed c p
    → Advances c w (exclusive c r p)
unfolding exclusive
exclusive-Advances c r p w below idle light lighter v =
    let q = abort_rest aborted_cancelled (c.total - p.next) p in
    let (active, quiet, next) = abort_rest_active aborted_cancelled (c.total - p.next) p in
    let marked =
      abort_rest-Passed c aborted_cancelled (λ i. inr (inl refl)) (c.total - p.next) p (omega arith)
        v in
    let go_on = if p.terminal then going p else going (run_exclusive c p) in
    choose c w r.cancelled_late (ended q) go_on
      (λ late. ends (Passed-IsDone c q (omega (arith, next)) (ap length active ∙ idle) marked))
      (λ on.
        choose c w p.terminal (going p) (going (run_exclusive c p)) (λ over. goes v (lighter over))
          (λ more. goes (run_exclusive-Passed c p below v) (unfold run_exclusive in omega arith)))

-- After the launches.
drain_all_zero :
    (c : Setup) (counts : Bool) (pick : ℕ → ℕ) (n : ℕ) (p : Pool)
    → n ≡ 0
    → drain_all c counts n pick p ≡ p
unfolding drain_all
drain_all_zero c counts pick zero p e = refl
drain_all_zero c counts pick (suc n) p e = absurd (omega arith)

drain_one_next :
    (c : Setup) (counts : Bool) (k : ℕ) (p : Pool) → (drain_one c counts k p).next ≡ p.next
drain_one_next c counts k p =
    drain_one-keeps (λ q. q.next ≡ p.next) c counts (λ q i is h. unfold note finish in h) k p refl

-- Where no exclusive call is due and the launches are over, a call is active.
busy :
    (c : Setup) (p : Pool)
    → 0 < weight c p
    → (p.next ≡ c.total) ⊎ ((c.is_safe p.next ≡ false) ⊎ (limit c ≤ length p.active))
    → (ltb p.next c.total && not (c.is_safe p.next)) ≡ false
    → 0 < length p.active
busy c p left (inl all) safe = omega arith
busy c p left (inr (inl alone)) safe = ground arith
busy c p left (inr (inr full)) safe = elim (Bool-cases (c.total == 0)) [
  | inl empty ↦ ground arith
  | inr some_calls ↦ omega (arith, limit_of_pos c.max_parallel c.total (ground arith))
]

advance-Advances :
    (c : Setup) (r : Round) (p : Pool)
    → p.terminal ≡ false
    → 0 < weight c p
    → (p.next ≡ c.total) ⊎ ((c.is_safe p.next ≡ false) ⊎ (limit c ≤ length p.active))
    → Passed c p
    → Advances c (weight c p) (advance c r p)
unfolding advance
advance-Advances c r p on some_left stopped v =
    let n = length p.active in
    let q = drain_all c true n r.pick p in
    let w = weight c p in
    let idle = drain_all-empties c true n r.pick p refl in
    let next = drain_all_next c true n r.pick p p.next refl in
    choose c w (ltb p.next c.total && not (c.is_safe p.next)) (exclusive c r q)
      (going (drain_one c true (r.pick 0) p))
      (λ waits.
        exclusive-Advances c r q w (ground (arith, next, waits)) idle (omega (arith, idle, next))
          (λ over. elim (Bool-cases (n == 0)) [
            | inl none ↦
                let kept = drain_all_zero c true r.pick n p (ground arith) in
                absurd (cc (over, ap (λ (s : Pool). s.terminal) kept, on))
            | inr more ↦ ground (arith, idle, next)
          ])
          (drain_all-Passed c true n r.pick p v))
      (λ safe.
        goes
          (drain_one-keeps (Passed c) c true (λ s i is h. finish-Passed c true s i h) (r.pick 0) p
            v)
          (omega (
            arith,
            busy c p some_left stopped safe,
            drain_one-fewer c true (r.pick 0) p,
            drain_one_next c true (r.pick 0) p,
          )))

pub pass-Advances :
    (c : Setup) (r : Round) (p : Pool)
    → 0 < weight c p
    → Passed c p
    → Advances c (weight c p) (pass c r p)
unfolding pass
pass-Advances c r p left v =
    let w = weight c p in
    let k = c.total - p.next in
    let q = launch_safe c k p in
    let whole : p.next + k ≡ c.total = omega (arith, v.bound) in
    let go_on = if p.terminal then stop c aborted_concluded r p else advance c r q in
    choose c w r.cancelled (stop c aborted_cancelled r p) go_on
      (λ e. stop-Advances c aborted_cancelled r p w (λ i. inr (inl refl)) v)
      (λ e.
        choose c w p.terminal (stop c aborted_concluded r p) (advance c r q)
          (λ e. stop-Advances c aborted_concluded r p w (λ i. inr (inr refl)) v)
          (λ on.
            let same = weight-launch_safe c p v.bound in
            subst (λ m. Advances c m (advance c r q)) same
              (advance-Advances c r q
                (launch_safe-keeps (λ s. s.terminal ≡ false) c
                  (λ s below room safe h. unfold launch in h) k p whole on)
                (omega (arith, same)) (launch_safe_stops c k p whole)
                (launch_safe-keeps (Passed c) c (λ s below room safe h. launch-Passed c s below h) k
                  p whole v))))

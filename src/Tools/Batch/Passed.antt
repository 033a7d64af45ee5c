-- ===== src/Tools/Batch/Passed.antt =====
-- Every call that a batch has passed is active or answered (tools/registry.go: runRollingBatch).
use awesome_go_agents.Base.{
  ℕ, zero, suc, ◌+◌, ◌≡◌, ◌≢◌, ◌<◌, ◌≤◌, ◌⊎◌, inl, inr, refl, sym, ap, ◌∙◌, Bool, true, false, List,
  [], ◌∷◌, ◌==◌, arith, length, Bool-cases,
}
use mathlib.Core.Path.{subst}
use awesome_go_agents.Tools.Batch.{
  Setup, Pool, Outcome, aborted_cancelled, aborted_concluded, completed, set_outcome, launch,
  finish, note, abort_rest, run_exclusive,
}
use awesome_go_agents.Tools.Batch.Actives.{is_active, is_active-append, is_active-remove}

-- The call ran and its own completion stands at its place, or it was never started.
abbrev pub Answers : Setup → ℕ → Outcome → Type 0
Answers c i o =
    (o ≡ completed (c.completion i)) ⊎ ((o ≡ aborted_cancelled) ⊎ (o ≡ aborted_concluded))

-- Every call that is passed is active or answered.
pub record Passed (c : Setup) (p : Pool) : Type 0 where
  pub bound : p.next ≤ c.total
  pub answered : (i : ℕ) → i < p.next → (is_active i p.active ≡ true) ⊎ Answers c i (p.outcomes i)

pub launch-Passed : (c : Setup) (p : Pool) → p.next < c.total → Passed c p → Passed c (launch p)
unfolding launch
launch-Passed c p h v = record {
  bound = omega arith;
  answered = λ i below. elim (Bool-cases (p.next == i)) [
    | inl same ↦ inl (ground (arith, is_active-append i p.next p.active, same))
    | inr other ↦ elim (v.answered i (ground arith)) [
      | inl is ↦ inl (ground (arith, is_active-append i p.next p.active, is))
      | inr done ↦ inr done
    ]
  ];
}

set_outcome-Answers :
    (c : Setup) (i j : ℕ) (o : Outcome) (f : ℕ → Outcome)
    → Answers c i o
    → (i ≢ j → Answers c j (f j))
    → Answers c j (set_outcome i o f j)
unfolding set_outcome
set_outcome-Answers c i j o f own other = elim (Bool-cases (i == j)) [
  | inl same ↦ rw same (subst (λ k. Answers c k o) (ground arith) own)
  | inr differ ↦ rw differ (other (ground arith))
]

pub finish-Passed :
    (c : Setup) (counts : Bool) (p : Pool) (i : ℕ)
    → Passed c p
    → Passed c (note c counts i (finish c i p))
unfolding note finish set_outcome
finish-Passed c counts p i v = record {
  bound = v.bound;
  answered = λ j below. elim (Bool-cases (i == j)) [
    | inl same ↦ inr (inl (rw same (ap (λ k. completed (c.completion k)) (ground arith))))
    | inr other ↦ elim (v.answered j below) [
      | inl is ↦ inl (is_active-remove i j p.active (ground arith) ∙ is)
      | inr done ↦ inr (rw other done)
    ]
  ];
}

-- The call at the counter is answered at once.
answer_next :
    (c : Setup) (p q : Pool) (o : Outcome)
    → p.next < c.total
    → Answers c p.next o
    → q.next ≡ suc p.next
    → q.active ≡ p.active
    → q.outcomes ≡ set_outcome p.next o p.outcomes
    → Passed c p
    → Passed c q
answer_next c p q o h own next active outcomes v = record {
  bound = omega arith;
  answered = λ j below. elim (Bool-cases (p.next == j)) [
    | inl same ↦ inr (
        subst (λ f. Answers c j (f j)) (sym outcomes)
          (set_outcome-Answers c p.next j o p.outcomes own (λ ne. absurd (ne (ground arith)))))
    | inr differ ↦ elim (v.answered j (ground arith)) [
      | inl is ↦ inl (ap (is_active j) active ∙ is)
      | inr done ↦ inr (
          subst (λ f. Answers c j (f j)) (sym outcomes)
            (set_outcome-Answers c p.next j o p.outcomes own (λ ne. done)))
    ]
  ];
}

pub abort_rest-Passed :
    (c : Setup) (o : Outcome)
    → ((i : ℕ) → Answers c i o)
    → (remaining : ℕ) (p : Pool) → p.next + remaining ≡ c.total
    → Passed c p
    → Passed c (abort_rest o remaining p)
unfolding abort_rest
abort_rest-Passed c o own zero p e v = v
abort_rest-Passed c o own (suc remaining) p e v =
    let q : Pool = record p { next = suc p.next; outcomes = set_outcome p.next o p.outcomes } in
    abort_rest-Passed c o own remaining q (omega arith)
      (answer_next c p q o (omega arith) (own p.next) refl refl refl v)

pub run_exclusive-Passed :
    (c : Setup) (p : Pool) → p.next < c.total → Passed c p → Passed c (run_exclusive c p)
unfolding run_exclusive
run_exclusive-Passed c p h v =
    answer_next c p (run_exclusive c p) (completed (c.completion p.next)) h (inl refl) refl refl
      refl v

-- The end: nothing is active, and every call is answered.
pub record IsDone (c : Setup) (q : Pool) : Type 0 where
  pub idle : length q.active ≡ 0
  pub answers : (i : ℕ) → i < c.total → Answers c i (q.outcomes i)

none_active : (i : ℕ) (js : List ℕ) → length js ≡ 0 → is_active i js ≡ false
none_active i [] h = refl
none_active i (j ∷ js) h = absurd (omega arith)

pub Passed-IsDone :
    (c : Setup) (q : Pool) → q.next ≡ c.total → length q.active ≡ 0 → Passed c q → IsDone c q
Passed-IsDone c q e idle v = record {
  idle = idle;
  answers = λ i below. elim (v.answered i (omega arith)) [
    | inl is ↦ absurd (cc (is, none_active i q.active idle))
    | inr done ↦ done
  ];
}

-- ===== src/Agent/Turn/Spending.antt =====
-- What the attempts of one step call (agent/loop.go: runTurnSteps).
use awesome_go_agents.Base.{
  ℕ, zero, suc, ◌+◌, ◌≤◌, ◌≡◌, refl, ap, ◌∙◌, Bool, false, not, ◌&&◌, Option, none, some, List, [],
  ◌∷◌, by_test, arith,
}
use mathlib.Core.Path.{subst}
use awesome_go_agents.Agent.Turn.{
  StepInput, Call, stopped_heartbeat, compacted, stepped, StepError, context_overflow,
  provider_overflow, tool_deferred, policy_waiting, stopped, other, StepOutcome, stepped_on, done,
  errored, Host, TurnResult, err_lease_lost, failed, Verdict, proceeds, overflowed, returns,
  Attempted, passed, quit, end_turn, heartbeat, give_up, verdict, attempt_once, attempts, consult,
  settle, overflows,
}

-- The calls of `step` and of the compactor.
abbrev pub steps_in : List Call → ℕ
steps_in [] = 0
steps_in (stepped step attempt initial inputs ∷ t) = suc (steps_in t)
steps_in (_ ∷ t) = steps_in t

abbrev pub compactions_in : List Call → ℕ
compactions_in [] = 0
compactions_in (compacted ∷ t) = suc (compactions_in t)
compactions_in (_ ∷ t) = compactions_in t

abbrev pub effort : List Call → ℕ × ℕ
effort t = (steps_in t, compactions_in t)

-- At most so many of them.
abbrev pub Within : ℕ → ℕ → List Call → Type 0
Within s c t = (steps_in t ≤ s) × (compactions_in t ≤ c)

-- Where the inner loop passes, what it may still spend is left to the next pass.
abbrev pub Spent : ℕ → ℕ → Attempted × List Call → Type 0
Spent s c (quit o, t) = Within s c t
Spent s c (passed last left made, t) = (steps_in t + left ≤ s) × (compactions_in t + left ≤ c)

pub same-Within : (s c : ℕ) (t t' : List Call) → effort t' ≡ effort t → Within s c t → Within s c t'
same-Within s c t t' e (h, k) =
    let p : steps_in t' ≡ steps_in t = ap (λ (x : ℕ × ℕ). x.0) e in
    let q : compactions_in t' ≡ compactions_in t = ap (λ (x : ℕ × ℕ). x.1) e in
    (omega arith, omega arith)

pub consult-effort :
    {A : Type 0} (default : A) (c : Call) (f : Option (List Call → A)) (t : List Call)
    → effort (c ∷ t) ≡ effort t
    → effort (consult default c f t).1 ≡ effort t
unfolding consult
consult-effort default c none t h = refl
consult-effort default c (some f) t h = h

settle-Spent :
    (v : Verdict) (left made s c : ℕ) (retried : Attempted × List Call) (t : List Call)
    → steps_in t + left ≤ s
    → compactions_in t + left ≤ c
    → Spent s c retried
    → Spent s c (settle v left made retried t)
unfolding settle
settle-Spent (proceeds reason) left made s c retried t h k r = (h, k)
settle-Spent (returns o) left made s c retried t h k r = (omega arith, omega arith)
settle-Spent overflowed left made s c retried t h k r = r

module _ (host : Host) where
  give_up-effort :
      (e : StepError) (r : TurnResult) (t : List Call) → effort (give_up host e r t).1 ≡ effort t
  unfolding give_up end_turn
  give_up-effort context_overflow r t = refl
  give_up-effort provider_overflow r t = refl
  give_up-effort tool_deferred r t = refl
  give_up-effort policy_waiting r t = refl
  give_up-effort stopped r t = refl
  give_up-effort other r t = refl

  heartbeat-effort : (t : List Call) → effort (heartbeat host t).1 ≡ effort t
  unfolding heartbeat
  heartbeat-effort t =
      by_test (λ (p : Bool × List Call). effort p.1 ≡ effort t) (host.canceled t)
        (host.heartbeat_lost (stopped_heartbeat ∷ t), stopped_heartbeat ∷ t) (false, t) (λ _. refl)
        (λ _. refl)

  verdict-effort :
      (o : StepOutcome) (r : TurnResult) (t : List Call) → effort (verdict host o r t).1 ≡ effort t
  unfolding verdict
  verdict-effort stepped_on r t = refl
  verdict-effort (done reason) r t = refl
  verdict-effort (errored e) r t =
      by_test (λ (p : Verdict × List Call). effort p.1 ≡ effort t) (heartbeat host t).0
        (returns (failed err_lease_lost), (heartbeat host t).1)
        (give_up host e r (heartbeat host t).1) (λ _. heartbeat-effort t)
        (λ _. give_up-effort e r (heartbeat host t).1 ∙ heartbeat-effort t)

  attempt_once-steps :
      (step attempt : ℕ) (initial : Option StepInput) (inputs : List StepInput) (c : ℕ)
      (r : TurnResult) (t : List Call)
      → let (v, made, t') = attempt_once host step attempt initial inputs c r t in
        effort t' ≡ (suc (steps_in t), compactions_in t)
  unfolding attempt_once
  attempt_once-steps step attempt initial inputs c r t =
      verdict-effort (host.step (stepped step attempt initial inputs ∷ t)).0 r
        (stepped step attempt initial inputs ∷ t)

  pub attempts-Spent :
      (left step attempt : ℕ) (initial : Option StepInput) (inputs : List StepInput) (c : ℕ)
      (r : TurnResult) (t : List Call)
      → Spent
          (steps_in t + left + 1)
          (compactions_in t + left)
          (attempts host left step attempt initial inputs c r t)
  unfolding attempts
  attempts-Spent zero step attempt initial inputs c r t =
      let (v, made, t') = attempt_once host step attempt initial inputs c r t in
      let e = attempt_once-steps step attempt initial inputs c r t in
      let p : steps_in t' ≡ suc (steps_in t) = ap (λ (x : ℕ × ℕ). x.0) e in
      let q : compactions_in t' ≡ compactions_in t = ap (λ (x : ℕ × ℕ). x.1) e in
      settle-Spent v zero made (steps_in t + 0 + 1) (compactions_in t + 0) (overflows t') t'
        (omega arith) (omega arith) (omega arith, omega arith)
  attempts-Spent (suc left) step attempt initial inputs c r t =
      let (v, made, t') = attempt_once host step attempt initial inputs c r t in
      let e = attempt_once-steps step attempt initial inputs c r t in
      let p : steps_in t' ≡ suc (steps_in t) = ap (λ (x : ℕ × ℕ). x.0) e in
      let q : compactions_in t' ≡ compactions_in t = ap (λ (x : ℕ × ℕ). x.1) e in
      let t'' = compacted ∷ t' in
      let s = steps_in t + suc left + 1 in
      let m = compactions_in t + suc left in
      let es : steps_in t' + left + 1 ≡ s = omega arith in
      let em : suc (compactions_in t') + left ≡ m = omega arith in
      settle-Spent v (suc left) made s m _ t' (omega arith) (omega arith) (
        by_test (Spent s m) (host.compacts t'' && not (host.canceled t''))
          (attempts host left step (suc attempt) none inputs (suc made) r t'') (overflows t'')
          (λ _.
            subst
              (λ x. Spent x m (attempts host left step (suc attempt) none inputs (suc made) r t''))
              es
              (subst
                (λ y.
                  Spent (steps_in t' + left + 1) y
                    (attempts host left step (suc attempt) none inputs (suc made) r t''))
                em (attempts-Spent left step (suc attempt) none inputs (suc made) r t'')))
          (λ _. (omega arith, omega arith)))

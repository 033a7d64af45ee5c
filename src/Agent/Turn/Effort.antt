-- ===== src/Agent/Turn/Effort.antt =====
-- How much the loop of a turn calls (agent/loop.go: runTurnSteps).
use awesome_go_agents.Base.{
  ℕ, zero, suc, ◌+◌, ◌-◌, ◌≤◌, ◌≡◌, refl, ap, ◌∙◌, Option, none, some, List, [], ◌∷◌, ℤ,
  if◌then◌else◌, by_test, arith,
}
use awesome_go_agents.Agent.Turn.{
  StepInput, Call, stopped_heartbeat, claimed, asked, Decision, step_continue, step_stop, step_wait,
  policy_error, unknown_decision, Host, TurnResult, err_lease_lost, Outcome, interrupted, failed,
  Attempted, passed, quit, end_turn, attempts, claim_inputs, ask_policy, decide, check_canceled,
  unless, conclude, reasoned, counted, clamp, passes, run_turn_steps,
}
use awesome_go_agents.Agent.Turn.Spending.{
  steps_in, compactions_in, effort, Within, Spent, same-Within, consult-effort, attempts-Spent,
}

module _ (host : Host) where
  check_canceled-effort :
      (r : TurnResult) (t : List Call) → effort (check_canceled host r t).1 ≡ effort t
  unfolding check_canceled end_turn
  check_canceled-effort r t =
      let Same : Option Outcome × List Call → Type 0 = λ p. effort p.1 ≡ effort t in
      let t' = stopped_heartbeat ∷ t in
      let (o', t'') = end_turn host "cancelled" (interrupted (reasoned "interrupted" r)) t' in
      by_test Same (host.canceled t)
        (if host.heartbeat_lost t' then (some (failed err_lease_lost), t') else (some o', t''))
        (none, t)
        (λ _.
          by_test Same (host.heartbeat_lost t') (some (failed err_lease_lost), t') (some o', t'')
            (λ _. refl) (λ _. refl))
        (λ _. refl)

  decide-effort :
      (d : Decision) (r : TurnResult) (t : List Call) → effort (decide host d r t).1 ≡ effort t
  unfolding decide end_turn
  decide-effort step_continue r t = refl
  decide-effort step_stop r t = refl
  decide-effort step_wait r t = refl
  decide-effort policy_error r t = refl
  decide-effort unknown_decision r t = refl

  -- Neither what is asked before a step.
  asked-effort : (t : List Call) → effort (ask_policy host (claim_inputs host t).1).1 ≡ effort t
  unfolding ask_policy claim_inputs
  asked-effort t =
      consult-effort step_continue asked host.policy (claim_inputs host t).1 refl
      ∙ consult-effort [] claimed host.next_step t refl

  unless-Within :
      (o : Option Outcome) (t : List Call) (rest : Outcome × List Call) (s c : ℕ)
      → Within s c t
      → Within s c rest.1
      → Within s c (unless o t rest).1
  unfolding unless
  unless-Within (some o) t rest s c h k = h
  unless-Within none t rest s c h k = k

  conclude-Within :
      (a : Attempted) (r : TurnResult) (t : List Call) (goes_on : ℕ → ℕ → Outcome × List Call)
      (s c s' c' : ℕ)
      → s ≤ s'
      → c ≤ c'
      → Spent s c (a, t)
      → ((left made : ℕ)
          → steps_in t + left ≤ s
          → compactions_in t + left ≤ c
          → Within s' c' (goes_on left made).1)
      → Within s' c' (conclude host a r t goes_on).1
  unfolding conclude end_turn
  conclude-Within (quit o) r t goes_on s c s' c' hs hc (h, k) next = (omega arith, omega arith)
  conclude-Within (passed (some reason) left made) r t goes_on s c s' c' hs hc (h, k) next =
      (omega arith, omega arith)
  conclude-Within (passed none left made) r t goes_on s c s' c' hs hc (h, k) next =
      next left made h k

  passes-Within :
      (n left step c : ℕ) (initial : Option StepInput) (r : TurnResult) (t : List Call)
      → Within
          (steps_in t + n + left)
          (compactions_in t + left)
          (passes host n left step c initial r t).1
  unfolding passes end_turn
  passes-Within zero left step c initial r t = (omega arith, omega arith)
  passes-Within (suc n) left step c initial r t =
      let (over, t1) = check_canceled host r t in
      let (inputs, t2) = claim_inputs host t1 in
      let (decision, t3) = ask_policy host t2 in
      let (refused, t4) = decide host decision r t3 in
      let (tried, t5) = attempts host left step 0 initial inputs c r t4 in
      let s = steps_in t + suc n + left in
      let m = compactions_in t + left in
      let within : Within s m t = (omega arith, omega arith) in
      let e1 : effort t1 ≡ effort t = check_canceled-effort r t in
      let e4 : effort t4 ≡ effort t = decide-effort decision r t3 ∙ asked-effort t1 ∙ e1 in
      let p : steps_in t4 ≡ steps_in t = ap (λ (x : ℕ × ℕ). x.0) e4 in
      let q : compactions_in t4 ≡ compactions_in t = ap (λ (x : ℕ × ℕ). x.1) e4 in
      unless-Within over t1 _ s m (same-Within s m t t1 e1 within) (
        unless-Within refused t4 _ s m (same-Within s m t t4 e4 within) (
          conclude-Within tried r t5 _ (steps_in t4 + left + 1) (compactions_in t4 + left) s m
            (omega arith) (omega arith) (attempts-Spent host left step 0 initial inputs c r t4)
            (λ left' made h k.
              let (h', k') = passes-Within n left' (suc step) made none (counted made r) t5 in
              (omega arith, omega arith))))

-- However its calls answer, a turn makes at most `cfg.MaxStepsPerTurn` steps from its first step on, and
-- one more for every retry; and its loop compacts the context, after a step that overflowed, at most
-- `cfg.MaxContextRetries` times. (Compactions that a step makes itself are not counted.)
pub run_turn_steps-effort :
    (host : Host) (max_steps max_retries : ℕ) (start : ℤ) (initial : Option StepInput)
    (r : TurnResult)
    → let (o, t) = run_turn_steps host max_steps max_retries start initial r in
      (steps_in t ≤ (max_steps - clamp start) + max_retries) × (compactions_in t ≤ max_retries)
unfolding run_turn_steps
run_turn_steps-effort host max_steps max_retries start initial r =
    let (h, k) =
      passes-Within host (max_steps - clamp start) max_retries (clamp start) 0 initial r [] in
    (omega arith, omega arith)

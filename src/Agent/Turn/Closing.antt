-- ===== src/Agent/Turn/Closing.antt =====
-- How a turn is closed (agent/loop.go: runTurnSteps).
use awesome_go_agents.Base.{
  ℕ, zero, suc, ◌-◌, ◌≡◌, refl, Option, none, some, List, [], ◌∷◌, ℤ, if◌then◌else◌, by_test,
}
use awesome_go_agents.Agent.Turn.{
  StepInput, Call, stopped_heartbeat, claimed, asked, Decision, step_continue, step_stop, step_wait,
  policy_error, unknown_decision, Host, TurnResult, err_lease_lost, err_policy, Outcome, finished,
  interrupted, policy_stopped, failed, Attempted, passed, quit, end_turn, attempts, claim_inputs,
  ask_policy, decide, check_canceled, unless, conclude, reasoned, counted, clamp, passes,
  run_turn_steps,
}
use awesome_go_agents.Agent.Turn.Attempts.{
  interrupted_turn, lost_lease, stopped_turn, waiting_policy, policy_failed, unknown_answer,
  finished_turn, reasons, Closes, Returned, Tried, Decided, closed_by, consult-reasons,
  end_turn-Returned, attempts-Tried,
}

module _ (host : Host) where
  check_canceled-Decided :
      (r : TurnResult) (t : List Call) → reasons t ≡ [] → Decided (check_canceled host r t)
  unfolding check_canceled
  check_canceled-Decided r t h =
      let t' = stopped_heartbeat ∷ t in
      let o = interrupted (reasoned "interrupted" r) in
      let (o', t'') = end_turn host "cancelled" o t' in
      by_test Decided (host.canceled t)
        (if host.heartbeat_lost t' then (some (failed err_lease_lost), t') else (some o', t''))
        (none, t)
        (λ _.
          by_test Decided (host.heartbeat_lost t') (some (failed err_lease_lost), t') (some o', t'')
            (λ _. rw h lost_lease)
            (λ _. end_turn-Returned host "cancelled" o t' h (interrupted_turn _ refl)))
        (λ _. h)

  decide-Decided :
      (d : Decision) (r : TurnResult) (t : List Call) → reasons t ≡ [] → Decided (decide host d r t)
  unfolding decide
  decide-Decided step_continue r t h = h
  decide-Decided step_stop r t h =
      end_turn-Returned host "policy_stop" (policy_stopped (reasoned "policy_stop" r)) t h
        (stopped_turn _ refl)
  decide-Decided step_wait r t h = rw h waiting_policy
  decide-Decided policy_error r t h = closed_by (failed err_policy) "policy_error" t h policy_failed
  decide-Decided unknown_decision r t h = rw h unknown_answer

  claim_inputs-reasons : (t : List Call) → reasons t ≡ [] → reasons (claim_inputs host t).1 ≡ []
  unfolding claim_inputs
  claim_inputs-reasons t h = consult-reasons [] claimed host.next_step t h h

  ask_policy-reasons : (t : List Call) → reasons t ≡ [] → reasons (ask_policy host t).1 ≡ []
  unfolding ask_policy
  ask_policy-reasons t h = consult-reasons step_continue asked host.policy t h h

  unless-Returned :
      (o : Option Outcome) (t : List Call) (rest : Outcome × List Call)
      → Decided (o, t)
      → (reasons t ≡ [] → Returned rest)
      → Returned (unless o t rest)
  unfolding unless
  unless-Returned (some o) t rest h k = h
  unless-Returned none t rest h k = k h

  conclude-Returned :
      (a : Attempted) (r : TurnResult) (t : List Call) (goes_on : ℕ → ℕ → Outcome × List Call)
      → Tried (a, t)
      → (reasons t ≡ [] → (left made : ℕ) → Returned (goes_on left made))
      → Returned (conclude host a r t goes_on)
  unfolding conclude
  conclude-Returned (quit o) r t goes_on h k = h
  conclude-Returned (passed (some reason) left made) r t goes_on h k =
      end_turn-Returned host reason (finished (reasoned reason (counted made r))) t h
        (finished_turn _)
  conclude-Returned (passed none left made) r t goes_on h k = k h left made

  passes-Returned :
      (n left step c : ℕ) (initial : Option StepInput) (r : TurnResult) (t : List Call)
      → reasons t ≡ []
      → Returned (passes host n left step c initial r t)
  unfolding passes
  passes-Returned zero left step c initial r t h =
      end_turn-Returned host "turn_limit" (finished (reasoned "turn_limit" r)) t h (finished_turn _)
  passes-Returned (suc n) left step c initial r t h =
      let (over, t1) = check_canceled host r t in
      let (inputs, t2) = claim_inputs host t1 in
      let (decision, t3) = ask_policy host t2 in
      let (refused, t4) = decide host decision r t3 in
      let (tried, t5) = attempts host left step 0 initial inputs c r t4 in
      unless-Returned over t1 _ (check_canceled-Decided r t h) (λ h1.
        unless-Returned refused t4 _
          (decide-Decided decision r t3 (ask_policy-reasons t2 (claim_inputs-reasons t1 h1)))
          (λ h4.
            conclude-Returned tried r t5 _
              (attempts-Tried host left step 0 initial inputs c r t4 h4)
              (λ h5 left' made.
                passes-Returned n left' (suc step) made none (counted made r) t5 h5)))

-- However the calls of a turn answer, its loop appends at most one turn/end, with the reason that
-- belongs to what it returns. A turn that is not closed waits for its policy or for a deferred tool,
-- lost its lease, or got a decision that is none.
pub run_turn_steps-Closes :
    (host : Host) (max_steps max_retries : ℕ) (start : ℤ) (initial : Option StepInput)
    (r : TurnResult)
    → let (o, t) = run_turn_steps host max_steps max_retries start initial r in Closes o (reasons t)
unfolding run_turn_steps
run_turn_steps-Closes host max_steps max_retries start initial r =
    passes-Returned host (max_steps - clamp start) max_retries (clamp start) 0 initial r [] refl

-- ===== src/Agent/Turn.antt =====
-- The steps of one turn of the agent loop (agent/loop.go: runTurnSteps; agent/policy.go).
--
-- The trace, latest call first, records what the loop calls. What a call answers is given by a `Host`,
-- as a function of the trace so far: a step, a policy, the context, the append of the turn's end.
-- An error is its class, by the first of the tests of the loop that it meets. The messages that
-- `finish` puts into a result are left out.
use awesome_go_agents.Base.{
  ℕ, zero, suc, ◌+◌, ◌-◌, Bool, true, false, not, ◌&&◌, Option, none, some, List, [], ◌∷◌, ℤ, pos,
  negsuc, String, if◌then◌else◌,
}
use awesome_go_agents.Session.Event.{EventType}
pub mod Attempts
pub mod Closing
pub mod Spending
pub mod Effort

-- `StepInput`
pub record StepInput : Type 0 where
  pub id : String
  pub type : EventType
  pub text : String

pub data Call : Type 0 where
  stopped_heartbeat claimed asked compacted : Call
  -- the number of the step and of the attempt, the initial input and the claimed ones
  stepped : ℕ → ℕ → Option StepInput → List StepInput → Call
  -- the append of a turn/end with that reason
  ended : String → Call

-- `StepDecision`, with the policy's error and any other number.
pub data Decision : Type 0 where
  step_continue step_stop step_wait policy_error unknown_decision : Decision

pub data StepError : Type 0 where
  context_overflow provider_overflow tool_deferred policy_waiting stopped other : StepError

-- What `step` returns.
pub data StepOutcome : Type 0 where
  stepped_on : StepOutcome
  done : String → StepOutcome
  errored : StepError → StepOutcome

pub record Host : Type 0 where
  -- `ctx.Err() != nil`
  pub canceled : List Call → Bool
  -- an error of `stopHeartbeat`
  pub heartbeat_lost : List Call → Bool
  -- `cfg.NextStep` and `cfg.Policy`, which may be nil
  pub next_step : Option (List Call → List StepInput)
  pub policy : Option (List Call → Decision)
  -- with the number of compactions that the step made
  pub step : List Call → StepOutcome × ℕ
  pub compacts : List Call → Bool
  pub append_fails : List Call → Bool

pub record TurnResult : Type 0 where
  pub turns : ℕ
  pub compact_count : ℕ
  pub finished_reason : String

pub data LoopError : Type 0 where
  err_lease_lost err_append err_policy err_policy_waiting err_unknown_decision : LoopError
  err_context_overflow err_tool_deferred err_step : LoopError

-- What is returned: a result, a result with an error beside it, or an error.
pub data Outcome : Type 0 where
  finished interrupted policy_stopped : TurnResult → Outcome
  failed : LoopError → Outcome

-- What the loop does next: it has done its step, tries it again after a compaction, or returns.
pub data Verdict : Type 0 where
  proceeds : Option String → Verdict
  overflowed : Verdict
  returns : Outcome → Verdict

pub data Attempted : Type 0 where
  -- why the step is the last one, the retries left and the compactions
  passed : Option String → ℕ → ℕ → Attempted
  quit : Outcome → Attempted

abbrev pub reasoned : String → TurnResult → TurnResult
reasoned reason result = record result { finished_reason = reason }

abbrev pub overflows : List Call → Attempted × List Call
overflows t = (quit (failed err_context_overflow), ended "context_overflow" ∷ t)

-- With what comes of a retry.
unfoldable pub settle : Verdict → ℕ → ℕ → Attempted × List Call → List Call → Attempted × List Call
settle (proceeds reason) left made retried t = (passed reason left made, t)
settle (returns o) left made retried t = (quit o, t)
settle overflowed left made retried t = retried

unfoldable pub unless : Option Outcome → List Call → Outcome × List Call → Outcome × List Call
unless (some o) t rest = (o, t)
unless none t rest = rest

abbrev pub counted : ℕ → TurnResult → TurnResult
counted compactions result = record result { turns = 1; compact_count = compactions }

-- `startStep`, below 0 for 0.
abbrev pub clamp : ℤ → ℕ
clamp (pos n) = n
clamp (negsuc n) = 0

-- A function of the configuration that may be nil.
unfoldable pub consult :
    {A : Type 0} → A → Call → Option (List Call → A) → List Call → A × List Call
consult default c none t = (default, t)
consult default c (some f) t = (f (c ∷ t), c ∷ t)

module _ (host : Host) where
  -- `appendTurnEnd`, whose error counts, before what is returned.
  unfoldable pub end_turn : String → Outcome → List Call → Outcome × List Call
  end_turn reason o t =
      let t' = ended reason ∷ t in ((if host.append_fails t' then failed err_append else o), t')

  -- The heartbeat is stopped where the context is done; the flag says that the lease is lost.
  unfoldable pub heartbeat : List Call → Bool × List Call
  heartbeat t =
      if host.canceled t
      then (host.heartbeat_lost (stopped_heartbeat ∷ t), stopped_heartbeat ∷ t)
      else (false, t)

  -- The errors, by their tests.
  unfoldable pub give_up : StepError → TurnResult → List Call → Verdict × List Call
  unfolding end_turn
  give_up context_overflow result t =
      (returns (failed err_context_overflow), ended "context_overflow" ∷ t)
  give_up provider_overflow result t = (overflowed, t)
  give_up tool_deferred result t = (returns (failed err_tool_deferred), t)
  give_up policy_waiting result t = (returns (failed err_policy_waiting), ended "policy_wait" ∷ t)
  give_up stopped result t =
      (returns (interrupted (reasoned "interrupted" result)), ended "cancelled" ∷ t)
  give_up other result t = let (o, t') = end_turn "error" (failed err_step) t in (returns o, t')

  unfoldable pub verdict : StepOutcome → TurnResult → List Call → Verdict × List Call
  unfolding heartbeat give_up
  verdict stepped_on result t = (proceeds none, t)
  verdict (done reason) result t = (proceeds (some reason), t)
  verdict (errored e) result t =
      let (lost, t') = heartbeat t in
      if lost then (returns (failed err_lease_lost), t') else give_up e result t'

  -- One call of `step` and the test of its error, with the compactions made.
  unfoldable pub attempt_once :
      ℕ
      → ℕ
      → Option StepInput
      → List StepInput
      → ℕ
      → TurnResult
      → List Call
      → Verdict × ℕ × List Call
  unfolding verdict
  attempt_once step attempt initial inputs compactions result t =
      let t' = stepped step attempt initial inputs ∷ t in
      let (outcome, more) = host.step t' in
      let (v, t'') = verdict outcome result t' in (v, compactions + more, t'')

  -- The inner loop, on the retries that are left.
  unfoldable pub attempts :
      ℕ
      → ℕ
      → ℕ
      → Option StepInput
      → List StepInput
      → ℕ
      → TurnResult
      → List Call
      → Attempted × List Call
  unfolding attempt_once settle
  attempts zero step attempt initial inputs compactions result t =
      let (v, made, t') = attempt_once step attempt initial inputs compactions result t in
      settle v zero made (overflows t') t'
  attempts (suc left) step attempt initial inputs compactions result t =
      let (v, made, t') = attempt_once step attempt initial inputs compactions result t in
      let t'' = compacted ∷ t' in
      let again = attempts left step (suc attempt) none inputs (suc made) result t'' in
      settle v (suc left) made
        (if host.compacts t'' && not (host.canceled t'') then again else overflows t'') t'

  unfoldable pub claim_inputs : List Call → List StepInput × List Call
  unfolding consult
  claim_inputs t = consult [] claimed host.next_step t

  unfoldable pub ask_policy : List Call → Decision × List Call
  unfolding consult
  ask_policy t = consult step_continue asked host.policy t

  -- The decisions that end the loop, and none where it goes on.
  unfoldable pub decide : Decision → TurnResult → List Call → Option Outcome × List Call
  unfolding end_turn
  decide step_continue result t = (none, t)
  decide step_stop result t =
      let (o, t') = end_turn "policy_stop" (policy_stopped (reasoned "policy_stop" result)) t in
      (some o, t')
  decide step_wait result t = (some (failed err_policy_waiting), t)
  decide policy_error result t = (some (failed err_policy), ended "policy_error" ∷ t)
  decide unknown_decision result t = (some (failed err_unknown_decision), t)

  -- The head of a pass: a context that is done ends the turn.
  unfoldable pub check_canceled : TurnResult → List Call → Option Outcome × List Call
  unfolding end_turn
  check_canceled result t =
      if host.canceled t
      then (let t' = stopped_heartbeat ∷ t in
          if host.heartbeat_lost t'
          then (some (failed err_lease_lost), t')
          else (let (o, t'') =
                end_turn "cancelled" (interrupted (reasoned "interrupted" result)) t' in
              (some o, t'')))
      else (none, t)

  -- What follows the inner loop; `goes_on` is the next pass.
  unfoldable pub conclude :
      Attempted → TurnResult → List Call → (ℕ → ℕ → Outcome × List Call) → Outcome × List Call
  unfolding end_turn
  conclude (quit o) result t goes_on = (o, t)
  conclude (passed (some reason) left made) result t goes_on =
      end_turn reason (finished (reasoned reason (counted made result))) t
  conclude (passed none left made) result t goes_on = goes_on left made

  -- The outer loop, on the passes that are left.
  unfoldable pub passes :
      ℕ → ℕ → ℕ → ℕ → Option StepInput → TurnResult → List Call → Outcome × List Call
  unfolding end_turn attempts claim_inputs ask_policy decide check_canceled unless conclude
  passes zero left step compactions initial result t =
      end_turn "turn_limit" (finished (reasoned "turn_limit" result)) t
  passes (suc n) left step compactions initial result t =
      let (over, t1) = check_canceled result t in
      let (inputs, t2) = claim_inputs t1 in
      let (decision, t3) = ask_policy t2 in
      let (refused, t4) = decide decision result t3 in
      let (tried, t5) = attempts left step 0 initial inputs compactions result t4 in
      unless over t1 (
        unless refused t4 (
          conclude tried result t5
            (λ left' made. passes n left' (suc step) made none (counted made result) t5)))

  -- `runTurnSteps`, with `cfg.MaxStepsPerTurn` and `cfg.MaxContextRetries`.
  unfoldable pub run_turn_steps : ℕ → ℕ → ℤ → Option StepInput → TurnResult → Outcome × List Call
  unfolding passes
  run_turn_steps max_steps max_retries start initial result =
      passes (max_steps - clamp start) max_retries (clamp start) 0 initial result []

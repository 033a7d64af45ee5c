-- ===== src/Scenarios/Turns.antt =====
-- Turns of the agent loop (agent/loop.go: runTurnSteps).
use awesome_go_agents.Base.{
  ℕ, ◌+◌, ◌-◌, ◌≤◌, ◌≡◌, refl, true, false, none, some, List, [], ◌∷◌, pos, if◌then◌else◌, ◌==◌,
}
use awesome_go_agents.Session.Event.{steering_message}
use awesome_go_agents.Agent.Turn.{
  StepInput, Call, claimed, asked, compacted, stepped, ended, step_stop, provider_overflow,
  StepOutcome, stepped_on, done, errored, Host, TurnResult, Outcome, finished, policy_stopped,
  run_turn_steps,
}
use awesome_go_agents.Agent.Turn.Attempts.{reasons, Closes}
use awesome_go_agents.Agent.Turn.Closing.{run_turn_steps-Closes}
use awesome_go_agents.Agent.Turn.Spending.{steps_in, compactions_in}
use awesome_go_agents.Agent.Turn.Effort.{run_turn_steps-effort}

abbrev asks : StepInput
asks = record { id = "i"; type = steering_message; text = "hello" }

-- The first call of the model overflows, the second one wants tools, the third is the last.
abbrev answers : ℕ → StepOutcome
answers n = if n == 1 then errored provider_overflow else if n == 2 then stepped_on else done "stop"

abbrev host : Host
host = record {
  canceled = λ t. false;
  heartbeat_lost = λ t. false;
  next_step = none;
  policy = none;
  step = λ t. (answers (steps_in t), 0);
  compacts = λ t. true;
  append_fails = λ t. false;
}

abbrev blank_result : TurnResult
blank_result = record { turns = 0; compact_count = 0; finished_reason = "" }

abbrev turn : Outcome × List Call
turn = run_turn_steps host 6 1 (pos 0) (some asks) blank_result

turn_lem : turn ≡ (
  finished (record { turns = 1; compact_count = 1; finished_reason = "stop" }),
  ended "stop"
      ∷ stepped 1 0 none []
      ∷ stepped 0 1 none []
      ∷ compacted
      ∷ stepped 0 0 (some asks) []
      ∷ [],
)
unfolding run_turn_steps
turn_lem = refl

run_turn_steps-Closes_example : Closes turn.0 (reasons turn.1)
run_turn_steps-Closes_example = run_turn_steps-Closes host 6 1 (pos 0) (some asks) blank_result

run_turn_steps-effort_example : (steps_in turn.1 ≤ 6 - 0 + 1) × (compactions_in turn.1 ≤ 1)
run_turn_steps-effort_example = run_turn_steps-effort host 6 1 (pos 0) (some asks) blank_result

-- A policy that stops the turn after its inputs have been taken from the inbox: no step gets them.
abbrev stopping : Host
stopping = record host { next_step = some (λ t. asks ∷ []); policy = some (λ t. step_stop) }

stopping_lem : run_turn_steps stopping 6 1 (pos 0) none blank_result ≡ (
  policy_stopped (record blank_result { finished_reason = "policy_stop" }),
  ended "policy_stop" ∷ asked ∷ claimed ∷ [],
)
unfolding run_turn_steps
stopping_lem = refl

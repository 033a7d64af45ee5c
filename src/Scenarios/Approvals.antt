-- ===== src/Scenarios/Approvals.antt =====
-- Approvals of tool calls (agent/agent.go: approvalBroker).
use awesome_go_agents.Base.{◌≡◌, refl, Bool, true, false, some, none, List, [], ◌∷◌, String, All}
use awesome_go_agents.Agent.Approval.{
  stored, stored_unseen, Broker, Records, judge, conclude, record_resolved, restore_decisions,
}
use awesome_go_agents.Agent.Approval.System.{
  Step, asks, decides, restarts, Approvals, no_approvals, run, answer_in,
}
use awesome_go_agents.Agent.Approval.Agreement.{run-told}

-- A call is approved after a restart; the other answer comes too late.
abbrev steps : List Step
steps =
    asks "c" stored
    ∷ restarts
    ∷ decides "c" true stored
    ∷ decides "c" false stored
    ∷ asks "c" stored
    ∷ []

abbrev after : Approvals
after = run steps no_approvals

told_lem : after.told ≡ ("c", true) ∷ ("c", true) ∷ []
unfolding run
told_lem = refl

run-told_example :
    All (λ (p : String × Bool). answer_in after.records.resolved p.0 ≡ some p.1) after.told
run-told_example = run-told steps (tt, (tt, (tt, (tt, (tt, tt)))))

-- Two calls of Decide that have both looked before one has recorded its answer.
abbrev asked : Approvals
asked = run (asks "c" stored ∷ []) no_approvals

judge_lem :
    judge true (asked.broker.pending "c") (asked.broker.requested "c") (asked.broker.decisions "c")
    ≡ none
unfolding judge run
judge_lem = refl

judge_other :
    judge false (asked.broker.pending "c") (asked.broker.requested "c") (asked.broker.decisions "c")
    ≡ none
unfolding judge run
judge_other = refl

abbrev raced : Broker × Records
raced = (
  conclude "c" false (conclude "c" true asked.broker),
  record_resolved "c" false (record_resolved "c" true asked.records),
)

-- The log says that the call is approved, the broker that it is rejected.
raced_lem : (raced.0.decisions "c" ≡ some false) × (answer_in raced.1.resolved "c" ≡ some true)
unfolding run record_resolved restore_decisions
raced_lem = (refl, refl)

-- The record of the approval is stored, but the write is reported as failed; the call is then rejected.
abbrev unseen : Approvals
unseen =
    run (asks "c" stored ∷ decides "c" true stored_unseen ∷ decides "c" false stored ∷ [])
      no_approvals

unseen_lem : (unseen.told ≡ ("c", false) ∷ []) × (answer_in unseen.records.resolved "c" ≡ some true)
unfolding run restore_decisions
unseen_lem = (refl, refl)

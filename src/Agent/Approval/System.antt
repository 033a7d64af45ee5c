-- ===== src/Agent/Approval/System.antt =====
-- The calls of an approval broker, one after the other (agent/agent.go: approvalBroker).
use awesome_go_agents.Base.{Bool, false, Option, none, List, [], ◌∷◌, ◌++◌, String}
use awesome_go_agents.Agent.Approval.{
  Written, stored_unseen, Broker, Records, Reply, answered, request_approval, stop_waiting, decide,
  restore_decisions, restore,
}

pub data Step : Type 0 where
  -- with how the write of the record goes
  asks : String → Written → Step
  decides : String → Bool → Written → Step
  stops : String → Step
  restarts : Step

-- The broker, the log, and the calls with the answers told, the latest first.
pub record Approvals : Type 0 where
  pub broker : Broker
  pub records : Records
  pub told : List (String × Bool)

-- The answer to an approval is not stored by a write that is reported as failed.
abbrev pub IsHonest : Step → Type 0
IsHonest (decides call a stored_unseen) = ⊥
IsHonest _ = Unit

abbrev pub no_approvals : Approvals
no_approvals = record {
  broker = record { pending = λ call. false; requested = λ call. false; decisions = λ call. none };
  records = record { asked = []; resolved = [] };
  told = [];
}

abbrev pub told_by : String → Reply → List (String × Bool)
told_by call (answered a) = (call, a) ∷ []
told_by call _ = []

abbrev pub replied : String → Reply × Broker × Records → List (String × Bool) → Approvals
replied call (reply, b, r) told = record {
  broker = b;
  records = r;
  told = told_by call reply ++ told;
}

unfoldable pub apply : Step → Approvals → Approvals
unfolding request_approval decide stop_waiting restore
apply (asks call written) s = replied call (request_approval call written s.broker s.records) s.told
apply (decides call a written) s = replied call (decide call a written s.broker s.records) s.told
apply (stops call) s = record s { broker = stop_waiting call s.broker }
apply restarts s = record s { broker = restore s.records }

unfoldable pub run : List Step → Approvals → Approvals
unfolding apply
run [] s = s
run (step ∷ steps) s = run steps (apply step s)

abbrev pub answer_in : List (String × Bool) → String → Option Bool
answer_in rs = restore_decisions (λ call. none) rs

-- ===== src/Agent/Turn/Attempts.antt =====
-- The turn ends that one step of a turn appends (agent/loop.go: runTurnSteps).
use awesome_go_agents.Base.{
  ℕ, zero, suc, ◌≡◌, refl, Bool, false, not, ◌&&◌, Option, none, some, List, [], ◌∷◌, String,
  by_test,
}
use awesome_go_agents.Agent.Turn.{
  StepInput, Call, stopped_heartbeat, compacted, stepped, ended, StepError, context_overflow,
  provider_overflow, tool_deferred, policy_waiting, stopped, other, StepOutcome, stepped_on, done,
  errored, Host, TurnResult, err_lease_lost, err_append, err_policy, err_policy_waiting,
  err_unknown_decision, err_context_overflow, err_tool_deferred, err_step, Outcome, finished,
  interrupted, policy_stopped, failed, Verdict, proceeds, overflowed, returns, Attempted, passed,
  quit, end_turn, heartbeat, give_up, verdict, attempt_once, attempts, consult, settle, overflows,
}

-- The reasons of the turn ends that were appended, the latest first.
abbrev pub reasons : List Call → List String
reasons [] = []
reasons (ended reason ∷ t) = reason ∷ reasons t
reasons (_ ∷ t) = reasons t

-- The reasons of the turn ends beside what is returned.
pub data Closes : Outcome → List String → Type 0 where
  finished_turn : (r : TurnResult) → Closes (finished r) (r.finished_reason ∷ [])
  interrupted_turn :
      (r : TurnResult)
      → r.finished_reason ≡ "interrupted"
      → Closes (interrupted r) ("cancelled" ∷ [])
  stopped_turn :
      (r : TurnResult)
      → r.finished_reason ≡ "policy_stop"
      → Closes (policy_stopped r) ("policy_stop" ∷ [])
  unrecorded : (reason : String) → Closes (failed err_append) (reason ∷ [])
  policy_failed : Closes (failed err_policy) ("policy_error" ∷ [])
  waiting_step : Closes (failed err_policy_waiting) ("policy_wait" ∷ [])
  overflowed_turn : Closes (failed err_context_overflow) ("context_overflow" ∷ [])
  failed_step : Closes (failed err_step) ("error" ∷ [])
  waiting_policy : Closes (failed err_policy_waiting) []
  unknown_answer : Closes (failed err_unknown_decision) []
  lost_lease : Closes (failed err_lease_lost) []
  deferred_tool : Closes (failed err_tool_deferred) []

abbrev pub Returned : Outcome × List Call → Type 0
Returned (o, t) = Closes o (reasons t)

abbrev pub Judged : Verdict × List Call → Type 0
Judged (returns o, t) = Closes o (reasons t)
Judged (_, t) = reasons t ≡ []

abbrev pub Tried : Attempted × List Call → Type 0
Tried (quit o, t) = Closes o (reasons t)
Tried (passed last left made, t) = reasons t ≡ []

abbrev pub Decided : Option Outcome × List Call → Type 0
Decided (some o, t) = Closes o (reasons t)
Decided (none, t) = reasons t ≡ []

-- One more turn end on a trace without any.
pub closed_by :
    (o : Outcome) (reason : String) (t : List Call)
    → reasons t ≡ []
    → Closes o (reason ∷ [])
    → Closes o (reason ∷ reasons t)
closed_by o reason t h c = rw h c

pub consult-reasons :
    {A : Type 0} (default : A) (c : Call) (f : Option (List Call → A)) (t : List Call)
    → reasons t ≡ []
    → reasons (c ∷ t) ≡ []
    → reasons (consult default c f t).1 ≡ []
unfolding consult
consult-reasons default c none t h k = h
consult-reasons default c (some f) t h k = k

module _ (host : Host) where
  pub end_turn-Returned :
      (reason : String) (o : Outcome) (t : List Call)
      → reasons t ≡ []
      → Closes o (reason ∷ [])
      → Returned (end_turn host reason o t)
  unfolding end_turn
  end_turn-Returned reason o t h c =
      by_test (λ x. Closes x (reason ∷ reasons t)) (host.append_fails (ended reason ∷ t))
        (failed err_append) o (λ _. closed_by (failed err_append) reason t h (unrecorded reason))
        (λ _. closed_by o reason t h c)

  give_up-Judged :
      (e : StepError) (r : TurnResult) (t : List Call)
      → reasons t ≡ []
      → Judged (give_up host e r t)
  unfolding give_up
  give_up-Judged context_overflow r t h = closed_by _ "context_overflow" t h overflowed_turn
  give_up-Judged provider_overflow r t h = h
  give_up-Judged tool_deferred r t h = rw h deferred_tool
  give_up-Judged policy_waiting r t h = closed_by _ "policy_wait" t h waiting_step
  give_up-Judged stopped r t h = closed_by _ "cancelled" t h (interrupted_turn _ refl)
  give_up-Judged other r t h = end_turn-Returned "error" (failed err_step) t h failed_step

  heartbeat-reasons : (t : List Call) → reasons t ≡ [] → reasons (heartbeat host t).1 ≡ []
  unfolding heartbeat
  heartbeat-reasons t h =
      by_test (λ (p : Bool × List Call). reasons p.1 ≡ []) (host.canceled t)
        (host.heartbeat_lost (stopped_heartbeat ∷ t), stopped_heartbeat ∷ t) (false, t) (λ _. h)
        (λ _. h)

  verdict-Judged :
      (o : StepOutcome) (r : TurnResult) (t : List Call)
      → reasons t ≡ []
      → Judged (verdict host o r t)
  unfolding verdict
  verdict-Judged stepped_on r t h = h
  verdict-Judged (done reason) r t h = h
  verdict-Judged (errored e) r t h =
      let (lost, t') = heartbeat host t in
      let h' : reasons (heartbeat host t).1 ≡ [] = heartbeat-reasons t h in
      by_test Judged (heartbeat host t).0 (returns (failed err_lease_lost), (heartbeat host t).1)
        (give_up host e r (heartbeat host t).1) (λ _. rw h' lost_lease)
        (λ _. give_up-Judged e r (heartbeat host t).1 h')

  overflow_closed :
      (t : List Call)
      → reasons t ≡ []
      → Closes (failed err_context_overflow) ("context_overflow" ∷ reasons t)
  overflow_closed t h =
      closed_by (failed err_context_overflow) "context_overflow" t h overflowed_turn

  attempt_once-Judged :
      (step attempt : ℕ) (initial : Option StepInput) (inputs : List StepInput) (c : ℕ)
      (r : TurnResult) (t : List Call)
      → reasons t ≡ []
      → let (v, made, t') = attempt_once host step attempt initial inputs c r t in Judged (v, t')
  unfolding attempt_once
  attempt_once-Judged step attempt initial inputs c r t h =
      verdict-Judged (host.step (stepped step attempt initial inputs ∷ t)).0 r
        (stepped step attempt initial inputs ∷ t) h

  settle-Tried :
      (v : Verdict) (left made : ℕ) (retried : Attempted × List Call) (t : List Call)
      → Judged (v, t)
      → (reasons t ≡ [] → Tried retried)
      → Tried (settle v left made retried t)
  unfolding settle
  settle-Tried (proceeds reason) left made retried t judged h = judged
  settle-Tried (returns o) left made retried t judged h = judged
  settle-Tried overflowed left made retried t judged h = h judged

  pub attempts-Tried :
      (left step attempt : ℕ) (initial : Option StepInput) (inputs : List StepInput) (c : ℕ)
      (r : TurnResult) (t : List Call)
      → reasons t ≡ []
      → Tried (attempts host left step attempt initial inputs c r t)
  unfolding attempts
  attempts-Tried zero step attempt initial inputs c r t h =
      let (v, made, t') = attempt_once host step attempt initial inputs c r t in
      settle-Tried v zero made (overflows t') t'
        (attempt_once-Judged step attempt initial inputs c r t h) (overflow_closed t')
  attempts-Tried (suc left) step attempt initial inputs c r t h =
      let (v, made, t') = attempt_once host step attempt initial inputs c r t in
      let t'' = compacted ∷ t' in
      settle-Tried v (suc left) made _ t' (attempt_once-Judged step attempt initial inputs c r t h)
        (λ still.
          by_test Tried (host.compacts t'' && not (host.canceled t''))
            (attempts host left step (suc attempt) none inputs (suc made) r t'') (overflows t'')
            (λ _. attempts-Tried left step (suc attempt) none inputs (suc made) r t'' still)
            (λ _. overflow_closed t'' still))

-- ===== src/Agent/Inbox/System.antt =====
-- The steps of the goroutines that share a handle (agent/agent.go).
use awesome_go_agents.Base.{
  ℕ, Bool, true, false, not, ◌&&◌, Option, none, some, List, [], ◌∷◌, ◌++◌, map, select, inl, inr,
  ◌⊎◌, take,
}
use awesome_go_agents.Agent.Turn.{StepInput}
use awesome_go_agents.Agent.Inbox.{
  AgentStatus, idle, InboxItem, Handle, enqueue, begin_run, unclaim, requeue_after_run, end_run,
  SubmitError, submit, claim_next_step_inputs, item_of, requeue_step_inputs, cancel, dispose,
}

pub record System : Type 0 where
  pub handle : Handle
  -- the item of the worker, and the inputs of the turn
  pub claimed : Option InboxItem
  pub inputs : List StepInput
  -- the items recorded as queued, and as completed or discarded
  pub queued : List InboxItem
  pub settled : List InboxItem
  pub dropped : List InboxItem

pub data Step : Type 0 where
  -- `enqueue`: whether the context is done, and whether the item is recorded
  enqueues : InboxItem → Bool → Bool → Step
  -- `Cancel` and `Dispose`, with the items that are recorded as discarded
  cancels : Bool → (InboxItem → Bool) → Step
  disposes : (InboxItem → Bool) → Step
  -- the worker: it takes an item, records that, runs, and is idle again
  begins : Step
  claims : Bool → Step
  -- whether the run ended well, and was recorded as completed
  runs : Bool → Bool → Step
  ends submits : Step
  -- the turn: `NextStep`, and `appendStepInputs`, which may fail after some of the inputs
  step_claims : Step
  step_records : Step
  step_fails : ℕ → Step
  -- the turn is over before its inputs are recorded
  step_quits : Step

abbrev pub new_system : System
new_system = record {
  handle = record { status = idle; inbox = [] };
  claimed = none;
  inputs = [];
  queued = [];
  settled = [];
  dropped = [];
}

unfoldable pub enqueued : InboxItem → Option Handle → System → System
enqueued item none s = s
enqueued item (some h) s = record s { handle = h; queued = item ∷ s.queued }

-- The records of `EventInboxDiscarded`.
unfoldable pub discard : (InboxItem → Bool) → List InboxItem × Handle → System → System
discard recorded (pending, h) s = record s {
  handle = h;
  settled = select recorded pending ++ s.settled;
  dropped = select (λ item. not (recorded item)) pending ++ s.dropped;
}

unfoldable pub canceled : (InboxItem → Bool) → Option (List InboxItem × Handle) → System → System
unfolding discard
canceled recorded none s = s
canceled recorded (some p) s = discard recorded p s

-- The worker does one item after the other.
unfoldable pub begun : Option InboxItem → Option (InboxItem × Handle) → System → System
begun none (some (item, h)) s = record s { handle = h; claimed = some item }
begun _ _ s = s

unfoldable pub claim_recorded : Bool → Option InboxItem → System → System
unfolding unclaim
claim_recorded false (some item) s = record s { handle = unclaim item s.handle; claimed = none }
claim_recorded _ _ s = s

-- A handle that is disposed takes nothing back.
unfoldable pub taken_back : AgentStatus → List InboxItem → List InboxItem
taken_back AgentStatus.disposed items = items
taken_back _ items = []

unfoldable pub finish_run : Bool → Option InboxItem → System → System
unfolding requeue_after_run taken_back
finish_run true (some item) s = record s { claimed = none; settled = item ∷ s.settled }
finish_run false (some item) s = record s {
  handle = requeue_after_run item s.handle;
  claimed = none;
  dropped = taken_back s.handle.status (item ∷ []) ++ s.dropped;
}
finish_run _ none s = s

unfoldable pub submitted : SubmitError ⊎ Handle → System → System
submitted (inl e) s = s
submitted (inr h) s = record s { handle = h }

-- A turn asks again when it is done with the inputs before.
unfoldable pub given : List StepInput → List StepInput × Handle → System → System
given [] (inputs, h) s = record s { handle = h; inputs = inputs }
given (_ ∷ _) _ s = s

unfoldable pub apply : Step → System → System
unfolding enqueue enqueued cancel canceled dispose discard begin_run begun claim_recorded finish_run
    end_run submit submitted claim_next_step_inputs given requeue_step_inputs taken_back
apply (enqueues item context_done recorded) s =
    enqueued item (enqueue item context_done recorded s.handle) s
apply (cancels keep_inbox recorded) s = canceled recorded (cancel keep_inbox s.handle) s
apply (disposes recorded) s = discard recorded (dispose s.handle) s
apply begins s = begun s.claimed (begin_run s.handle) s
apply (claims recorded) s = claim_recorded recorded s.claimed s
apply (runs ended_well recorded) s = finish_run (ended_well && recorded) s.claimed s
apply ends s = record s { handle = end_run s.handle }
apply submits s = submitted (submit s.handle) s
apply step_claims s = given s.inputs (claim_next_step_inputs s.handle) s
apply step_records s = record s { inputs = []; settled = map item_of s.inputs ++ s.settled }
apply (step_fails k) s = record s {
  handle = requeue_step_inputs s.inputs s.handle;
  inputs = [];
  settled = map item_of (take k s.inputs) ++ s.settled;
  dropped = taken_back s.handle.status (map item_of s.inputs) ++ s.dropped;
}
apply step_quits s = record s { inputs = []; dropped = map item_of s.inputs ++ s.dropped }

unfoldable pub run : List Step → System → System
unfolding apply
run [] s = s
run (step ∷ steps) s = run steps (apply step s)

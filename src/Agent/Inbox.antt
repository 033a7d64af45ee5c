-- ===== src/Agent/Inbox.antt =====
-- The in-process handle and its inbox (agent/agent.go: Handle, worker).
--
-- A `System` is the handle, the variables of the goroutines that take items from it (the `item` of
-- the worker, the `inputs` of a turn), and what the log records of items; a `Step` is what one of
-- them does in one hold of the lock, with what the store answers. `dropped` is not part of the source:
-- it has the items that a step leaves neither in memory nor recorded as settled. `runCancel` shows in
-- how a run ends, which is given, and the channels `wake`, `changed` and `done` are left out.
use awesome_go_agents.Base.{
  ℕ, Bool, true, false, not, ◌&&◌, ◌||◌, Option, none, some, List, [], ◌∷◌, ◌++◌, map, String,
  str_eq, if◌then◌else◌, select, ◌⊎◌, inl, inr,
}
use awesome_go_agents.Session.Event.{EventType, steering_message, injected_context}
use awesome_go_agents.Agent.Turn.{StepInput}
pub mod System
pub mod Tally
pub mod Kept
pub mod Conserved
pub mod Promise

pub data AgentStatus : Type 0 where
  idle running disposed : AgentStatus

pub data InboxKind : Type 0 where
  follow_up steer inject : InboxKind

pub record InboxItem : Type 0 where
  pub id : String
  pub kind : InboxKind
  pub text : String

pub record Handle : Type 0 where
  pub status : AgentStatus
  pub inbox : List InboxItem

abbrev pub is_disposed : AgentStatus → Bool
is_disposed disposed = true
is_disposed _ = false

abbrev pub is_idle : AgentStatus → Bool
is_idle idle = true
is_idle _ = false

-- `enqueue`, with whether the record of the item could be written.
unfoldable pub enqueue : InboxItem → Bool → Bool → Handle → Option Handle
enqueue item context_done recorded h =
    if context_done || str_eq item.text "" || is_disposed h.status || not recorded
    then none
    else some (record h { inbox = h.inbox ++ (item ∷ []) })

-- `nextWakeableIndexLocked`, with what is left without the item.
unfoldable pub first_of :
    InboxKind
    → InboxItem
    → List InboxItem
    → Option (InboxItem × List InboxItem)
    → Option (InboxItem × List InboxItem)
first_of follow_up item items later = some (item, items)
first_of _ item items none = none
first_of _ item items (some (found, rest)) = some (found, item ∷ rest)

unfoldable pub next_wakeable : List InboxItem → Option (InboxItem × List InboxItem)
unfolding first_of
next_wakeable [] = none
next_wakeable (item ∷ items) = first_of item.kind item items (next_wakeable items)

-- `hasWakeableInbox`
unfoldable pub has_wakeable : List InboxItem → Bool
unfolding next_wakeable
has_wakeable items = elim (next_wakeable items) [ none ↦ false | some found ↦ true ]

-- The worker's claim of an item, at the head of its inner loop.
unfoldable pub start_with :
    AgentStatus → Option (InboxItem × List InboxItem) → Option (InboxItem × Handle)
start_with idle (some (item, rest)) = some (item, record { status = running; inbox = rest })
start_with _ _ = none

unfoldable pub begin_run : Handle → Option (InboxItem × Handle)
unfolding next_wakeable start_with
begin_run h = start_with h.status (next_wakeable h.inbox)

-- The record of the claim could not be written.
unfoldable pub unclaim : InboxItem → Handle → Handle
unclaim item h = record { status = idle; inbox = item ∷ h.inbox }

-- `requeueAfterRun`
unfoldable pub requeue_after_run : InboxItem → Handle → Handle
requeue_after_run item h = if is_disposed h.status then h else record h { inbox = item ∷ h.inbox }

-- The end of a run.
unfoldable pub end_run : Handle → Handle
end_run h = if is_disposed h.status then h else record h { status = idle }

pub data SubmitError : Type 0 where
  agent_disposed agent_busy : SubmitError

-- `Submit`, which does not go through the inbox, up to the run.
unfoldable pub submit : Handle → SubmitError ⊎ Handle
submit h =
    if is_disposed h.status
    then inl agent_disposed
    else if is_idle h.status
    then inr (record h { status = running })
    else inl agent_busy

abbrev pub is_next_step : InboxItem → Bool
is_next_step item = elim item.kind [ follow_up ↦ false | _ ↦ true ]

abbrev pub event_type_of : InboxKind → EventType
event_type_of steer = steering_message
event_type_of _ = injected_context

abbrev pub input_of : InboxItem → StepInput
input_of item = record { id = item.id; type = event_type_of item.kind; text = item.text }

-- `claimNextStepInputs`
unfoldable pub claim_next_step_inputs : Handle → List StepInput × Handle
claim_next_step_inputs h = if is_disposed h.status then ([], h) else (
  map input_of (select is_next_step h.inbox),
  record h { inbox = select (λ item. not (is_next_step item)) h.inbox },
)

abbrev pub kind_of : EventType → InboxKind
kind_of steering_message = steer
kind_of _ = inject

abbrev pub item_of : StepInput → InboxItem
item_of input = record { id = input.id; kind = kind_of input.type; text = input.text }

abbrev pub is_skipped : StepInput → Bool
is_skipped input = str_eq input.id "" || str_eq input.text ""

-- `requeueStepInputs`
unfoldable pub requeue_step_inputs : List StepInput → Handle → Handle
requeue_step_inputs inputs h = if is_disposed h.status then h else record h {
  inbox = map item_of (select (λ input. not (is_skipped input)) inputs) ++ h.inbox;
}

-- `Cancel`: the items to be recorded as discarded.
unfoldable pub cancel : Bool → Handle → Option (List InboxItem × Handle)
cancel keep_inbox h =
    if is_disposed h.status
    then none
    else if keep_inbox
    then some ([], h)
    else some (h.inbox, record h { inbox = [] })

-- `Dispose`, which does this once.
unfoldable pub dispose : Handle → List InboxItem × Handle
dispose h = (h.inbox, record { status = disposed; inbox = [] })

-- `WhenIdle`
abbrev pub when_idle : Handle → Bool
when_idle h = is_idle h.status && (elim h.inbox [ [] ↦ true | _ ↦ false ])

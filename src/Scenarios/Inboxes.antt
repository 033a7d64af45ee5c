-- ===== src/Scenarios/Inboxes.antt =====
-- A handle, its worker and a turn (agent/agent.go).
use awesome_go_agents.Base.{◌+◌, ◌≤◌, ◌≡◌, refl, Bool, true, false, List, [], ◌∷◌, map, str_eq}
use awesome_go_agents.Agent.Inbox.{follow_up, steer, idle, InboxItem, item_of}
use awesome_go_agents.Agent.Inbox.System.{
  System, Step, enqueues, begins, claims, runs, ends, step_claims, step_fails, disposes, new_system,
  run,
}
use awesome_go_agents.Agent.Inbox.Tally.{tally, held}
use awesome_go_agents.Agent.Inbox.Promise.{run-conserves}

abbrev question : InboxItem
question = record { id = "inbox-1"; kind = follow_up; text = "hello" }

abbrev hint : InboxItem
hint = record { id = "inbox-2"; kind = steer; text = "be brief" }

-- The first step of the turn cannot record its input, the run fails, and both come back.
abbrev steps : List Step
steps =
    enqueues question false true
    ∷ enqueues hint false true
    ∷ begins
    ∷ claims true
    ∷ step_claims
    ∷ step_fails 0
    ∷ runs false true
    ∷ ends
    ∷ []

abbrev after : System
after = run steps new_system

after_lem : after.handle.inbox ≡ question ∷ hint ∷ []
unfolding run
after_lem = refl

abbrev is_hint : InboxItem → Bool
is_hint item = str_eq item.id "inbox-2"

run-conserves_example :
    tally is_hint after.queued
    ≤ tally is_hint after.handle.inbox
      + tally is_hint (held after.claimed)
      + tally is_hint (map item_of after.inputs)
      + tally is_hint after.settled
run-conserves_example =
    run-conserves steps is_hint (refl, (refl, (tt, (tt, (tt, (tt, (tt, (tt, tt))))))))
      (tt, (tt, (tt, (tt, (tt, (tt, (tt, (tt, tt))))))))

-- A disposal between the claim of an item and its record: the handle is idle again, with the item.
abbrev revived : System
revived =
    run (enqueues question false true ∷ begins ∷ disposes (λ item. true) ∷ claims false ∷ [])
      new_system

revived_lem : revived.handle ≡ record { status = idle; inbox = question ∷ [] }
unfolding run
revived_lem = refl

-- ===== src/Scenarios/Subscriptions.antt =====
-- Readers of the event hub (agent/events.go).
use awesome_go_agents.Base.{
  ℕ, ◌+◌, ◌≡◌, refl, false, none, List, [], ◌∷◌, ◌++◌, map, arith, select, ◌≢◌, ◌⊎◌, All,
}
use awesome_go_agents.Session.Event.{Event}
use awesome_go_agents.Session.Event.Validate.{validate}
use awesome_go_agents.Agent.Hub.{EventSubscription, subscribe, keeps}
use awesome_go_agents.Agent.Hub.Cursor.{Subscription, new_subscription, resume_live, catch_up}
use awesome_go_agents.Agent.Hub.Stream.{segment}
use awesome_go_agents.Agent.Hub.Handoff.{publish_all, before, numbers}
use awesome_go_agents.Agent.Hub.Delivery.{
  Step, publishes, reads, acknowledges, run, published_before,
}
use awesome_go_agents.Agent.Hub.Contract.{waiting, cursor-stream}
use awesome_go_agents.Scenarios.Handles.{stored}

abbrev log : ℕ → Event
log k = stored k 100 "e"

abbrev early : List ℕ
early = 3 ∷ 5 ∷ []

abbrev at_first : EventSubscription
at_first = publish_all log early (subscribe 4 1 none)

-- Events 2 and 3 are replayed, and 5 waits for 4.
abbrev caught_up : Subscription
caught_up = record {
  sub = resume_live 3 at_first;
  backlog = log 2 ∷ log 3 ∷ [];
  last_seq = 1;
  delivered_seq = 1;
}

abbrev steps : List Step
steps = reads false ∷ publishes 4 ∷ reads false ∷ reads false ∷ acknowledges 4 ∷ publishes 4 ∷ []

abbrev delivered : List Event
delivered = (run log steps (caught_up, [])).1

abbrev end : Subscription
end = (run log steps (caught_up, [])).0

delivered_lem : map (λ (e : Event). e.seq) delivered ≡ 2 ∷ 3 ∷ 4 ∷ []
unfolding run resume_live publish_all subscribe
delivered_lem = refl

cursor-stream_example :
    (n : ℕ) × (delivered ++ waiting end ≡ select (keeps none) (segment log 1 n))
    × ((end.sub.active ≡ false)
        ⊎ All (λ k. k ≢ 1 + n + 1) (published_before steps (numbers 1 2 ++ before early [])))
unfolding catch_up validate segment resume_live publish_all subscribe run new_subscription
cursor-stream_example =
    cursor-stream log 1 2 4 none early steps caught_up (λ k. refl) (omega arith)
      (omega arith, (omega arith, tt)) (omega arith, (omega arith, tt)) refl

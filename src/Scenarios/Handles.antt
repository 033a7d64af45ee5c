-- ===== src/Scenarios/Handles.antt =====
-- A session handle on a new store, and what a worker replays (session/session.go).
use awesome_go_agents.Base.{ℕ, ◌≡◌, refl, List, [], ◌∷◌, pos, String, arith}
use awesome_go_agents.Session
use awesome_go_agents.Session.Errors.{ok}
use awesome_go_agents.Session.Event.{Event}
use awesome_go_agents.Session.Event.Validate.{validate}
use awesome_go_agents.Session.Store.{check_batch, new_memory_store}
use awesome_go_agents.Session.Cache.{new_session, projected, check_replay}
use awesome_go_agents.Session.Cache.Refines.{Op, Shared, commits, keeps, hydrates, run}
use awesome_go_agents.Session.Cache.Projects.{new_shared, projected-eq-events}
use awesome_go_agents.Session.Trace.Replays.{run-check_replay}
use awesome_go_agents.Scenarios.Leases.{draws, later, message, interleaving}

-- Two appends that overlap.
abbrev ops : List Op
ops =
    hydrates
    ∷ commits draws later (message "e1" ∷ [])
    ∷ commits later later (message "e2" ∷ [])
    ∷ keeps 0
    ∷ keeps 0
    ∷ []

abbrev used : Shared
used = run ops (new_shared "s")

-- What the store has of them.
abbrev pub stored : ℕ → ℕ → String → Event
stored n t id = record (message id) {
  seq = n;
  session_id = "s";
  format_version = pos 2;
  timestamp = t;
}

abbrev shown : List Event
shown = stored 1 100 "e1" ∷ stored 2 200 "e2" ∷ []

projected-eq-events_example : shown ≡ used.store.events "s"
unfolding projected run validate new_session new_memory_store
projected-eq-events_example =
    projected-eq-events "s" ops used.session shown (tt, (tt, (tt, (refl, (refl, tt)))))
      (omega arith) refl refl

-- The second batch reaches the tail first: the event of the first is missing from then on.
abbrev raced : Shared
raced =
    run
      (hydrates
        ∷ commits draws later (message "e1" ∷ [])
        ∷ commits later later (message "e2" ∷ [])
        ∷ keeps 1
        ∷ keeps 0
        ∷ [])
      (new_shared "s")

raced_lem : (raced.store.events "s" ≡ shown) × (raced.session.cached ≡ stored 2 200 "e2" ∷ [])
unfolding run validate new_session new_memory_store
raced_lem = (refl, refl)

-- Writers that were not stopped by their checks.
run-check_replay_example :
    check_replay ((Session.Trace.run interleaving new_memory_store).events "s") ≡ ok tt
unfolding check_batch validate
run-check_replay_example = run-check_replay interleaving "s" (tt, (refl, (tt, tt)))

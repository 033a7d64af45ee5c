-- ===== src/Session/Recovery/Turns.antt =====
-- The open turn that recovery closes (session/fenced.go: Recover).
use awesome_go_agents.Base.{ℕ, suc, ◌≡◌, ◌⊎◌, Bool, true, false, List, pos, All}
use awesome_go_agents.Session.Event.{EventType, Event, turn_start, turn_end}
use awesome_go_agents.Session.Recovery.{open_turn, no_turn}
use awesome_go_agents.Session.Recovery.Deferred.{turn_closed}

abbrev pub opens_or_ends : EventType → Bool
opens_or_ends turn_start = true
opens_or_ends turn_end = true
opens_or_ends _ = false

-- Events of other types.
abbrev pub LeavesTurns : List Event → Type 0
LeavesTurns = All (λ e. opens_or_ends e.type ≡ false)

abbrev Closed : List Event → ℕ → List Event → Type 0
Closed es n added =
    ((turn_closed es ≡ true) × ((open_turn added (open_turn es no_turn)).count ≡ pos n))
    ⊎ ((turn_closed es ≡ false) × ((open_turn added (open_turn es no_turn)).count ≡ pos (suc n)))

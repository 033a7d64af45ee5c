-- ===== src/Session/Recovery/Deferred.antt =====
-- The calls that wait for their resumption, and what recovery leaves open for them (session/fenced.go:
-- pendingDeferredScopes, and the part of Recover that uses it).
--
-- A Go map from call ids is a function with the zero value for a missing key. The keys of `state` are
-- a list in which one may stand twice: the sets that are built from them are the same.
use awesome_go_agents.Base.{
  Bool, true, false, not, ◌&&◌, ◌||◌, Option, none, some, List, [], ◌∷◌, String, if◌then◌else◌,
  str_eq, update, pos,
}
use Prim.Native.String.{◌++◌}
use awesome_go_agents.Session.Json.{Json, object, field, end, value}
use awesome_go_agents.Session.Blocks.{is_blank}
use awesome_go_agents.Session.Event.{
  EventType, Event, step_end, turn_end, tool_deferred, tool_resume_started, tool_result,
}
use awesome_go_agents.Session.Recovery.{is_materialized, is_positive, OpenTurn, open_turn, no_turn}
use awesome_go_agents.Session.Recovery.Steps.{draft_key, key_of, interrupted_step_end_events}
pub mod Closings

-- The variables of `pendingDeferredScopes`.
pub record Waiting : Type 0 where
  pub state : String → Bool
  pub call_ids : List String
  pub locations : String → Option Event
  pub results : String → Bool
  pub closed_steps : String → Bool

unfoldable pub nothing_waits : Waiting
nothing_waits = record {
  state = λ id. false;
  call_ids = [];
  locations = λ id. none;
  results = λ id. false;
  closed_steps = λ k. false;
}

abbrev pub is_step_end : EventType → Bool
is_step_end step_end = true
is_step_end _ = false

unfoldable pub close_step : Event → Waiting → Waiting
close_step e w =
    if is_step_end e.type && not (is_blank e.step_id) && not (is_blank e.turn_id)
    then record w { closed_steps = update w.closed_steps (key_of e) true }
    else w

-- `state[event.CallID] = pending`
unfoldable pub set_waiting : String → Bool → Waiting → Waiting
set_waiting id pending w = record w {
  state = update w.state id pending;
  call_ids = id ∷ w.call_ids;
}

unfoldable pub wait_type : EventType → Event → Waiting → Waiting
unfolding set_waiting is_materialized
wait_type tool_deferred e w = record (set_waiting e.call_id true w) {
  locations = update w.locations e.call_id (some e);
}
wait_type tool_resume_started e w = set_waiting e.call_id (is_materialized e.raw) w
wait_type tool_result e w = record (set_waiting e.call_id false w) {
  results = update w.results e.call_id true;
}
wait_type _ e w = w

unfoldable pub await_all : List Event → Waiting → Waiting
unfolding close_step wait_type
await_all [] w = w
await_all (e ∷ es) w =
    let w' = close_step e w in
    await_all es (if is_blank e.call_id then w' else wait_type e.type e w')

-- Whether the place where a call was deferred is not closed.
abbrev pub is_unclosed : Waiting → Option Event → Bool
is_unclosed w none = false
is_unclosed w (some e) = not (w.closed_steps (key_of e))

unfoldable pub is_waiting : Waiting → String → Bool
is_waiting w id = w.state id || (w.results id && is_unclosed w (w.locations id))

-- The place of a call: that of the zero event where there is none.
abbrev pub step_of : Option Event → String
step_of none = draft_key "" "" ""
step_of (some e) = key_of e

abbrev pub turn_of : Option Event → String
turn_of none = ""
turn_of (some e) = e.turn_id

-- `steps[k]` and `turns[t]`, over the call ids.
unfoldable pub deferred_step : Waiting → List String → String → Bool
unfolding is_waiting
deferred_step w [] k = false
deferred_step w (id ∷ ids) k =
    (is_waiting w id && str_eq (step_of (w.locations id)) k) || deferred_step w ids k

unfoldable pub deferred_turn : Waiting → List String → String → Bool
unfolding is_waiting
deferred_turn w [] t = false
deferred_turn w (id ∷ ids) t =
    (is_waiting w id && str_eq (turn_of (w.locations id)) t) || deferred_turn w ids t

unfoldable pub pending_deferred_scopes : List Event → (String → Bool) × (String → Bool)
unfolding await_all nothing_waits deferred_step deferred_turn
pending_deferred_scopes es =
    let w = await_all es nothing_waits in (deferred_step w w.call_ids, deferred_turn w w.call_ids)

-- `filteredStepEnds`
unfoldable pub filter_step_ends : (String → Bool) → List Event → List Event
filter_step_ends deferred [] = []
filter_step_ends deferred (e ∷ es) =
    let rest = filter_step_ends deferred es in if deferred (key_of e) then rest else e ∷ rest

-- The step/end events that `Recover` appends.
unfoldable pub recovered_step_ends : (String → String) → List Event → String → List Event
unfolding interrupted_step_end_events filter_step_ends pending_deferred_scopes
recovered_step_ends digest es sid =
    filter_step_ends (pending_deferred_scopes es).0 (interrupted_step_end_events digest es sid)

-- `report.TurnClosed`
unfoldable pub turn_closed : List Event → Bool
unfolding pending_deferred_scopes open_turn
turn_closed es =
    let o = open_turn es no_turn in
    is_positive o.count && not ((pending_deferred_scopes es).1 o.turn_id)

abbrev pub turn_end_event : String → OpenTurn → Event
turn_end_event sid o = record {
  seq = 0;
  type = turn_end;
  format_version = pos 0;
  id = "recover:turn-end:" ++ o.turn_id;
  timestamp = 0;
  raw = value (object (field "reason" (Json.text "interrupted") end));
  source_seqs = [];
  session_id = sid;
  run_id = o.run_id;
  turn_id = o.turn_id;
  step_id = "";
  call_id = "";
}

-- The turn/end that `Recover` appends, behind the step ends.
unfoldable pub recovered_turn_ends : List Event → String → List Event
unfolding turn_closed open_turn
recovered_turn_ends es sid =
    if turn_closed es then turn_end_event sid (open_turn es no_turn) ∷ [] else []

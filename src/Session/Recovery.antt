-- ===== src/Session/Recovery.antt =====
-- What recovery reads off a log (session/fenced.go): the tool calls whose outcome is unknown, the
-- calls that were dispatched, and the turn that is open.
--
-- A Go map from call ids is a function with the zero value for a missing key; the state `pending`
-- is that zero value.
use awesome_go_agents.Base.{
  ℕ, suc, zero, Bool, true, false, not, ◌&&◌, ◌||◌, Option, none, some, List, [], ◌∷◌, ◌++◌, String,
  ℤ, pos, negsuc, if◌then◌else◌, update, select, map,
}
use awesome_go_agents.Session.Json.{
  Json, RawMessage, payload_field, payload_text, payload_decodes, element_text, text_of, text_fits,
  boolean_of, boolean_fits, elements_of,
}
use awesome_go_agents.Session.Blocks.{is_blank}
use awesome_go_agents.Session.Event.{
  EventType, Event, turn_start, turn_end, tool_call, tool_dispatched, tool_running, tool_deferred,
  tool_resume_started, assistant_message, tool_result, approval_requested,
}
pub mod Dangling
pub mod Turns
pub mod Steps
pub mod Deferred

pub data CallState : Type 0 where
  pending dispatched deferred resuming materialized_resuming result : CallState
  approval_pending approval_resolved : CallState

-- The variables of `danglingCallIDs`.
pub record Scan : Type 0 where
  pub state : String → CallState
  pub call_ids : List String
  pub seen : String → Bool

unfoldable pub new_scan : Scan
new_scan = record { state = λ id. pending; call_ids = []; seen = λ id. false }

unfoldable pub remember : String → Scan → Scan
remember id sc =
    if not (is_blank id) && not (sc.seen id)
    then record sc { seen = update sc.seen id true; call_ids = sc.call_ids ++ (id ∷ []) }
    else sc

unfoldable pub set_state : String → CallState → Scan → Scan
set_state id st sc = record sc { state = update sc.state id st }

is_pending : CallState → Bool
is_pending pending = true
is_pending _ = false

is_approval_pending : CallState → Bool
is_approval_pending approval_pending = true
is_approval_pending _ = false

-- A call that is only announced stays in the state that it has.
unfoldable pub announce : String → Scan → Scan
unfolding remember set_state is_pending
announce id sc =
    let sc' = remember id sc in
    if not (is_blank id) && is_pending (sc'.state id) then set_state id pending sc' else sc'

unfoldable pub announce_all : List Json → Scan → Scan
unfolding announce
announce_all [] sc = sc
announce_all (j ∷ js) sc = announce_all js (announce (element_text "call_id" j) sc)

-- A call that moves: nothing happens for an event without a call id.
unfoldable pub move : String → CallState → Scan → Scan
unfolding remember set_state
move id st sc = if is_blank id then sc else set_state id st (remember id sc)

unfoldable pub is_materialized : RawMessage → Bool
unfolding payload_field
is_materialized raw =
    payload_decodes raw (boolean_fits (payload_field "materialized" raw))
    && boolean_of (payload_field "materialized" raw)

resolved_id : RawMessage → String
unfolding payload_field
resolved_id raw =
    if payload_decodes raw
      (text_fits (payload_field "call_id" raw) && boolean_fits (payload_field "approved" raw))
    then payload_text "call_id" raw
    else ""

unfoldable pub resolve : String → Scan → Scan
unfolding remember set_state is_approval_pending
resolve id sc =
    let sc' = remember id sc in
    if is_blank id
    then sc
    else if is_approval_pending (sc'.state id)
    then set_state id approval_resolved sc'
    else sc'

-- One round of the loop, by the type of the event.
scan_type : EventType → Event → Scan → Scan
unfolding announce announce_all move is_materialized resolve resolved_id payload_field elements_of
scan_type tool_call e sc = announce (payload_text "call_id" e.raw) sc
scan_type tool_dispatched e sc = move e.call_id dispatched sc
scan_type tool_running e sc = move e.call_id dispatched sc
scan_type tool_deferred e sc = move e.call_id deferred sc
scan_type tool_resume_started e sc =
    move e.call_id (if is_materialized e.raw then materialized_resuming else resuming) sc
scan_type assistant_message e sc = announce_all (elements_of (payload_field "tool_calls" e.raw)) sc
scan_type tool_result e sc = move (payload_text "call_id" e.raw) result sc
scan_type approval_requested e sc = move e.call_id approval_pending sc
scan_type EventType.approval_resolved e sc = resolve (resolved_id e.raw) sc
scan_type _ e sc = sc

unfoldable pub scan : List Event → Scan → Scan
unfolding scan_type
scan [] sc = sc
scan (e ∷ es) sc = scan es (scan_type e.type e sc)

-- The states whose outcome is unknown after a crash.
abbrev pub is_open : CallState → Bool
is_open dispatched = true
is_open resuming = true
is_open _ = false

unfoldable pub dangling_call_ids : List Event → List String
unfolding scan new_scan
dangling_call_ids es = let sc = scan es new_scan in select (λ id. is_open (sc.state id)) sc.call_ids

-- `dispatchedCallIDs`
abbrev marks_dispatch : EventType → Bool
marks_dispatch tool_dispatched = true
marks_dispatch tool_running = true
marks_dispatch tool_resume_started = true
marks_dispatch _ = false

unfoldable pub mark_dispatched : List Event → (String → Bool) → String → Bool
mark_dispatched [] ids = ids
mark_dispatched (e ∷ es) ids =
    mark_dispatched es
      (if marks_dispatch e.type && not (is_blank e.call_id) then update ids e.call_id true else ids)

unfoldable pub dispatched_call_ids : List Event → String → Bool
unfolding mark_dispatched
dispatched_call_ids es = mark_dispatched es (λ id. false)

-- The code that `Recover` gives the result of a dangling call.
pub data OutcomeCode : Type 0 where
  tool_outcome_unknown aborted_before_dispatch : OutcomeCode

unfoldable pub outcome_code : List Event → String → OutcomeCode
unfolding dispatched_call_ids
outcome_code es id =
    if dispatched_call_ids es id then tool_outcome_unknown else aborted_before_dispatch

-- The scan of `Recover` for the open turn: `openTurns`, `openTurnID`, `openRunID`.
pub record OpenTurn : Type 0 where
  pub count : ℤ
  pub turn_id : String
  pub run_id : String

unfoldable pub increment : ℤ → ℤ
increment (pos n) = pos (suc n)
increment (negsuc zero) = pos 0
increment (negsuc (suc n)) = negsuc n

unfoldable pub decrement : ℤ → ℤ
decrement (pos zero) = negsuc 0
decrement (pos (suc n)) = pos n
decrement (negsuc n) = negsuc (suc n)

abbrev pub is_zero : ℤ → Bool
is_zero (pos zero) = true
is_zero _ = false

abbrev pub is_positive : ℤ → Bool
is_positive (pos (suc n)) = true
is_positive _ = false

turn_type : EventType → Event → OpenTurn → OpenTurn
unfolding increment decrement
turn_type turn_start e o = record {
  count = increment o.count;
  turn_id = e.turn_id;
  run_id = e.run_id;
}
turn_type turn_end e o =
    let n = decrement o.count in
    if is_zero n then record { count = n; turn_id = ""; run_id = "" } else record o { count = n }
turn_type _ e o = o

unfoldable pub open_turn : List Event → OpenTurn → OpenTurn
unfolding turn_type
open_turn [] o = o
open_turn (e ∷ es) o = open_turn es (turn_type e.type e o)

unfoldable pub no_turn : OpenTurn
no_turn = record { count = pos 0; turn_id = ""; run_id = "" }

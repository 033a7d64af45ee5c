-- ===== src/Session/Recovery/Steps.antt =====
-- The steps that a crash left open (session/recovery.go: InterruptedStepEndEvents).
--
-- A Go map is a list with one entry for a key, in no order that counts, since the entries are sorted
-- before they are used. `digest` is `hex.EncodeToString(sha256.Sum256(...))`.
use Prim.Native.Char.{code}
use Prim.Native.String.{◌++◌}
use awesome_go_agents.Base.{
  ℕ, Bool, true, false, ◌&&◌, ◌||◌, List, [], ◌∷◌, String, pos, ltb, ◌==◌, if◌then◌else◌, str_eq,
}
use awesome_go_agents.Session.Json.{Json, object, field, end, value}
use awesome_go_agents.Session.Blocks.{is_blank}
use awesome_go_agents.Session.Event.{EventType, Event, step_start, step_end}
pub mod Closed

-- `draftKey`
unfoldable pub draft_key : String → String → String → String
draft_key run turn step = run ++ ("/" ++ (turn ++ ("/" ++ step)))

pub record OpenStep : Type 0 where
  pub event : Event
  pub key : String

-- `delete(open, key)`
unfoldable pub drop_step : String → List OpenStep → List OpenStep
drop_step k [] = []
drop_step k (st ∷ running) =
    let rest = drop_step k running in if str_eq k st.key then rest else st ∷ rest

abbrev pub key_of : Event → String
key_of e = draft_key e.run_id e.turn_id e.step_id

unfoldable pub track_type : EventType → Event → List OpenStep → List OpenStep
unfolding drop_step
track_type step_start e running =
    record { event = e; key = key_of e } ∷ drop_step (key_of e) running
track_type step_end e running = drop_step (key_of e) running
track_type _ e running = running

-- The loop over the events.
unfoldable pub open_steps : List Event → List OpenStep → List OpenStep
unfolding track_type
open_steps [] running = running
open_steps (e ∷ es) running =
    open_steps es
      (if is_blank e.step_id || is_blank e.turn_id then running else track_type e.type e running)

-- `s < t` for texts.
unfoldable pub text_before : String → String → Bool
text_before s String.[] = false
text_before String.[] (String.◌∷◌ d t) = true
text_before (String.◌∷◌ c s) (String.◌∷◌ d t) =
    let rest = text_before s t in if code c == code d then rest else ltb (code c) (code d)

unfoldable pub step_before : OpenStep → OpenStep → Bool
unfolding text_before
step_before a b =
    if a.event.seq == b.event.seq then text_before a.key b.key else ltb a.event.seq b.event.seq

-- `sort.Slice`
unfoldable pub insert_step : OpenStep → List OpenStep → List OpenStep
unfolding step_before
insert_step st [] = st ∷ []
insert_step st (next ∷ rest) =
    let later = insert_step st rest in
    if step_before st next then st ∷ next ∷ rest else next ∷ later

unfoldable pub sort_steps : List OpenStep → List OpenStep
unfolding insert_step
sort_steps [] = []
sort_steps (st ∷ rest) = insert_step st (sort_steps rest)

unfoldable pub first_non_empty_session_id : String → String → String
first_non_empty_session_id given fallback = if is_blank given then fallback else given

unfoldable pub step_end_event : (String → String) → String → OpenStep → Event
unfolding first_non_empty_session_id
step_end_event digest sid st = record {
  seq = 0;
  type = step_end;
  format_version = pos 0;
  id = "recover:step-end:" ++ digest st.key;
  timestamp = 0;
  raw = value (object (field "reason" (Json.text "interrupted") end));
  source_seqs = [];
  session_id = first_non_empty_session_id st.event.session_id sid;
  run_id = st.event.run_id;
  turn_id = st.event.turn_id;
  step_id = st.event.step_id;
  call_id = "";
}

unfoldable pub step_end_events : (String → String) → String → List OpenStep → List Event
unfolding step_end_event
step_end_events digest sid [] = []
step_end_events digest sid (st ∷ rest) =
    step_end_event digest sid st ∷ step_end_events digest sid rest

unfoldable pub interrupted_step_end_events : (String → String) → List Event → String → List Event
unfolding open_steps sort_steps step_end_events
interrupted_step_end_events digest es sid =
    step_end_events digest sid (sort_steps (open_steps es []))

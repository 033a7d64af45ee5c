-- ===== src/Scenarios/Contents.antt =====
-- Blocks of an assistant message, and a log with steps that a crash left open (session/blocks.go,
-- session/recovery.go).
use awesome_go_agents.Base.{
  ltb, ◌==◌, ℕ, ◌≡◌, refl, true, false, none, some, List, [], ◌∷◌, ◌++◌, String, pos, All,
}
use awesome_go_agents.Session.Json.{payload_field, Json, Fields, Items, RawMessage, empty, value}
use awesome_go_agents.Session.Errors.{ok, err, invalid_blocks}
use awesome_go_agents.Session.Event.{
  EventType, Event, step_start, step_end, tool_deferred, tool_result, assistant_message,
}
use awesome_go_agents.Session.Blocks.{BlockKind, ContentBlock, text_block, all_valid}
use awesome_go_agents.Session.Blocks.Decode.{unmarshal_blocks}
use awesome_go_agents.Session.Blocks.Encode.{marshal_blocks}
use awesome_go_agents.Session.Blocks.Encode.RoundTrip.{marshal_blocks-unmarshal_blocks}
use awesome_go_agents.Session.Recovery.Steps.{draft_key, open_steps, interrupted_step_end_events}
use awesome_go_agents.Session.Recovery.Steps.Closed.{interrupted_step_end_events-closed}
use awesome_go_agents.Session.Recovery.Deferred.{pending_deferred_scopes, recovered_step_ends}
use awesome_go_agents.Session.Recovery.Deferred.Closings.{recovered_step_ends-deferred}
use awesome_go_agents.Session.Surface.Pairing.{result_by_call, validate_pairing}
use awesome_go_agents.Session.Surface.Pairing.Pairs.{
  assistant_by_call, KeepsResults, KeepsSources, validate_pairing-pairs,
}

abbrev blank_block : BlockKind → ContentBlock
blank_block k = record {
  kind = k;
  text = "";
  media = none;
  tool_call = none;
  tool_result = none;
  namespace = "";
  name = "";
  payload = empty;
}

abbrev contents : List ContentBlock
unfolding text_block
contents =
    text_block "hello"
    ∷ record (blank_block BlockKind.media) {
      media = some (record { media_type = "image/png"; url = ""; media_data = "QUJD" });
    }
    ∷ record (blank_block BlockKind.tool_call) {
      tool_call =
          some
            (record { call_id = "c1"; name = "read"; arguments = value (Json.object Fields.end) });
    }
    ∷ record (blank_block BlockKind.tool_result) {
      tool_result = some (record {
        call_id = "c1";
        name = "";
        content = empty;
        code = "FAILED";
        error = "no such file";
      });
    }
    ∷ []

marshal_blocks-unmarshal_blocks_example :
    (all_valid contents ≡ true
      → (raw : RawMessage) × (marshal_blocks contents ≡ ok raw)
        × (unmarshal_blocks raw ≡ ok contents))
    × (all_valid contents ≡ false → marshal_blocks contents ≡ err invalid_blocks)
marshal_blocks-unmarshal_blocks_example = marshal_blocks-unmarshal_blocks contents

contents_valid : all_valid contents ≡ true
unfolding all_valid text_block contents
contents_valid = refl

abbrev step_event : ℕ → EventType → String → Event
step_event n t step = record {
  seq = n;
  type = t;
  format_version = pos 2;
  id = "";
  timestamp = n;
  raw = value (Json.object Fields.end);
  source_seqs = [];
  session_id = "s";
  run_id = "r";
  turn_id = "t";
  step_id = step;
  call_id = "";
}

-- The steps "a" and "c" are open.
abbrev steps : List Event
steps =
    step_event 1 step_start "a"
    ∷ step_event 2 step_start "b"
    ∷ step_event 3 step_end "b"
    ∷ step_event 4 step_start "c"
    ∷ []

abbrev ends : List Event
ends = step_event 5 step_end "a" ∷ step_event 6 step_end "c" ∷ []

interrupted_step_end_events-closed_example :
    interrupted_step_end_events (λ s. s) (steps ++ ends) "s" ≡ []
unfolding interrupted_step_end_events draft_key
interrupted_step_end_events-closed_example =
    interrupted_step_end_events-closed (λ s. s) steps ends "s"
      (
        record { type = refl; run = refl; turn = refl; step = refl },
        (record { type = refl; run = refl; turn = refl; step = refl }, tt),
      )

-- In the step "a" a call waits for its resumption.
abbrev waiting : List Event
waiting = steps ++ (record (step_event 5 tool_deferred "a") { call_id = "c1" } ∷ [])

abbrev one_end : List Event
one_end = step_event 6 step_end "c" ∷ []

recovered_step_ends-deferred_example :
    All
      (λ st. (pending_deferred_scopes waiting).0 st.key ≡ true)
      (open_steps (waiting ++ one_end) [])
unfolding recovered_step_ends draft_key
recovered_step_ends-deferred_example =
    recovered_step_ends-deferred (λ s. s) waiting one_end "s"
      (record { type = refl; run = refl; turn = refl; step = refl }, tt)

-- A call with its result, of which a compaction hid both.
abbrev paired : List Event
paired =
    record (step_event 1 assistant_message "a") {
      raw = value (
          Json.object (
            Fields.field "tool_calls"
              (Json.array (
                Items.cons (Json.object (Fields.field "call_id" (Json.text "c1") Fields.end))
                  Items.nil))
              Fields.end));
    }
    ∷ record (step_event 2 tool_result "a") { call_id = "c1" }
    ∷ record (step_event 3 tool_result "a") { call_id = "c2" }
    ∷ []

validate_pairing-pairs_example :
    All (KeepsResults (result_by_call paired (λ id. none)) (λ s. ltb s 3)) paired
    × All (KeepsSources (assistant_by_call paired (λ id. none)) (λ s. ltb s 3)) paired
unfolding validate_pairing payload_field
validate_pairing-pairs_example = validate_pairing-pairs paired (λ s. ltb s 3) refl

-- Hiding the call alone is refused.
parted : validate_pairing paired (λ s. s == 1) ≡ false
unfolding validate_pairing payload_field
parted = refl

-- ===== src/Session/Event/Validate.antt =====
-- `Event.Validate` (session/event.go).
use awesome_go_agents.Base.{
  Bool, true, false, ◌&&◌, not, List, [], ◌∷◌, Option, none, some, String, str_eq, if◌then◌else◌,
}
use awesome_go_agents.Session.Json.{
  RawMessage, is_empty, is_valid, Fields, find_field, decoded_fields, text_of, text_fits, raw_of,
}
use awesome_go_agents.Session.Errors.{
  Result, ok, err, guard, ◌>>◌, ◌>>=◌, invalid_data, bad_envelope, envelope_route, missing_call_id,
  payload_not_object,
}
use awesome_go_agents.Session.Blocks.{is_blank}
use awesome_go_agents.Session.Blocks.Decode.{unmarshal_blocks}
use awesome_go_agents.Session.Event.{
  EventType, Event, parts, is_extension, validate_type, tool_call, tool_admitted, tool_dispatched,
  tool_running, tool_deferred, tool_resume_started, tool_result, approval_requested,
  approval_resolved, assistant_message,
}

-- `envelope.Namespace + "/" + envelope.Name == t`: the type's text has one slash.
abbrev same_route : String → String → List String → Bool
same_route ns name (p ∷ q ∷ []) = str_eq ns p && str_eq name q
same_route ns name _ = false

check_envelope : EventType → Option Fields → Result (Unit {0})
unfolding find_field parts
check_envelope t none = err bad_envelope
check_envelope t (some fs) = do
  let ns = text_of (find_field "namespace" fs)
  let name = text_of (find_field "name" fs)
  guard
      (text_fits (find_field "namespace" fs)
        && text_fits (find_field "name" fs)
        && not (is_blank ns)
        && not (is_blank name)
        && is_valid (raw_of (find_field "payload" fs)))
      bad_envelope
  guard (same_route ns name (parts t)) envelope_route

-- The types that must carry the id of their call.
unfoldable pub needs_call_id : EventType → Bool
needs_call_id tool_call = true
needs_call_id tool_admitted = true
needs_call_id tool_dispatched = true
needs_call_id tool_running = true
needs_call_id tool_deferred = true
needs_call_id tool_resume_started = true
needs_call_id tool_result = true
needs_call_id approval_requested = true
needs_call_id approval_resolved = true
needs_call_id _ = false

-- The types whose payload may carry content blocks.
unfoldable pub carries_blocks : EventType → Bool
carries_blocks assistant_message = true
carries_blocks tool_result = true
carries_blocks _ = false

check_block_bytes : RawMessage → Result (Unit {0})
unfolding unmarshal_blocks
check_block_bytes raw = if is_empty raw then ok tt else (unmarshal_blocks raw >>= λ _. ok tt)

check_blocks : Option Fields → Result (Unit {0})
unfolding find_field check_block_bytes
check_blocks none = err payload_not_object
check_blocks (some fs) = check_block_bytes (raw_of (find_field "blocks" fs))

-- The checks of the data and of the call id.
unfoldable pub check_data : Event → Result (Unit {0})
unfolding is_extension check_envelope needs_call_id carries_blocks check_blocks
check_data e = do
  guard (is_valid e.raw) invalid_data
  if is_extension e.type then check_envelope e.type (decoded_fields e.raw) else ok tt
  guard (not (needs_call_id e.type && is_blank e.call_id)) missing_call_id
  if carries_blocks e.type then check_blocks (decoded_fields e.raw) else ok tt

unfoldable pub validate : Event → Result (Unit {0})
unfolding validate_type check_data
validate e = do validate_type e.type e.format_version; check_data e

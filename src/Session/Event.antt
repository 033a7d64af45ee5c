-- ===== src/Session/Event.antt =====
-- The event envelope (session/event.go): the vocabulary of event types, the event itself, and the
-- checks before an append.
--
-- An `EventType` is a text. The texts of the vocabulary are constructors, and `other` holds any
-- other text by its parts between the slashes (`strings.Split(t, "/")`).
-- `Clone` copies the slices of an event, and is the identity on values.
pub mod Validate
pub mod Versions
use awesome_go_agents.Base.{
  ℕ, Bool, true, false, not, ◌&&◌, ◌||◌, List, [], ◌∷◌, String, ℤ, pos, negsuc, ltb, ◌==◌,
  if◌then◌else◌, str_eq,
}
use awesome_go_agents.Session.Json.{RawMessage}
use awesome_go_agents.Session.Errors.{
  Result, ok, err, guard, ◌>>◌, ◌>>=◌, unknown_event_type, invalid_format_version,
  unsupported_format_version,
}

pub data EventType : Type 0 where
  request_header request_context turn_start turn_end step_start step_end : EventType
  user_message steering_message injected_context : EventType
  skill_catalog skill_invocation skill_loaded : EventType
  inbox_queued inbox_claimed inbox_requeued inbox_completed inbox_discarded : EventType
  approval_requested approval_resolved assistant_chunk assistant_message : EventType
  tool_call tool_admitted tool_dispatched tool_running tool_deferred : EventType
  tool_resume_started tool_result request_error context_snapshot usage : EventType
  compaction_start compaction_summary compaction_surface compaction_end : EventType
  other : List String → EventType

-- The text of a type, split at its slashes.
unfoldable pub parts : EventType → List String
parts request_header = "request" ∷ "header" ∷ []
parts request_context = "request" ∷ "context" ∷ []
parts turn_start = "turn" ∷ "start" ∷ []
parts turn_end = "turn" ∷ "end" ∷ []
parts step_start = "step" ∷ "start" ∷ []
parts step_end = "step" ∷ "end" ∷ []
parts user_message = "user" ∷ "message" ∷ []
parts steering_message = "steering" ∷ "message" ∷ []
parts injected_context = "context" ∷ "injected" ∷ []
parts skill_catalog = "skill" ∷ "catalog" ∷ []
parts skill_invocation = "skill" ∷ "invocation" ∷ []
parts skill_loaded = "skill" ∷ "loaded" ∷ []
parts inbox_queued = "inbox" ∷ "queued" ∷ []
parts inbox_claimed = "inbox" ∷ "claimed" ∷ []
parts inbox_requeued = "inbox" ∷ "requeued" ∷ []
parts inbox_completed = "inbox" ∷ "completed" ∷ []
parts inbox_discarded = "inbox" ∷ "discarded" ∷ []
parts approval_requested = "approval" ∷ "requested" ∷ []
parts approval_resolved = "approval" ∷ "resolved" ∷ []
parts assistant_chunk = "assistant" ∷ "chunk" ∷ []
parts assistant_message = "assistant" ∷ "message" ∷ []
parts tool_call = "tool" ∷ "call" ∷ []
parts tool_admitted = "tool" ∷ "admitted" ∷ []
parts tool_dispatched = "tool" ∷ "dispatched" ∷ []
parts tool_running = "tool" ∷ "running" ∷ []
parts tool_deferred = "tool" ∷ "deferred" ∷ []
parts tool_resume_started = "tool" ∷ "resume_started" ∷ []
parts tool_result = "tool" ∷ "result" ∷ []
parts request_error = "request" ∷ "error" ∷ []
parts context_snapshot = "context" ∷ "snapshot" ∷ []
parts usage = "usage" ∷ []
parts compaction_start = "compaction" ∷ "start" ∷ []
parts compaction_summary = "compaction" ∷ "summary" ∷ []
parts compaction_surface = "compaction" ∷ "surface" ∷ []
parts compaction_end = "compaction" ∷ "end" ∷ []
parts (other ps) = ps

-- `knownTypes[t]`
unfoldable pub in_vocabulary : EventType → Bool
in_vocabulary (other ps) = false
in_vocabulary _ = true

-- The names that core events take the first part of their type from.
unfoldable pub reserved_namespace : String → Bool
reserved_namespace s =
    str_eq s "request"
    || str_eq s "turn"
    || str_eq s "step"
    || str_eq s "user"
    || str_eq s "steering"
    || str_eq s "context"
    || str_eq s "skill"
    || str_eq s "inbox"
    || str_eq s "approval"
    || str_eq s "assistant"
    || str_eq s "tool"
    || str_eq s "compaction"
    || str_eq s "usage"

-- `Extension`, on the split text.
unfoldable pub vendor_route : List String → Bool
unfolding reserved_namespace
vendor_route (ns ∷ name ∷ []) =
    not (str_eq ns "" || str_eq name "" || str_eq ns "unknown") && not (reserved_namespace ns)
vendor_route _ = false

unfoldable pub is_extension : EventType → Bool
unfolding vendor_route parts
is_extension t = vendor_route (parts t)

unfoldable pub is_known : EventType → Bool
unfolding in_vocabulary is_extension
is_known t = in_vocabulary t || is_extension t

-- `Surface`: the types that take part in the model-facing projection.
unfoldable pub is_surface : EventType → Bool
is_surface user_message = true
is_surface steering_message = true
is_surface injected_context = true
is_surface skill_catalog = true
is_surface skill_invocation = true
is_surface assistant_message = true
is_surface tool_result = true
is_surface context_snapshot = true
is_surface _ = false

-- Instants are numbers, and 0 is the zero `time.Time`.
pub record Event : Type 0 where
  pub seq : ℕ
  pub type : EventType
  pub format_version : ℤ
  pub id : String
  pub timestamp : ℕ
  pub raw : RawMessage
  pub source_seqs : List ℕ
  pub session_id : String
  pub run_id : String
  pub turn_id : String
  pub step_id : String
  pub call_id : String

abbrev pub event_format_version : ℕ
event_format_version = 2

check_version : ℤ → Result (Unit {0})
check_version (negsuc n) = err invalid_format_version
check_version (pos v) = if ltb event_format_version v then err unsupported_format_version else ok tt

-- The version 0 stands for the current one.
unfoldable pub effective_version : ℤ → ℤ
effective_version (pos v) = if v == 0 then pos event_format_version else pos v
effective_version (negsuc n) = negsuc n

unfoldable pub validate_type : EventType → ℤ → Result (Unit {0})
unfolding is_known check_version effective_version
validate_type t v = do
  guard (is_known t || is_extension t) unknown_event_type
  check_version (effective_version v)

-- `NormalizedFormatVersion`
unfoldable pub normalized_format_version : Event → ℤ
unfolding effective_version
normalized_format_version e = effective_version e.format_version

-- `Normalize`, at the time that the clock shows.
unfoldable pub normalize : ℕ → Event → Event
unfolding effective_version
normalize now e = record e {
  format_version = effective_version e.format_version;
  timestamp = if e.timestamp == 0 then now else e.timestamp;
}

-- ===== src/Session/Blocks/Encode.antt =====
-- The encoding of content blocks (session/blocks.go: MarshalJSON, MarshalBlocks).
--
-- The keys of a map are written in their order, those of a struct in that of its fields. Only valid
-- blocks are encoded, and in those the raw bytes that are written are JSON. Texts are code points, so
-- the replacement of bytes that are no UTF-8 is left out.
use awesome_go_agents.Base.{Bool, Option, none, some, List, [], ◌∷◌, String, if◌then◌else◌}
use awesome_go_agents.Session.Json.{
  Json, object, array, Items, nil, cons, Fields, end, field, RawMessage, empty, malformed, value,
}
use awesome_go_agents.Session.Errors.{Result, ok, err, invalid_blocks}
use awesome_go_agents.Session.Blocks.{
  BlockKind, text, reasoning, media, tool_call, tool_result, extension, unknown, MediaBlock,
  ToolCallBlock, ToolResultBlock, ContentBlock, is_blank, validate, all_valid,
}
pub mod Payloads
pub mod Kinds
pub mod RoundTrip

unfoldable pub kind_text : BlockKind → String
kind_text text = "text"
kind_text reasoning = "reasoning"
kind_text media = "media"
kind_text tool_call = "tool_call"
kind_text tool_result = "tool_result"
kind_text extension = "extension"
kind_text unknown = ""

abbrev pub raw_json : RawMessage → Json
raw_json (value j) = j
raw_json _ = Json.null

-- A field of type `string`, and one of type `json.RawMessage`, with `omitempty`.
unfoldable pub with_text : String → String → Fields → Fields
with_text key s rest = if is_blank s then rest else field key (Json.text s) rest

unfoldable pub with_raw : String → RawMessage → Fields → Fields
with_raw key empty rest = rest
with_raw key malformed rest = rest
with_raw key (value j) rest = field key j rest

unfoldable pub media_fields : MediaBlock → Fields
unfolding with_text
media_fields m =
    field "media_type" (Json.text m.media_type)
      (with_text "url" m.url (with_text "data" m.media_data end))

unfoldable pub tool_call_fields : ToolCallBlock → Fields
tool_call_fields c =
    field "call_id" (Json.text c.call_id)
      (field "name" (Json.text c.name) (field "arguments" (raw_json c.arguments) end))

unfoldable pub tool_result_fields : ToolResultBlock → Fields
unfolding with_text with_raw
tool_result_fields r = field "call_id" (Json.text r.call_id) (
    with_text "name" r.name
      (with_raw "content" r.content (with_text "code" r.code (with_text "error" r.error end))))

-- A pointer to a struct.
abbrev pub pointer_json {ℓ} : {A : Type ℓ} → (A → Fields) → Option A → Json
pointer_json fields none = Json.null
pointer_json fields (some a) = object (fields a)

unfoldable pub block_fields : BlockKind → ContentBlock → Fields
unfolding kind_text media_fields tool_call_fields tool_result_fields
block_fields text b =
    field "content" (Json.text b.text) (field "kind" (Json.text (kind_text text)) end)
block_fields reasoning b =
    field "content" (Json.text b.text) (field "kind" (Json.text (kind_text reasoning)) end)
block_fields media b =
    field "kind" (Json.text (kind_text media))
      (field "media" (pointer_json media_fields b.media) end)
block_fields tool_call b =
    field "kind" (Json.text (kind_text tool_call))
      (field "tool_call" (pointer_json tool_call_fields b.tool_call) end)
block_fields tool_result b =
    field "kind" (Json.text (kind_text tool_result))
      (field "tool_result" (pointer_json tool_result_fields b.tool_result) end)
block_fields extension b = field "kind" (Json.text (kind_text extension)) (
    field "name" (Json.text b.name)
      (field "namespace" (Json.text b.namespace) (field "payload" (raw_json b.payload) end)))
block_fields unknown b = field "kind" (Json.text (kind_text unknown)) end

-- `MarshalJSON`
unfoldable pub encode_block : ContentBlock → Option Json
unfolding validate block_fields
encode_block b = if validate b then some (object (block_fields b.kind b)) else none

unfoldable pub encode_blocks : List ContentBlock → Option Items
unfolding encode_block
encode_blocks [] = some nil
encode_blocks (b ∷ bs) = elim (encode_block b) [
  | none ↦ none
  | some j ↦ elim (encode_blocks bs) [ none ↦ none | some js ↦ some (cons j js) ]
]

unfoldable pub marshal_blocks : List ContentBlock → Result RawMessage
unfolding all_valid encode_blocks
marshal_blocks bs =
    if all_valid bs
    then elim (encode_blocks bs) [ none ↦ err invalid_blocks | some js ↦ ok (value (array js)) ]
    else err invalid_blocks

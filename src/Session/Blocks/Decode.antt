-- ===== src/Session/Blocks/Decode.antt =====
-- The decoding of content blocks (session/blocks.go: UnmarshalJSON, UnmarshalBlocks).
use awesome_go_agents.Base.{
  Bool, ◌&&◌, Option, none, some, List, [], ◌∷◌, String, if◌then◌else◌, str_eq,
}
use awesome_go_agents.Session.Json.{
  Json, Fields, RawMessage, value, array, find_field, struct_fields, text_of, text_fits, raw_of,
  items,
}
use awesome_go_agents.Session.Errors.{Result, ok, err, invalid_blocks}
use awesome_go_agents.Session.Blocks.{
  BlockKind, text, reasoning, media, tool_call, tool_result, extension, unknown, MediaBlock,
  ToolCallBlock, ToolResultBlock, ContentBlock, validate,
}

unfoldable pub block_kind : String → BlockKind
block_kind s =
    if str_eq s "text"
    then text
    else if str_eq s "reasoning"
    then reasoning
    else if str_eq s "media"
    then media
    else if str_eq s "tool_call"
    then tool_call
    else if str_eq s "tool_result"
    then tool_result
    else if str_eq s "extension"
    then extension
    else unknown

-- A pointer field: absent or null is nil, an object is decoded, anything else is an error.
abbrev pub pointer_fields : Option Json → Option (Option Fields)
pointer_fields none = some none
pointer_fields (some Json.null) = some none
pointer_fields (some (Json.object fs)) = some (some fs)
pointer_fields _ = none

unfoldable pub media_of : Fields → MediaBlock
unfolding find_field
media_of fs = record {
  media_type = text_of (find_field "media_type" fs);
  url = text_of (find_field "url" fs);
  media_data = text_of (find_field "data" fs);
}

unfoldable pub media_fits : Fields → Bool
unfolding find_field
media_fits fs =
    text_fits (find_field "media_type" fs)
    && text_fits (find_field "url" fs)
    && text_fits (find_field "data" fs)

unfoldable pub tool_call_of : Fields → ToolCallBlock
unfolding find_field
tool_call_of fs = record {
  call_id = text_of (find_field "call_id" fs);
  name = text_of (find_field "name" fs);
  arguments = raw_of (find_field "arguments" fs);
}

unfoldable pub tool_call_fits : Fields → Bool
unfolding find_field
tool_call_fits fs = text_fits (find_field "call_id" fs) && text_fits (find_field "name" fs)

unfoldable pub tool_result_of : Fields → ToolResultBlock
unfolding find_field
tool_result_of fs = record {
  call_id = text_of (find_field "call_id" fs);
  name = text_of (find_field "name" fs);
  content = raw_of (find_field "content" fs);
  code = text_of (find_field "code" fs);
  error = text_of (find_field "error" fs);
}

unfoldable pub tool_result_fits : Fields → Bool
unfolding find_field
tool_result_fits fs =
    text_fits (find_field "call_id" fs)
    && text_fits (find_field "name" fs)
    && text_fits (find_field "code" fs)
    && text_fits (find_field "error" fs)

-- A pointer to a struct, decoded: none is a decoding error.
unfoldable pub decode_pointer {ℓ} :
    {A : Type ℓ} → (Fields → A) → (Fields → Bool) → Option (Option Fields) → Option (Option A)
decode_pointer of fits none = none
decode_pointer of fits (some none) = some none
decode_pointer of fits (some (some fs)) = if fits fs then some (some (of fs)) else none

unfoldable pub block_of_fields :
    Fields
    → Option (Option MediaBlock)
    → Option (Option ToolCallBlock)
    → Option (Option ToolResultBlock)
    → Option ContentBlock
unfolding block_kind find_field
block_of_fields fs (some m) (some c) (some r) =
    if text_fits (find_field "kind" fs)
      && text_fits (find_field "content" fs)
      && text_fits (find_field "namespace" fs)
      && text_fits (find_field "name" fs)
    then some (record {
      kind = block_kind (text_of (find_field "kind" fs));
      text = text_of (find_field "content" fs);
      media = m;
      tool_call = c;
      tool_result = r;
      namespace = text_of (find_field "namespace" fs);
      name = text_of (find_field "name" fs);
      payload = raw_of (find_field "payload" fs);
    })
    else none
block_of_fields _ _ _ _ = none

unfoldable pub decode_block_fields : Option Fields → Option ContentBlock
unfolding block_of_fields decode_pointer media_of media_fits tool_call_of tool_call_fits
    tool_result_of tool_result_fits find_field
decode_block_fields none = none
decode_block_fields (some fs) =
    block_of_fields fs (decode_pointer media_of media_fits (pointer_fields (find_field "media" fs)))
      (decode_pointer tool_call_of tool_call_fits (pointer_fields (find_field "tool_call" fs)))
      (decode_pointer tool_result_of tool_result_fits
        (pointer_fields (find_field "tool_result" fs)))

-- `UnmarshalJSON`: decode, then validate.
unfoldable pub decode_block : Json → Option ContentBlock
unfolding decode_block_fields validate
decode_block j = elim (decode_block_fields (struct_fields j)) [
  | none ↦ none
  | some b ↦ if validate b then some b else none
]

-- The loop of the array decoder: one bad block fails the list.
unfoldable pub decode_blocks : List Json → Option (List ContentBlock)
unfolding decode_block
decode_blocks [] = some []
decode_blocks (j ∷ js) = elim (decode_block j) [
  | none ↦ none
  | some b ↦ elim (decode_blocks js) [ none ↦ none | some bs ↦ some (b ∷ bs) ]
]

unfoldable pub unmarshal_blocks : RawMessage → Result (List ContentBlock)
unfolding decode_blocks items
unmarshal_blocks (value (array js)) = elim (decode_blocks (items js)) [
  | none ↦ err invalid_blocks
  | some bs ↦ ok bs
]
unmarshal_blocks _ = err invalid_blocks

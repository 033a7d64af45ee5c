-- ===== src/Session/Blocks.antt =====
-- Content blocks (session/blocks.go): the tagged union of assistant messages and tool results, its
-- validation. `Blocks/Decode.antt` decodes a block list, `Blocks/Encode.antt` encodes one.
--
-- `base64.StdEncoding.DecodeString` succeeds on groups of four characters of its alphabet, the
-- last of which may end in one or two `=`, where line ends do not count.
use Prim.Native.Char.{code}
use awesome_go_agents.Base.{
  ℕ, ◌≡◌, Bool, true, false, not, ◌&&◌, ◌||◌, Option, none, some, List, [], ◌∷◌, String, ltb, leb,
  ◌==◌, if◌then◌else◌, str_eq,
}
use awesome_go_agents.Session.Json.{RawMessage, empty, is_empty, is_valid}
pub mod Decode
pub mod Encode

pub data BlockKind : Type 0 where
  text reasoning media tool_call tool_result extension : BlockKind
  -- any other text
  unknown : BlockKind

pub record MediaBlock : Type 0 where
  pub media_type : String
  pub url : String
  pub media_data : String

pub record ToolCallBlock : Type 0 where
  pub call_id : String
  pub name : String
  pub arguments : RawMessage

pub record ToolResultBlock : Type 0 where
  pub call_id : String
  pub name : String
  pub content : RawMessage
  pub code : String
  pub error : String

pub record ContentBlock : Type 0 where
  pub kind : BlockKind
  pub text : String
  pub media : Option MediaBlock
  pub tool_call : Option ToolCallBlock
  pub tool_result : Option ToolResultBlock
  pub namespace : String
  pub name : String
  pub payload : RawMessage

-- `p == nil` and `s == ""`
abbrev pub is_nil {ℓ} : {A : Type ℓ} → Option A → Bool
is_nil none = true
is_nil (some _) = false

abbrev pub is_blank : String → Bool
is_blank s = str_eq s ""

-- `strings.Contains(s, "/")`
unfoldable pub has_slash : String → Bool
has_slash String.[] = false
has_slash (String.◌∷◌ c s) = code c == b'/' || has_slash s

base64_digit : ℕ → Bool
base64_digit c =
    (leb b'A' c && leb c b'Z')
    || (leb b'a' c && leb c b'z')
    || (leb b'0' c && leb c b'9')
    || c == b'+'
    || c == b'/'

-- The characters that count: `\r` and `\n` are skipped.
base64_text : String → List ℕ
base64_text String.[] = []
base64_text (String.◌∷◌ c s) =
    let rest = base64_text s in if code c == 10 || code c == 13 then rest else code c ∷ rest

base64_groups : List ℕ → Bool
unfolding base64_digit
base64_groups [] = true
base64_groups (a ∷ b ∷ c ∷ d ∷ []) =
    base64_digit a
    && base64_digit b
    && ((base64_digit c && base64_digit d)
        || (base64_digit c && d == b'=')
        || (c == b'=' && d == b'='))
base64_groups (a ∷ b ∷ c ∷ d ∷ e ∷ rest) =
    base64_digit a && base64_digit b && base64_digit c && base64_digit d && base64_groups (e ∷ rest)
base64_groups _ = false

unfoldable pub decodes_base64 : String → Bool
unfolding base64_text base64_groups
decodes_base64 s = base64_groups (base64_text s)

-- The namespaces that `ContentBlock.Validate` reserves.
unfoldable pub reserved_block_namespace : String → Bool
reserved_block_namespace s =
    str_eq s "request"
    || str_eq s "turn"
    || str_eq s "step"
    || str_eq s "user"
    || str_eq s "steering"
    || str_eq s "context"
    || str_eq s "inbox"
    || str_eq s "approval"
    || str_eq s "assistant"
    || str_eq s "tool"
    || str_eq s "compaction"
    || str_eq s "usage"

-- `len(b.Payload) > 0` and the names of an extension, which no other kind may carry.
abbrev pub no_extension_fields : ContentBlock → Bool
no_extension_fields b = is_blank b.namespace && is_blank b.name && is_empty b.payload

unfoldable pub media_valid : Option MediaBlock → Bool
unfolding decodes_base64
media_valid none = false
media_valid (some m) =
    not (is_blank m.media_type) && (is_blank m.media_data || decodes_base64 m.media_data)

unfoldable pub tool_call_valid : Option ToolCallBlock → Bool
tool_call_valid none = false
tool_call_valid (some c) = not (is_blank c.call_id) && not (is_blank c.name) && is_valid c.arguments

unfoldable pub tool_result_valid : Option ToolResultBlock → Bool
tool_result_valid none = false
tool_result_valid (some r) = not (is_blank r.call_id) && (is_empty r.content || is_valid r.content)

unfoldable pub extension_valid : ContentBlock → Bool
unfolding has_slash reserved_block_namespace
extension_valid b =
    not (is_blank b.namespace)
    && not (is_blank b.name)
    && not (str_eq b.namespace "unknown")
    && not (has_slash b.namespace)
    && not (has_slash b.name)
    && is_valid b.payload
    && not (reserved_block_namespace b.namespace)

-- `Validate`, by the kind: true where the source returns nil.
unfoldable pub validate_kind : BlockKind → ContentBlock → Bool
unfolding media_valid tool_call_valid tool_result_valid extension_valid
validate_kind text b =
    is_nil b.media && is_nil b.tool_call && is_nil b.tool_result && no_extension_fields b
validate_kind reasoning b =
    is_nil b.media && is_nil b.tool_call && is_nil b.tool_result && no_extension_fields b
validate_kind media b =
    media_valid b.media
    && is_blank b.text
    && is_nil b.tool_call
    && is_nil b.tool_result
    && no_extension_fields b
validate_kind tool_call b =
    tool_call_valid b.tool_call
    && is_blank b.text
    && is_nil b.media
    && is_nil b.tool_result
    && no_extension_fields b
validate_kind tool_result b =
    tool_result_valid b.tool_result
    && is_blank b.text
    && is_nil b.media
    && is_nil b.tool_call
    && no_extension_fields b
validate_kind extension b =
    extension_valid b
    && is_blank b.text
    && is_nil b.media
    && is_nil b.tool_call
    && is_nil b.tool_result
validate_kind unknown b = false

unfoldable pub validate : ContentBlock → Bool
unfolding validate_kind
validate b = validate_kind b.kind b

unfoldable pub text_block : String → ContentBlock
text_block s = record {
  kind = text;
  text = s;
  media = none;
  tool_call = none;
  tool_result = none;
  namespace = "";
  name = "";
  payload = empty;
}

-- The check of `MarshalBlocks`: every block is valid.
unfoldable pub all_valid : List ContentBlock → Bool
unfolding validate
all_valid [] = true
all_valid (b ∷ bs) = validate b && all_valid bs

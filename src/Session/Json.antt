-- ===== src/Session/Json.antt =====
-- What session/ uses of encoding/json: the raw bytes of a payload, seen as what the decoder makes
-- of them, and the decoding of single struct fields.
--
-- A field is found by its exact key; the decoder's second chance, a key that differs in case only,
-- is left out. A field of another JSON type is skipped and makes the decoding an error, `null`
-- is the zero value, and of two equal keys the later counts alone. So an object in which a key stands
-- twice, the later time with `null` or with another JSON type, is not decoded as the decoder does it,
-- which keeps the earlier value and reports the misfit.
use awesome_go_agents.Base.{
  ℕ, Bool, true, false, ◌&&◌, Option, none, some, List, [], ◌∷◌, String, if◌then◌else◌, str_eq,
}

mutual
  pub data Json : Type 0 where
    null : Json
    boolean : Bool → Json
    -- a number that a uint64 holds
    number : ℕ → Json
    -- any other number
    other_number : Json
    text : String → Json
    array : Items → Json
    object : Fields → Json

  pub data Items : Type 0 where
    nil : Items
    cons : Json → Items → Items

  pub data Fields : Type 0 where
    end : Fields
    field : String → Json → Fields → Fields

-- A `json.RawMessage`: no bytes, bytes that are no JSON, or a JSON value.
pub data RawMessage : Type 0 where
  empty : RawMessage
  malformed : RawMessage
  value : Json → RawMessage

-- `len(raw) == 0`
abbrev pub is_empty : RawMessage → Bool
is_empty empty = true
is_empty _ = false

-- `json.Valid(raw)`
abbrev pub is_valid : RawMessage → Bool
is_valid (value _) = true
is_valid _ = false

-- The last field of that name.
unfoldable pub find_field : String → Fields → Option Json
find_field key end = none
find_field key (field k v rest) = elim (find_field key rest) [
  | some later ↦ some later
  | none ↦ if str_eq k key then some v else none
]

-- The fields that a struct is decoded from, or none where the decoder reports that the value is
-- no object.
abbrev pub struct_fields : Json → Option Fields
struct_fields null = some end
struct_fields (object fs) = some fs
struct_fields _ = none

abbrev pub decoded_fields : RawMessage → Option Fields
decoded_fields (value j) = struct_fields j
decoded_fields _ = none

-- A field of type `string`: its value after decoding, and whether it decodes without an error.
abbrev pub text_of : Option Json → String
text_of (some (text s)) = s
text_of _ = ""

abbrev pub text_fits : Option Json → Bool
text_fits none = true
text_fits (some null) = true
text_fits (some (text _)) = true
text_fits _ = false

-- A field of type `bool`.
abbrev pub boolean_of : Option Json → Bool
boolean_of (some (boolean b)) = b
boolean_of _ = false

abbrev pub boolean_fits : Option Json → Bool
boolean_fits none = true
boolean_fits (some null) = true
boolean_fits (some (boolean _)) = true
boolean_fits _ = false

-- A field of type `uint64`.
abbrev pub number_of : Option Json → ℕ
number_of (some (number n)) = n
number_of _ = 0

abbrev pub number_fits : Option Json → Bool
number_fits none = true
number_fits (some null) = true
number_fits (some (number _)) = true
number_fits _ = false

-- A field of type `json.RawMessage`, which takes the bytes as they are.
abbrev pub raw_of : Option Json → RawMessage
raw_of none = empty
raw_of (some j) = value j

-- The elements of an array, and a field that is a slice.
unfoldable pub items : Items → List Json
items nil = []
items (cons j js) = j ∷ items js

unfoldable pub elements_of : Option Json → List Json
unfolding items
elements_of (some (array js)) = items js
elements_of _ = []

abbrev pub elements_fit : Option Json → Bool
elements_fit none = true
elements_fit (some null) = true
elements_fit (some (array _)) = true
elements_fit _ = false

-- `[]uint64`
unfoldable pub numbers : List Json → List ℕ
numbers [] = []
numbers (j ∷ js) = number_of (some j) ∷ numbers js

unfoldable pub all_fit : (Option Json → Bool) → List Json → Bool
all_fit fits [] = true
all_fit fits (j ∷ js) = fits (some j) && all_fit fits js

-- The payload that `decodeJSON` fills from the bytes of an event: the fields that there are, where
-- no bytes and no object are a payload without fields.
unfoldable pub payload_field : String → RawMessage → Option Json
unfolding find_field
payload_field key raw = elim (decoded_fields raw) [ none ↦ none | some fs ↦ find_field key fs ]

abbrev pub payload_text : String → RawMessage → String
payload_text key raw = text_of (payload_field key raw)

-- `decodeJSON(data, &payload) == nil` for a payload whose fields fit as given.
abbrev pub payload_decodes : RawMessage → Bool → Bool
payload_decodes empty fits = true
payload_decodes malformed fits = false
payload_decodes (value j) fits = elim (struct_fields j) [ none ↦ false | some fs ↦ fits ]

-- A text field of an element of a slice of structs.
abbrev pub element_text : String → Json → String
element_text key j = payload_text key (value j)

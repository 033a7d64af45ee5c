-- ===== src/Session/Blocks/Encode/Payloads.antt =====
-- The payloads of encoded blocks, found again field by field (session/blocks.go).
use awesome_go_agents.Base.{
  ◌≡◌, inl, inr, refl, sym, ap, ◌∙◌, Bool, true, false, ◌||◌, Option, none, some, String,
  if◌then◌else◌, str_eq, Bool-cases, eq_iff,
}
use awesome_go_agents.Session.Json.{
  Json, Fields, end, field, RawMessage, empty, malformed, value, find_field, text_of, text_fits,
  raw_of, is_empty, is_valid,
}
use awesome_go_agents.Session.Blocks.{MediaBlock, ToolCallBlock, ToolResultBlock, is_blank}
use awesome_go_agents.Session.Blocks.Decode.{
  media_of, media_fits, tool_call_of, tool_call_fits, tool_result_of, tool_result_fits,
}
use awesome_go_agents.Session.Blocks.Encode.{
  raw_json, with_text, with_raw, media_fields, tool_call_fields, tool_result_fields,
}

-- What a text field with `omitempty` shows to the decoder.
abbrev shown : String → Option Json
shown s = if is_blank s then none else some (Json.text s)

find_field-with_text :
    (key s : String) (rest : Fields)
    → find_field key rest ≡ none
    → find_field key (with_text key s rest) ≡ shown s
unfolding find_field with_text
find_field-with_text key s rest h = elim (Bool-cases (is_blank s)) [
  | inl blank ↦ rw blank h
  | inr some_text ↦ rw (some_text, h, (eq_iff key key).1 refl)
]

passed_over :
    (o : Option Json) (v : Json) (b : Bool)
    → b ≡ false
    → elim o [ some later ↦ some later | none ↦ if b then some v else none ] ≡ o
passed_over (some j) v b h = refl
passed_over none v b h = rw h

find_field-other :
    (key other : String) (v : Json) (rest : Fields)
    → str_eq other key ≡ false
    → find_field key (field other v rest) ≡ find_field key rest
unfolding find_field
find_field-other key other v rest h = passed_over (find_field key rest) v (str_eq other key) h

with_text_other :
    (key other s : String) (rest : Fields)
    → str_eq other key ≡ false
    → find_field key (with_text other s rest) ≡ find_field key rest
unfolding with_text
with_text_other key other s rest h = elim (Bool-cases (is_blank s)) [
  | inl blank ↦ rw blank
  | inr some_text ↦ rw some_text (find_field-other key other (Json.text s) rest h)
]

with_raw_other :
    (key other : String) (raw : RawMessage) (rest : Fields)
    → str_eq other key ≡ false
    → find_field key (with_raw other raw rest) ≡ find_field key rest
unfolding with_raw
with_raw_other key other empty rest h = refl
with_raw_other key other malformed rest h = refl
with_raw_other key other (value j) rest h = find_field-other key other j rest h

find_field-here :
    (key : String) (v : Json) (rest : Fields)
    → find_field key rest ≡ none
    → find_field key (field key v rest) ≡ some v
unfolding find_field
find_field-here key v rest h = rw (h, (eq_iff key key).1 refl) refl

nothing : (key : String) → find_field key end ≡ none
unfolding find_field
nothing key = refl

pub value-raw_json : (raw : RawMessage) → is_valid raw ≡ true → value (raw_json raw) ≡ raw
value-raw_json empty h = absurd (cc)
value-raw_json malformed h = absurd (cc)
value-raw_json (value j) h = refl

raw_of-with_raw :
    (key : String) (raw : RawMessage) (rest : Fields)
    → find_field key rest ≡ none
    → is_empty raw || is_valid raw ≡ true
    → raw_of (find_field key (with_raw key raw rest)) ≡ raw
unfolding with_raw
raw_of-with_raw key empty rest h k = rw h refl
raw_of-with_raw key malformed rest h k = absurd (cc)
raw_of-with_raw key (value j) rest h k = ap raw_of (find_field-here key j rest h)

text_of-shown : (s : String) → text_of (shown s) ≡ s
text_of-shown s = elim (Bool-cases (is_blank s)) [
  | inl blank ↦ rw blank (sym ((eq_iff s "").0 blank))
  | inr some_text ↦ rw some_text
]

text_fits-shown : (s : String) → text_fits (shown s) ≡ true
text_fits-shown s = elim (Bool-cases (is_blank s)) [
  | inl blank ↦ rw blank
  | inr some_text ↦ rw some_text
]

-- The encoded payloads of blocks, field by field.
module _ (m : MediaBlock) where
  found_media_type : find_field "media_type" (media_fields m) ≡ some (Json.text m.media_type)
  unfolding media_fields
  found_media_type =
      find_field-here "media_type" (Json.text m.media_type)
        (with_text "url" m.url (with_text "data" m.media_data end))
        (with_text_other "media_type" "url" m.url (with_text "data" m.media_data end) refl
          ∙ with_text_other "media_type" "data" m.media_data end refl
          ∙ nothing "media_type")

  found_url : find_field "url" (media_fields m) ≡ shown m.url
  unfolding media_fields
  found_url =
      find_field-other "url" "media_type" (Json.text m.media_type)
        (with_text "url" m.url (with_text "data" m.media_data end)) refl
      ∙ find_field-with_text "url" m.url (with_text "data" m.media_data end)
          (with_text_other "url" "data" m.media_data end refl ∙ nothing "url")

  found_data : find_field "data" (media_fields m) ≡ shown m.media_data
  unfolding media_fields
  found_data =
      find_field-other "data" "media_type" (Json.text m.media_type)
        (with_text "url" m.url (with_text "data" m.media_data end)) refl
      ∙ with_text_other "data" "url" m.url (with_text "data" m.media_data end) refl
      ∙ find_field-with_text "data" m.media_data end (nothing "data")

  pub media_of-media_fields : media_of (media_fields m) ≡ m
  unfolding media_of
  media_of-media_fields = λ i. record {
    media_type = ap text_of found_media_type i;
    url = (ap text_of found_url ∙ text_of-shown m.url) i;
    media_data = (ap text_of found_data ∙ text_of-shown m.media_data) i;
  }

  pub media_fits-media_fields : media_fits (media_fields m) ≡ true
  unfolding media_fits
  media_fits-media_fields =
      rw (
        found_media_type,
        found_url,
        found_data,
        text_fits-shown m.url,
        text_fits-shown m.media_data,
      )

module _ (c : ToolCallBlock) where
  pub tool_call_of-tool_call_fields :
      is_valid c.arguments ≡ true → tool_call_of (tool_call_fields c) ≡ c
  unfolding tool_call_of tool_call_fields find_field
  tool_call_of-tool_call_fields h =
      λ i. record { call_id = c.call_id; name = c.name; arguments = value-raw_json c.arguments h i }

  pub tool_call_fits-tool_call_fields : tool_call_fits (tool_call_fields c) ≡ true
  unfolding tool_call_fits tool_call_fields find_field
  tool_call_fits-tool_call_fields = refl

module _ (r : ToolResultBlock) where
  abbrev after_content : Fields
  after_content = with_text "code" r.code (with_text "error" r.error end)

  abbrev after_name : Fields
  after_name = with_raw "content" r.content after_content

  found_call_id : find_field "call_id" (tool_result_fields r) ≡ some (Json.text r.call_id)
  unfolding tool_result_fields
  found_call_id =
      find_field-here "call_id" (Json.text r.call_id) (with_text "name" r.name after_name) (
        with_text_other "call_id" "name" r.name after_name refl
        ∙ with_raw_other "call_id" "content" r.content after_content refl
        ∙ with_text_other "call_id" "code" r.code (with_text "error" r.error end) refl
        ∙ with_text_other "call_id" "error" r.error end refl
        ∙ nothing "call_id")

  found_name : find_field "name" (tool_result_fields r) ≡ shown r.name
  unfolding tool_result_fields
  found_name =
      find_field-other "name" "call_id" (Json.text r.call_id) (with_text "name" r.name after_name)
        refl
      ∙ find_field-with_text "name" r.name after_name (
          with_raw_other "name" "content" r.content after_content refl
          ∙ with_text_other "name" "code" r.code (with_text "error" r.error end) refl
          ∙ with_text_other "name" "error" r.error end refl
          ∙ nothing "name")

  after_call_id :
      (key : String)
      → str_eq "call_id" key ≡ false
      → str_eq "name" key ≡ false
      → find_field key (tool_result_fields r) ≡ find_field key after_name
  unfolding tool_result_fields
  after_call_id key h k =
      find_field-other key "call_id" (Json.text r.call_id) (with_text "name" r.name after_name) h
      ∙ with_text_other key "name" r.name after_name k

  found_content :
      is_empty r.content || is_valid r.content ≡ true
      → raw_of (find_field "content" (tool_result_fields r)) ≡ r.content
  found_content h =
      ap raw_of (after_call_id "content" refl refl)
      ∙ raw_of-with_raw "content" r.content after_content
          (with_text_other "content" "code" r.code (with_text "error" r.error end) refl
            ∙ with_text_other "content" "error" r.error end refl
            ∙ nothing "content")
          h

  found_code : find_field "code" (tool_result_fields r) ≡ shown r.code
  found_code =
      after_call_id "code" refl refl
      ∙ with_raw_other "code" "content" r.content after_content refl
      ∙ find_field-with_text "code" r.code (with_text "error" r.error end)
          (with_text_other "code" "error" r.error end refl ∙ nothing "code")

  found_error : find_field "error" (tool_result_fields r) ≡ shown r.error
  found_error =
      after_call_id "error" refl refl
      ∙ with_raw_other "error" "content" r.content after_content refl
      ∙ with_text_other "error" "code" r.code (with_text "error" r.error end) refl
      ∙ find_field-with_text "error" r.error end (nothing "error")

  pub tool_result_of-tool_result_fields :
      is_empty r.content || is_valid r.content ≡ true → tool_result_of (tool_result_fields r) ≡ r
  unfolding tool_result_of
  tool_result_of-tool_result_fields h = λ i. record {
    call_id = ap text_of found_call_id i;
    name = (ap text_of found_name ∙ text_of-shown r.name) i;
    content = found_content h i;
    code = (ap text_of found_code ∙ text_of-shown r.code) i;
    error = (ap text_of found_error ∙ text_of-shown r.error) i;
  }

  pub tool_result_fits-tool_result_fields : tool_result_fits (tool_result_fields r) ≡ true
  unfolding tool_result_fits
  tool_result_fits-tool_result_fields = rw (
    found_call_id,
    found_name,
    found_code,
    found_error,
    text_fits-shown r.name,
    text_fits-shown r.code,
    text_fits-shown r.error,
  )

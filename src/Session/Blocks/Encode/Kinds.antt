-- ===== src/Session/Blocks/Encode/Kinds.antt =====
-- A block that is encoded and valid decodes to itself, kind by kind (session/blocks.go).
use awesome_go_agents.Base.{
  ◌≡◌, refl, sym, ap, ◌∙◌, Bool, true, false, not, ◌&&◌, ◌||◌, Option, none, some, String, eq_iff,
}
use awesome_go_agents.Session.Json.{
  Fields, RawMessage, empty, malformed, value, find_field, is_empty, is_valid,
}
use awesome_go_agents.Session.Blocks.{
  BlockKind, text, reasoning, media, tool_call, tool_result, extension, unknown, MediaBlock,
  ToolCallBlock, ToolResultBlock, ContentBlock, is_blank, is_nil, no_extension_fields,
  validate_kind, reserved_block_namespace, media_valid, tool_call_valid, tool_result_valid,
  extension_valid,
}
use awesome_go_agents.Session.Blocks.Decode.{
  block_kind, media_of, media_fits, tool_call_of, tool_call_fits, tool_result_of, tool_result_fits,
  decode_pointer, pointer_fields, block_of_fields, decode_block_fields,
}
use awesome_go_agents.Session.Blocks.Encode.{
  kind_text, raw_json, media_fields, tool_call_fields, tool_result_fields, pointer_json,
  block_fields,
}
use awesome_go_agents.Session.Blocks.Encode.Payloads.{
  media_of-media_fields, media_fits-media_fields, tool_call_of-tool_call_fields,
  tool_call_fits-tool_call_fields, tool_result_of-tool_result_fields,
  tool_result_fits-tool_result_fields, value-raw_json,
}

pub both : (a b : Bool) → a && b ≡ true → (a ≡ true) × (b ≡ true)
both true b h = (refl, h)
both false b h = absurd (cc)

nil_none {ℓ} : {A : Type ℓ} (o : Option A) → is_nil o ≡ true → o ≡ none
nil_none none h = refl
nil_none (some a) h = absurd (cc)

no_bytes : (raw : RawMessage) → is_empty raw ≡ true → raw ≡ empty
no_bytes empty h = refl
no_bytes malformed h = absurd (cc)
no_bytes (value j) h = absurd (cc)

no_text : (s : String) → is_blank s ≡ true → s ≡ ""
no_text s h = (eq_iff s "").0 h

-- A pointer that was encoded decodes to what it points to.
decode_pointer-some {ℓ} :
    {A : Type ℓ} (of : Fields → A) (fits : Fields → Bool) (fields : A → Fields) (a : A)
    → fits (fields a) ≡ true
    → of (fields a) ≡ a
    → decode_pointer of fits (pointer_fields (some (pointer_json fields (some a)))) ≡ some (some a)
unfolding decode_pointer
decode_pointer-some of fits fields a h k = rw (h, k) refl

-- What a kind of blocks does not use, in the order in which `Validate` names it.
no_payload :
    (b : ContentBlock)
    → no_extension_fields b ≡ true
    → (b.namespace ≡ "") × (b.name ≡ "") × (b.payload ≡ empty)
no_payload b h =
    let (front, last) = both (is_blank b.namespace && is_blank b.name) (is_empty b.payload) h in
    let (first, second) = both (is_blank b.namespace) (is_blank b.name) front in
    (no_text b.namespace first, no_text b.name second, no_bytes b.payload last)

rebuilt :
    (b : ContentBlock) (k : BlockKind) (t : String) (m : Option MediaBlock)
    (c : Option ToolCallBlock) (r : Option ToolResultBlock) (space name : String) (p : RawMessage)
    → (b.kind ≡ k) × (b.text ≡ t)
    → (b.media ≡ m) × (b.tool_call ≡ c) × (b.tool_result ≡ r)
    → (b.namespace ≡ space) × (b.name ≡ name) × (b.payload ≡ p)
    → some (record {
      kind = k;
      text = t;
      media = m;
      tool_call = c;
      tool_result = r;
      namespace = space;
      name = name;
      payload = p;
    })
      ≡ some b
rebuilt b k t m c r space name p (e1, e2) (e3, e4, e5) (e6, e7, e8) = λ i. some (record {
  kind = sym e1 i;
  text = sym e2 i;
  media = sym e3 i;
  tool_call = sym e4 i;
  tool_result = sym e5 i;
  namespace = sym e6 i;
  name = sym e7 i;
  payload = sym e8 i;
})

-- The three pointers, of which a block uses one at most.
no_pointers :
    (b : ContentBlock)
    → is_nil b.media && is_nil b.tool_call && is_nil b.tool_result ≡ true
    → (b.media ≡ none) × (b.tool_call ≡ none) × (b.tool_result ≡ none)
no_pointers b h =
    let (two, third) = both (is_nil b.media && is_nil b.tool_call) (is_nil b.tool_result) h in
    let (first, second) = both (is_nil b.media) (is_nil b.tool_call) two in
    (nil_none b.media first, nil_none b.tool_call second, nil_none b.tool_result third)

decode_text :
    (b : ContentBlock)
    → b.kind ≡ text
    → validate_kind text b ≡ true
    → decode_block_fields (some (block_fields text b)) ≡ some b
unfolding validate_kind decode_block_fields block_of_fields block_fields find_field decode_pointer
    kind_text block_kind
decode_text b k h =
    let (nils, rest) =
      both (is_nil b.media && is_nil b.tool_call && is_nil b.tool_result) (no_extension_fields b)
        h in
    rebuilt b text b.text none none none "" "" empty (k, refl) (no_pointers b nils)
      (no_payload b rest)

decode_reasoning :
    (b : ContentBlock)
    → b.kind ≡ reasoning
    → validate_kind reasoning b ≡ true
    → decode_block_fields (some (block_fields reasoning b)) ≡ some b
unfolding validate_kind decode_block_fields block_of_fields block_fields find_field decode_pointer
    kind_text block_kind
decode_reasoning b k h =
    let (nils, rest) =
      both (is_nil b.media && is_nil b.tool_call && is_nil b.tool_result) (no_extension_fields b)
        h in
    rebuilt b reasoning b.text none none none "" "" empty (k, refl) (no_pointers b nils)
      (no_payload b rest)

decode_extension :
    (b : ContentBlock)
    → b.kind ≡ extension
    → validate_kind extension b ≡ true
    → decode_block_fields (some (block_fields extension b)) ≡ some b
unfolding validate_kind decode_block_fields block_of_fields block_fields find_field decode_pointer
    kind_text block_kind extension_valid
decode_extension b k h =
    let (h1, third) = both _ (is_nil b.tool_result) h in
    let (h2, second) = both _ (is_nil b.tool_call) h1 in
    let (h3, first) = both _ (is_nil b.media) h2 in
    let (valid, blank) = both (extension_valid b) (is_blank b.text) h3 in
    let (valid1, free) = both _ (not (reserved_block_namespace b.namespace)) valid in
    let (valid2, bytes) = both _ (is_valid b.payload) valid1 in
    rebuilt b extension "" none none none b.namespace b.name (value (raw_json b.payload))
      (k, no_text b.text blank)
      (nil_none b.media first, nil_none b.tool_call second, nil_none b.tool_result third)
      (refl, refl, sym (value-raw_json b.payload bytes))

decode_media :
    (b : ContentBlock) (o : Option MediaBlock)
    → b.media ≡ o
    → b.kind ≡ media
    → validate_kind media b ≡ true
    → decode_block_fields (some (block_fields media b)) ≡ some b
unfolding validate_kind decode_block_fields block_of_fields block_fields find_field decode_pointer
    kind_text block_kind media_valid
decode_media b none e k h = absurd (cc)
decode_media b (some m) e k h =
    let (h1, rest) = both _ (no_extension_fields b) h in
    let (h2, third) = both _ (is_nil b.tool_result) h1 in
    let (h3, second) = both _ (is_nil b.tool_call) h2 in
    let (valid, blank) = both (media_valid b.media) (is_blank b.text) h3 in
    let pointer : decode_pointer media_of media_fits
          (pointer_fields (some (pointer_json media_fields b.media)))
        ≡ some (some m) =
      ap
        (λ p.
          decode_pointer media_of media_fits (pointer_fields (some (pointer_json media_fields p))))
        e
      ∙ decode_pointer-some media_of media_fits media_fields m (media_fits-media_fields m)
          (media_of-media_fields m) in
    rw pointer (
      rebuilt b media "" (some m) none none "" "" empty (k, no_text b.text blank)
        (e, nil_none b.tool_call second, nil_none b.tool_result third) (no_payload b rest))

decode_tool_call :
    (b : ContentBlock) (o : Option ToolCallBlock)
    → b.tool_call ≡ o
    → b.kind ≡ tool_call
    → validate_kind tool_call b ≡ true
    → decode_block_fields (some (block_fields tool_call b)) ≡ some b
unfolding validate_kind decode_block_fields block_of_fields block_fields find_field decode_pointer
    kind_text block_kind tool_call_valid
decode_tool_call b none e k h = absurd (cc)
decode_tool_call b (some c) e k h =
    let (h1, rest) = both _ (no_extension_fields b) h in
    let (h2, third) = both _ (is_nil b.tool_result) h1 in
    let (h3, first) = both _ (is_nil b.media) h2 in
    let (valid, blank) = both (tool_call_valid b.tool_call) (is_blank b.text) h3 in
    let (names, arguments) = both _ (is_valid c.arguments) (sym (ap tool_call_valid e) ∙ valid) in
    let pointer : decode_pointer tool_call_of tool_call_fits
          (pointer_fields (some (pointer_json tool_call_fields b.tool_call)))
        ≡ some (some c) =
      ap
        (λ p.
          decode_pointer tool_call_of tool_call_fits
            (pointer_fields (some (pointer_json tool_call_fields p))))
        e
      ∙ decode_pointer-some tool_call_of tool_call_fits tool_call_fields c
          (tool_call_fits-tool_call_fields c) (tool_call_of-tool_call_fields c arguments) in
    rw pointer (
      rebuilt b tool_call "" none (some c) none "" "" empty (k, no_text b.text blank)
        (nil_none b.media first, e, nil_none b.tool_result third) (no_payload b rest))

decode_tool_result :
    (b : ContentBlock) (o : Option ToolResultBlock)
    → b.tool_result ≡ o
    → b.kind ≡ tool_result
    → validate_kind tool_result b ≡ true
    → decode_block_fields (some (block_fields tool_result b)) ≡ some b
unfolding validate_kind decode_block_fields block_of_fields block_fields find_field decode_pointer
    kind_text block_kind tool_result_valid
decode_tool_result b none e k h = absurd (cc)
decode_tool_result b (some r) e k h =
    let (h1, rest) = both _ (no_extension_fields b) h in
    let (h2, second) = both _ (is_nil b.tool_call) h1 in
    let (h3, first) = both _ (is_nil b.media) h2 in
    let (valid, blank) = both (tool_result_valid b.tool_result) (is_blank b.text) h3 in
    let (named, content) =
      both _ (is_empty r.content || is_valid r.content) (sym (ap tool_result_valid e) ∙ valid) in
    let pointer : decode_pointer tool_result_of tool_result_fits
          (pointer_fields (some (pointer_json tool_result_fields b.tool_result)))
        ≡ some (some r) =
      ap
        (λ p.
          decode_pointer tool_result_of tool_result_fits
            (pointer_fields (some (pointer_json tool_result_fields p))))
        e
      ∙ decode_pointer-some tool_result_of tool_result_fits tool_result_fields r
          (tool_result_fits-tool_result_fields r) (tool_result_of-tool_result_fields r content) in
    rw pointer (
      rebuilt b tool_result "" none none (some r) "" "" empty (k, no_text b.text blank)
        (nil_none b.media first, nil_none b.tool_call second, e) (no_payload b rest))

pub decode_kind :
    (k : BlockKind) (b : ContentBlock)
    → b.kind ≡ k
    → validate_kind k b ≡ true
    → decode_block_fields (some (block_fields k b)) ≡ some b
decode_kind text b e h = decode_text b e h
decode_kind reasoning b e h = decode_reasoning b e h
decode_kind media b e h = decode_media b b.media refl e h
decode_kind tool_call b e h = decode_tool_call b b.tool_call refl e h
decode_kind tool_result b e h = decode_tool_result b b.tool_result refl e h
decode_kind extension b e h = decode_extension b e h
decode_kind unknown b e h = unfold validate_kind in absurd (cc)

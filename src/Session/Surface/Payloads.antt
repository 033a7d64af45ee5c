-- ===== src/Session/Surface/Payloads.antt =====
-- The payloads of compaction events (session/surface.go, the decoding in Project,
-- decodeCompactionSummary, decodeSurfaceReplacement).
use awesome_go_agents.Base.{
  ℕ, Bool, ◌&&◌, Option, none, some, List, [], ◌∷◌, String, if◌then◌else◌, str_eq,
}
use awesome_go_agents.Session.Json.{
  Json, Fields, RawMessage, find_field, decoded_fields, text_of, text_fits, number_of, number_fits,
  elements_of, elements_fit, numbers, all_fit,
}
use awesome_go_agents.Session.Errors.{
  Result, ok, err, ◌>>=◌, decode_failed, unsupported_surface_op, no_transaction_id,
}
use awesome_go_agents.Session.Blocks.{ContentBlock, text_block, is_blank}
use awesome_go_agents.Session.Blocks.Decode.{decode_blocks}

-- The fields that the payloads share; a payload without one has its zero value.
pub record Compaction : Type 0 where
  pub generation : ℕ
  pub transaction_id : String
  pub source_seqs : List ℕ
  pub shadowed_seqs : List ℕ
  pub summary : String
  pub blocks : Option (List ContentBlock)
  pub fingerprint : String

-- A slice of numbers.
abbrev seqs_of : Option Json → List ℕ
seqs_of j = numbers (elements_of j)

abbrev seqs_fit : Option Json → Bool
seqs_fit j = elements_fit j && all_fit number_fits (elements_of j)

-- A slice of blocks: nil where the field is absent or null, and an error where a block is bad.
blocks_of : Option Json → Option (Option (List ContentBlock))
unfolding decode_blocks elements_of
blocks_of none = some none
blocks_of (some Json.null) = some none
blocks_of (some (Json.array js)) = elim (decode_blocks (elements_of (some (Json.array js)))) [
  | none ↦ none
  | some bs ↦ some (some bs)
]
blocks_of _ = none

key_fields : Fields → Compaction
unfolding find_field
key_fields fs = record {
  generation = number_of (find_field "generation" fs);
  transaction_id = text_of (find_field "transaction_id" fs);
  source_seqs = [];
  shadowed_seqs = [];
  summary = "";
  blocks = none;
  fingerprint = "";
}

key_fit : Fields → Bool
unfolding find_field
key_fit fs = number_fits (find_field "generation" fs) && text_fits (find_field "transaction_id" fs)

start_fields : Fields → Compaction
unfolding key_fields find_field numbers elements_of
start_fields fs = record (key_fields fs) { source_seqs = seqs_of (find_field "source_seqs" fs) }

start_fit : Fields → Bool
unfolding key_fit find_field all_fit elements_of
start_fit fs = key_fit fs && seqs_fit (find_field "source_seqs" fs)

text_fit : Fields → Bool
unfolding find_field
text_fit fs = text_fits (find_field "summary" fs) && text_fits (find_field "fingerprint" fs)

with_text : Fields → Option (List ContentBlock) → Compaction → Compaction
unfolding find_field
with_text fs bs c = record c {
  summary = text_of (find_field "summary" fs);
  blocks = bs;
  fingerprint = text_of (find_field "fingerprint" fs);
}

-- Decode the fields if they fit.
decode_with : (Fields → Bool) → (Fields → Compaction) → Option Fields → Result Compaction
decode_with fits of none = err decode_failed
decode_with fits of (some fs) = if fits fs then ok (of fs) else err decode_failed

-- The same, with a list of blocks beside them.
decode_blocks_with :
    (Fields → Bool)
    → (Fields → Option (List ContentBlock) → Compaction)
    → Option Fields
    → Result Compaction
unfolding blocks_of find_field
decode_blocks_with fits of none = err decode_failed
decode_blocks_with fits of (some fs) = elim (blocks_of (find_field "blocks" fs)) [
  | none ↦ err decode_failed
  | some bs ↦ if fits fs then ok (of fs bs) else err decode_failed
]

unfoldable pub decode_start : RawMessage → Result Compaction
unfolding decode_with start_fit start_fields
decode_start raw = decode_with start_fit start_fields (decoded_fields raw)

unfoldable pub decode_end : RawMessage → Result Compaction
unfolding decode_with key_fit key_fields
decode_end raw = decode_with key_fit key_fields (decoded_fields raw)

unfoldable pub decode_surface : RawMessage → Result Compaction
unfolding decode_blocks_with start_fit start_fields text_fit with_text
decode_surface raw =
    decode_blocks_with (λ fs. start_fit fs && text_fit fs)
      (λ fs bs. with_text fs bs (start_fields fs)) (decoded_fields raw)

summary_fit : Fields → Bool
unfolding start_fit text_fit find_field all_fit elements_of
summary_fit fs =
    start_fit fs
    && text_fit fs
    && number_fits (find_field "through_seq" fs)
    && seqs_fit (find_field "shadowed_seqs" fs)

summary_fields : Fields → Option (List ContentBlock) → Compaction
unfolding with_text start_fields find_field numbers elements_of
summary_fields fs bs = record (with_text fs bs (start_fields fs)) {
  shadowed_seqs = seqs_of (find_field "shadowed_seqs" fs);
}

-- `decodeCompactionSummary`
unfoldable pub decode_summary : RawMessage → Result Compaction
unfolding decode_blocks_with summary_fit summary_fields
decode_summary raw = decode_blocks_with summary_fit summary_fields (decoded_fields raw)

replacement_fit : Fields → Bool
unfolding start_fit text_fit find_field
replacement_fit fs =
    start_fit fs
    && text_fit fs
    && text_fits (find_field "surface_op" fs)
    && text_fits (find_field "surface_id" fs)

-- `len(payload.Blocks) == 0 && payload.Summary != ""`
fill_blocks : String → Option (List ContentBlock) → Option (List ContentBlock)
unfolding text_block
fill_blocks summary (some (b ∷ bs)) = some (b ∷ bs)
fill_blocks summary bs = if is_blank summary then bs else some (text_block summary ∷ [])

-- The surface id stands in for a missing transaction id, and the summary for missing blocks.
complete_replacement : String → Compaction → Result (Option Compaction)
unfolding fill_blocks
complete_replacement surface_id c =
    let id = if is_blank c.transaction_id then surface_id else c.transaction_id in
    if is_blank id
    then err no_transaction_id
    else ok (some (record c { transaction_id = id; blocks = fill_blocks c.summary c.blocks }))

read_replacement : String → String → Compaction → Result (Option Compaction)
unfolding complete_replacement
read_replacement op surface_id c =
    if is_blank op
    then ok none
    else if str_eq op "replace"
    then complete_replacement surface_id c
    else err unsupported_surface_op

-- `decodeSurfaceReplacement`: none where the message is no replacement.
unfoldable pub decode_replacement : RawMessage → Result (Option Compaction)
unfolding decode_blocks_with replacement_fit with_text start_fields read_replacement find_field
decode_replacement raw = do
  c ←
      decode_blocks_with replacement_fit (λ fs bs. with_text fs bs (start_fields fs))
        (decoded_fields raw)
  elim (decoded_fields raw) [
    | none ↦ err decode_failed
    | some fs ↦
        read_replacement (text_of (find_field "surface_op" fs))
          (text_of (find_field "surface_id" fs)) c
  ]

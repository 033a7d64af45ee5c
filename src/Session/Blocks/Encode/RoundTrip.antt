-- ===== src/Session/Blocks/Encode/RoundTrip.antt =====
-- Encoded blocks decode to themselves (session/blocks.go).
use awesome_go_agents.Base.{
  ◌≡◌, refl, ap, ◌∙◌, true, false, Option, none, some, List, [], ◌∷◌, if◌then◌else◌,
}
use awesome_go_agents.Session.Json.{
  Json, object, array, Items, nil, cons, RawMessage, value, items, struct_fields,
}
use awesome_go_agents.Session.Errors.{ok, err, invalid_blocks}
use awesome_go_agents.Session.Blocks.{ContentBlock, validate, validate_kind, all_valid}
use awesome_go_agents.Session.Blocks.Decode.{
  decode_block_fields, decode_block, decode_blocks, unmarshal_blocks,
}
use awesome_go_agents.Session.Blocks.Encode.{
  block_fields, encode_block, encode_blocks, marshal_blocks,
}
use awesome_go_agents.Session.Blocks.Encode.Kinds.{both, decode_kind}

-- A valid block is encoded, and what it is encoded to decodes to it.
encode_block-decode :
    (b : ContentBlock)
    → validate b ≡ true
    → (j : Json) × (encode_block b ≡ some j) × (decode_block j ≡ some b)
unfolding encode_block decode_block
encode_block-decode b h =
    let valid : validate_kind b.kind b ≡ true = unfold validate in h in
    let decoded : decode_block_fields (struct_fields (object (block_fields b.kind b))) ≡ some b =
      decode_kind b.kind b refl valid in
    let checked : Option ContentBlock → Option ContentBlock =
      λ o. elim o [ none ↦ none | some c ↦ if validate c then some c else none ] in
    (object (block_fields b.kind b), rw h refl, ap checked decoded ∙ rw h refl)

-- A first value and the rest, where both are there.
join {ℓ κ μ} :
    {A : Type ℓ} {B : Type κ} {C : Type μ} (f : A → B → C) (o : Option A) (os : Option B) (a : A)
    (bs : B)
    → o ≡ some a
    → os ≡ some bs
    → elim o [ none ↦ none | some x ↦ elim os [ none ↦ none | some xs ↦ some (f x xs) ] ]
      ≡ some (f a bs)
join f o os a bs h k = rw (h, k) refl

encode_blocks-decode :
    (bs : List ContentBlock)
    → all_valid bs ≡ true
    → (js : Items) × (encode_blocks bs ≡ some js) × (decode_blocks (items js) ≡ some bs)
unfolding all_valid encode_blocks decode_blocks items
encode_blocks-decode [] h = (nil, refl, refl)
encode_blocks-decode (b ∷ bs) h =
    let (first, rest) = both (validate b) (all_valid bs) h in
    let (j, encoded, decoded) = encode_block-decode b first in
    let (js, all_encoded, all_decoded) = encode_blocks-decode bs rest in
    (
      cons j js,
      join cons (encode_block b) (encode_blocks bs) j js encoded all_encoded,
      join (◌∷◌) (decode_block j) (decode_blocks (items js)) b bs decoded all_decoded,
    )

-- Blocks survive their JSON. A list of blocks is marshalled exactly where all its blocks are valid,
-- and what it is marshalled to is unmarshalled to the same list: every field of every block, and the
-- order. (Texts are UTF-8.)
pub marshal_blocks-unmarshal_blocks :
    (bs : List ContentBlock)
    → (all_valid bs ≡ true
        → (raw : RawMessage) × (marshal_blocks bs ≡ ok raw) × (unmarshal_blocks raw ≡ ok bs))
      × (all_valid bs ≡ false → marshal_blocks bs ≡ err invalid_blocks)
unfolding marshal_blocks unmarshal_blocks
marshal_blocks-unmarshal_blocks bs = (
  λ h.
      let (js, encoded, decoded) = encode_blocks-decode bs h in
      (value (array js), rw (h, encoded) refl, rw (decoded, unmarshal_blocks) refl),
  λ h. rw h refl,
)

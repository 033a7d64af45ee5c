-- ===== src/Session/Surface/Reading.antt =====
-- The first loop of the surface projection (session/surface.go: Project): the events of compaction
-- transactions, each with its checks.
use awesome_go_agents.Base.{
  ℕ, Bool, true, not, ◌&&◌, ◌||◌, Option, none, some, List, [], ◌∷◌, ◌==◌, if◌then◌else◌, str_eq,
}
use awesome_go_agents.Session.Errors.{
  Result, ok, err, guard, ◌>>=◌, ◌>>◌, no_transaction_id, invalid_start_order,
  invalid_summary_order, invalid_surface_order, invalid_replacement_order, invalid_end_order,
  summary_mismatch, surface_mismatch, replacement_mismatch, end_mismatch,
}
use awesome_go_agents.Session.Blocks.{ContentBlock, is_blank}
use awesome_go_agents.Session.Event.{
  EventType, Event, user_message, compaction_start, compaction_summary, compaction_surface,
  compaction_end,
}
use awesome_go_agents.Session.Surface.{
  Transaction, Pass, validate_source_seqs, same_seqs, find_transaction, get_transaction, put,
  fold_region, is_legacy,
}
use awesome_go_agents.Session.Surface.Payloads.{
  Compaction, decode_start, decode_summary, decode_surface, decode_replacement, decode_end,
}

unfoldable pub begin : Transaction → Compaction → Pass → Result Pass
unfolding put
begin t c p = do
  guard (not (t.start || t.summary_seen || t.replacement_seen || t.sealed)) invalid_start_order
  ok (put (record t { generation = c.generation; source_seqs = c.source_seqs; start = true }) p)

-- compaction/start
unfoldable pub read_start : Event → Pass → Result Pass
unfolding decode_start validate_source_seqs begin get_transaction
read_start e p = do
  c ← decode_start e.raw
  guard (not (is_blank c.transaction_id)) no_transaction_id
  validate_source_seqs c.source_seqs
  begin (get_transaction c.transaction_id p.transactions) c p

-- The first list that is not empty.
abbrev pub first_seqs : List ℕ → List ℕ → List ℕ
first_seqs [] other = other
first_seqs (n ∷ ns) other = n ∷ ns

unfoldable pub summarise : Transaction → List ℕ → Compaction → Pass → Result Pass
unfolding put same_seqs
summarise t seqs c p = do
  guard (t.start && not (t.summary_seen || t.replacement_seen || t.sealed)) invalid_summary_order
  guard (t.generation == c.generation && same_seqs t.source_seqs seqs) summary_mismatch
  ok (
      put
        (record t {
          summary = c.summary;
          summary_blocks = c.blocks;
          fingerprint = c.fingerprint;
          summary_seen = true;
        })
        p)

-- compaction/summary: a legacy summary is folded at once.
unfoldable pub read_legacy_summary : Compaction → Pass → Result Pass
unfolding fold_region
read_legacy_summary c p = do
  p' ←
      fold_region c.generation (first_seqs c.shadowed_seqs c.source_seqs) c.summary c.blocks
        c.fingerprint p
  ok (record p' { legacy_summary = p'.legacy_summary || not (is_blank c.summary) })

unfoldable pub read_sealed_summary : Compaction → Pass → Result Pass
unfolding validate_source_seqs summarise get_transaction
read_sealed_summary c p = do
  guard (not (is_blank c.transaction_id)) no_transaction_id
  let seqs = first_seqs c.source_seqs c.shadowed_seqs
  validate_source_seqs seqs
  summarise (get_transaction c.transaction_id p.transactions) seqs c p

unfoldable pub read_summary : Event → Pass → Result Pass
unfolding decode_summary is_legacy read_legacy_summary read_sealed_summary
read_summary e p = do
  c ← decode_summary e.raw
  if is_legacy e then read_legacy_summary c p else read_sealed_summary c p

-- The payload repeats what the transaction holds.
unfoldable pub repeats : Transaction → Compaction → Bool
unfolding same_seqs
repeats t c =
    t.generation == c.generation
    && same_seqs t.source_seqs c.source_seqs
    && str_eq t.summary c.summary
    && str_eq t.fingerprint c.fingerprint

unfoldable pub replaceable : Transaction → Bool
replaceable t = t.start && t.summary_seen && not (t.replacement_seen || t.sealed)

unfoldable pub surface_blocks :
    Option (List ContentBlock) → Option (List ContentBlock) → Option (List ContentBlock)
surface_blocks none new = new
surface_blocks (some bs) new = some bs

unfoldable pub place_surface : Transaction → Compaction → Pass → Result Pass
unfolding put repeats replaceable surface_blocks
place_surface t c p = do
  guard (replaceable t) invalid_surface_order
  guard (repeats t c) surface_mismatch
  ok (
      put
        (record t {
          replacement_seen = true;
          summary_blocks = surface_blocks t.summary_blocks c.blocks;
        })
        p)

-- compaction/surface
unfoldable pub read_surface : Event → Pass → Result Pass
unfolding decode_surface validate_source_seqs place_surface get_transaction
read_surface e p = do
  c ← decode_surface e.raw
  guard (not (is_blank c.transaction_id)) no_transaction_id
  validate_source_seqs c.source_seqs
  place_surface (get_transaction c.transaction_id p.transactions) c p

unfoldable pub replace : ℕ → Transaction → Compaction → Pass → Result Pass
unfolding put repeats replaceable
replace seq t c p = do
  guard (replaceable t) invalid_replacement_order
  guard (repeats t c) replacement_mismatch
  ok (
      put (record t { summary_blocks = c.blocks; replacement_seen = true; replacement_seq = seq })
        p)

unfoldable pub read_replacement : Event → Compaction → Pass → Result Pass
unfolding validate_source_seqs replace get_transaction
read_replacement e c p = do
  validate_source_seqs c.source_seqs
  replace e.seq (get_transaction c.transaction_id p.transactions) c p

-- user/message
unfoldable pub read_message : Event → Pass → Result Pass
unfolding decode_replacement is_legacy read_replacement
read_message e p = do
  r ← decode_replacement e.raw
  elim r [ none ↦ ok p | some c ↦ if is_legacy e then ok p else read_replacement e c p ]

unfoldable pub seal : Option Transaction → Compaction → Pass → Result Pass
unfolding put
seal none c p = err invalid_end_order
seal (some t) c p = do
  guard (t.start && t.summary_seen && t.replacement_seen && not t.sealed) invalid_end_order
  guard (t.generation == c.generation) end_mismatch
  ok (put (record t { sealed = true }) p)

-- compaction/end
unfoldable pub read_end : Event → Pass → Result Pass
unfolding decode_end seal find_transaction
read_end e p = do
  c ← decode_end e.raw
  guard (not (is_blank c.transaction_id)) no_transaction_id
  seal (find_transaction c.transaction_id p.transactions) c p

-- One round of the first loop, by the type of the event.
unfoldable pub read_type : EventType → Event → Pass → Result Pass
unfolding read_start read_summary read_surface read_message read_end is_legacy
read_type compaction_start e p = if is_legacy e then ok p else read_start e p
read_type compaction_summary e p = read_summary e p
read_type compaction_surface e p = if is_legacy e then ok p else read_surface e p
read_type user_message e p = read_message e p
read_type compaction_end e p = if is_legacy e then ok p else read_end e p
read_type _ e p = ok p

unfoldable pub read_all : List Event → Pass → Result Pass
unfolding read_type
read_all [] p = ok p
read_all (e ∷ es) p = do p' ← read_type e.type e p; read_all es p'

-- ===== src/Session/Surface.antt =====
-- The state of the first pass of the surface projection (session/surface.go: Project), in which
-- compaction transactions are read off the log in order (`Surface/Reading.antt`) and every sealed one
-- is folded into the projection (`Surface/FirstPass.antt`).
--
-- The set `shadowed` is the list of the numbers put into it, and the map of transactions is the list
-- in the order of `transactionOrder`, one entry for an id. A nil slice of blocks is `none`.
use awesome_go_agents.Base.{
  ℕ, zero, suc, ◌+◌, Bool, true, false, not, ◌&&◌, ◌||◌, Option, none, some, List, [], ◌∷◌, ◌++◌,
  String, ℤ, pos, negsuc, ltb, leb, ◌==◌, if◌then◌else◌, str_eq,
}
use awesome_go_agents.Session.Errors.{
  Result, ok, err, guard, ◌>>=◌, ◌>>◌, empty_source_seqs, repeated_source_seqs,
  generation_regressed,
}
use awesome_go_agents.Session.Blocks.{ContentBlock, text_block, is_blank}
use awesome_go_agents.Session.Event.{Event}
pub mod Pairing
pub mod Folding
pub mod Payloads
pub mod Reading
pub mod FirstPass
pub mod Seqs
pub mod Ensures
pub mod Quiet
pub mod Interrupted

pub record Transaction : Type 0 where
  pub transaction_id : String
  pub generation : ℕ
  pub source_seqs : List ℕ
  pub summary : String
  pub summary_blocks : Option (List ContentBlock)
  pub fingerprint : String
  pub start : Bool
  pub summary_seen : Bool
  pub replacement_seen : Bool
  pub replacement_seq : ℕ
  pub sealed : Bool

unfoldable pub new_transaction : String → Transaction
new_transaction id = record {
  transaction_id = id;
  generation = 0;
  source_seqs = [];
  summary = "";
  summary_blocks = none;
  fingerprint = "";
  start = false;
  summary_seen = false;
  replacement_seen = false;
  replacement_seq = 0;
  sealed = false;
}

-- The projection so far, beside the transactions and the flag of the legacy summaries.
pub record Pass : Type 0 where
  pub shadowed : List ℕ
  pub generation : ℕ
  pub summary : String
  pub summary_blocks : List ContentBlock
  pub fingerprint : String
  pub legacy_summary : Bool
  pub transactions : List Transaction

unfoldable pub has_seq : ℕ → List ℕ → Bool
has_seq n [] = false
has_seq n (m ∷ ms) = m == n || has_seq n ms

-- The loop of `validateCompactionSourceSeqs`, with the numbers seen so far.
unfoldable pub check_seqs : List ℕ → List ℕ → Result (Unit {0})
unfolding has_seq
check_seqs seen [] = ok tt
check_seqs seen (n ∷ ns) =
    let rest = check_seqs (n ∷ seen) ns in
    if n == 0 || has_seq n seen then err repeated_source_seqs else rest

unfoldable pub validate_source_seqs : List ℕ → Result (Unit {0})
unfolding check_seqs
validate_source_seqs [] = err empty_source_seqs
validate_source_seqs (n ∷ ns) = check_seqs [] (n ∷ ns)

-- `sameSeqs`
unfoldable pub same_seqs : List ℕ → List ℕ → Bool
same_seqs [] [] = true
same_seqs (m ∷ ms) (n ∷ ns) = m == n && same_seqs ms ns
same_seqs _ _ = false

-- `transactions[id]`, and the entry written back or added.
unfoldable pub find_transaction : String → List Transaction → Option Transaction
find_transaction id [] = none
find_transaction id (t ∷ ts) = if str_eq t.transaction_id id then some t else find_transaction id ts

unfoldable pub put_transaction : Transaction → List Transaction → List Transaction
put_transaction t [] = t ∷ []
put_transaction t (u ∷ ts) =
    if str_eq u.transaction_id t.transaction_id then t ∷ ts else u ∷ put_transaction t ts

-- `getTransaction`
unfoldable pub get_transaction : String → List Transaction → Transaction
unfolding new_transaction find_transaction
get_transaction id ts = elim (find_transaction id ts) [ none ↦ new_transaction id | some t ↦ t ]

unfoldable pub put : Transaction → Pass → Pass
unfolding put_transaction
put t p = record p { transactions = put_transaction t p.transactions }

unfoldable pub positive_seqs : List ℕ → List ℕ
positive_seqs [] = []
positive_seqs (n ∷ ns) = if n == 0 then positive_seqs ns else n ∷ positive_seqs ns

-- The blocks of the projection after `apply`.
blocks_after : String → Option (List ContentBlock) → List ContentBlock → List ContentBlock
unfolding text_block
blocks_after summary (some (b ∷ bs)) old = b ∷ bs
blocks_after summary _ old = if is_blank summary then old else text_block summary ∷ []

-- The closure `apply`.
unfoldable pub fold_region :
    ℕ → List ℕ → String → Option (List ContentBlock) → String → Pass → Result Pass
unfolding positive_seqs blocks_after
fold_region generation seqs summary blocks fingerprint p = do
  guard (not (ltb 0 generation && ltb generation p.generation)) generation_regressed
  ok (record p {
    shadowed = p.shadowed ++ positive_seqs seqs;
    generation = if ltb 0 generation then generation else p.generation;
    summary = summary;
    summary_blocks = blocks_after summary blocks p.summary_blocks;
    fingerprint = if is_blank fingerprint then p.fingerprint else fingerprint;
  })

-- `event.FormatVersion < 2`
unfoldable pub is_legacy : Event → Bool
is_legacy e = elim e.format_version [ pos v ↦ ltb v 2 | negsuc n ↦ true ]

-- The in-memory override of a compaction.
pub record CompactedRegion : Type 0 where
  pub through_seq : ℕ
  pub shadowed_seqs : List ℕ
  pub summary : String
  pub summary_blocks : List ContentBlock
  pub generation : ℕ
  pub fingerprint : String

-- The numbers 1, 2, ..., n.
unfoldable pub through : ℕ → List ℕ
through zero = []
through (suc n) = through n ++ (suc n ∷ [])

region_shadowed : List ℕ → ℕ → List ℕ
unfolding through
region_shadowed [] n = through n
region_shadowed (m ∷ ms) n = m ∷ ms

-- `regionSummaryBlocks`
region_blocks : List ContentBlock → String → List ContentBlock
unfolding text_block
region_blocks (b ∷ bs) summary = b ∷ bs
region_blocks [] summary = if is_blank summary then [] else text_block summary ∷ []

-- The projection before the first event.
unfoldable pub start_pass : Option CompactedRegion → Pass
unfolding region_shadowed region_blocks
start_pass none = record {
  shadowed = [];
  generation = 0;
  summary = "";
  summary_blocks = [];
  fingerprint = "";
  legacy_summary = false;
  transactions = [];
}
start_pass (some r) = record {
  shadowed = region_shadowed r.shadowed_seqs r.through_seq;
  generation = r.generation;
  summary = r.summary;
  summary_blocks = region_blocks r.summary_blocks r.summary;
  fingerprint = r.fingerprint;
  legacy_summary = not (is_blank r.summary);
  transactions = [];
}

-- ===== src/Scenarios/Logs.antt =====
-- Logs that a crash cut short: an unfinished compaction, a dispatched call, two open turns
-- (session/surface.go, session/fenced.go), and cursors into a log (session/store.go).
use awesome_go_agents.Base.{
  ℕ, ◌≡◌, ◌≢◌, ◌<◌, ◌↔◌, refl, true, some, List, [], ◌∷◌, ◌++◌, pos, update, take, length, All, ◌-◌,
  ◌==◌, if◌then◌else◌, min,
}
use awesome_go_agents.Session.Json.{Json, Fields, Items, value}
use awesome_go_agents.Session.Errors.{ok}
use awesome_go_agents.Session.Event.{
  EventType, Event, turn_start, tool_call, tool_dispatched, compaction_start, compaction_summary,
}
use awesome_go_agents.Session.Store.{MemoryStore, new_memory_store, load, tail}
use awesome_go_agents.Session.Store.Reads.{newer, limited, load_lem, load-resume, tail_lem}
use awesome_go_agents.Session.Recovery.{
  dangling_call_ids, dispatched_call_ids, outcome_code, tool_outcome_unknown,
}
use awesome_go_agents.Session.Recovery.Dangling.{dangling_call_ids-dispatched}
use awesome_go_agents.Session.Surface.{Pass, CompactedRegion, start_pass, validate_source_seqs}
use awesome_go_agents.Session.Surface.FirstPass.{Replacement, first_pass}
use awesome_go_agents.Session.Surface.Seqs.{IsDistinct, validate_source_seqs_iff}
use awesome_go_agents.Session.Surface.Interrupted.{first_pass-interrupted}

abbrev logged : ℕ → EventType → Fields → Event
logged n t fs = record {
  seq = n;
  type = t;
  format_version = pos 2;
  id = "";
  timestamp = n;
  raw = value (Json.object fs);
  source_seqs = [];
  session_id = "s";
  run_id = "r";
  turn_id = "t";
  step_id = "";
  call_id = "c";
}

abbrev transaction_fields : Fields → Fields
transaction_fields fs = Fields.field "transaction_id" (Json.text "x") (
    Fields.field "generation" (Json.number 3) (
      Fields.field "source_seqs"
        (Json.array (Items.cons (Json.number 1) (Items.cons (Json.number 2) Items.nil))) fs))

-- The compaction started and summed up, then the worker stopped.
abbrev cut_short : List Event
cut_short =
    logged 3 compaction_start (transaction_fields Fields.end)
    ∷ logged 4 compaction_summary
        (transaction_fields (Fields.field "summary" (Json.text "short") Fields.end))
    ∷ []

abbrev region : CompactedRegion
region = record {
  through_seq = 2;
  shadowed_seqs = [];
  summary = "old";
  summary_blocks = [];
  generation = 2;
  fingerprint = "f";
}

abbrev start : Pass
start = start_pass (some region)

first_pass-interrupted_example :
    (r : Pass × List Replacement) × (first_pass cut_short start ≡ ok r)
    × ((r.1 ≡ [])
        × (r.0.shadowed ≡ start.shadowed)
        × (r.0.generation ≡ start.generation)
        × (r.0.summary ≡ start.summary)
        × (r.0.summary_blocks ≡ start.summary_blocks)
        × (r.0.fingerprint ≡ start.fingerprint)
        × (r.0.legacy_summary ≡ start.legacy_summary))
unfolding first_pass start_pass
first_pass-interrupted_example = (
  _,
  refl,
  first_pass-interrupted cut_short (some region) _ _
      (((λ h. absurd (cc)), (λ h. absurd (cc))), (((λ h. absurd (cc)), (λ h. refl)), tt)) refl,
)

abbrev two_one : List ℕ
two_one = 2 ∷ 1 ∷ []

validate_source_seqs_iff_example :
    (validate_source_seqs two_one ≡ ok tt)
    ↔ ((two_one ≢ []) × All (λ n. 0 < n) two_one × IsDistinct two_one)
validate_source_seqs_iff_example = validate_source_seqs_iff two_one

abbrev holding : List Event → MemoryStore
holding es = record new_memory_store {
  next = update new_memory_store.next "s" (length es);
  events = update new_memory_store.events "s" es;
}

-- A turn that started twice, with a dispatched call, all cut short.
abbrev orphaned : List Event
orphaned =
    logged 1 turn_start Fields.end
    ∷ logged 2 turn_start Fields.end
    ∷ logged 3 tool_call (Fields.field "call_id" (Json.text "c") Fields.end)
    ∷ logged 4 tool_dispatched Fields.end
    ∷ []

load-resume_example :
    take 2 ((holding orphaned).events "s") ++ load "s" 2 0 (holding orphaned)
    ≡ (holding orphaned).events "s"
unfolding new_memory_store
load-resume_example =
    load-resume "s" 2 (holding orphaned)
      (record { contiguous = (refl, (refl, (refl, (refl, tt)))); counted = refl })

load_lem_example :
    load "s" 1 2 (holding orphaned) ≡ limited 2 (newer 1 ((holding orphaned).events "s"))
load_lem_example = load_lem "s" 1 2 (holding orphaned)

tail_lem_example :
    let all = (holding orphaned).events "s" in
    let out = tail "s" 3 (holding orphaned) in
    (take (length all - length out) all ++ out ≡ all)
    × (length out ≡ (if 3 == 0 then length all else min 3 (length all)))
tail_lem_example = tail_lem "s" 3 (holding orphaned)

dangling_call_ids-dispatched_example :
    (dispatched_call_ids orphaned "c" ≡ true) × (outcome_code orphaned "c" ≡ tool_outcome_unknown)
unfolding dangling_call_ids
dangling_call_ids-dispatched_example = (dangling_call_ids-dispatched orphaned).0

-- ===== src/Session/Surface/FirstPass.antt =====
-- The sealed transactions are folded into the projection (session/surface.go: Project).
use awesome_go_agents.Base.{ℕ, Bool, ◌&&◌, Option, List, [], ◌∷◌, String, if◌then◌else◌}
use awesome_go_agents.Session.Errors.{Result, ok, ◌>>=◌}
use awesome_go_agents.Session.Blocks.{ContentBlock}
use awesome_go_agents.Session.Event.{Event}
use awesome_go_agents.Session.Surface.{Transaction, Pass, fold_region}
use awesome_go_agents.Session.Surface.Reading.{read_all}

-- What a sealed transaction replaces.
pub record Replacement : Type 0 where
  pub source_seqs : List ℕ
  pub summary : String
  pub blocks : Option (List ContentBlock)
  pub replacement_seq : ℕ

unfoldable pub is_complete : Transaction → Bool
is_complete t = t.start && t.summary_seen && t.replacement_seen && t.sealed

replacement_of : Transaction → Replacement
replacement_of t = record {
  source_seqs = t.source_seqs;
  summary = t.summary;
  blocks = t.summary_blocks;
  replacement_seq = t.replacement_seq;
}

-- The loop over `transactionOrder`.
unfoldable pub fold_sealed : List Transaction → Pass → Result (Pass × List Replacement)
unfolding is_complete replacement_of fold_region
fold_sealed [] p = ok (p, [])
fold_sealed (t ∷ ts) p =
    if is_complete t
    then (do
      p' ← fold_region t.generation t.source_seqs t.summary t.summary_blocks t.fingerprint p
      (q, rs) ← fold_sealed ts p'
      ok (q, replacement_of t ∷ rs))
    else fold_sealed ts p

-- The first pass as a whole.
unfoldable pub first_pass : List Event → Pass → Result (Pass × List Replacement)
unfolding read_all fold_sealed
first_pass es p = do p' ← read_all es p; fold_sealed p'.transactions p'

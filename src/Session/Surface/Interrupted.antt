-- ===== src/Session/Surface/Interrupted.antt =====
-- An interrupted compaction does not show (session/surface.go: Project).
use awesome_go_agents.Base.{
  ◌≡◌, refl, sym, ap, ◌∙◌, false, Option, none, some, List, [], ◌∷◌, All, arith,
}
use mathlib.Core.Path.{subst}
use awesome_go_agents.Session.Errors.{ok, >>=-eq-ok, ok-injective}
use awesome_go_agents.Session.Event.{Event}
use awesome_go_agents.Session.Surface.{Transaction, Pass, CompactedRegion, start_pass}
use awesome_go_agents.Session.Surface.Reading.{read_type, read_all}
use awesome_go_agents.Session.Surface.FirstPass.{Replacement, is_complete, fold_sealed, first_pass}
use awesome_go_agents.Session.Surface.Ensures.{value}
use awesome_go_agents.Session.Surface.Quiet.{
  IsUnsealed, Quiet, Quiet-refl, Quiet-trans, SealsNothing, read_type-Quiet,
}

read_all-Quiet :
    (es : List Event) (p q : Pass)
    → All SealsNothing es
    → IsUnsealed p.transactions
    → read_all es p ≡ ok q
    → Quiet p q
unfolding read_all
read_all-Quiet [] p q n v h = subst (Quiet p) (ok-injective p q h) (Quiet-refl p v)
read_all-Quiet (e ∷ es) p q n v h =
    let (p', step, rest) = >>=-eq-ok (read_type e.type e p) _ h in
    let first = value p' (read_type-Quiet e.type e p refl n.0 v) step in
    Quiet-trans p p' q first (read_all-Quiet es p' q n.1 first.unsealed rest)

start_pass-IsUnsealed :
    (region : Option CompactedRegion) → IsUnsealed (start_pass region).transactions
unfolding start_pass
start_pass-IsUnsealed none = tt
start_pass-IsUnsealed (some r) = tt

fold_sealed-IsUnsealed :
    (ts : List Transaction) (p : Pass) → IsUnsealed ts → fold_sealed ts p ≡ ok (p, [])
unfolding fold_sealed is_complete
fold_sealed-IsUnsealed [] p v = refl
fold_sealed-IsUnsealed (t ∷ ts) p v =
    let open_entry : is_complete t ≡ false = ground (arith, v.0) in
    rw open_entry (fold_sealed-IsUnsealed ts p v.1)

-- A log without a compaction/end event and without a legacy summary leaves the projection as it was
-- at its start: whatever starts, summaries and replacements of unfinished transactions it holds,
-- nothing more is shadowed, the generation, summary, blocks and fingerprint are those given, and no
-- replacement is made. (Events of the legacy format, which the loop passes over, may end anything.)
pub first_pass-interrupted :
    (es : List Event) (region : Option CompactedRegion) (q : Pass) (rs : List Replacement)
    → All SealsNothing es
    → first_pass es (start_pass region) ≡ ok (q, rs)
    → let p = start_pass region in
      (rs ≡ [])
      × (q.shadowed ≡ p.shadowed)
      × (q.generation ≡ p.generation)
      × (q.summary ≡ p.summary)
      × (q.summary_blocks ≡ p.summary_blocks)
      × (q.fingerprint ≡ p.fingerprint)
      × (q.legacy_summary ≡ p.legacy_summary)
unfolding first_pass
first_pass-interrupted es region q rs n h =
    let p = start_pass region in
    let (p', read, folded) = >>=-eq-ok (read_all es p) _ h in
    let quiet = read_all-Quiet es p p' n (start_pass-IsUnsealed region) read in
    let same : ◌≡◌ {A = Pass × List Replacement} (p', []) (q, rs) =
      ok-injective _ _ (sym (fold_sealed-IsUnsealed p'.transactions p' quiet.unsealed) ∙ folded) in
    let pass : p' ≡ q = ap (λ (x : Pass × List Replacement). x.0) same in
    (
      sym (ap (λ (x : Pass × List Replacement). x.1) same),
      ap (λ (x : Pass). x.shadowed) (sym pass) ∙ quiet.shadowed,
      ap (λ (x : Pass). x.generation) (sym pass) ∙ quiet.generation,
      ap (λ (x : Pass). x.summary) (sym pass) ∙ quiet.summary,
      ap (λ (x : Pass). x.summary_blocks) (sym pass) ∙ quiet.summary_blocks,
      ap (λ (x : Pass). x.fingerprint) (sym pass) ∙ quiet.fingerprint,
      ap (λ (x : Pass). x.legacy_summary) (sym pass) ∙ quiet.legacy,
    )

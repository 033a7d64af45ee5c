-- ===== src/Scenarios/Folds.antt =====
-- A durable replacement among the nodes of a surface (session/surface.go: Project).
use awesome_go_agents.Base.{ℕ, ◌≡◌, refl, true, false, none, some, List, [], ◌∷◌, arith}
use awesome_go_agents.Session.Surface.FirstPass.{Replacement}
use awesome_go_agents.Session.Surface.Folding.{
  Node, any_selected, fold_replacement, is_replacement, is_selected,
}
use awesome_go_agents.Session.Surface.Folding.Places.{Placed, fold_replacement-Placed}

abbrev node : ℕ → Node ℕ
node n = record { seq = n; messages = n }

-- The sources 2 and 4 were summed up in the event 6.
abbrev replacement : Replacement
replacement = record {
  source_seqs = 2 ∷ 4 ∷ [];
  summary = "short";
  blocks = none;
  replacement_seq = 6;
}

abbrev nodes : List (Node ℕ)
nodes = node 1 ∷ node 2 ∷ node 3 ∷ node 4 ∷ node 6 ∷ []

folded_nodes :
    fold_replacement (some 9) replacement nodes
    ≡ some (node 1 ∷ record { seq = 6; messages = 9 } ∷ node 3 ∷ [])
unfolding fold_replacement
folded_nodes = refl

own_seq : (k : ℕ) → is_replacement replacement k ≡ true → is_selected replacement k ≡ false
unfolding is_replacement is_selected
own_seq k h = ground arith

fold_replacement-Placed_example :
    (any_selected replacement nodes ≡ true
      → (out : List (Node ℕ)) × (fold_replacement (some 9) replacement nodes ≡ some out)
        × Placed 9 replacement nodes out)
    × (any_selected replacement nodes ≡ false → fold_replacement (some 9) replacement nodes ≡ none)
fold_replacement-Placed_example = fold_replacement-Placed 9 replacement nodes own_seq

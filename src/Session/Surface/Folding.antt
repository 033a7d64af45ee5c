-- ===== src/Session/Surface/Folding.antt =====
-- The replacements take the place of their sources among the nodes of the surface (session/surface.go:
-- Project, the loops over `replacements` and over `nodes` of the second pass).
--
-- The loops do not look at the messages of a node, which are of any type here; the message of a
-- replacement is handed in, none where it cannot be built.
use awesome_go_agents.Base.{
  ℕ, Bool, true, false, not, ◌&&◌, ◌||◌, Option, none, some, List, [], ◌∷◌, ltb, ◌==◌,
  if◌then◌else◌,
}
use awesome_go_agents.Session.Surface.{has_seq}
use awesome_go_agents.Session.Surface.FirstPass.{Replacement}
pub mod Places

pub record Node {ℓ} (M : Type ℓ) : Type ℓ where
  pub seq : ℕ
  pub messages : M

-- The node of the durable replacement itself, which is dropped.
unfoldable pub is_replacement : Replacement → ℕ → Bool
is_replacement r seq = ltb 0 r.replacement_seq && seq == r.replacement_seq

-- `selected[node.seq]`
unfoldable pub is_selected : Replacement → ℕ → Bool
unfolding has_seq
is_selected r seq = has_seq seq r.source_seqs

module _ {ℓ} {M : Type ℓ} where
  abbrev pub put_first : Node M → Option (List (Node M)) → Option (List (Node M))
  put_first n none = none
  put_first n (some ns) = some (n ∷ ns)

  -- The node of the message, or the error.
  abbrev pub put_message : ℕ → Option M → Option (List (Node M)) → Option (List (Node M))
  put_message seq none rest = none
  put_message seq (some m) rest = put_first (record { seq = seq; messages = m }) rest

  unfoldable pub fold_nodes : Option M → Replacement → Bool → List (Node M) → Option (List (Node M))
  unfolding is_replacement is_selected
  fold_nodes m r inserted [] = some []
  fold_nodes m r inserted (n ∷ ns) =
      let rest = fold_nodes m r inserted ns in
      let after = fold_nodes m r true ns in
      if is_replacement r n.seq
      then rest
      else if is_selected r n.seq
      then (if inserted then rest else put_message r.replacement_seq m after)
      else put_first n rest

  -- `insertAt >= 0`
  unfoldable pub any_selected : Replacement → List (Node M) → Bool
  unfolding is_selected
  any_selected r [] = false
  any_selected r (n ∷ ns) = is_selected r n.seq || any_selected r ns

  unfoldable pub fold_replacement : Option M → Replacement → List (Node M) → Option (List (Node M))
  unfolding fold_nodes any_selected
  fold_replacement m r ns = if any_selected r ns then fold_nodes m r false ns else none

  unfoldable pub fold_replacements :
      (Replacement → Option M) → List Replacement → List (Node M) → Option (List (Node M))
  unfolding fold_replacement
  fold_replacements message_of [] ns = some ns
  fold_replacements message_of (r ∷ rs) ns = elim (fold_replacement (message_of r) r ns) [
    | none ↦ none
    | some ns' ↦ fold_replacements message_of rs ns'
  ]

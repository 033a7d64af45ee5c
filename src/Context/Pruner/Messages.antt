-- ===== src/Context/Pruner/Messages.antt =====
-- Pruning a run of messages (context/pruner.go: PruneMessages).
use awesome_go_agents.Base.{
  ℕ, ◌+◌, ◌≤◌, ◌≡◌, refl, ap, ◌∙◌, true, false, inl, inr, Bool-cases, Option, none, some, List, [],
  ◌∷◌, arith,
}
use awesome_go_agents.Context.Pruner.{
  Text, PruneCaps, ToolCallResult, Message, same_text, is_tool, prune_result, prune_output,
  prune_part, prune_parts, prune_message, prune_messages,
}
use awesome_go_agents.Context.Pruner.Length.{caps, prune_result-idempotent}

same_text_refl : (t : Text) → same_text t t ≡ true
unfolding same_text
same_text_refl [] = refl
same_text_refl (n ∷ ns) = ground (arith, same_text_refl ns)

prune_output_kind :
    (c : PruneCaps) (r : ToolCallResult) → (prune_output c r).0.is_error ≡ r.is_error
unfolding prune_output
prune_output_kind c r = ground arith

prune_part_error :
    (c : PruneCaps) (r : ToolCallResult) → r.is_error ≡ true → prune_part c (some r) ≡ (some r, 0)
unfolding prune_part
prune_part_error c r h = rw h refl

prune_part_output :
    (c : PruneCaps) (r : ToolCallResult)
    → r.is_error ≡ false
    → prune_part c (some r) ≡ (some (prune_output c r).0, (prune_output c r).1)
unfolding prune_part
prune_part_output c r h = rw h refl

abbrev with_parts : Message → List (Option ToolCallResult) × ℕ → Message × ℕ
with_parts m q = (record m { parts = q.0 }, q.1)

prune_message_tool :
    (c : PruneCaps) (m : Message)
    → is_tool m.role ≡ true
    → prune_message c m ≡ with_parts m (prune_parts c m.parts)
unfolding prune_message
prune_message_tool c m h = rw h refl

prune_message_other :
    (c : PruneCaps) (m : Message) → is_tool m.role ≡ false → prune_message c m ≡ (m, 0)
unfolding prune_message
prune_message_other c m h = rw h refl

module _ (threshold head tail : ℕ) (h : head + tail + 16 ≤ threshold) where
  abbrev fitting : PruneCaps
  fitting = caps threshold head tail

  prune_output-idempotent :
      (r : ToolCallResult)
      → prune_output fitting (prune_output fitting r).0 ≡ ((prune_output fitting r).0, 0)
  unfolding prune_output
  prune_output-idempotent r =
      let s = prune_result fitting r.output in
      elim (Bool-cases (same_text s r.output)) [
        | inl same ↦ rw (same, same) refl
        | inr other ↦
            rw (other, prune_result-idempotent threshold head tail r.output h, same_text_refl s)
              refl
      ]

  prune_part-idempotent :
      (p : Option ToolCallResult)
      → prune_part fitting (prune_part fitting p).0 ≡ ((prune_part fitting p).0, 0)
  prune_part-idempotent none = unfold prune_part in refl
  prune_part-idempotent (some r) =
      let (r', n) = prune_output fitting r in
      elim (Bool-cases r.is_error) [
        | inl bad ↦ rw (prune_part_error fitting r bad) (prune_part_error fitting r bad)
        | inr good ↦ rw (prune_part_output fitting r good) (
            prune_part_output fitting r' (prune_output_kind fitting r ∙ good)
            ∙ ap (λ (q : ToolCallResult × ℕ). (some q.0, q.1)) (prune_output-idempotent r))
      ]

  prune_parts-idempotent :
      (ps : List (Option ToolCallResult))
      → prune_parts fitting (prune_parts fitting ps).0 ≡ ((prune_parts fitting ps).0, 0)
  unfolding prune_parts
  prune_parts-idempotent [] = refl
  prune_parts-idempotent (p ∷ ps) = rw (prune_part-idempotent p, prune_parts-idempotent ps) refl

  prune_message-idempotent :
      (m : Message)
      → prune_message fitting (prune_message fitting m).0 ≡ ((prune_message fitting m).0, 0)
  prune_message-idempotent m = elim (Bool-cases (is_tool m.role)) [
    | inl tool ↦ rw (prune_message_tool fitting m tool) (
        prune_message_tool fitting (record m { parts = (prune_parts fitting m.parts).0 }) tool
        ∙ ap (with_parts m) (prune_parts-idempotent m.parts))
    | inr other ↦ rw (prune_message_other fitting m other) (prune_message_other fitting m other)
  ]

  -- Where the head, the marker and the tail fit below the threshold, a second pruning of the same
  -- messages changes nothing and counts nothing.
  pub prune_messages-idempotent :
      (ms : List (Option Message))
      → prune_messages fitting (prune_messages fitting ms).0 ≡ ((prune_messages fitting ms).0, 0)
  unfolding prune_messages
  prune_messages-idempotent [] = refl
  prune_messages-idempotent (none ∷ ms) = rw (prune_messages-idempotent ms) refl
  prune_messages-idempotent (some m ∷ ms) =
      rw (prune_message-idempotent m, prune_messages-idempotent ms) refl

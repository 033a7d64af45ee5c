-- ===== src/Scenarios/Masks.antt =====
-- Pruned texts (context/pruner.go), token estimates (context/meter.go) and the masks of a scope
-- (tools/scope.go).
use awesome_go_agents.Base.{
  ◌+◌, ◌*◌, ◌<◌, ◌≤◌, ◌≡◌, refl, false, Option, none, some, List, [], ◌∷◌, arith, length,
}
use awesome_go_agents.Context.Pruner.{Text, Message, tool, prune_result, prune_messages}
use awesome_go_agents.Context.Pruner.Length.{caps, prune_result-grows}
use awesome_go_agents.Context.Pruner.Messages.{prune_messages-idempotent}
use awesome_go_agents.Context.Meter.{estimate_runes, estimate_runes-bounds}
use awesome_go_agents.Tools.Scope.{Scope, visible_inherited, deny_with_handle, unregister, has_name}
use awesome_go_agents.Tools.Scope.Handles.{deny_with_handle-resurrects}

abbrev four : Text
four = 97 ∷ 98 ∷ 99 ∷ 100 ∷ []

prune_result-grows_example : length four < length (prune_result (caps 3 1 1) four)
prune_result-grows_example = prune_result-grows 3 1 1 four (omega arith) (omega arith) (omega arith)

abbrev messages : List (Option Message)
messages =
    none
    ∷ some (record {
      role = tool;
      parts = none ∷ some (record { output = four; is_error = false }) ∷ [];
    })
    ∷ []

prune_messages-idempotent_example :
    prune_messages (caps 18 1 1) (prune_messages (caps 18 1 1) messages).0
    ≡ ((prune_messages (caps 18 1 1) messages).0, 0)
prune_messages-idempotent_example = prune_messages-idempotent 18 1 1 (omega arith) messages

estimate_runes-bounds_example : (9 + 4 ≤ 4 * estimate_runes 9) × (4 * estimate_runes 9 < 9 + 8)
estimate_runes-bounds_example = estimate_runes-bounds 9 (omega arith)

abbrev masked : Scope
masked = record { allow = []; deny = "shell" ∷ [] }

deny_with_handle-resurrects_example :
    let (s1, h1) = deny_with_handle ("read" ∷ []) masked in
    let (s2, h2) = deny_with_handle ("write" ∷ []) s1 in
    let (s3, d1) = unregister h1 s2 in
    let (s4, d2) = unregister h2 s3 in
    (s3 ≡ masked) × (s4 ≡ s1) × (visible_inherited s4 "read" ≡ false)
unfolding deny_with_handle
deny_with_handle-resurrects_example =
    deny_with_handle-resurrects ("read" ∷ []) ("write" ∷ []) "read" masked (unfold has_name in refl)

-- ===== src/Session/Surface/Folding/Places.antt =====
-- Where a replacement lands (session/surface.go: Project).
use awesome_go_agents.Base.{
  ℕ, ◌≡◌, ◌≢◌, refl, sym, ap, ◌∙◌, true, false, ◌||◌, Option, none, some, List, [], ◌∷◌, ◌++◌, All,
  if◌then◌else◌, Bool-cases, inl, inr,
}
use awesome_go_agents.Session.Surface.FirstPass.{Replacement}
use awesome_go_agents.Session.Surface.Folding.{
  Node, is_replacement, is_selected, put_first, put_message, fold_nodes, any_selected,
  fold_replacement,
}

false-true : false ≢ true
false-true e = cc

module _ {ℓ} {M : Type ℓ} where
  -- The nodes that a replacement leaves, in their order.
  unfoldable pub kept : Replacement → List (Node M) → List (Node M)
  kept r [] = []
  kept r (n ∷ ns) =
      let rest = kept r ns in
      if is_replacement r n.seq || is_selected r n.seq then rest else n ∷ rest

  -- After the message is placed.
  fold_nodes_after :
      (m : Option M) (r : Replacement) (ns : List (Node M))
      → fold_nodes m r true ns ≡ some (kept r ns)
  unfolding fold_nodes kept
  fold_nodes_after m r [] = refl
  fold_nodes_after m r (n ∷ ns) = elim (Bool-cases (is_replacement r n.seq)) [
    | inl own ↦ rw own (fold_nodes_after m r ns)
    | inr other ↦ elim (Bool-cases (is_selected r n.seq)) [
      | inl source ↦ rw (other, source) (fold_nodes_after m r ns)
      | inr visible ↦ rw (other, visible) (ap (put_first n) (fold_nodes_after m r ns))
    ]
  ]

  kept_gone :
      (r : Replacement) (n : Node M) (ns : List (Node M))
      → is_replacement r n.seq ≡ true
      → kept r (n ∷ ns) ≡ kept r ns
  unfolding kept
  kept_gone r n ns h = rw h refl

  kept_stays :
      (r : Replacement) (n : Node M) (ns : List (Node M))
      → is_replacement r n.seq ≡ false
      → is_selected r n.seq ≡ false
      → kept r (n ∷ ns) ≡ n ∷ kept r ns
  unfolding kept
  kept_stays r n ns h k = rw (h, k) refl

  -- What a node list becomes: the nodes before the first source, the message, the nodes after it.
  abbrev pub Placed : M → Replacement → List (Node M) → List (Node M) → Type ℓ
  Placed m r ns out =
      (before : List (Node M)) × (n : Node M) × (after : List (Node M)) × (ns
        ≡ before ++ (n ∷ after))
      × All (λ k. is_selected r k.seq ≡ false) before
      × (is_selected r n.seq ≡ true)
      × (out ≡ kept r before ++ (record { seq = r.replacement_seq; messages = m } ∷ kept r after))

  fold_nodes-Placed :
      (m : M) (r : Replacement) (ns : List (Node M))
      → ((k : ℕ) → is_replacement r k ≡ true → is_selected r k ≡ false)
      → any_selected r ns ≡ true
      → (out : List (Node M)) × (fold_nodes (some m) r false ns ≡ some out) × Placed m r ns out
  unfolding fold_nodes any_selected
  fold_nodes-Placed m r [] own h = absurd (cc)
  fold_nodes-Placed m r (n ∷ ns) own h = elim (Bool-cases (is_selected r n.seq)) [
    | inl source ↦
        let mine : is_replacement r n.seq ≡ false = elim (Bool-cases (is_replacement r n.seq)) [
          | inl yours ↦ absurd (false-true (sym (own n.seq yours) ∙ source))
          | inr other ↦ other
        ] in
        (
          record { seq = r.replacement_seq; messages = m } ∷ kept r ns,
          rw (mine, source)
              (ap (put_message r.replacement_seq (some m)) (fold_nodes_after (some m) r ns)),
          ([], n, ns, refl, tt, source, unfold kept in refl),
        )
    | inr visible ↦
        let more : any_selected r ns ≡ true = sym (ap (λ b. b || any_selected r ns) visible) ∙ h in
        let (out, folded, placed) = fold_nodes-Placed m r ns own more in
        let (before, k, after, split, none_before, source, shape) = placed in
        elim (Bool-cases (is_replacement r n.seq)) [
          | inl mine ↦ (
            out,
            rw mine folded,
            (
              n ∷ before,
              k,
              after,
              ap (◌∷◌ n) split,
              (visible, none_before),
              source,
              shape
                  ∙ ap
                      (λ ks.
                        ks ++ (record { seq = r.replacement_seq; messages = m } ∷ kept r after))
                      (sym (kept_gone r n before mine)),
            ),
          )
          | inr other ↦ (
            n ∷ out,
            rw (other, visible) (ap (put_first n) folded),
            (
              n ∷ before,
              k,
              after,
              ap (◌∷◌ n) split,
              (visible, none_before),
              source,
              ap (◌∷◌ n) shape
                  ∙ ap
                      (λ ks.
                        ks ++ (record { seq = r.replacement_seq; messages = m } ∷ kept r after))
                      (sym (kept_stays r n before other visible)),
            ),
          )
        ]
  ]

  -- A durable replacement whose own event is not one of its sources takes their place. Where a source
  -- is among the nodes, the result is the nodes before the first source, the replacement's message under
  -- its sequence number, and the nodes behind, all in their order and without the sources and the
  -- replacement's own node; where no source is there, it is an error.
  pub fold_replacement-Placed :
      (m : M) (r : Replacement) (ns : List (Node M))
      → ((k : ℕ) → is_replacement r k ≡ true → is_selected r k ≡ false)
      → (any_selected r ns ≡ true
          → (out : List (Node M)) × (fold_replacement (some m) r ns ≡ some out) × Placed m r ns out)
        × (any_selected r ns ≡ false → fold_replacement (some m) r ns ≡ none)
  unfolding fold_replacement
  fold_replacement-Placed m r ns own = (
    λ h. let (out, folded, placed) = fold_nodes-Placed m r ns own h in (out, rw h folded, placed),
    λ h. rw h refl,
  )

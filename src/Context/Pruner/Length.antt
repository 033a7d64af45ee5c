-- ===== src/Context/Pruner/Length.antt =====
-- How long a pruned tool result is (context/pruner.go: PruneResult).
use awesome_go_agents.Base.{
  ℕ, ◌+◌, ◌-◌, ◌<◌, ◌≤◌, ◌≡◌, refl, ◌++◌, true, false, inl, inr, Bool-cases, arith, length, take,
  drop, ℤ, pos, negsuc, length-append, length-take, length-drop,
}
use awesome_go_agents.Context.Pruner.{
  Text, PruneCaps, clamp, at_most, marker, is_kept, cut, prune_result,
}

abbrev pub caps : ℕ → ℕ → ℕ → PruneCaps
caps threshold head tail = record {
  threshold_chars = pos threshold;
  head_chars = pos head;
  tail_chars = pos tail;
}

clamp_le : (v : ℤ) (hi : ℕ) → clamp v hi ≤ hi
unfolding clamp
clamp_le (pos v) hi = ground arith
clamp_le (negsuc v) hi = omega arith

length_parts :
    (h t : ℕ) (runes : Text)
    → h ≤ length runes
    → t ≤ length runes
    → length (take h runes ++ (marker ++ drop (length runes - t) runes)) ≡ h + 16 + t
length_parts h t runes hh ht =
    let rest = drop (length runes - t) runes in
    omega (
      arith,
      length-append (take h runes) (marker ++ rest),
      length-append marker rest,
      length-take h runes,
      length-drop (length runes - t) runes,
    )

length-cut :
    (c : PruneCaps) (runes : Text)
    → length (cut c (length runes) runes)
      ≡ clamp c.head_chars (length runes) + 16 + clamp c.tail_chars (length runes)
unfolding cut
length-cut c runes =
    length_parts _ _ runes (clamp_le c.head_chars (length runes))
      (clamp_le c.tail_chars (length runes))

-- A kept text, and a cut one.
prune_result_kept :
    (c : PruneCaps) (runes : Text) → is_kept c (length runes) ≡ true → prune_result c runes ≡ runes
unfolding prune_result
prune_result_kept c runes h = rw h refl

prune_result-cut :
    (c : PruneCaps) (runes : Text)
    → is_kept c (length runes) ≡ false
    → prune_result c runes ≡ cut c (length runes) runes
unfolding prune_result
prune_result-cut c runes h = rw h refl

-- Where the head and the tail leave out some code points, but no more than 15, the result of pruning
-- a text above the threshold is longer than the text.
pub prune_result-grows :
    (threshold head tail : ℕ) (runes : Text)
    → threshold < length runes
    → head + tail < length runes
    → length runes < head + tail + 16
    → length runes < length (prune_result (caps threshold head tail) runes)
unfolding is_kept clamp at_most
prune_result-grows threshold head tail runes over left_out few =
    let c = caps threshold head tail in
    let cut_it : is_kept c (length runes) ≡ false = ground arith in
    rw (prune_result-cut c runes cut_it, length-cut c runes) (ground arith)

is_short :
    (threshold head tail n m : ℕ)
    → head + tail + 16 ≤ threshold
    → m ≡ clamp (pos head) n + 16 + clamp (pos tail) n
    → is_kept (caps threshold head tail) m ≡ true
unfolding is_kept clamp at_most
is_short threshold head tail n m h e = ground arith

-- Where the head, the marker and the tail fit below the threshold, pruning a text twice is pruning
-- it once.
pub prune_result-idempotent :
    (threshold head tail : ℕ) (runes : Text)
    → head + tail + 16 ≤ threshold
    → let c = caps threshold head tail in
      prune_result c (prune_result c runes) ≡ prune_result c runes
unfolding clamp
prune_result-idempotent threshold head tail runes h =
    let c = caps threshold head tail in
    elim (Bool-cases (is_kept c (length runes))) [
      | inl kept ↦ rw (prune_result_kept c runes kept) (prune_result_kept c runes kept)
      | inr gone ↦ rw (prune_result-cut c runes gone) (
          prune_result_kept c (cut c (length runes) runes) (
            is_short threshold head tail (length runes) (length (cut c (length runes) runes)) h
              (length-cut c runes)))
    ]

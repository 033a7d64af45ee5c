-- ===== src/Agent/Hub/Handoff.antt =====
-- The handoff from a replay to the live events (agent/events.go: SubscribeCursor).
use awesome_go_agents.Base.{
  ℕ, zero, suc, ◌+◌, ◌-◌, ◌≤◌, ◌≡◌, ◌⊎◌, inl, inr, refl, sym, ap, ◌∙◌, Bool, true, false, List, [],
  ◌∷◌, ◌++◌, append-nil, ltb, leb, ◌==◌, if◌then◌else◌, select, arith, Bool-cases, All,
}
use mathlib.Core.Path.{subst}
use awesome_go_agents.Session.Event.{Event}
use awesome_go_agents.Agent.Hub.{EventFilter, keeps, EventSubscription, find_pending, publish_to}
use awesome_go_agents.Agent.Hub.Cursor.{max_replay, filter_replay, insert_event, sort_events}
use awesome_go_agents.Agent.Hub.Stream.{
  fresh, top, segment, wanted, wanted-append, top-le, le_or_lt, fresh-append, top-append,
  fresh-fresh, top-fresh, fresh-behind, fresh-wanted,
}

-- The numbers a + 1 to a + m.
abbrev pub numbers : ℕ → ℕ → List ℕ
numbers a zero = []
numbers a (suc m) = suc a ∷ numbers (suc a) m

pub numbers-le : (a m : ℕ) → All (λ k. k ≤ a + m) (numbers a m)
numbers-le a zero = tt
numbers-le a (suc m) =
    let e : a + suc m ≡ suc a + m = omega arith in
    (omega arith, subst (λ t. All (λ k. k ≤ t) (numbers (suc a) m)) (sym e) (numbers-le (suc a) m))

-- What is published while the replay is loaded.
unfoldable pub publish_all : (ℕ → Event) → List ℕ → EventSubscription → EventSubscription
unfolding publish_to
publish_all log [] s = s
publish_all log (k ∷ ks) s = publish_all log ks (publish_to (log k) s)

abbrev pub before : List ℕ → List ℕ → List ℕ
before [] seen = seen
before (k ∷ ks) seen = before ks (k ∷ seen)

pub find_pending-select :
    (t k : ℕ) (es : List Event)
    → t ≤ k
    → find_pending k (select (λ e. leb t e.seq) es) ≡ find_pending k es
unfolding find_pending
find_pending-select t k [] h = refl
find_pending-select t k (e ∷ es) h = elim (Bool-cases (leb t e.seq)) [
  | inl kept ↦ rw kept (elim (Bool-cases (e.seq == k)) [
    | inl here ↦ rw here refl
    | inr there ↦ rw there (find_pending-select t k es h)
  ])
  | inr below ↦
      let there : e.seq == k ≡ false = ground arith in
      rw (below, there) (find_pending-select t k es h)
]

pub select-All :
    (P : Event → Type 0) (test : Event → Bool) (es : List Event) → All P es → All P (select test es)
select-All P test [] h = tt
select-All P test (e ∷ es) h = elim (Bool-cases (test e)) [
  | inl kept ↦ rw kept (h.0, select-All P test es h.1)
  | inr left_out ↦ rw left_out (select-All P test es h.1)
]

insert_event-least :
    (e : Event) (es : List Event) → All (λ x. e.seq ≤ x.seq) es → insert_event e es ≡ e ∷ es
unfolding insert_event
insert_event-least e [] h = refl
insert_event-least e (x ∷ es) h =
    let first : leb e.seq x.seq ≡ true = ground (arith, h.0) in rw first refl

the_sum : (n m : ℕ) → n ≤ m → m ≡ n + (m - n)
the_sum n m h = omega arith

module _ (log : ℕ → Event) (numbered : (k : ℕ) → (log k).seq ≡ k) where
  pub max_replay-segment : (a m : ℕ) → max_replay a (segment log a m) ≡ a + m
  unfolding max_replay segment
  max_replay-segment a zero = omega arith
  max_replay-segment a (suc m) =
      let up : ltb a (log (suc a)).seq ≡ true = ground (arith, numbered (suc a)) in
      let step : (if ltb a (log (suc a)).seq then (log (suc a)).seq else a) ≡ suc a =
        rw up (numbered (suc a)) in
      ap (λ t. max_replay t (segment log (suc a) m)) step
      ∙ max_replay-segment (suc a) m
      ∙ omega arith

  newer_segment :
      (after a m : ℕ)
      → after ≤ a
      → select (λ e. ltb after e.seq) (segment log a m) ≡ segment log a m
  unfolding segment
  newer_segment after a zero h = refl
  newer_segment after a (suc m) h =
      let up : ltb after (log (suc a)).seq ≡ true = ground (arith, numbered (suc a)) in
      rw up (ap (◌∷◌ (log (suc a))) (newer_segment after (suc a) m (omega arith)))

  segment-above : (b a m : ℕ) → b ≤ suc a → All (λ e. b ≤ e.seq) (segment log a m)
  unfolding segment
  segment-above b a zero h = tt
  segment-above b a (suc m) h =
      (omega (arith, numbered (suc a)), segment-above b (suc a) m (omega arith))

  module _ (filter : EventFilter) where
    sort_events-wanted :
        (a m : ℕ) → sort_events (wanted log numbered filter a m) ≡ wanted log numbered filter a m
    unfolding sort_events segment
    sort_events-wanted a zero = refl
    sort_events-wanted a (suc m) = elim (Bool-cases (keeps filter (log (suc a)))) [
      | inr left_out ↦ rw left_out (sort_events-wanted (suc a) m)
      | inl kept ↦
          rw (kept, sort_events-wanted (suc a) m)
            (insert_event-least (log (suc a)) (wanted log numbered filter (suc a) m) (
              select-All (λ e. (log (suc a)).seq ≤ e.seq) (λ e. keeps filter e)
                (segment log (suc a) m)
                (segment-above (log (suc a)).seq (suc a) m (omega (arith, numbered (suc a))))))
    ]

    pub backlog_lem :
        (a m : ℕ)
        → sort_events (filter_replay a filter (segment log a m)) ≡ wanted log numbered filter a m
    unfolding filter_replay
    backlog_lem a m =
        ap (λ es. sort_events (select (λ e. keeps filter e) es)) (newer_segment a a m (omega arith))
        ∙ sort_events-wanted a m

    -- What a reader with the replay and the channel before it gets: the wanted events up to the later
    -- of the two ends.
    pub handed_over :
        (a m n : ℕ) (ch : List Event)
        → fresh a ch ≡ wanted log numbered filter a n
        → top a ch ≤ a + n
        → (k : ℕ) × (m ≤ k)
          × (n ≤ k)
          × ((k ≡ m) ⊎ (k ≡ n))
          × (fresh a (wanted log numbered filter a m ++ ch) ≡ wanted log numbered filter a k)
          × (top a (wanted log numbered filter a m ++ ch) ≤ a + k)
    handed_over a m n ch h b =
        let W = wanted log numbered filter in
        let t = top a (W a m) in
        let (same, small) = fresh-wanted log numbered filter a a m (omega arith) in
        let above = top-le a (W a m) in
        let live : fresh t ch ≡ fresh t (W a n) = sym (fresh-fresh a t ch above) ∙ ap (fresh t) h in
        let live_top : top t ch ≡ top t (W a n) = sym (top-fresh a t ch above) ∙ ap (top t) h in
        let content : fresh a (W a m ++ ch) ≡ W a m ++ fresh t (W a n) =
          fresh-append a (W a m) ch ∙ ap (λ xs. xs ++ fresh t ch) same ∙ ap (◌++◌ (W a m)) live in
        let last : top a (W a m ++ ch) ≡ top t (W a n) = top-append a (W a m) ch ∙ live_top in
        elim (le_or_lt n m) [
          | inl covered ↦
              let split : W a m ≡ W a n ++ W (a + n) (m - n) =
                ap (W a) (the_sum n m covered) ∙ wanted-append log numbered filter a n (m - n) in
              let reached : top a (W a n) ≤ t =
                subst (λ xs. top a (W a n) ≤ top a xs) (sym split)
                  (subst (λ k. top a (W a n) ≤ k) (sym (top-append a (W a n) (W (a + n) (m - n))))
                    (top-le (top a (W a n)) (W (a + n) (m - n)))) in
              let (nothing, stays) = fresh-behind a t (W a n) reached in
              (
                m,
                omega arith,
                covered,
                inl refl,
                content ∙ ap (◌++◌ (W a m)) nothing ∙ append-nil (W a m),
                omega (arith, last, stays, small),
              )
          | inr beyond ↦
              let split : W a n ≡ W a m ++ W (a + m) (n - m) =
                ap (W a) (the_sum m n (omega arith))
                ∙ wanted-append log numbered filter a m (n - m) in
              let (nothing, stays) = fresh-behind a t (W a m) (omega arith) in
              let (new, new_top) = fresh-wanted log numbered filter t (a + m) (n - m) small in
              let rest : fresh t (W a n) ≡ W (a + m) (n - m) =
                ap (fresh t) split
                ∙ fresh-append t (W a m) (W (a + m) (n - m))
                ∙ ap (λ xs. xs ++ fresh (top t (W a m)) (W (a + m) (n - m))) nothing
                ∙ ap (λ k. fresh k (W (a + m) (n - m))) stays
                ∙ new in
              let rest_top : top t (W a n) ≡ top t (W (a + m) (n - m)) =
                ap (top t) split
                ∙ top-append t (W a m) (W (a + m) (n - m))
                ∙ ap (λ k. top k (W (a + m) (n - m))) stays in
              (
                n,
                omega arith,
                omega arith,
                inr refl,
                content ∙ ap (◌++◌ (W a m)) rest ∙ sym split,
                omega (arith, last, rest_top, new_top),
              )
        ]

-- ===== src/Agent/Hub/Publishing.antt =====
-- An event that is published to a subscription (agent/events.go: Publish).
use awesome_go_agents.Base.{
  by_test, ℕ, ◌+◌, ◌≤◌, ◌<◌, ◌≡◌, ◌≢◌, inl, inr, refl, sym, ap, ◌∙◌, Bool, true, false, not, none,
  some, List, ◌∷◌, ◌++◌, ltb, ◌==◌, length, u64_mod, arith, Bool-cases,
}
use awesome_go_agents.Session.Event.{Event}
use awesome_go_agents.Agent.Hub.{
  EventFilter, keeps, EventSubscription, find_pending, drop_pending, put_pending, flush,
  publish_unnumbered, publish_early, publish_due, publish_to,
}
use awesome_go_agents.Agent.Hub.Pending.{
  find_pending_here, find_pending_other, find_pending-drop_pending, drop_pending-All,
}
use awesome_go_agents.Agent.Hub.Stream.{fresh_ignored}
use awesome_go_agents.Agent.Hub.Tracks.{Logged, Streams, Waits, Tracks}
use awesome_go_agents.Agent.Hub.Cases.{pushed, enqueue_cases}
use awesome_go_agents.Agent.Hub.Flushing.{
  deliver-Delivered, terminate-Tracks, flush_pending-Tracks, map_All,
}

is_on : (b : Bool) → not b ≡ false → b ≡ true
is_on true h = refl
is_on false h = absurd (cc)

module _ (log : ℕ → Event) (numbered : (k : ℕ) → (log k).seq ≡ k) (after : ℕ)
    (f : EventFilter) where
  -- A number that is not above those delivered was seen.
  seen_old :
      (published : List ℕ) (n k : ℕ) (s : EventSubscription)
      → k ≤ after + n
      → Waits log numbered after f published n s
      → Waits log numbered after f (k ∷ published) n s
  seen_old published n k s h w = record { next = w.next; logged = w.logged; seen = (inl h, w.seen) }

  old-Tracks :
      (d : ℕ) (out old : List Event) (published : List ℕ) (n k : ℕ) (s : EventSubscription)
      → (s.active ≡ true → k ≤ after + n)
      → Tracks log numbered after f d out old published n s
      → Tracks log numbered after f d out old (k ∷ published) n s
  old-Tracks d out old published n k s h v = record {
    streams = v.streams;
    waits = λ on. let (w, due) = v.waits on in (seen_old published n k s (h on) w, due);
  }

  pushed-Tracks :
      (d : ℕ) (out old : List Event) (published : List ℕ) (n : ℕ) (e : Event)
      (s : EventSubscription)
      → e.seq ≡ 0
      → Tracks log numbered after f d out old published n s
      → Tracks log numbered after f d out old published n (pushed e s)
  pushed-Tracks d out old published n e s zero_seq v =
      let (content, last) = fresh_ignored d old s.ch e (omega arith) in
      record {
        streams = record {
          content = ap (◌++◌ out) content ∙ v.streams.content;
          bounded = omega (arith, last, v.streams.bounded);
          filtered = v.streams.filtered;
        };
        waits = λ on.
            let (w, due) = v.waits on in
            (record { next = w.next; logged = w.logged; seen = w.seen }, due);
      }

  publish_unnumbered-Tracks :
      (d : ℕ) (out old : List Event) (published : List ℕ) (n : ℕ) (e : Event)
      (s : EventSubscription)
      → e.seq ≡ 0
      → Tracks log numbered after f d out old published n s
      → Tracks log numbered after f d out old published n (publish_unnumbered e s)
  unfolding publish_unnumbered
  publish_unnumbered-Tracks d out old published n e s zero_seq v =
      elim (Bool-cases (keeps s.filter e)) [
        | inr left_out ↦ rw left_out v
        | inl kept ↦ elim (enqueue_cases e s) [
          | inl full ↦
              rw (kept, full)
                (terminate-Tracks log numbered after f true d out old published n s v.streams)
          | inr room ↦ rw (kept, room) (pushed-Tracks d out old published n e s zero_seq v)
        ]
      ]

  -- An event ahead of its turn.
  put_seen :
      (k j : ℕ) (es : List Event)
      → find_pending j es ≡ some (log j)
      → find_pending j (put_pending (log k) es) ≡ some (log j)
  unfolding put_pending
  put_seen k j es h = elim (Bool-cases (k == j)) [
    | inl same ↦
        let e : k ≡ j = ground arith in
        find_pending_here j (log k) (drop_pending (log k).seq es) (numbered k ∙ e)
        ∙ ap (λ i. some (log i)) e
    | inr other ↦
        let differ : (log k).seq ≢ j = λ q. ground (arith, numbered k) in
        find_pending_other j (log k) (drop_pending (log k).seq es) differ
        ∙ find_pending-drop_pending j (log k).seq es differ
        ∙ h
  ]

  put-Waits :
      (published : List ℕ) (n k : ℕ) (s : EventSubscription)
      → k + 1 < u64_mod
      → Waits log numbered after f published n s
      → Waits log numbered after f
          (k ∷ published)
          n
          (record s { pending = put_pending (log k) s.pending })
  unfolding put_pending
  put-Waits published n k s room w = record {
    next = w.next;
    logged = (
      record { same = ap log (sym (numbered k)); room = omega (arith, room, numbered k) },
      drop_pending-All (Logged log numbered after f) (log k).seq s.pending w.logged,
    );
    seen = (
      inr (find_pending_here k (log k) (drop_pending (log k).seq s.pending) (numbered k)),
      map_All log numbered after f published
          (λ j. elim [ inl old ↦ inl old | inr found ↦ inr (put_seen k j s.pending found) ]) w.seen,
    );
  }

  publish_early-Tracks :
      (d : ℕ) (out old : List Event) (published : List ℕ) (n k : ℕ) (s : EventSubscription)
      → k + 1 < u64_mod
      → after + n + 1 < k
      → s.active ≡ true
      → Tracks log numbered after f d out old published n s
      → Tracks log numbered after f d out old (k ∷ published) n (publish_early (log k) s)
  unfolding publish_early
  publish_early-Tracks d out old published n k s room ahead on v =
      let (w, due) = v.waits on in
      let s' : EventSubscription = record s { pending = put_pending (log k) s.pending } in
      let v' : Streams log numbered after f d out old n s' = record {
        content = v.streams.content;
        bounded = v.streams.bounded;
        filtered = v.streams.filtered;
      } in
      let differ : (log k).seq ≢ s.next_seq = λ q. omega (arith, numbered k, w.next) in
      let due' : find_pending s.next_seq (put_pending (log k) s.pending) ≡ none =
        unfold put_pending in
        find_pending_other s.next_seq (log k) (drop_pending (log k).seq s.pending) differ
        ∙ find_pending-drop_pending s.next_seq (log k).seq s.pending differ
        ∙ due in
      elim (Bool-cases (ltb s.limit (length (put_pending (log k) s.pending)))) [
        | inl full ↦
            rw full (terminate-Tracks log numbered after f true d out old (k ∷ published) n s' v')
        | inr fits ↦
            rw fits
              (record { streams = v'; waits = λ still. (put-Waits published n k s room w, due') })
      ]

  publish_due-Tracks :
      (d : ℕ) (out old : List Event) (published : List ℕ) (n k : ℕ) (s : EventSubscription)
      → k + 1 < u64_mod
      → k ≡ after + n + 1
      → s.active ≡ true
      → Tracks log numbered after f d out old published n s
      → (m : ℕ) × Tracks log numbered after f d out old (k ∷ published) m (publish_due (log k) s)
  unfolding publish_due flush
  publish_due-Tracks d out old published n k s room due on v =
      let (w, none_due) = v.waits on in
      elim (deliver-Delivered log numbered after f d out old n (log k) s (ap log due) (omega arith)
        w.next v.streams) [
          | inl full ↦ (
            n,
            rw (full, publish_due)
                (terminate-Tracks log numbered after f true d out old (k ∷ published) n s
                  v.streams),
          )
          | inr (s', made, after_it) ↦
              let w' : Waits log numbered after f (k ∷ published) (n + 1) s' = record {
                next = after_it.next;
                logged = rw after_it.pending w.logged;
                seen = (
                  inl (omega arith),
                  map_All log numbered after f published
                      (λ j. elim [
                        | inl old ↦ inl (omega arith)
                        | inr found ↦ inr (rw after_it.pending found)
                      ])
                      w.seen,
                );
              } in
              let (m, tracks) =
                flush_pending-Tracks log numbered after f d out old (k ∷ published)
                  (length s'.pending) (n + 1) s' (omega arith) (after_it.active ∙ on)
                  after_it.streams w' in
              (m, rw (made, publish_due) tracks)
        ]

  pub publish_to-Tracks :
      (d : ℕ) (out old : List Event) (published : List ℕ) (n k : ℕ) (s : EventSubscription)
      → k + 1 < u64_mod
      → Tracks log numbered after f d out old published n s
      → (m : ℕ) × Tracks log numbered after f d out old (k ∷ published) m (publish_to (log k) s)
  unfolding publish_to
  publish_to-Tracks d out old published n k s room v =
      let Result : EventSubscription → Type 0 =
        λ t. (m : ℕ) × Tracks log numbered after f d out old (k ∷ published) m t in
      let e = log k in
      by_test Result (not s.active) s _
        (λ off. (n, old-Tracks d out old published n k s (λ on. absurd (cc)) v))
        (λ still.
          let on : s.active ≡ true = is_on s.active still in
          let (w, due) = v.waits on in
          by_test Result (e.seq == 0) (publish_unnumbered e s) _
            (λ unnumbered.
              let zero_seq : e.seq ≡ 0 = ground arith in
              (
                n,
                old-Tracks d out old published n k (publish_unnumbered e s)
                    (λ now. omega (arith, numbered k))
                    (publish_unnumbered-Tracks d out old published n e s zero_seq v),
              ))
            (λ has_number.
              by_test Result (ltb e.seq s.next_seq) s _
                (λ below.
                  let before : e.seq < s.next_seq = ground arith in
                  (
                    n,
                    old-Tracks d out old published n k s (λ now. omega (arith, numbered k, w.next))
                        v,
                  ))
                (λ not_below.
                  by_test Result (ltb s.next_seq e.seq) (publish_early e s) (publish_due e s)
                    (λ ahead.
                      let above : s.next_seq < e.seq = ground arith in
                      (
                        n,
                        publish_early-Tracks d out old published n k s room
                            (omega (arith, numbered k, w.next)) on v,
                      ))
                    (λ not_ahead.
                      let same : e.seq ≡ s.next_seq = ground arith in
                      publish_due-Tracks d out old published n k s room
                        (omega (arith, numbered k, w.next)) on v))))

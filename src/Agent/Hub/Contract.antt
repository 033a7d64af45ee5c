-- ===== src/Agent/Hub/Contract.antt =====
-- What a cursor subscription promises (agent/events.go: EventHub, Subscription).
use awesome_go_agents.Base.{
  Bool-cases, false, by_test, ℕ, ◌+◌, ◌≤◌, ◌<◌, ◌≡◌, ◌≢◌, ◌⊎◌, inl, inr, refl, sym, ap, ◌∙◌, none,
  some, List, [], ◌∷◌, ◌++◌, ltb, leb, if◌then◌else◌, length, select, u64, u64_mod, u64_small,
  arith, All, All-append,
}
use mathlib.Core.Path.{subst}
use awesome_go_agents.Session.Errors.{ok, >>=-eq-ok, ok-injective}
use awesome_go_agents.Session.Event.{Event}
use awesome_go_agents.Agent.Hub.{
  EventFilter, keeps, EventSubscription, subscribe, find_pending, flush, publish_to,
}
use awesome_go_agents.Agent.Hub.Cursor.{
  Subscription, new_subscription, check_replayed, max_replay, filter_replay, sort_events,
  resume_live, catch_up,
}
use awesome_go_agents.Agent.Hub.Stream.{fresh, top, segment, wanted, le_or_lt}
use awesome_go_agents.Agent.Hub.Tracks.{Logged, Waits, Tracks}
use awesome_go_agents.Agent.Hub.Flushing.{flush_pending-Tracks, map_All}
use awesome_go_agents.Agent.Hub.Publishing.{publish_to-Tracks}
use awesome_go_agents.Agent.Hub.Delivery.{
  Step, run, published, published_before, Follows, run-Follows,
}
use awesome_go_agents.Agent.Hub.Handoff.{
  numbers, numbers-le, publish_all, before, find_pending-select, select-All, max_replay-segment,
  backlog_lem, handed_over,
}

module _ (log : ℕ → Event) (numbered : (k : ℕ) → (log k).seq ≡ k) (after : ℕ)
    (f : EventFilter) where
  subscribe-Tracks :
      (limit : ℕ)
      → after + 1 < u64_mod
      → Tracks log numbered after f after [] [] [] 0 (subscribe limit after f)
  unfolding subscribe find_pending fresh top segment
  subscribe-Tracks limit h = record {
    streams = record { content = refl; bounded = omega arith; filtered = refl };
    waits = λ on.
        (record { next = u64_small (after + 1) h ∙ omega arith; logged = tt; seen = tt }, refl);
  }

  publish_all-Tracks :
      (ks seen : List ℕ) (n : ℕ) (s : EventSubscription)
      → All (λ k. k + 1 < u64_mod) ks
      → Tracks log numbered after f after [] [] seen n s
      → (m : ℕ) × Tracks log numbered after f after [] [] (before ks seen) m (publish_all log ks s)
  unfolding publish_all
  publish_all-Tracks [] seen n s h v = (n, v)
  publish_all-Tracks (k ∷ ks) seen n s h v =
      let (m, tracks) = publish_to-Tracks log numbered after f after [] [] seen n k s h.0 v in
      publish_all-Tracks ks (k ∷ seen) m (publish_to (log k) s) h.1 tracks

  still_seen :
      (n k j : ℕ) (es : List Event)
      → n ≤ k
      → (j ≤ after + n) ⊎ (find_pending j es ≡ some (log j))
      → (j ≤ after + k)
        ⊎ (find_pending j (select (λ e. leb (after + k + 1) e.seq) es) ≡ some (log j))
  still_seen n k j es h (inl old) = inl (omega arith)
  still_seen n k j es h (inr found) = elim (le_or_lt j (after + k)) [
    | inl covered ↦ inl covered
    | inr later ↦ inr (find_pending-select (after + k + 1) j es (omega arith) ∙ found)
  ]

  later_of :
      (m n k : ℕ)
      → m ≤ k
      → n ≤ k
      → (k ≡ m) ⊎ (k ≡ n)
      → (if ltb (after + n + 1) (after + m + 1) then after + m + 1 else after + n + 1)
        ≡ after + k + 1
  later_of m n k hm hn (inl e) = ground arith
  later_of m n k hm hn (inr e) = ground arith

  -- The live side moves up to the end of the replay.
  resumed-Waits :
      (m n k : ℕ) (seen : List ℕ) (s : EventSubscription)
      → m ≤ k
      → n ≤ k
      → Waits log numbered after f seen n s
      → Waits log numbered after f (numbers after m ++ seen) k (record s {
        next_seq = after + k + 1;
        pending = select (λ e. leb (after + k + 1) e.seq) s.pending;
      })
  resumed-Waits m n k seen s hm hn w = record {
    next = refl;
    logged =
        select-All (Logged log numbered after f) (λ e. leb (after + k + 1) e.seq) s.pending
          w.logged;
    seen =
        All-append
          (λ j.
            (j ≤ after + k)
            ⊎ (find_pending j (select (λ e. leb (after + k + 1) e.seq) s.pending) ≡ some (log j)))
          (numbers after m) seen
          (map_All log numbered after f (numbers after m) (λ j h. inl (omega arith))
            (numbers-le after m))
          (map_All log numbered after f seen (λ j. still_seen n k j s.pending hn) w.seen);
  }

  resume_live-Tracks :
      (m n : ℕ) (seen : List ℕ) (s : EventSubscription)
      → after + m + 1 < u64_mod
      → Tracks log numbered after f after [] [] seen n s
      → (k : ℕ) × Tracks log numbered after f after []
          (wanted log numbered s.filter after m)
          (numbers after m ++ seen)
          k
          (resume_live (after + m) s)
  unfolding resume_live flush
  resume_live-Tracks m n seen s room v =
      let (k, hm, hn, which, content, last) =
        handed_over log numbered s.filter after m n s.ch v.streams.content v.streams.bounded in
      let Result : EventSubscription → Type 0 = λ t.
        (j : ℕ) × Tracks log numbered after f after [] (wanted log numbered s.filter after m)
          (numbers after m ++ seen) j t in
      let moved : ℕ → EventSubscription =
        λ next. record s { next_seq = next; pending = select (λ e. leb next e.seq) s.pending } in
      by_test Result s.active
        (flush (
          moved (if ltb s.next_seq (u64 (after + m + 1)) then u64 (after + m + 1) else s.next_seq)))
        s
        (λ on.
          let (w, due) = v.waits on in
          let next : (if ltb s.next_seq (u64 (after + m + 1))
                then u64 (after + m + 1)
                else s.next_seq)
              ≡ after + k + 1 =
            rw (w.next, u64_small (after + m + 1) room) (later_of m n k hm hn which) in
          subst (λ j. Result (flush (moved j))) (sym next)
            (flush_pending-Tracks log numbered after f after []
              (wanted log numbered s.filter after m) (numbers after m ++ seen)
              (length (moved (after + k + 1)).pending) k (moved (after + k + 1)) (omega arith) on
              (record { content = content; bounded = last; filtered = v.streams.filtered })
              (resumed-Waits m n k seen s hm hn w)))
        (λ off. (
          k,
          record {
            streams = record { content = content; bounded = last; filtered = v.streams.filtered };
            waits = λ on. absurd (cc);
          },
        ))

  -- What is left is a reader that has caught up.
  catch_up-Follows :
      (m n : ℕ) (seen : List ℕ) (sub : EventSubscription) (s : Subscription)
      → after + m + 1 < u64_mod
      → Tracks log numbered after f after [] [] seen n sub
      → catch_up after (segment log after m) (new_subscription after sub) ≡ ok s
      → (k : ℕ) × Follows log numbered after f (numbers after m ++ seen) k (s, [])
  unfolding catch_up new_subscription
  catch_up-Follows m n seen sub s room v h =
      let replay = segment log after m in
      let caught : Subscription = record (new_subscription after sub) {
        sub = resume_live (max_replay after replay) sub;
        backlog = sort_events (filter_replay after sub.filter replay);
      } in
      let (checked, done, made) = >>=-eq-ok (check_replayed replay) _ h in
      let same : caught ≡ s = ok-injective caught s made in
      let (k, tracks) = resume_live-Tracks m n seen sub room v in
      (
        k,
        subst (λ t. Follows log numbered after f (numbers after m ++ seen) k (t, [])) same
            (subst
              (λ top_seq.
                Tracks log numbered after f after []
                  (sort_events (filter_replay after sub.filter replay)) (numbers after m ++ seen) k
                  (resume_live top_seq sub))
              (sym (max_replay-segment log numbered after m))
              (subst
                (λ old.
                  Tracks log numbered after f after [] old (numbers after m ++ seen) k
                    (resume_live (after + m) sub))
                (sym (backlog_lem log numbered sub.filter after m)) tracks)),
      )

-- What a reader still gets from what waits for it.
abbrev pub waiting : Subscription → List Event
waiting s = fresh s.delivered_seq (s.backlog ++ s.sub.ch)

unseen :
    (log : ℕ → Event) (j last : ℕ) (es : List Event)
    → find_pending (last + 1) es ≡ none
    → (j ≤ last) ⊎ (find_pending j es ≡ some (log j))
    → j ≢ last + 1
unseen log j last es h (inl old) = λ e. omega arith
unseen log j last es h (inr found) = λ e.
    let there : find_pending (last + 1) es ≡ some (log j) =
      subst (λ i. find_pending i es ≡ some (log j)) e found in
    cc

-- A cursor subscription has no gap and no repetition. A reader subscribes after the number `after`;
-- while it loads the replay, the events up to number `after + m`, other events are published; then
-- publishers and the reader go on in any order, and every event may be published in any order and
-- more than once. What `Next` has returned and what waits for the reader are, in order, the events
-- that the filter keeps among the `n` numbered after `after`, each once; and unless the
-- subscription is disconnected, the next number is one that was neither replayed nor published.
-- (The events of the log carry their numbers, which are below 2 ^ 64 - 1. Events published without
-- a number are never returned.)
pub cursor-stream :
    (log : ℕ → Event) (after m limit : ℕ) (f : EventFilter) (early : List ℕ) (steps : List Step)
    (s : Subscription)
    → ((k : ℕ) → (log k).seq ≡ k)
    → after + m + 1 < u64_mod
    → All (λ k. k + 1 < u64_mod) early
    → All (λ k. k + 1 < u64_mod) (published steps)
    → catch_up after
        (segment log after m)
        (new_subscription after (publish_all log early (subscribe limit after f)))
      ≡ ok s
    → let (t, out) = run log steps (s, []) in
      (n : ℕ) × (out ++ waiting t ≡ select (keeps f) (segment log after n))
      × ((t.sub.active ≡ false)
          ⊎ All
              (λ k. k ≢ after + n + 1)
              (published_before steps (numbers after m ++ before early [])))
cursor-stream log after m limit f early steps s numbered room early_room step_room h =
    let (n0, subscribed) =
      publish_all-Tracks log numbered after f early [] 0 (subscribe limit after f) early_room
        (subscribe-Tracks log numbered after f limit (omega arith)) in
    let (n1, caught) =
      catch_up-Follows log numbered after f m n0 (before early [])
        (publish_all log early (subscribe limit after f)) s room subscribed h in
    let (n, v) =
      run-Follows log numbered after f steps (numbers after m ++ before early []) n1 s [] step_room
        caught in
    let t = (run log steps (s, [])).0 in
    (
      n,
      v.streams.content ∙ ap (λ g. select (keeps g) (segment log after n)) v.streams.filtered,
      elim (Bool-cases t.sub.active) [
        | inr off ↦ inl off
        | inl on ↦
            let (w, due) = v.waits on in
            inr (
              map_All log numbered after f
                (published_before steps (numbers after m ++ before early []))
                (λ j seen.
                  unseen log j (after + n) t.sub.pending
                    (subst (λ k. find_pending k t.sub.pending ≡ none) w.next due) seen)
                w.seen)
      ],
    )

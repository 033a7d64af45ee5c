-- ===== src/Agent/Hub/Flushing.antt =====
-- Publishing keeps what a subscription promises (agent/events.go: Publish, flushPendingLocked).
use awesome_go_agents.Base.{
  ℕ, zero, suc, ◌+◌, ◌≤◌, ◌<◌, ◌≡◌, ◌⊎◌, inl, inr, refl, sym, ap, ◌∙◌, Bool, true, false, none,
  some, List, [], ◌∷◌, ◌++◌, append_assoc, ◌==◌, length, u64, u64_mod, u64_small, arith, Bool-cases,
  All,
}
use mathlib.Core.Path.{subst}
use awesome_go_agents.Session.Event.{Event}
use awesome_go_agents.Agent.Hub.{
  EventFilter, keeps, EventSubscription, terminate, find_pending, drop_pending, step_seq, deliver,
  forget, flush_pending,
}
use awesome_go_agents.Agent.Hub.Pending.{
  find_pending-drop_pending, find_pending_lem, drop_pending-All, drop_pending-fewer,
}
use awesome_go_agents.Agent.Hub.Stream.{fresh, wanted, fresh_added}
use awesome_go_agents.Agent.Hub.Tracks.{
  Logged, Streams, Waits, Tracks, wanted_kept, wanted_left_out,
}
use awesome_go_agents.Agent.Hub.Cases.{
  none_pending, pushed, deliver_cases, terminate_lem, find_cases, flush_idle, flush_full, flush_on,
}

module _ (log : ℕ → Event) (numbered : (k : ℕ) → (log k).seq ≡ k) (after : ℕ)
    (f : EventFilter) where
  pub terminate-Tracks :
      (b : Bool) (d : ℕ) (out old : List Event) (published : List ℕ) (n : ℕ) (s : EventSubscription)
      → Streams log numbered after f d out old n s
      → Tracks log numbered after f d out old published n (terminate b s)
  terminate-Tracks b d out old published n s v =
      let (off, ch, filter) = terminate_lem b s in
      record {
        streams = record {
          content = rw (ch, filter) v.content;
          bounded = rw ch v.bounded;
          filtered = filter ∙ v.filtered;
        };
        waits = λ on. absurd (cc);
      }

  -- An event in its turn: the buffer takes it, or the filter passes it over.
  pushed-Streams :
      (d : ℕ) (out old : List Event) (n : ℕ) (e : Event) (s : EventSubscription)
      → e ≡ log (after + n + 1)
      → keeps s.filter e ≡ true
      → Streams log numbered after f d out old n s
      → Streams log numbered after f d out old (n + 1) (step_seq (pushed e s))
  unfolding step_seq
  pushed-Streams d out old n e s same kept v =
      let seq : e.seq ≡ after + n + 1 = rw same (numbered (after + n + 1)) in
      let (content, last) = fresh_added d old s.ch e (omega (arith, seq, v.bounded)) in
      record {
        content =
            ap (◌++◌ out) content
            ∙ sym (append_assoc out (fresh d (old ++ s.ch)) (e ∷ []))
            ∙ ap (λ xs. xs ++ (e ∷ [])) v.content
            ∙ ap (λ x. wanted log numbered s.filter after n ++ (x ∷ [])) same
            ∙ sym (
                wanted_kept log numbered after f s.filter n
                  (subst (λ x. keeps s.filter x ≡ true) same kept));
        bounded = omega (arith, last, seq);
        filtered = v.filtered;
      }

  skipped-Streams :
      (d : ℕ) (out old : List Event) (n : ℕ) (e : Event) (s : EventSubscription)
      → e ≡ log (after + n + 1)
      → keeps s.filter e ≡ false
      → Streams log numbered after f d out old n s
      → Streams log numbered after f d out old (n + 1) (step_seq s)
  unfolding step_seq
  skipped-Streams d out old n e s same left_out v = record {
    content =
        v.content
        ∙ sym (
            wanted_left_out log numbered after f s.filter n
              (subst (λ x. keeps s.filter x ≡ false) same left_out));
    bounded = omega (arith, v.bounded);
    filtered = v.filtered;
  }

  -- What delivery does to a subscription that waits for the event.
  pub record Delivered (d : ℕ) (out old : List Event) (n : ℕ) (s s' : EventSubscription)
      : Type 0 where
    pub streams : Streams log numbered after f d out old (n + 1) s'
    pub next : s'.next_seq ≡ after + (n + 1) + 1
    pub pending : s'.pending ≡ s.pending
    pub active : s'.active ≡ s.active

  pub deliver-Delivered :
      (d : ℕ) (out old : List Event) (n : ℕ) (e : Event) (s : EventSubscription)
      → e ≡ log (after + n + 1)
      → after + n + 1 + 1 < u64_mod
      → s.next_seq ≡ after + n + 1
      → Streams log numbered after f d out old n s
      → (deliver e s ≡ none)
        ⊎ ((s' : EventSubscription) × (deliver e s ≡ some s') × Delivered d out old n s s')
  unfolding step_seq
  deliver-Delivered d out old n e s same room next v =
      let stepped : u64 (s.next_seq + 1) ≡ after + (n + 1) + 1 =
        ap (λ k. u64 (k + 1)) next ∙ u64_small (after + n + 1 + 1) room ∙ omega arith in
      elim (deliver_cases e s) [
        | inl full ↦ inl full
        | inr (inl (kept, made)) ↦ inr (
          step_seq (pushed e s),
          made,
          record {
            streams = pushed-Streams d out old n e s same kept v;
            next = stepped;
            pending = refl;
            active = refl;
          },
        )
        | inr (inr (left_out, made)) ↦ inr (
          step_seq s,
          made,
          record {
            streams = skipped-Streams d out old n e s same left_out v;
            next = stepped;
            pending = refl;
            active = refl;
          },
        )
      ]

  -- The number that was due is delivered, and taken out of those pending.
  taken_seen :
      (n next k : ℕ) (es : List Event)
      → next ≡ after + n + 1
      → (k ≤ after + n) ⊎ (find_pending k es ≡ some (log k))
      → (k ≤ after + (n + 1)) ⊎ (find_pending k (drop_pending next es) ≡ some (log k))
  taken_seen n next k es e (inl old) = inl (omega arith)
  taken_seen n next k es e (inr found) = elim (Bool-cases (next == k)) [
    | inl same ↦ inl (ground arith)
    | inr other ↦ inr (find_pending-drop_pending k next es (λ q. ground arith) ∙ found)
  ]

  pub map_All : {P Q : ℕ → Type 0} (ks : List ℕ) → ((k : ℕ) → P k → Q k) → All P ks → All Q ks
  map_All [] f h = tt
  map_All (k ∷ ks) f h = (f k h.0, map_All ks f h.1)

  taken-Waits :
      (published : List ℕ) (n : ℕ) (s s' : EventSubscription)
      → Waits log numbered after f published n s
      → s'.next_seq ≡ after + (n + 1) + 1
      → s'.pending ≡ s.pending
      → Waits log numbered after f published (n + 1) (forget s.next_seq s')
  taken-Waits published n s s' w next same = record {
    next = next;
    logged =
        subst (λ es. All (Logged log numbered after f) (drop_pending s.next_seq es)) (sym same)
          (drop_pending-All (Logged log numbered after f) s.next_seq s.pending w.logged);
    seen =
        subst
          (λ es.
            All
              (λ k.
                (k ≤ after + (n + 1))
                ⊎ (find_pending k (drop_pending s.next_seq es) ≡ some (log k)))
              published)
          (sym same) (map_All published (λ k. taken_seen n s.next_seq k s.pending w.next) w.seen);
  }

  pub flush_pending-Tracks :
      (d : ℕ) (out old : List Event) (published : List ℕ) (fuel n : ℕ) (s : EventSubscription)
      → length s.pending ≤ fuel
      → s.active ≡ true
      → Streams log numbered after f d out old n s
      → Waits log numbered after f published n s
      → (m : ℕ) × Tracks log numbered after f d out old published m (flush_pending fuel s)
  unfolding flush_pending
  flush_pending-Tracks d out old published zero n s few on v w =
      (n, record { streams = v; waits = λ e. (w, none_pending s.next_seq s.pending few) })
  flush_pending-Tracks d out old published (suc fuel) n s few on v w =
      elim (find_cases s.next_seq s.pending) [
        | inl idle ↦ (
          n,
          subst (Tracks log numbered after f d out old published n) (sym (flush_idle fuel s idle))
              (record { streams = v; waits = λ e. (w, idle) }),
        )
        | inr (e, found) ↦
            let (seq, ok) =
              find_pending_lem (Logged log numbered after f) s.next_seq s.pending e found
                w.logged in
            let same : e ≡ log (after + n + 1) = ok.same ∙ ap log (seq ∙ w.next) in
            let room : after + n + 1 + 1 < u64_mod = omega (arith, ok.room, seq, w.next) in
            elim (deliver-Delivered d out old n e s same room w.next v) [
              | inl full ↦ (
                n,
                subst (Tracks log numbered after f d out old published n)
                    (sym (flush_full fuel s e found full))
                    (terminate-Tracks true d out old published n s v),
              )
              | inr (s', made, after_it) ↦
                  let (m, tracks) =
                    flush_pending-Tracks d out old published fuel (n + 1) (forget s.next_seq s')
                      (omega (
                        arith,
                        few,
                        drop_pending-fewer s.next_seq s.pending e found,
                        ap (λ es. length (drop_pending s.next_seq es)) after_it.pending,
                      ))
                      (after_it.active ∙ on)
                      (record {
                        content = after_it.streams.content;
                        bounded = after_it.streams.bounded;
                        filtered = after_it.streams.filtered;
                      })
                      (taken-Waits published n s s' w after_it.next after_it.pending) in
                  (
                    m,
                    subst (Tracks log numbered after f d out old published m)
                        (sym (flush_on fuel s s' e found made)) tracks,
                  )
            ]
      ]

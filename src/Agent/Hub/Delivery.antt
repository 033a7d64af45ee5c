-- ===== src/Agent/Hub/Delivery.antt =====
-- What a reader of a subscription gets (agent/events.go: SubscribeCursor, Next).
use awesome_go_agents.Base.{
  ℕ, ◌+◌, ◌≤◌, ◌<◌, ◌≡◌, ◌⊎◌, inl, inr, refl, sym, ap, ◌∙◌, Bool, true, false, none, some, List, [],
  ◌∷◌, ◌++◌, append_assoc, append-nil, ltb, leb, if◌then◌else◌, u64_mod, arith, Bool-cases, All,
}
use mathlib.Core.Path.{subst}
use awesome_go_agents.Session.Event.{Event}
use awesome_go_agents.Agent.Hub.{EventFilter, EventSubscription, publish_to}
use awesome_go_agents.Agent.Hub.Cursor.{
  Subscription, Received, event, waits, subscriber_lagged, canceled, context_error, next_after,
  empty_channel, next_live, next, acknowledge,
}
use awesome_go_agents.Agent.Hub.Stream.{
  fresh, top, fresh_old, fresh_new, top_old, top_new, fresh-append, top-append,
}
use awesome_go_agents.Agent.Hub.Tracks.{Tracks}
use awesome_go_agents.Agent.Hub.Publishing.{publish_to-Tracks}

-- The steps of a reader and its publishers.
pub data Step : Type 0 where
  publishes : ℕ → Step
  reads : Bool → Step
  acknowledges : ℕ → Step

abbrev returned : Received → List Event
returned (event e) = e ∷ []
returned _ = []

-- The subscription, and the events that `Next` returned so far.
unfoldable pub run : (ℕ → Event) → List Step → Subscription × List Event → Subscription × List Event
unfolding publish_to next acknowledge
run log [] c = c
run log (publishes k ∷ steps) (s, out) =
    run log steps (record s { sub = publish_to (log k) s.sub }, out)
run log (reads gives_up ∷ steps) (s, out) =
    let (r, s') = next gives_up s in run log steps (s', out ++ returned r)
run log (acknowledges seq ∷ steps) (s, out) = run log steps (acknowledge seq s, out)

abbrev pub published : List Step → List ℕ
published [] = []
published (publishes k ∷ steps) = k ∷ published steps
published (_ ∷ steps) = published steps

-- With the numbers that were published before, the latest first.
abbrev pub published_before : List Step → List ℕ → List ℕ
published_before [] seen = seen
published_before (publishes k ∷ steps) seen = published_before steps (k ∷ seen)
published_before (_ ∷ steps) seen = published_before steps seen

-- What comes out of the first pass over waiting events.
next_after_lem :
    (d : ℕ) (xs : List Event)
    → ((next_after d xs ≡ none) × (fresh d xs ≡ []) × (top d xs ≡ d))
      ⊎ ((e : Event) × (rest : List Event) × (next_after d xs ≡ some (e, rest))
          × (fresh d xs ≡ e ∷ fresh e.seq rest)
          × (top d xs ≡ top e.seq rest))
unfolding next_after
next_after_lem d [] = inl (refl, unfold fresh in refl, unfold top in refl)
next_after_lem d (e ∷ es) = elim (Bool-cases (leb e.seq d)) [
  | inl old ↦
      let below : e.seq ≤ d = ground arith in
      rw (old, fresh_old d e es below, top_old d e es below) (next_after_lem d es)
  | inr new ↦
      let above : d < e.seq = ground arith in
      inr (e, es, rw new refl, fresh_new d e es above, top_new d e es above)
]

next_backlog :
    (g : Bool) (s : Subscription) (e : Event) (rest : List Event)
    → next_after s.delivered_seq s.backlog ≡ some (e, rest)
    → next g s ≡ (event e, record s { backlog = rest; delivered_seq = e.seq })
unfolding next
next_backlog g s e rest h = rw (h, next) refl

next_gives_up :
    (s : Subscription)
    → next_after s.delivered_seq s.backlog ≡ none
    → next true s ≡ (context_error, record s { backlog = [] })
unfolding next
next_gives_up s h = rw (h, next) refl

next_goes_on :
    (s : Subscription)
    → next_after s.delivered_seq s.backlog ≡ none
    → next false s ≡ next_live (record s { backlog = [] })
unfolding next next_live
next_goes_on s h = rw (h, next) refl

next_live-none :
    (s : Subscription)
    → next_after s.delivered_seq s.sub.ch ≡ none
    → next_live s ≡ (empty_channel s.sub, record s { sub = record s.sub { ch = [] } })
unfolding next_live
next_live-none s h = rw (h, next_live) refl

next_live-some :
    (s : Subscription) (e : Event) (rest : List Event)
    → next_after s.delivered_seq s.sub.ch ≡ some (e, rest)
    → next_live s ≡ (event e, record s { sub = record s.sub { ch = rest }; delivered_seq = e.seq })
unfolding next_live
next_live-some s e rest h = rw (h, next_live) refl

no_event_by :
    (on lagged : Bool)
    → returned (if on then waits else if lagged then subscriber_lagged else canceled) ≡ []
no_event_by true lagged = refl
no_event_by false true = refl
no_event_by false false = refl

no_event : (s : EventSubscription) → returned (empty_channel s) ≡ []
unfolding empty_channel
no_event s = no_event_by s.active s.lagged

module _ (log : ℕ → Event) (numbered : (k : ℕ) → (log k).seq ≡ k) (after : ℕ)
    (f : EventFilter) where
  abbrev pub Follows : List ℕ → ℕ → Subscription × List Event → Type 0
  Follows seen n (s, out) = Tracks log numbered after f s.delivered_seq out s.backlog seen n s.sub

  -- The reader takes the first event: the rest is what it took it from.
  taken :
      (d n : ℕ) (out old old' ch ch' : List Event) (seen : List ℕ) (e : Event)
      (s : EventSubscription)
      → fresh d (old ++ s.ch) ≡ e ∷ fresh e.seq (old' ++ ch')
      → top d (old ++ s.ch) ≡ top e.seq (old' ++ ch')
      → Tracks log numbered after f d out old seen n s
      → Tracks log numbered after f e.seq (out ++ (e ∷ [])) old' seen n (record s { ch = ch' })
  taken d n out old old' ch ch' seen e s content last v = record {
    streams = record {
      content =
          append_assoc out (e ∷ []) (fresh e.seq (old' ++ ch'))
          ∙ ap (◌++◌ out) (sym content)
          ∙ v.streams.content;
      bounded = omega (arith, last, v.streams.bounded);
      filtered = v.streams.filtered;
    };
    waits = λ on.
        let (w, due) = v.waits on in
        (record { next = w.next; logged = w.logged; seen = w.seen }, due);
  }

  -- The reader finds nothing new, and drops what it passed over.
  passed :
      (d n : ℕ) (out old old' ch' : List Event) (seen : List ℕ) (s : EventSubscription)
      → fresh d (old ++ s.ch) ≡ fresh d (old' ++ ch')
      → top d (old ++ s.ch) ≡ top d (old' ++ ch')
      → Tracks log numbered after f d out old seen n s
      → Tracks log numbered after f d (out ++ []) old' seen n (record s { ch = ch' })
  passed d n out old old' ch' seen s content last v = record {
    streams = record {
      content =
          ap (λ xs. xs ++ fresh d (old' ++ ch')) (append-nil out)
          ∙ ap (◌++◌ out) (sym content)
          ∙ v.streams.content;
      bounded = omega (arith, last, v.streams.bounded);
      filtered = v.streams.filtered;
    };
    waits = λ on.
        let (w, due) = v.waits on in
        (record { next = w.next; logged = w.logged; seen = w.seen }, due);
  }

  read_backlog :
      (g : Bool) (seen : List ℕ) (n : ℕ) (s : Subscription) (out : List Event) (e : Event)
      (rest : List Event)
      → next_after s.delivered_seq s.backlog ≡ some (e, rest)
      → fresh s.delivered_seq s.backlog ≡ e ∷ fresh e.seq rest
      → top s.delivered_seq s.backlog ≡ top e.seq rest
      → Follows seen n (s, out)
      → Follows seen n ((next g s).1, out ++ returned (next g s).0)
  read_backlog g seen n s out e rest found content last v =
      subst (λ r. Follows seen n (r.1, out ++ returned r.0)) (sym (next_backlog g s e rest found))
        (taken s.delivered_seq n out s.backlog rest s.sub.ch s.sub.ch seen e s.sub
          (fresh-append s.delivered_seq s.backlog s.sub.ch
            ∙ ap (λ xs. xs ++ fresh (top s.delivered_seq s.backlog) s.sub.ch) content
            ∙ ap (λ t. e ∷ (fresh e.seq rest ++ fresh t s.sub.ch)) last
            ∙ ap (◌∷◌ e) (sym (fresh-append e.seq rest s.sub.ch)))
          (top-append s.delivered_seq s.backlog s.sub.ch
            ∙ ap (λ t. top t s.sub.ch) last
            ∙ sym (top-append e.seq rest s.sub.ch))
          v)

  -- Nothing is left of the backlog.
  no_backlog :
      (seen : List ℕ) (n : ℕ) (s : Subscription) (out : List Event)
      → fresh s.delivered_seq s.backlog ≡ []
      → top s.delivered_seq s.backlog ≡ s.delivered_seq
      → Follows seen n (s, out)
      → Follows seen n (record s { backlog = [] }, out ++ [])
  no_backlog seen n s out content last v =
      passed s.delivered_seq n out s.backlog [] s.sub.ch seen s.sub
        (fresh-append s.delivered_seq s.backlog s.sub.ch
          ∙ ap (λ xs. xs ++ fresh (top s.delivered_seq s.backlog) s.sub.ch) content
          ∙ ap (λ t. fresh t s.sub.ch) last)
        (top-append s.delivered_seq s.backlog s.sub.ch ∙ ap (λ t. top t s.sub.ch) last) v

  next_live-Follows :
      (seen : List ℕ) (n : ℕ) (s : Subscription) (out : List Event)
      → let s' = record s { backlog = [] } in
        Follows seen n (s', out)
        → Follows seen n ((next_live s').1, out ++ returned (next_live s').0)
  next_live-Follows seen n s out v =
      let s' : Subscription = record s { backlog = [] } in
      elim (next_after_lem s.delivered_seq s.sub.ch) [
        | inl (nothing, content, last) ↦
            subst (λ r. Follows seen n (r.1, out ++ returned r.0)) (sym (next_live-none s' nothing))
              (subst
                (λ xs.
                  Tracks log numbered after f s.delivered_seq (out ++ xs) [] seen n
                    (record s.sub { ch = [] }))
                (sym (no_event s.sub))
                (passed s.delivered_seq n out [] [] [] seen s.sub (content ∙ unfold fresh in refl)
                  (last ∙ unfold top in refl) v))
        | inr (e, rest, found, content, last) ↦
            subst (λ r. Follows seen n (r.1, out ++ returned r.0))
              (sym (next_live-some s' e rest found))
              (taken s.delivered_seq n out [] [] s.sub.ch rest seen e s.sub content last v)
      ]

  at_channel :
      (g : Bool) (seen : List ℕ) (n : ℕ) (s : Subscription) (out : List Event)
      → next_after s.delivered_seq s.backlog ≡ none
      → Follows seen n (record s { backlog = [] }, out ++ [])
      → Follows seen n ((next g s).1, out ++ returned (next g s).0)
  at_channel true seen n s out nothing v =
      subst (λ r. Follows seen n (r.1, out ++ returned r.0)) (sym (next_gives_up s nothing)) v
  at_channel false seen n s out nothing v =
      subst (λ r. Follows seen n (r.1, out ++ returned r.0)) (sym (next_goes_on s nothing))
        (next_live-Follows seen n s out
          (subst (λ xs. Follows seen n (record s { backlog = [] }, xs)) (append-nil out) v))

  next-Follows :
      (g : Bool) (seen : List ℕ) (n : ℕ) (s : Subscription) (out : List Event)
      → Follows seen n (s, out)
      → Follows seen n ((next g s).1, out ++ returned (next g s).0)
  next-Follows g seen n s out v = elim (next_after_lem s.delivered_seq s.backlog) [
    | inr (e, rest, found, content, last) ↦ read_backlog g seen n s out e rest found content last v
    | inl (nothing, content, last) ↦
        at_channel g seen n s out nothing (no_backlog seen n s out content last v)
  ]

  acknowledge-Follows :
      (seq : ℕ) (seen : List ℕ) (n : ℕ) (s : Subscription) (out : List Event)
      → Follows seen n (s, out)
      → Follows seen n (acknowledge seq s, out)
  unfolding acknowledge
  acknowledge-Follows seq seen n s out v =
      let seen_seq = if ltb s.delivered_seq seq then s.delivered_seq else seq in
      elim (Bool-cases (ltb s.last_seq seen_seq)) [ inl e ↦ rw e v | inr e ↦ rw e v ]

  pub run-Follows :
      (steps : List Step) (seen : List ℕ) (n : ℕ) (s : Subscription) (out : List Event)
      → All (λ k. k + 1 < u64_mod) (published steps)
      → Follows seen n (s, out)
      → (m : ℕ) × Follows (published_before steps seen) m (run log steps (s, out))
  unfolding run
  run-Follows [] seen n s out h v = (n, v)
  run-Follows (publishes k ∷ steps) seen n s out h v =
      let (m, tracks) =
        publish_to-Tracks log numbered after f s.delivered_seq out s.backlog seen n k s.sub h.0 v in
      run-Follows steps (k ∷ seen) m (record s { sub = publish_to (log k) s.sub }) out h.1 tracks
  run-Follows (reads g ∷ steps) seen n s out h v =
      run-Follows steps seen n (next g s).1 (out ++ returned (next g s).0) h
        (next-Follows g seen n s out v)
  run-Follows (acknowledges seq ∷ steps) seen n s out h v =
      run-Follows steps seen n (acknowledge seq s) out h (acknowledge-Follows seq seen n s out v)

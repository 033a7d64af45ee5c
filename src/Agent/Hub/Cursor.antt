-- ===== src/Agent/Hub/Cursor.antt =====
-- Reading a subscription from a cursor (agent/events.go: Subscription, SubscribeCursor).
--
-- The backlog is what of it is still to be read, in place of an index into it.
use awesome_go_agents.Base.{
  ℕ, ◌+◌, Bool, false, Option, none, some, List, [], ◌∷◌, ltb, leb, if◌then◌else◌, select, u64,
}
use awesome_go_agents.Session.Errors.{Result, ok, ◌>>◌}
use awesome_go_agents.Session.Event.{Event}
use awesome_go_agents.Session.Event.Validate.{validate}
use awesome_go_agents.Agent.Hub.{EventFilter, keeps, EventSubscription, terminate, flush}

pub record Subscription : Type 0 where
  pub sub : EventSubscription
  pub backlog : List Event
  pub last_seq : ℕ
  pub delivered_seq : ℕ

unfoldable pub new_subscription : ℕ → EventSubscription → Subscription
new_subscription after sub = record {
  sub = sub;
  backlog = [];
  last_seq = after;
  delivered_seq = after;
}

-- The replay: every event is validated, those up to the cursor are passed over.
unfoldable pub check_replayed : List Event → Result (Unit {0})
check_replayed [] = ok tt
check_replayed (e ∷ es) = do validate e; check_replayed es

unfoldable pub max_replay : ℕ → List Event → ℕ
max_replay top [] = top
max_replay top (e ∷ es) = max_replay (if ltb top e.seq then e.seq else top) es

unfoldable pub filter_replay : ℕ → EventFilter → List Event → List Event
filter_replay after filter es = select (λ e. keeps filter e) (select (λ e. ltb after e.seq) es)

-- `sort.SliceStable` by the sequence number.
unfoldable pub insert_event : Event → List Event → List Event
insert_event e [] = e ∷ []
insert_event e (next ∷ rest) =
    let later = insert_event e rest in if leb e.seq next.seq then e ∷ next ∷ rest else next ∷ later

unfoldable pub sort_events : List Event → List Event
unfolding insert_event
sort_events [] = []
sort_events (e ∷ es) = insert_event e (sort_events es)

-- The live side after the replay: events that the replay covers are not pending any more.
unfoldable pub resume_live : ℕ → EventSubscription → EventSubscription
unfolding flush
resume_live top s =
    let next = if ltb s.next_seq (u64 (top + 1)) then u64 (top + 1) else s.next_seq in
    if s.active
    then flush (record s { next_seq = next; pending = select (λ e. leb next e.seq) s.pending })
    else s

-- `SubscribeCursor`, from the replay on. An error closes the subscription.
unfoldable pub catch_up : ℕ → List Event → Subscription → Result Subscription
unfolding check_replayed max_replay filter_replay sort_events resume_live
catch_up after replay s = do
  check_replayed replay
  ok (record s {
    sub = resume_live (max_replay after replay) s.sub;
    backlog = sort_events (filter_replay after s.sub.filter replay);
  })

pub data Received : Type 0 where
  event : Event → Received
  subscriber_lagged canceled context_error waits : Received

-- The loops of `Next`: events up to the cursor are passed over.
unfoldable pub next_after : ℕ → List Event → Option (Event × List Event)
next_after delivered [] = none
next_after delivered (e ∷ es) =
    let later = next_after delivered es in if leb e.seq delivered then later else some (e, es)

-- What `Next` returns where the buffer has nothing for the caller.
unfoldable pub empty_channel : EventSubscription → Received
empty_channel s = if s.active then waits else if s.lagged then subscriber_lagged else canceled

unfoldable pub next_live : Subscription → Received × Subscription
unfolding next_after empty_channel
next_live s = elim (next_after s.delivered_seq s.sub.ch) [
  | none ↦ (empty_channel s.sub, record s { sub = record s.sub { ch = [] } })
  | some (e, rest) ↦ (event e, record s { sub = record s.sub { ch = rest }; delivered_seq = e.seq })
]

-- `Next`; `gives_up` says that the context is done when the caller comes to the channel, and that the
-- select takes it. `waits` stands for a call that blocks.
unfoldable pub next : Bool → Subscription → Received × Subscription
unfolding next_after next_live
next gives_up s = elim (next_after s.delivered_seq s.backlog) [
  | some (e, rest) ↦ (event e, record s { backlog = rest; delivered_seq = e.seq })
  | none ↦
      let s' = record s { backlog = [] } in if gives_up then (context_error, s') else next_live s'
]

-- `Acknowledge`, `Cursor`, `Close`.
unfoldable pub acknowledge : ℕ → Subscription → Subscription
acknowledge seq s =
    let seen = if ltb s.delivered_seq seq then s.delivered_seq else seq in
    if ltb s.last_seq seen then record s { last_seq = seen } else s

abbrev pub cursor : Subscription → ℕ
cursor s = s.last_seq

unfoldable pub close : Subscription → Subscription
unfolding terminate
close s = record s { sub = terminate false s.sub }

-- ===== src/Agent/Hub.antt =====
-- The live fan-out of committed events (agent/events.go: EventHub and eventSubscription).
--
-- The flag `active` of a subscription says whether it is in `h.subs`. A channel is the list of what it
-- buffers, and its capacity is the hub's limit. The map `pending` is a list with one event for a
-- number. The subscriptions of a hub do not look at each other, so the order in which a map is gone
-- through does not count.
use awesome_go_agents.Base.{
  ℕ, zero, suc, ◌+◌, Bool, true, false, not, Option, none, some, List, [], ◌∷◌, ◌++◌, map, ℤ, pos,
  negsuc, ltb, ◌==◌, if◌then◌else◌, length, u64,
}
use awesome_go_agents.Session.Event.{Event}
pub mod Cursor
pub mod Notices
pub mod Pending
pub mod Stream
pub mod Tracks
pub mod Cases
pub mod Flushing
pub mod Publishing
pub mod Delivery
pub mod Handoff
pub mod Contract

abbrev pub EventFilter : Type 0
EventFilter = Option (Event → Bool)

-- `filter == nil || filter(event)`
abbrev pub keeps : EventFilter → Event → Bool
keeps none e = true
keeps (some f) e = f e

pub record EventSubscription : Type 0 where
  pub filter : EventFilter
  pub limit : ℕ
  pub ch : List Event
  pub active : Bool
  pub lagged : Bool
  pub next_seq : ℕ
  pub pending : List Event

-- `NewEventHub`: a buffer that is not positive is one of 64.
unfoldable pub effective_limit : ℤ → ℕ
effective_limit (pos zero) = 64
effective_limit (pos (suc n)) = suc n
effective_limit (negsuc n) = 64

-- `subscribe`, the subscription of the hub.
unfoldable pub subscribe : ℕ → ℕ → EventFilter → EventSubscription
subscribe limit after filter = record {
  filter = filter;
  limit = limit;
  ch = [];
  active = true;
  lagged = false;
  next_seq = u64 (after + 1);
  pending = [];
}

unfoldable pub terminate : Bool → EventSubscription → EventSubscription
terminate lagged s = if s.active then record s { active = false; lagged = lagged } else s

-- `enqueueLocked`: none where the buffer is full.
unfoldable pub enqueue : Event → EventSubscription → Option EventSubscription
enqueue e s = if ltb (length s.ch) s.limit then some (record s { ch = s.ch ++ (e ∷ []) }) else none

-- `sub.pending[seq]`, `delete(sub.pending, seq)`, and the assignment.
unfoldable pub find_pending : ℕ → List Event → Option Event
find_pending seq [] = none
find_pending seq (e ∷ es) = if e.seq == seq then some e else find_pending seq es

unfoldable pub drop_pending : ℕ → List Event → List Event
drop_pending seq [] = []
drop_pending seq (e ∷ es) =
    let rest = drop_pending seq es in if e.seq == seq then rest else e ∷ rest

unfoldable pub put_pending : Event → List Event → List Event
unfolding drop_pending
put_pending e es = e ∷ drop_pending e.seq es

-- `sub.nextSeq++`
unfoldable pub step_seq : EventSubscription → EventSubscription
step_seq s = record s { next_seq = u64 (s.next_seq + 1) }

-- An event in its turn: passed over by the filter, or buffered; none where the buffer is full.
unfoldable pub deliver : Event → EventSubscription → Option EventSubscription
unfolding enqueue step_seq
deliver e s =
    if keeps s.filter e
    then elim (enqueue e s) [ none ↦ none | some s' ↦ some (step_seq s') ]
    else some (step_seq s)

abbrev pub forget : ℕ → EventSubscription → EventSubscription
forget seq s = record s { pending = drop_pending seq s.pending }

-- `flushPendingLocked`, on fuel: every turn takes an event out of `pending`.
unfoldable pub flush_pending : ℕ → EventSubscription → EventSubscription
unfolding find_pending drop_pending deliver terminate
flush_pending zero s = s
flush_pending (suc fuel) s = elim (find_pending s.next_seq s.pending) [
  | none ↦ s
  | some e ↦ elim (deliver e s) [
    | none ↦ terminate true s
    | some s' ↦ flush_pending fuel (forget s.next_seq s')
  ]
]

unfoldable pub flush : EventSubscription → EventSubscription
unfolding flush_pending
flush s = flush_pending (length s.pending) s

-- An event that is not numbered.
unfoldable pub publish_unnumbered : Event → EventSubscription → EventSubscription
unfolding enqueue terminate
publish_unnumbered e s =
    if keeps s.filter e then elim (enqueue e s) [ none ↦ terminate true s | some s' ↦ s' ] else s

-- An event that comes before its turn.
unfoldable pub publish_early : Event → EventSubscription → EventSubscription
unfolding put_pending terminate
publish_early e s =
    let s' = record s { pending = put_pending e s.pending } in
    if ltb s.limit (length (put_pending e s.pending)) then terminate true s' else s'

unfoldable pub publish_due : Event → EventSubscription → EventSubscription
unfolding deliver terminate flush
publish_due e s = elim (deliver e s) [ none ↦ terminate true s | some s' ↦ flush s' ]

-- `Publish`, for one subscription.
unfoldable pub publish_to : Event → EventSubscription → EventSubscription
unfolding publish_unnumbered publish_early publish_due
publish_to e s =
    if not s.active
    then s
    else if e.seq == 0
    then publish_unnumbered e s
    else if ltb e.seq s.next_seq
    then s
    else if ltb s.next_seq e.seq
    then publish_early e s
    else publish_due e s

pub record EventHub : Type 0 where
  pub next_id : ℕ
  pub limit : ℕ
  pub subs : List (ℕ × EventSubscription)

unfoldable pub new_event_hub : ℤ → EventHub
unfolding effective_limit
new_event_hub buffer = record { next_id = 0; limit = effective_limit buffer; subs = [] }

unfoldable pub add_subscription : ℕ → EventFilter → EventHub → EventHub × ℕ
unfolding subscribe
add_subscription after filter h =
    let id = u64 (h.next_id + 1) in
    (record h { next_id = id; subs = (id, subscribe h.limit after filter) ∷ h.subs }, id)

unfoldable pub publish : Event → EventHub → EventHub
unfolding publish_to
publish e h = record h {
  subs = map (λ (p : ℕ × EventSubscription). (p.0, publish_to e p.1)) h.subs;
}

-- ===== src/Agent/Hub/Cases.antt =====
-- The branches of a delivery (agent/events.go: enqueueLocked, terminateLocked, flushPendingLocked).
use awesome_go_agents.Base.{
  ℕ, suc, ◌≤◌, ◌≡◌, ◌⊎◌, inl, inr, refl, Bool, true, false, Option, none, some, List, [], ◌∷◌, ◌++◌,
  ltb, if◌then◌else◌, length, arith, Bool-cases,
}
use awesome_go_agents.Session.Event.{Event}
use awesome_go_agents.Agent.Hub.{
  keeps, EventSubscription, terminate, enqueue, find_pending, step_seq, deliver, forget,
  flush_pending,
}

-- A subscription with an event more in its buffer.
abbrev pub pushed : Event → EventSubscription → EventSubscription
pushed e s = record s { ch = s.ch ++ (e ∷ []) }

pub enqueue_cases :
    (e : Event) (s : EventSubscription) → (enqueue e s ≡ none) ⊎ (enqueue e s ≡ some (pushed e s))
unfolding enqueue
enqueue_cases e s = elim (Bool-cases (ltb (length s.ch) s.limit)) [
  | inl room ↦ inr (rw room refl)
  | inr full ↦ inl (rw full refl)
]

pub deliver_cases :
    (e : Event) (s : EventSubscription)
    → (deliver e s ≡ none)
      ⊎ (((keeps s.filter e ≡ true) × (deliver e s ≡ some (step_seq (pushed e s))))
          ⊎ ((keeps s.filter e ≡ false) × (deliver e s ≡ some (step_seq s))))
unfolding deliver
deliver_cases e s = elim (Bool-cases (keeps s.filter e)) [
  | inr left_out ↦ inr (inr (left_out, rw left_out refl))
  | inl kept ↦ elim (enqueue_cases e s) [
    | inl full ↦ inl (rw (kept, full) refl)
    | inr room ↦ inr (inl (kept, rw (kept, room) refl))
  ]
]

-- A subscription that is terminated is not connected, and its buffer can still be read.
pub ended :
    (on b : Bool) (s : EventSubscription)
    → s.active ≡ on
    → let t = if on then record s { active = false; lagged = b } else s in
      (t.active ≡ false) × (t.ch ≡ s.ch) × (t.filter ≡ s.filter)
ended true b s h = (refl, refl, refl)
ended false b s h = (h, refl, refl)

pub terminate_lem :
    (b : Bool) (s : EventSubscription)
    → ((terminate b s).active ≡ false)
      × ((terminate b s).ch ≡ s.ch)
      × ((terminate b s).filter ≡ s.filter)
unfolding terminate
terminate_lem b s = ended s.active b s refl

pub none_pending : (k : ℕ) (es : List Event) → length es ≤ 0 → find_pending k es ≡ none
unfolding find_pending
none_pending k [] h = refl
none_pending k (e ∷ es) h = absurd (omega arith)

option_cases : (o : Option Event) → (o ≡ none) ⊎ ((e : Event) × (o ≡ some e))
option_cases none = inl refl
option_cases (some e) = inr (e, refl)

pub find_cases :
    (k : ℕ) (es : List Event)
    → (find_pending k es ≡ none) ⊎ ((e : Event) × (find_pending k es ≡ some e))
find_cases k es = option_cases (find_pending k es)

pub flush_idle :
    (fuel : ℕ) (s : EventSubscription)
    → find_pending s.next_seq s.pending ≡ none
    → flush_pending (suc fuel) s ≡ s
unfolding flush_pending
flush_idle fuel s h = rw (h, flush_pending) refl

pub flush_full :
    (fuel : ℕ) (s : EventSubscription) (e : Event)
    → find_pending s.next_seq s.pending ≡ some e
    → deliver e s ≡ none
    → flush_pending (suc fuel) s ≡ terminate true s
unfolding flush_pending terminate
flush_full fuel s e h k = rw (h, k, flush_pending) refl

pub flush_on :
    (fuel : ℕ) (s s' : EventSubscription) (e : Event)
    → find_pending s.next_seq s.pending ≡ some e
    → deliver e s ≡ some s'
    → flush_pending (suc fuel) s ≡ flush_pending fuel (forget s.next_seq s')
unfolding flush_pending
flush_on fuel s s' e h k = rw (h, k, flush_pending) refl

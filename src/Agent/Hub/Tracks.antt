-- ===== src/Agent/Hub/Tracks.antt =====
-- What publishing keeps of a subscription (agent/events.go: Publish, flushPendingLocked).
use awesome_go_agents.Base.{
  ℕ, suc, ◌+◌, ◌≤◌, ◌<◌, ◌≡◌, ◌⊎◌, refl, ap, ◌∙◌, true, false, none, some, List, [], ◌∷◌, ◌++◌,
  append-nil, u64_mod, arith, All,
}
use awesome_go_agents.Session.Event.{Event}
use awesome_go_agents.Agent.Hub.{EventFilter, keeps, EventSubscription, find_pending}
use awesome_go_agents.Agent.Hub.Stream.{fresh, top, wanted, wanted-append, segment}

module _ (log : ℕ → Event) (numbered : (k : ℕ) → (log k).seq ≡ k) (after : ℕ)
    (f : EventFilter) where
  -- An event of the log whose number has a successor.
  pub record Logged (e : Event) : Type 0 where
    pub same : e ≡ log e.seq
    pub room : e.seq + 1 < u64_mod

  -- With `d` the reader's cursor, `old` what comes before the channel and `out` what was returned: the
  -- events returned and those waiting are the wanted ones of the `n` numbers after the start.
  pub record Streams (d : ℕ) (out old : List Event) (n : ℕ) (s : EventSubscription) : Type 0 where
    pub content : out ++ fresh d (old ++ s.ch) ≡ wanted log numbered s.filter after n
    pub bounded : top d (old ++ s.ch) ≤ after + n
    pub filtered : s.filter ≡ f

  -- While it is connected, the subscription waits for the number `after + n + 1`, and an event that
  -- was published is delivered or pending.
  pub record Waits (published : List ℕ) (n : ℕ) (s : EventSubscription) : Type 0 where
    pub next : s.next_seq ≡ after + n + 1
    pub logged : All Logged s.pending
    pub seen : All (λ k. (k ≤ after + n) ⊎ (find_pending k s.pending ≡ some (log k))) published

  -- What is promised of a subscription.
  pub record Tracks (d : ℕ) (out old : List Event) (published : List ℕ) (n : ℕ)
      (s : EventSubscription) : Type 0 where
    pub streams : Streams d out old n s
    pub waits : s.active ≡ true → Waits published n s × (find_pending s.next_seq s.pending ≡ none)

  pub wanted_kept :
      (filter : EventFilter) (n : ℕ)
      → keeps filter (log (after + n + 1)) ≡ true
      → wanted log numbered filter after (n + 1)
        ≡ wanted log numbered filter after n ++ (log (after + n + 1) ∷ [])
  unfolding segment
  wanted_kept filter n h =
      let e : suc (after + n) ≡ after + n + 1 = omega arith in
      wanted-append log numbered filter after n 1
      ∙ ap (◌++◌ (wanted log numbered filter after n)) (rw (e, h) refl)

  pub wanted_left_out :
      (filter : EventFilter) (n : ℕ)
      → keeps filter (log (after + n + 1)) ≡ false
      → wanted log numbered filter after (n + 1) ≡ wanted log numbered filter after n
  unfolding segment
  wanted_left_out filter n h =
      let e : suc (after + n) ≡ after + n + 1 = omega arith in
      wanted-append log numbered filter after n 1
      ∙ ap (◌++◌ (wanted log numbered filter after n)) (rw (e, h) refl)
      ∙ append-nil (wanted log numbered filter after n)

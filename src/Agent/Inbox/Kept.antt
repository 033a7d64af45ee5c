-- ===== src/Agent/Inbox/Kept.antt =====
-- That callers of a handle and the claims of its worker keep every item (agent/agent.go).
use awesome_go_agents.Base.{
  ℕ, ◌+◌, ◌≤◌, ◌≡◌, refl, Bool, true, false, not, ◌||◌, Option, none, some, List, [], ◌∷◌, ◌++◌,
  str_eq, if◌then◌else◌, select, by_test, arith,
}
use awesome_go_agents.Agent.Inbox.Tally.{
  tally, tally-append, tally-parts, is_blank, Takes, held, in_memory,
}
use awesome_go_agents.Agent.Inbox.{
  AgentStatus, idle, running, disposed, InboxItem, Handle, is_disposed, enqueue, start_with, cancel,
}
use awesome_go_agents.Agent.Inbox.System.{System, enqueued, discard, canceled, begun}

abbrev pub accounted : (InboxItem → Bool) → System → ℕ
accounted p s = in_memory p s + tally p s.settled + tally p s.dropped

-- No queued item is out of sight, and none in memory is blank.
pub record Kept (s : System) : Type 0 where
  pub found : (p : InboxItem → Bool) → tally p s.queued ≤ accounted p s
  pub blank : in_memory is_blank s ≡ 0

no_text : (a b c d : Bool) → (a || b || c || d) ≡ false → b ≡ false
no_text true b c d h = absurd (cc)
no_text false true c d h = absurd (cc)
no_text false false c d h = refl

pub enqueued-Kept :
    (item : InboxItem) (context_done recorded : Bool) (s : System)
    → str_eq item.id "" ≡ false
    → Kept s
    → Kept (enqueued item (enqueue item context_done recorded s.handle) s)
unfolding enqueued enqueue
enqueued-Kept item context_done recorded s named v =
    let more : Handle = record s.handle { inbox = s.handle.inbox ++ (item ∷ []) } in
    by_test (λ o. Kept (enqueued item o s))
      (context_done || str_eq item.text "" || is_disposed s.handle.status || not recorded) none
      (some more) (λ _. v)
      (λ e. record {
        found = λ p. omega (arith, tally-append p s.handle.inbox (item ∷ []), v.found p);
        blank =
            let written : is_blank item ≡ false = rw named (
              no_text context_done (str_eq item.text "") (is_disposed s.handle.status)
                (not recorded) e) in
            let alone : tally is_blank (item ∷ []) ≡ 0 = rw written refl in
            omega (arith, tally-append is_blank s.handle.inbox (item ∷ []), v.blank, alone);
      })

pub discard-Kept :
    (recorded : InboxItem → Bool) (h : Handle) (s : System)
    → tally is_blank h.inbox ≡ 0
    → h.inbox ≡ []
    → Kept s
    → Kept (discard recorded (s.handle.inbox, h) s)
unfolding discard
discard-Kept recorded h s none_blank empty v = record {
  found = λ p. omega (
    arith,
    v.found p,
    tally-append p (select recorded s.handle.inbox) s.settled,
    tally-append p (select (λ item. not (recorded item)) s.handle.inbox) s.dropped,
    tally-parts p recorded s.handle.inbox,
  );
  blank = omega (arith, v.blank);
}

pub canceled-Kept :
    (keep_inbox : Bool) (recorded : InboxItem → Bool) (s : System)
    → Kept s
    → Kept (canceled recorded (cancel keep_inbox s.handle) s)
unfolding canceled cancel discard
canceled-Kept keep_inbox recorded s v =
    let emptied : Handle = record s.handle { inbox = [] } in
    by_test (λ o. Kept (canceled recorded o s)) (is_disposed s.handle.status) none
      (if keep_inbox then some ([], s.handle) else some (s.handle.inbox, emptied)) (λ _. v)
      (λ _.
        by_test (λ o. Kept (canceled recorded o s)) keep_inbox (some ([], s.handle))
          (some (s.handle.inbox, emptied)) (λ _. record { found = v.found; blank = v.blank })
          (λ _. discard-Kept recorded emptied s refl refl v))

pub begun-Kept :
    (status : AgentStatus) (o : Option (InboxItem × List InboxItem)) (claimed : Option InboxItem)
    (s : System)
    → s.claimed ≡ claimed
    → ((p : InboxItem → Bool) → Takes p s.handle.inbox o)
    → Kept s
    → Kept (begun claimed (start_with status o) s)
unfolding begun start_with
begun-Kept idle none none s e takes v = v
begun-Kept idle (some (item, rest)) none s e takes v =
    let free : (p : InboxItem → Bool) → tally p (held s.claimed) ≡ 0 = λ p. rw e refl in
    record {
      found = λ p. omega (arith, v.found p, takes p, free p);
      blank = omega (arith, v.blank, takes is_blank, free is_blank);
    }
begun-Kept idle none (some item) s e takes v = v
begun-Kept idle (some found) (some item) s e takes v = v
begun-Kept running none none s e takes v = v
begun-Kept running none (some item) s e takes v = v
begun-Kept running (some found) none s e takes v = v
begun-Kept running (some found) (some item) s e takes v = v
begun-Kept disposed none none s e takes v = v
begun-Kept disposed none (some item) s e takes v = v
begun-Kept disposed (some found) none s e takes v = v
begun-Kept disposed (some found) (some item) s e takes v = v

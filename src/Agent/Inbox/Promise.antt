-- ===== src/Agent/Inbox/Promise.antt =====
-- What a handle promises of the items that it is given (agent/agent.go).
use awesome_go_agents.Base.{
  ◌+◌, ◌≤◌, ◌≡◌, refl, Bool, true, false, not, ◌&&◌, ◌||◌, Option, none, some, List, [], ◌∷◌, ◌++◌,
  map, if◌then◌else◌, select, inl, inr, by_test, str_eq, arith, All,
}
use awesome_go_agents.Agent.Turn.{StepInput}
use awesome_go_agents.Agent.Inbox.{
  AgentStatus, idle, running, disposed, InboxItem, Handle, is_disposed, is_idle, enqueue,
  start_with, begin_run, next_wakeable, unclaim, requeue_after_run, end_run, SubmitError, submit,
  claim_next_step_inputs, is_next_step, input_of, item_of, requeue_step_inputs, cancel,
}
use awesome_go_agents.Agent.Inbox.System.{
  System, Step, enqueues, cancels, disposes, begins, claims, runs, ends, submits, step_claims,
  step_records, step_fails, step_quits, new_system, enqueued, discard, canceled, begun,
  claim_recorded, taken_back, finish_run, submitted, given, apply, run,
}
use awesome_go_agents.Agent.Inbox.Tally.{tally, held}
use awesome_go_agents.Agent.Inbox.Conserved.{Named, run-Kept}

-- Steps that leave an item neither in memory nor recorded: a disposal, a turn that ends before it
-- has recorded its inputs, and a discard whose record is not written.
abbrev pub IsLossless : Step → Type 0
IsLossless (cancels keep_inbox recorded) = (item : InboxItem) → recorded item ≡ true
IsLossless (disposes recorded) = ⊥
IsLossless step_quits = ⊥
IsLossless _ = Unit

record Whole (s : System) : Type 0 where
  on : is_disposed s.handle.status ≡ false
  whole : s.dropped ≡ []

select-none :
    (q : InboxItem → Bool) (xs : List InboxItem)
    → ((x : InboxItem) → q x ≡ true)
    → select (λ x. not (q x)) xs ≡ []
select-none q [] h = refl
select-none q (x ∷ xs) h = rw (h x) (select-none q xs h)

enqueued-Whole :
    (item : InboxItem) (context_done recorded : Bool) (s : System)
    → Whole s
    → Whole (enqueued item (enqueue item context_done recorded s.handle) s)
unfolding enqueued enqueue
enqueued-Whole item context_done recorded s v =
    by_test (λ o. Whole (enqueued item o s))
      (context_done || str_eq item.text "" || is_disposed s.handle.status || not recorded) none
      (some (record s.handle { inbox = s.handle.inbox ++ (item ∷ []) })) (λ _. v)
      (λ _. record { on = v.on; whole = v.whole })

discard-Whole :
    (recorded : InboxItem → Bool) (pending : List InboxItem) (h : Handle) (s : System)
    → ((item : InboxItem) → recorded item ≡ true)
    → is_disposed h.status ≡ false
    → Whole s
    → Whole (discard recorded (pending, h) s)
unfolding discard
discard-Whole recorded pending h s all on v = record {
  on = on;
  whole = rw (select-none recorded pending all) v.whole;
}

canceled-Whole :
    (keep_inbox : Bool) (recorded : InboxItem → Bool) (s : System)
    → ((item : InboxItem) → recorded item ≡ true)
    → Whole s
    → Whole (canceled recorded (cancel keep_inbox s.handle) s)
unfolding canceled cancel
canceled-Whole keep_inbox recorded s all v =
    let emptied : Handle = record s.handle { inbox = [] } in
    by_test (λ o. Whole (canceled recorded o s)) (is_disposed s.handle.status) none
      (if keep_inbox then some ([], s.handle) else some (s.handle.inbox, emptied)) (λ _. v)
      (λ _.
        by_test (λ o. Whole (canceled recorded o s)) keep_inbox (some ([], s.handle))
          (some (s.handle.inbox, emptied)) (λ _. discard-Whole recorded [] s.handle s all v.on v)
          (λ _. discard-Whole recorded s.handle.inbox emptied s all v.on v))

begun-Whole :
    (status : AgentStatus) (o : Option (InboxItem × List InboxItem)) (claimed : Option InboxItem)
    (s : System)
    → Whole s
    → Whole (begun claimed (start_with status o) s)
unfolding begun start_with
begun-Whole idle (some (item, rest)) none s v = record { on = refl; whole = v.whole }
begun-Whole idle none none s v = v
begun-Whole idle none (some item) s v = v
begun-Whole idle (some found) (some item) s v = v
begun-Whole running none none s v = v
begun-Whole running none (some item) s v = v
begun-Whole running (some found) none s v = v
begun-Whole running (some found) (some item) s v = v
begun-Whole disposed none none s v = v
begun-Whole disposed none (some item) s v = v
begun-Whole disposed (some found) none s v = v
begun-Whole disposed (some found) (some item) s v = v

claim_recorded-Whole :
    (recorded : Bool) (claimed : Option InboxItem) (s : System)
    → Whole s
    → Whole (claim_recorded recorded claimed s)
unfolding claim_recorded unclaim
claim_recorded-Whole true none s v = v
claim_recorded-Whole true (some item) s v = v
claim_recorded-Whole false none s v = v
claim_recorded-Whole false (some item) s v = record { on = refl; whole = v.whole }

-- A handle that is not disposed takes back what it gave.
taken_back-none :
    (status : AgentStatus) (items : List InboxItem)
    → is_disposed status ≡ false
    → taken_back status items ≡ []
unfolding taken_back
taken_back-none idle items h = refl
taken_back-none running items h = refl
taken_back-none disposed items h = absurd (cc)

finish_run-Whole :
    (well : Bool) (claimed : Option InboxItem) (s : System)
    → Whole s
    → Whole (finish_run well claimed s)
unfolding finish_run requeue_after_run
finish_run-Whole true none s v = v
finish_run-Whole false none s v = v
finish_run-Whole true (some item) s v = record { on = v.on; whole = v.whole }
finish_run-Whole false (some item) s v = record {
  on =
      by_test (λ (h : Handle). is_disposed h.status ≡ false) (is_disposed s.handle.status) s.handle
        (record s.handle { inbox = item ∷ s.handle.inbox }) (λ _. v.on) (λ _. v.on);
  whole = rw (taken_back-none s.handle.status (item ∷ []) v.on) v.whole;
}

given-Whole :
    (before inputs : List StepInput) (h : Handle) (s : System)
    → is_disposed h.status ≡ false
    → Whole s
    → Whole (given before (inputs, h) s)
unfolding given
given-Whole [] inputs h s on v = record { on = on; whole = v.whole }
given-Whole (i ∷ before) inputs h s on v = v

apply-Whole : (step : Step) (s : System) → IsLossless step → Whole s → Whole (apply step s)
unfolding apply begin_run end_run submit submitted given claim_next_step_inputs requeue_step_inputs
apply-Whole (enqueues item context_done recorded) s lossless v =
    enqueued-Whole item context_done recorded s v
apply-Whole (cancels keep_inbox recorded) s lossless v =
    canceled-Whole keep_inbox recorded s lossless v
apply-Whole (disposes recorded) s lossless v = absurd lossless
apply-Whole begins s lossless v =
    begun-Whole s.handle.status (next_wakeable s.handle.inbox) s.claimed s v
apply-Whole (claims recorded) s lossless v = claim_recorded-Whole recorded s.claimed s v
apply-Whole (runs ended_well recorded) s lossless v =
    finish_run-Whole (ended_well && recorded) s.claimed s v
apply-Whole ends s lossless v = record {
  on =
      by_test (λ (h : Handle). is_disposed h.status ≡ false) (is_disposed s.handle.status) s.handle
        (record s.handle { status = idle }) (λ _. v.on) (λ _. refl);
  whole = v.whole;
}
apply-Whole submits s lossless v =
    let on : Handle = record s.handle { status = running } in
    by_test (λ o. Whole (submitted o s)) (is_disposed s.handle.status)
      (inl SubmitError.agent_disposed)
      (if is_idle s.handle.status then inr on else inl SubmitError.agent_busy) (λ _. v)
      (λ _.
        by_test (λ o. Whole (submitted o s)) (is_idle s.handle.status) (inr on)
          (inl SubmitError.agent_busy) (λ _. record { on = refl; whole = v.whole }) (λ _. v))
apply-Whole step_claims s lossless v =
    by_test (λ x. Whole (given s.inputs x s)) (is_disposed s.handle.status) ([], s.handle)
      (
        map input_of (select is_next_step s.handle.inbox),
        record s.handle { inbox = select (λ item. not (is_next_step item)) s.handle.inbox },
      )
      (λ _. given-Whole s.inputs [] s.handle s v.on v) (λ _. given-Whole s.inputs _ _ s v.on v)
apply-Whole step_records s lossless v = record { on = v.on; whole = v.whole }
apply-Whole (step_fails k) s lossless v = record {
  on =
      by_test (λ (h : Handle). is_disposed h.status ≡ false) (is_disposed s.handle.status) s.handle
        _ (λ _. v.on) (λ _. v.on);
  whole = rw (taken_back-none s.handle.status (map item_of s.inputs) v.on) v.whole;
}
apply-Whole step_quits s lossless v = absurd lossless

run-Whole : (steps : List Step) (s : System) → All IsLossless steps → Whole s → Whole (run steps s)
unfolding run
run-Whole [] s lossless v = v
run-Whole (step ∷ steps) s lossless v =
    run-Whole steps (apply step s) lossless.1 (apply-Whole step s lossless.0 v)

-- No item is lost, counted by any test of items: whatever the worker, the turns and the callers of a
-- handle do, and whatever fails, an item recorded as queued is in the inbox, with the worker or with
-- the turn, or is recorded as completed or discarded. (The handle is not disposed of, no turn ends
-- between taking its inputs and recording them, discards are recorded, and new ids are not empty.)
pub run-conserves :
    (steps : List Step) (p : InboxItem → Bool)
    → All Named steps
    → All IsLossless steps
    → let s = run steps new_system in
      tally p s.queued
      ≤ tally p s.handle.inbox
        + tally p (held s.claimed)
        + tally p (map item_of s.inputs)
        + tally p s.settled
run-conserves steps p named lossless =
    let s = run steps new_system in
    let kept =
      run-Kept steps new_system named (record { found = λ q. omega arith; blank = omega arith }) in
    let still = run-Whole steps new_system lossless (record { on = refl; whole = refl }) in
    let nothing : tally p s.dropped ≡ 0 = rw still.whole refl in
    omega (arith, kept.found p, nothing)

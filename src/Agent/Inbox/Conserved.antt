-- ===== src/Agent/Inbox/Conserved.antt =====
-- What becomes of the items of an inbox (agent/agent.go).
use awesome_go_agents.Base.{
  ◌+◌, ◌≡◌, refl, ap, Bool, true, false, not, ◌&&◌, Option, none, some, List, [], ◌∷◌, map, str_eq,
  if◌then◌else◌, select, take, inl, inr, by_test, arith, All,
}
use awesome_go_agents.Agent.Turn.{StepInput}
use awesome_go_agents.Agent.Inbox.Tally.{
  one, tally, tally-append, tally-parts, tally-inputs, tally-requeued, is_blank,
  next_wakeable-Takes, held,
}
use awesome_go_agents.Agent.Inbox.{
  AgentStatus, idle, running, disposed, InboxItem, Handle, is_disposed, is_idle, next_wakeable,
  begin_run, unclaim, requeue_after_run, end_run, SubmitError, submit, is_next_step, input_of,
  claim_next_step_inputs, item_of, is_skipped, requeue_step_inputs, dispose,
}
use awesome_go_agents.Agent.Inbox.System.{
  System, Step, enqueues, cancels, disposes, begins, claims, runs, ends, submits, step_claims,
  step_records, step_fails, step_quits, claim_recorded, taken_back, finish_run, submitted, given,
  apply, run,
}
use awesome_go_agents.Agent.Inbox.Kept.{
  Kept, enqueued-Kept, discard-Kept, canceled-Kept, begun-Kept,
}

claim_recorded-Kept :
    (recorded : Bool) (claimed : Option InboxItem) (s : System)
    → s.claimed ≡ claimed
    → Kept s
    → Kept (claim_recorded recorded claimed s)
unfolding claim_recorded unclaim
claim_recorded-Kept true none s e v = v
claim_recorded-Kept true (some item) s e v = v
claim_recorded-Kept false none s e v = v
claim_recorded-Kept false (some item) s e v =
    let had : (p : InboxItem → Bool) → tally p (held s.claimed) ≡ one (p item) + 0 =
      λ p. rw e refl in
    record {
      found = λ p. omega (arith, v.found p, had p);
      blank = omega (arith, v.blank, had is_blank);
    }

-- What a handle does not take back is dropped.
requeue_after_run-tally :
    (p : InboxItem → Bool) (status : AgentStatus) (item : InboxItem) (inbox : List InboxItem)
    → let h : Handle = record { status = status; inbox = inbox } in
      tally p (requeue_after_run item h).inbox + tally p (taken_back status (item ∷ []))
      ≡ one (p item) + tally p inbox
unfolding requeue_after_run taken_back
requeue_after_run-tally p idle item inbox = omega arith
requeue_after_run-tally p running item inbox = omega arith
requeue_after_run-tally p disposed item inbox = omega arith

finish_run-Kept :
    (well : Bool) (claimed : Option InboxItem) (s : System)
    → s.claimed ≡ claimed
    → Kept s
    → Kept (finish_run well claimed s)
unfolding finish_run
finish_run-Kept true none s e v = v
finish_run-Kept false none s e v = v
finish_run-Kept true (some item) s e v =
    let had : (p : InboxItem → Bool) → tally p (held s.claimed) ≡ one (p item) + 0 =
      λ p. rw e refl in
    record {
      found = λ p. omega (arith, v.found p, had p);
      blank = omega (arith, v.blank, had is_blank);
    }
finish_run-Kept false (some item) s e v =
    let had : (p : InboxItem → Bool) → tally p (held s.claimed) ≡ one (p item) + 0 =
      λ p. rw e refl in
    let back =
      λ (p : InboxItem → Bool). requeue_after_run-tally p s.handle.status item s.handle.inbox in
    record {
      found = λ p. omega (
        arith,
        v.found p,
        had p,
        back p,
        tally-append p (taken_back s.handle.status (item ∷ [])) s.dropped,
      );
      blank = omega (arith, v.blank, had is_blank, back is_blank);
    }

end_run-inbox :
    (status : AgentStatus) (inbox : List InboxItem)
    → (end_run (record { status = status; inbox = inbox })).inbox ≡ inbox
unfolding end_run
end_run-inbox idle inbox = refl
end_run-inbox running inbox = refl
end_run-inbox disposed inbox = refl

end_run-Kept : (s : System) → Kept s → Kept (record s { handle = end_run s.handle })
end_run-Kept s v =
    let same : (p : InboxItem → Bool) → tally p (end_run s.handle).inbox ≡ tally p s.handle.inbox =
      λ p. ap (tally p) (end_run-inbox s.handle.status s.handle.inbox) in
    record {
      found = λ p. omega (arith, v.found p, same p);
      blank = omega (arith, v.blank, same is_blank);
    }

submitted-Kept : (s : System) → Kept s → Kept (submitted (submit s.handle) s)
unfolding submitted submit
submitted-Kept s v =
    let on : Handle = record s.handle { status = running } in
    by_test (λ o. Kept (submitted o s)) (is_disposed s.handle.status)
      (inl SubmitError.agent_disposed)
      (if is_idle s.handle.status then inr on else inl SubmitError.agent_busy) (λ _. v)
      (λ _.
        by_test (λ o. Kept (submitted o s)) (is_idle s.handle.status) (inr on)
          (inl SubmitError.agent_busy) (λ _. record { found = v.found; blank = v.blank }) (λ _. v))

given-Kept :
    (inputs : List StepInput) (s : System)
    → s.inputs ≡ inputs
    → Kept s
    → Kept (given inputs (claim_next_step_inputs s.handle) s)
unfolding given claim_next_step_inputs
given-Kept (i ∷ inputs) s e v = v
given-Kept [] s e v =
    let claims_all : List StepInput × Handle = (
      map input_of (select is_next_step s.handle.inbox),
      record s.handle { inbox = select (λ item. not (is_next_step item)) s.handle.inbox },
    ) in
    let done : (p : InboxItem → Bool) → tally p (map item_of s.inputs) ≡ 0 = λ p. rw e refl in
    by_test (λ x. Kept (given [] x s)) (is_disposed s.handle.status) ([], s.handle) claims_all
      (λ _. record {
        found = λ p. omega (arith, v.found p, done p);
        blank = omega (arith, v.blank);
      })
      (λ _. record {
        found = λ p. omega (
          arith,
          v.found p,
          done p,
          tally-parts p is_next_step s.handle.inbox,
          tally-inputs p s.handle.inbox,
        );
        blank = omega (
          arith,
          v.blank,
          tally-parts is_blank is_next_step s.handle.inbox,
          tally-inputs is_blank s.handle.inbox,
        );
      })

requeue_step_inputs-tally :
    (p : InboxItem → Bool) (status : AgentStatus) (inputs : List StepInput) (inbox : List InboxItem)
    → tally is_blank (map item_of inputs) ≡ 0
    → let h : Handle = record { status = status; inbox = inbox } in
      tally p (requeue_step_inputs inputs h).inbox
        + tally p (taken_back status (map item_of inputs))
      ≡ tally p (map item_of inputs) + tally p inbox
unfolding requeue_step_inputs taken_back
requeue_step_inputs-tally p idle inputs inbox h = omega (
  arith,
  tally-append p (map item_of (select (λ input. not (is_skipped input)) inputs)) inbox,
  tally-requeued p inputs h,
)
requeue_step_inputs-tally p running inputs inbox h = omega (
  arith,
  tally-append p (map item_of (select (λ input. not (is_skipped input)) inputs)) inbox,
  tally-requeued p inputs h,
)
requeue_step_inputs-tally p disposed inputs inbox h = omega arith

-- The ids that `newInboxID` makes.
abbrev pub Named : Step → Type 0
Named (enqueues item context_done recorded) = str_eq item.id "" ≡ false
Named _ = Unit

apply-Kept : (step : Step) (s : System) → Named step → Kept s → Kept (apply step s)
unfolding apply begin_run dispose
apply-Kept (enqueues item context_done recorded) s named v =
    enqueued-Kept item context_done recorded s named v
apply-Kept (cancels keep_inbox recorded) s named v = canceled-Kept keep_inbox recorded s v
apply-Kept (disposes recorded) s named v = discard-Kept recorded _ s refl refl v
apply-Kept begins s named v =
    begun-Kept s.handle.status (next_wakeable s.handle.inbox) s.claimed s refl
      (λ p. next_wakeable-Takes p s.handle.inbox) v
apply-Kept (claims recorded) s named v = claim_recorded-Kept recorded s.claimed s refl v
apply-Kept (runs ended_well recorded) s named v =
    finish_run-Kept (ended_well && recorded) s.claimed s refl v
apply-Kept ends s named v = end_run-Kept s v
apply-Kept submits s named v = submitted-Kept s v
apply-Kept step_claims s named v = given-Kept s.inputs s refl v
apply-Kept step_records s named v = record {
  found = λ p. omega (arith, v.found p, tally-append p (map item_of s.inputs) s.settled);
  blank = omega (arith, v.blank);
}
apply-Kept (step_fails k) s named v =
    let clean : tally is_blank (map item_of s.inputs) ≡ 0 = omega (arith, v.blank) in
    let back = λ (p : InboxItem → Bool).
      requeue_step_inputs-tally p s.handle.status s.inputs s.handle.inbox clean in
    record {
      found = λ p. omega (
        arith,
        v.found p,
        back p,
        tally-append p (map item_of (take k s.inputs)) s.settled,
        tally-append p (taken_back s.handle.status (map item_of s.inputs)) s.dropped,
      );
      blank = omega (arith, v.blank, back is_blank);
    }
apply-Kept step_quits s named v = record {
  found = λ p. omega (arith, v.found p, tally-append p (map item_of s.inputs) s.dropped);
  blank = omega (arith, v.blank);
}

pub run-Kept : (steps : List Step) (s : System) → All Named steps → Kept s → Kept (run steps s)
unfolding run
run-Kept [] s named v = v
run-Kept (step ∷ steps) s named v =
    run-Kept steps (apply step s) named.1 (apply-Kept step s named.0 v)

-- ===== src/Agent/Approval/Agreement.antt =====
-- The answers to an approval agree (agent/agent.go: approvalBroker).
use awesome_go_agents.Base.{
  ◌≡◌, refl, sym, ap, ◌∙◌, Bool, true, false, not, ◌&&◌, Option, none, some, List, [], ◌∷◌, ◌++◌,
  String, str_eq, update, update_self, if◌then◌else◌, by_test, Bool-cases, str_eq-cases, inl, inr,
  All,
}
use awesome_go_agents.Agent.Approval.{
  Written, refused, stored, stored_unseen, request_written, Records, Reply, answered, settled,
  waits, already_pending, not_recorded, already_resolved, none_pending, is_asked, is_resolved,
  record_asked, record_resolved, request_approval, stop_waiting, same_answer, judge, follow,
  request_undecided, conclude, decide, restore_decisions, restore,
}
use awesome_go_agents.Agent.Approval.System.{
  IsHonest, Step, asks, decides, stops, restarts, Approvals, no_approvals, replied, apply, run,
  answer_in,
}

-- The broker knows the answers of the log, and those who were told got them.
record Agrees (s : Approvals) : Type 0 where
  known : (call : String) → s.broker.decisions call ≡ answer_in s.records.resolved call
  told : All (λ (p : String × Bool). s.broker.decisions p.0 ≡ some p.1) s.told

restore_decisions-append :
    (m : String → Option Bool) (rs : List (String × Bool)) (call : String) (a : Bool)
    → restore_decisions m (rs ++ ((call, a) ∷ [])) ≡ update (restore_decisions m rs) call (some a)
unfolding restore_decisions
restore_decisions-append m [] call a = refl
restore_decisions-append m ((c, x) ∷ rs) call a =
    restore_decisions-append (update m c (some x)) rs call a

updated :
    (m : String → Option Bool) (c : String) (x : Bool) (call : String)
    → str_eq c call ≡ true
    → update m c (some x) call ≡ some x
updated m c x call e = rw e refl

kept :
    (m : String → Option Bool) (c : String) (x : Bool) (call : String)
    → str_eq c call ≡ false
    → update m c (some x) call ≡ m call
kept m c x call e = rw e refl

-- A call without an answer has no record.
unresolved :
    (m : String → Option Bool) (rs : List (String × Bool)) (call : String)
    → restore_decisions m rs call ≡ none
    → (m call ≡ none) × (is_resolved call rs ≡ false)
unfolding restore_decisions is_resolved
unresolved m [] call h = (h, refl)
unresolved m ((c, x) ∷ rs) call h =
    let (e, rest) = unresolved (update m c (some x)) rs call h in
    elim (Bool-cases (str_eq c call)) [
      | inl same ↦ absurd (cc (updated m c x call same))
      | inr other ↦ (sym (kept m c x call other) ∙ e, rw other rest)
    ]

abbrev Told : (String → Option Bool) → List (String × Bool) → Type 0
Told m = All (λ (p : String × Bool). m p.0 ≡ some p.1)

-- What was told stays so where a call gets its answer.
update-Told :
    (m : String → Option Bool) (call : String) (a : Bool) (told : List (String × Bool))
    → m call ≡ none
    → Told m told
    → Told (update m call (some a)) told
update-Told m call a [] h v = tt
update-Told m call a ((c, x) ∷ told) h (e, rest) =
    let one : update m call (some a) c ≡ some x = elim (str_eq-cases call c) [
      | inl (same, eq) ↦ absurd (cc (ap m eq))
      | inr (other, ne) ↦ kept m call a c other ∙ e
    ] in
    (one, update-Told m call a told h rest)

same-Told :
    (m n : String → Option Bool) (told : List (String × Bool))
    → ((call : String) → m call ≡ n call)
    → Told m told
    → Told n told
same-Told m n [] h v = tt
same-Told m n ((c, x) ∷ told) h (e, rest) = (sym (h c) ∙ e, same-Told m n told h rest)

update-same :
    (m n : String → Option Bool) (call : String) (a : Bool)
    → ((c : String) → m c ≡ n c)
    → (c : String) → update m call (some a) c ≡ update n call (some a) c
update-same m n call a h c = elim (Bool-cases (str_eq call c)) [
  | inl e ↦ rw e refl
  | inr e ↦ rw e (h c)
]

abbrev Judged : Option Bool → Option Reply → Type 0
Judged d none = d ≡ none
Judged d (some (answered x)) = d ≡ some x
Judged d _ = Unit

judge-Judged :
    (a channel requested : Bool) (d : Option Bool) → Judged d (judge a channel requested d)
unfolding judge
judge-Judged a channel requested (some before) =
    by_test (Judged (some before)) (not (same_answer before a)) (some already_resolved)
      (if not channel && requested then some (answered before) else some settled) (λ _. tt)
      (λ _.
        by_test (Judged (some before)) (not channel && requested) (some (answered before))
          (some settled) (λ _. refl) (λ _. tt))
judge-Judged a channel requested none =
    by_test (Judged none) (not channel && not requested) (some none_pending) none (λ _. tt)
      (λ _. refl)

-- An answer goes into the log and into the broker alike.
concluded-Agrees :
    (call : String) (a : Bool) (s : Approvals)
    → s.broker.decisions call ≡ none
    → Agrees s
    → Agrees (
        replied call
          (answered a, conclude call a s.broker, record_resolved call a s.records)
          s.told)
unfolding record_resolved
concluded-Agrees call a s h v =
    let absent = (unresolved (λ c. none) s.records.resolved call (sym (v.known call) ∙ h)).1 in
    record {
      known = λ c. rw absent (
          update-same s.broker.decisions (answer_in s.records.resolved) call a v.known c
          ∙ sym (ap (λ m. m c) (restore_decisions-append (λ c'. none) s.records.resolved call a)));
      told = (
        update_self s.broker.decisions call (some a),
        update-Told s.broker.decisions call a s.told h v.told,
      );
    }

abbrev IsSeen : Written → Type 0
IsSeen stored_unseen = ⊥
IsSeen _ = Unit

follow-Agrees :
    (o : Option Reply) (call : String) (a : Bool) (written : Written) (s : Approvals)
    → IsSeen written
    → Judged (s.broker.decisions call) o
    → Agrees s
    → Agrees (replied call (follow o call a written s.broker s.records) s.told)
unfolding follow
follow-Agrees none call a stored s seen h v = concluded-Agrees call a s h v
follow-Agrees none call a refused s seen h v = record { known = v.known; told = v.told }
follow-Agrees none call a stored_unseen s seen h v = absurd seen
follow-Agrees (some (answered x)) call a written s seen h v = record {
  known = v.known;
  told = (h, v.told);
}
follow-Agrees (some settled) call a written s seen h v = record { known = v.known; told = v.told }
follow-Agrees (some waits) call a written s seen h v = record { known = v.known; told = v.told }
follow-Agrees (some already_pending) call a written s seen h v = record {
  known = v.known;
  told = v.told;
}
follow-Agrees (some not_recorded) call a written s seen h v = record {
  known = v.known;
  told = v.told;
}
follow-Agrees (some already_resolved) call a written s seen h v = record {
  known = v.known;
  told = v.told;
}
follow-Agrees (some none_pending) call a written s seen h v = record {
  known = v.known;
  told = v.told;
}

record_asked-resolved : (call : String) (r : Records) → (record_asked call r).resolved ≡ r.resolved
unfolding record_asked
record_asked-resolved call r =
    by_test (λ (x : Records). x.resolved ≡ r.resolved) (is_asked call r.asked) r
      (record r { asked = r.asked ++ (call ∷ []) }) (λ _. refl) (λ _. refl)

request_written-Agrees :
    (written : Written) (call : String) (s : Approvals)
    → Agrees s
    → Agrees (replied call (request_written written call s.broker s.records) s.told)
unfolding request_written
request_written-Agrees stored call s v = record {
  known = λ c. rw (record_asked-resolved call s.records) (v.known c);
  told = v.told;
}
request_written-Agrees refused call s v = record { known = v.known; told = v.told }
request_written-Agrees stored_unseen call s v = record {
  known = λ c. rw (record_asked-resolved call s.records) (v.known c);
  told = v.told;
}

request_undecided-Agrees :
    (d : Option Bool) (call : String) (written : Written) (s : Approvals)
    → s.broker.decisions call ≡ d
    → Agrees s
    → Agrees (replied call (request_undecided d call written s.broker s.records) s.told)
unfolding request_undecided
request_undecided-Agrees (some a) call written s e v = record {
  known = v.known;
  told = (e, v.told);
}
request_undecided-Agrees none call written s e v =
    by_test (λ x. Agrees (replied call x s.told)) (s.broker.pending call)
      (already_pending, s.broker, s.records) (request_written written call s.broker s.records)
      (λ _. record { known = v.known; told = v.told })
      (λ _. request_written-Agrees written call s v)

honest-IsSeen :
    (call : String) (a : Bool) (written : Written)
    → IsHonest (decides call a written)
    → IsSeen written
honest-IsSeen call a refused h = tt
honest-IsSeen call a stored h = tt
honest-IsSeen call a stored_unseen h = h

apply-Agrees : (step : Step) (s : Approvals) → IsHonest step → Agrees s → Agrees (apply step s)
unfolding apply request_approval decide stop_waiting restore
apply-Agrees (asks call written) s honest v =
    request_undecided-Agrees (s.broker.decisions call) call written s refl v
apply-Agrees (decides call a written) s honest v =
    follow-Agrees _ call a written s (honest-IsSeen call a written honest)
      (judge-Judged a (s.broker.pending call) (s.broker.requested call) (s.broker.decisions call)) v
apply-Agrees (stops call) s honest v = record { known = v.known; told = v.told }
apply-Agrees restarts s honest v = record {
  known = λ c. refl;
  told = same-Told _ _ s.told v.known v.told;
}

run-Agrees :
    (steps : List Step) (s : Approvals) → All IsHonest steps → Agrees s → Agrees (run steps s)
unfolding run
run-Agrees [] s honest v = v
run-Agrees (step ∷ steps) s honest v =
    run-Agrees steps (apply step s) honest.1 (apply-Agrees step s honest.0 v)

-- An approval has one answer: whoever asks for it or decides it, in any order and with any refused
-- writes, also after the broker has been restored from the log, every answer that was told for a call
-- is the one that the log has for it. (No two calls of Decide overlap, and no write of an answer is
-- stored and then reported as failed.)
pub run-told :
    (steps : List Step)
    → All IsHonest steps
    → let s = run steps no_approvals in
      All (λ (p : String × Bool). answer_in s.records.resolved p.0 ≡ some p.1) s.told
unfolding restore_decisions
run-told steps honest =
    let s = run steps no_approvals in
    let v = run-Agrees steps no_approvals honest (record { known = λ c. refl; told = tt }) in
    same-Told s.broker.decisions (answer_in s.records.resolved) s.told v.known v.told

-- ===== src/Session/Store/Retries.antt =====
-- A retried batch (session/store.go: AppendCommitted; session/fenced.go: AppendFencedCommitted).
use awesome_go_agents.Base.{
  ℕ, suc, ◌≡◌, refl, sym, ap, ◌∙◌, List, [], ◌∷◌, ◌++◌, String, Option, none, some, false, inl, inr,
  str_eq-cases, update, if◌then◌else◌, append_assoc, append-nil, arith, eq_refl, All, update_back,
  update_self,
}
use awesome_go_agents.Session.Errors.{ok, >>=-eq-ok}
use awesome_go_agents.Session.Blocks.{is_blank}
use awesome_go_agents.Session.Event.{Event}
use awesome_go_agents.Session.Store.{
  MemoryStore, Draws, Commit, adopt, assign, identify, index_ids, commit_all, commit_event,
  start_commit, finish_commit, append_committed, check_batch,
}

-- Every event of the batch names itself.
abbrev pub IsIdentified : List Event → Type 0
IsIdentified = All (λ e. is_blank e.id ≡ false)

-- The stored copies that answer a batch, in its order.
abbrev Answers : (String → Option Event) → List Event → List Event → Type 0
Answers f [] [] = Unit
Answers f (e ∷ es) (p ∷ ps) = (f e.id ≡ some p) × Answers f es ps
Answers f _ _ = ⊥

adopt-id : (sid : String) (e : Event) → (adopt sid e).id ≡ e.id
unfolding adopt
adopt-id sid e = ground arith

identify_named :
    (token sid : String) (e : Event)
    → is_blank e.id ≡ false
    → identify token (adopt sid e) ≡ adopt sid e
unfolding identify
identify_named token sid e h = rw (adopt-id sid e, h)

assign-id : (now n : ℕ) (e : Event) → (assign now n e).id ≡ e.id
unfolding assign
assign-id now n e = refl

-- The index grows with the log.
index_ids-append :
    (f : String → Option Event) (log : List Event) (e : Event)
    → is_blank e.id ≡ false
    → index_ids f (log ++ (e ∷ [])) ≡ update (index_ids f log) e.id (some e)
unfolding index_ids
index_ids-append f [] e h = rw h
index_ids-append f (x ∷ log) e h =
    index_ids-append (if is_blank x.id then f else update f x.id (some x)) log e h

-- An answer that a loop has is kept.
commit_event-existing :
    (now : ℕ) (e p : Event) (k : String) (prior : Option Event) (c : Commit)
    → c.existing e.id ≡ prior
    → c.existing k ≡ some p
    → (commit_event now e prior c).existing k ≡ some p
unfolding commit_event
commit_event-existing now e p k (some q) c found h = h
commit_event-existing now e p k none c found h = elim (str_eq-cases e.id k) [
  | inl (same, eq) ↦ absurd (cc (ap c.existing eq))
  | inr (differ, ne) ↦ rw differ h
]

commit_event-answer :
    (now : ℕ) (e : Event) (prior : Option Event) (c : Commit)
    → c.existing e.id ≡ prior
    → let c' = commit_event now e prior c in
      (p : Event) × (c'.committed ≡ c.committed ++ (p ∷ [])) × (c'.existing e.id ≡ some p)
unfolding commit_event assign
commit_event-answer now e (some q) c found = (q, refl, found)
commit_event-answer now e none c found = (assign now c.next e, refl, rw eq_refl refl)

-- The id that the loop looks an event up by.
looked_up : (d : Draws) (sid : String) (i : ℕ) → Event → Event
looked_up d sid i e = identify (d.token i) (adopt sid e)

looked_up-id :
    (d : Draws) (sid : String) (i : ℕ) (e : Event)
    → is_blank e.id ≡ false
    → (looked_up d sid i e).id ≡ e.id
unfolding looked_up
looked_up-id d sid i e h =
    ap (λ (x : Event). x.id) (identify_named (d.token i) sid e h) ∙ adopt-id sid e

commit_all-existing :
    (d : Draws) (sid : String) (i : ℕ) (es : List Event) (c : Commit) (k : String) (p : Event)
    → c.existing k ≡ some p
    → (commit_all d sid i es c).existing k ≡ some p
unfolding commit_all
commit_all-existing d sid i [] c k p h = h
commit_all-existing d sid i (e ∷ es) c k p h =
    let e' = identify (d.token i) (adopt sid e) in
    let prior = c.existing e'.id in
    commit_all-existing d sid (suc i) es (commit_event (d.clock i) e' prior c) k p
      (commit_event-existing (d.clock i) e' p k prior c refl h)

-- A pass over a batch answers it: what it returns is, for each event, what the ids then stand for.
commit_all-Answers :
    (d : Draws) (sid : String) (i : ℕ) (es : List Event) (c : Commit)
    → IsIdentified es
    → let c' = commit_all d sid i es c in
      (ps : List Event) × (c'.committed ≡ c.committed ++ ps) × Answers c'.existing es ps
unfolding commit_all
commit_all-Answers d sid i [] c h = ([], sym (append-nil c.committed), tt)
commit_all-Answers d sid i (e ∷ es) c h =
    let e' = identify (d.token i) (adopt sid e) in
    let prior = c.existing e'.id in
    let c' = commit_event (d.clock i) e' prior c in
    let (p, said, stands) = commit_event-answer (d.clock i) e' prior c refl in
    let (ps, rest, answers) = commit_all-Answers d sid (suc i) es c' h.1 in
    let name : e'.id ≡ e.id = unfold looked_up in looked_up-id d sid i e h.0 in
    (
      p ∷ ps,
      rest ∙ ap (λ l. l ++ ps) said ∙ append_assoc c.committed (p ∷ []) ps,
      (
        commit_all-existing d sid (suc i) es c' e.id p (ap c'.existing (sym name) ∙ stands),
        answers,
      ),
    )

-- A pass over a batch that is answered changes nothing.
commit_all-answered :
    (d : Draws) (sid : String) (i : ℕ) (es ps : List Event) (c : Commit)
    → IsIdentified es
    → Answers c.existing es ps
    → commit_all d sid i es c ≡ record c { committed = c.committed ++ ps }
unfolding commit_all
commit_all-answered d sid i [] [] c h a =
    ap (λ l. record c { committed = l }) (sym (append-nil c.committed))
commit_all-answered d sid i [] (p ∷ ps) c h a = absurd a
commit_all-answered d sid i (e ∷ es) [] c h a = absurd a
commit_all-answered d sid i (e ∷ es) (p ∷ ps) c h a =
    let e' = identify (d.token i) (adopt sid e) in
    let name : e'.id ≡ e.id = unfold looked_up in looked_up-id d sid i e h.0 in
    let found : c.existing e'.id ≡ some p = ap c.existing name ∙ a.0 in
    let c' : Commit = record c { committed = c.committed ++ (p ∷ []) } in
    let step : commit_event (d.clock i) e' (c.existing e'.id) c ≡ c' = rw (found, commit_event) in
    ap (commit_all d sid (suc i) es) step
    ∙ commit_all-answered d sid (suc i) es ps c' h.1 a.1
    ∙ ap (λ l. record c { committed = l }) (append_assoc c.committed (p ∷ []) ps)

-- The map of a loop is the index of its log.
abbrev IsIndexed : Commit → Type 0
IsIndexed c = index_ids (λ k. none) c.log ≡ c.existing

commit_event-IsIndexed :
    (now : ℕ) (e : Event) (prior : Option Event) (c : Commit)
    → is_blank e.id ≡ false
    → IsIndexed c
    → IsIndexed (commit_event now e prior c)
unfolding commit_event assign
commit_event-IsIndexed now e (some q) c named h = h
commit_event-IsIndexed now e none c named h =
    let e' = assign now c.next e in
    index_ids-append (λ k. none) c.log e' named ∙ ap (λ f. update f e'.id (some e')) h

commit_all-IsIndexed :
    (d : Draws) (sid : String) (i : ℕ) (es : List Event) (c : Commit)
    → IsIdentified es
    → IsIndexed c
    → IsIndexed (commit_all d sid i es c)
unfolding commit_all
commit_all-IsIndexed d sid i [] c named h = h
commit_all-IsIndexed d sid i (e ∷ es) c named h =
    let e' = identify (d.token i) (adopt sid e) in
    let name : e'.id ≡ e.id = unfold looked_up in looked_up-id d sid i e named.0 in
    commit_all-IsIndexed d sid (suc i) es (commit_event (d.clock i) e' (c.existing e'.id) c) named.1
      (commit_event-IsIndexed (d.clock i) e' (c.existing e'.id) c (ap is_blank name ∙ named.0) h)

-- A second pass over the log that a first pass left: its loop returns the first pass's answers and
-- its log.
pub retried_loop :
    (d d' : Draws) (sid : String) (es : List Event) (s s' : MemoryStore)
    → IsIdentified es
    → let c = commit_all d sid 0 es (start_commit sid s) in
      s'.events sid ≡ c.log
      → commit_all d' sid 0 es (start_commit sid s')
        ≡ record (start_commit sid s') { committed = c.committed }
unfolding start_commit
retried_loop d d' sid es s s' named e =
    let c = commit_all d sid 0 es (start_commit sid s) in
    let (ps, said, answers) = commit_all-Answers d sid 0 es (start_commit sid s) named in
    let index : index_ids (λ k. none) (s'.events sid) ≡ c.existing =
      ap (index_ids (λ k. none)) e
      ∙ commit_all-IsIndexed d sid 0 es (start_commit sid s) named refl in
    commit_all-answered d' sid 0 es ps (start_commit sid s') named (rw index answers)
    ∙ ap (λ l. record (start_commit sid s') { committed = l }) (sym said)

pub same_store :
    (sid : String) (s : MemoryStore) (out : List Event)
    → finish_commit sid s (record (start_commit sid s) { committed = out }) ≡ (s, out)
unfolding finish_commit start_commit
same_store sid s out =
    ap
      (λ (f : String → ℕ).
        (record s { next = f; events = update s.events sid (s.events sid) }, out))
      (update_back s.next sid)
    ∙ ap (λ (f : String → List Event). (record s { events = f }, out)) (update_back s.events sid)

finish_again :
    (d d' : Draws) (sid : String) (es out : List Event) (s s' : MemoryStore)
    → IsIdentified es
    → finish_commit sid s (commit_all d sid 0 es (start_commit sid s)) ≡ (s', out)
    → finish_commit sid s' (commit_all d' sid 0 es (start_commit sid s')) ≡ (s', out)
unfolding finish_commit
finish_again d d' sid es out s s' named done =
    let c = commit_all d sid 0 es (start_commit sid s) in
    let log : s'.events sid ≡ c.log =
      ap (λ (r : MemoryStore × List Event). r.0.events sid) (sym done)
      ∙ update_self s.events sid c.log in
    ap (finish_commit sid s') (retried_loop d d' sid es s s' named log)
    ∙ same_store sid s' c.committed
    ∙ ap (λ (l : List Event). (s', l)) (ap (λ (r : MemoryStore × List Event). r.1) done)

-- A batch whose events all have ids may be retried: after `AppendCommitted` succeeded, the same
-- call, at any other clock and random source, returns the same committed events and leaves the
-- store as it is.
pub append_committed-retry :
    (d d' : Draws) (sid : String) (es out : List Event) (s s' : MemoryStore)
    → IsIdentified es
    → append_committed d sid es s ≡ ok (s', out)
    → append_committed d' sid es s' ≡ ok (s', out)
unfolding append_committed
append_committed-retry d d' sid es out s s' named h =
    let c = commit_all d sid 0 es (start_commit sid s) in
    let (u, passed, e) = >>=-eq-ok (check_batch sid es) _ h in
    let done : finish_commit sid s c ≡ (s', out) = cc in
    rw passed (ap ok (finish_again d d' sid es out s s' named done))

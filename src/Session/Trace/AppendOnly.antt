-- ===== src/Session/Trace/AppendOnly.antt =====
-- The log is append-only: no call of the store (session/store.go, session/fenced.go) removes or
-- changes an event that is stored.
use awesome_go_agents.Base.{
  ℕ, ◌≡◌, refl, sym, ap, ◌∙◌, List, [], ◌∷◌, String, inl, inr, str_eq-cases, append-nil, update,
}
use awesome_go_agents.Session.Errors.{lease_lost}
use awesome_go_agents.Session.Event.{Event}
use awesome_go_agents.Session.Store.{
  MemoryStore, Lease, Draws, append, append_committed, check_batch, write_batch, commit_all,
  start_commit, finish_commit,
}
use awesome_go_agents.Session.Store.Commits.{
  Continues, Continues-refl, Continues-trans, Continues-commit_all,
}
use awesome_go_agents.Session.Lease.Committing.{Continues-commit_fenced_all}
use awesome_go_agents.Session.Lease.{
  fenced_locked, committed_locked, write_checkpoint, write_fenced, write_committed, store_fenced,
  current_lease, close_commit,
}
use awesome_go_agents.Session.Trace.Settle.{
  settle_checked, settle_if, claim_lease-SameLogs, renew_lease-SameLogs, release_lease-SameLogs,
}
use awesome_go_agents.Session.Trace.{
  Call, plain, committing, claim, renew, release, fenced, fenced_committing, checkpoint, settle,
  apply, run,
}

-- What a call does to the session `j`.
abbrev Keeps : String → MemoryStore → MemoryStore → Type 0
Keeps j s s' = Continues (s.events j) (s'.events j)

Continues-same : (j : String) (f g : String → List Event) → g ≡ f → Continues (f j) (g j)
Continues-same j f g e = ([], ap (λ h. h j) e ∙ sym (append-nil (f j)))

Keeps-update :
    (sid j : String) (log : List Event) (s s' : MemoryStore)
    → s'.events ≡ update s.events sid log
    → Continues (s.events sid) log
    → Keeps j s s'
Keeps-update sid j log s s' e h = rw e (elim (str_eq-cases sid j) [
  | inl (same, p) ↦ rw same (rw (← p) h)
  | inr (differ, p) ↦ rw differ (Continues-refl (s.events j))
])

store_fenced-Keeps :
    (sid j : String) (stored : List Event) (last : ℕ) (s : MemoryStore)
    → Keeps j s (store_fenced sid stored last s)
unfolding store_fenced
store_fenced-Keeps sid j [] last s = Continues-refl (s.events j)
store_fenced-Keeps sid j (e ∷ es) last s =
    Keeps-update sid j _ s (store_fenced sid (e ∷ es) last s) refl (e ∷ es, refl)

write_batch-Keeps :
    (d : Draws) (sid j : String) (es : List Event) (s : MemoryStore)
    → Keeps j s (write_batch d sid es s).0
unfolding write_batch
write_batch-Keeps d sid j es s = Keeps-update sid j _ s (write_batch d sid es s).0 refl (_, refl)

append-Keeps :
    (d : Draws) (sid j : String) (es : List Event) (s : MemoryStore)
    → Keeps j s (settle s (append d sid es s))
unfolding append settle
append-Keeps d sid j [] s = Continues-refl (s.events j)
append-Keeps d sid j (e ∷ es) s =
    settle_checked (Keeps j s) (check_batch sid (e ∷ es)) s (write_batch d sid (e ∷ es) s)
      (Continues-refl (s.events j)) (write_batch-Keeps d sid j (e ∷ es) s)

append_committed-Keeps :
    (d : Draws) (sid j : String) (es : List Event) (s : MemoryStore)
    → Keeps j s (settle s (append_committed d sid es s))
unfolding append_committed finish_commit start_commit
append_committed-Keeps d sid j es s =
    settle_checked (Keeps j s) (check_batch sid es) s
      (finish_commit sid s (commit_all d sid 0 es (start_commit sid s)))
      (Continues-refl (s.events j))
      (Keeps-update sid j _ s (finish_commit sid s (commit_all d sid 0 es (start_commit sid s))).0
        refl (Continues-commit_all d sid 0 es (start_commit sid s)))

fenced_locked-Keeps :
    (d : Draws) (now : ℕ) (l : Lease) (j : String) (es : List Event) (s : MemoryStore)
    → Keeps j s (settle s (fenced_locked d now l es s))
unfolding fenced_locked write_fenced
fenced_locked-Keeps d now l j es s =
    settle_if (Keeps j s) (current_lease now l (s.leases l.session_id)) s
      (write_fenced d l.session_id es s) lease_lost (Continues-refl (s.events j))
      (store_fenced-Keeps l.session_id j _ _ s)

committed_locked-Keeps :
    (d : Draws) (now : ℕ) (l : Lease) (j : String) (es : List Event) (s : MemoryStore)
    → Keeps j s (settle s (committed_locked d now l es s))
unfolding committed_locked write_committed finish_commit start_commit close_commit
committed_locked-Keeps d now l j es s =
    let sid = l.session_id in
    settle_if (Keeps j s) (current_lease now l (s.leases sid)) s (write_committed d sid es s)
      lease_lost (Continues-refl (s.events j))
      (Keeps-update sid j _ s (write_committed d sid es s).0 refl
        (Continues-commit_fenced_all d sid 0 es (start_commit sid s)))

apply-Keeps : (c : Call) (s : MemoryStore) (j : String) → Keeps j s (apply c s)
unfolding apply write_checkpoint
apply-Keeps (plain d sid es) s j = append-Keeps d sid j es s
apply-Keeps (committing d sid es) s j = append_committed-Keeps d sid j es s
apply-Keeps (claim now now' token sid owner ttl) s j =
    Continues-same j s.events _ (claim_lease-SameLogs now now' token sid owner ttl s).1
apply-Keeps (renew now now' l) s j =
    Continues-same j s.events _ (renew_lease-SameLogs now now' l s).1
apply-Keeps (release l) s j = Continues-same j s.events _ (release_lease-SameLogs l s).1
apply-Keeps (fenced d now l es) s j = fenced_locked-Keeps d now l j es s
apply-Keeps (fenced_committing d now l es) s j = committed_locked-Keeps d now l j es s
apply-Keeps (checkpoint r) s j = Continues-refl (s.events j)

-- Whatever calls are made on a store, the log of every session afterwards is the log before with
-- events added behind it: no stored event is changed, moved or removed.
pub run-Continues :
    (cs : List Call) (s : MemoryStore) (sid : String)
    → Continues (s.events sid) ((run cs s).events sid)
unfolding run
run-Continues [] s sid = Continues-refl (s.events sid)
run-Continues (c ∷ cs) s sid =
    Continues-trans (s.events sid) _ _ (apply-Keeps c s sid) (run-Continues cs (apply c s) sid)

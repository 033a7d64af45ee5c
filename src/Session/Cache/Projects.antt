-- ===== src/Session/Cache/Projects.antt =====
-- A session refines its store (session/session.go: AppendCommitted, Refresh, Project).
use awesome_go_agents.Base.{
  All, append_assoc, append-nil, ◌++◌, ℕ, ◌+◌, ◌≡◌, ◌<◌, ◌≤◌, refl, sym, ap, ◌∙◌, List, [], ◌∷◌,
  String, u64_mod, length, arith,
}
use mathlib.Core.Path.{subst}
use awesome_go_agents.Session.Errors.{Result, ok, err, >>=-eq-ok, ok-injective}
use awesome_go_agents.Session.Event.{Event}
use awesome_go_agents.Session.Store.{MemoryStore, Draws, new_memory_store}
use awesome_go_agents.Session.Cache.{
  Session, new_session, extend, commit_batch, refresh, hydrate, projected,
}
use awesome_go_agents.Session.Cache.Synced.{IsSynced}
use awesome_go_agents.Session.Cache.Refines.{
  Op, commits, keeps, hydrates, refreshes, Shared, concat, committed, reread, take_out, kept, apply,
  run, size, total_size, IsInOrder, keep-id, keep-IsSynced, commit_batch-IsSynced, hydrate-IsSynced,
  refresh-IsSynced,
}

-- The session is in step with its store, which holds at most `n` events of it.
abbrev Follows : String → ℕ → Shared → Type 0
Follows id n c =
    IsSynced (concat c.pending) c.session c.store × (c.session.id ≡ id) × (c.store.next id ≤ n)

concat-append : (bs : List (List Event)) (b : List Event) → concat (bs ++ (b ∷ [])) ≡ concat bs ++ b
concat-append [] b = append-nil b
concat-append (x ∷ bs) b = ap (◌++◌ x) (concat-append bs b) ∙ sym (append_assoc x (concat bs) b)

committed-Follows :
    (id : String) (n : ℕ) (d d' : Draws) (es : List Event) (c : Shared)
    (r : Result (MemoryStore × List Event))
    → n + length es + 2 < u64_mod
    → commit_batch d d' es c.session.id c.store ≡ r
    → Follows id n c
    → Follows id (n + length es) (committed c r)
committed-Follows id n d d' es c (err e) h done v = (v.0, v.1, omega (arith, v.2))
committed-Follows id n d d' es c (ok (s', out)) h done v =
    let at : c.store.next c.session.id ≤ n = omega (arith, ap c.store.next v.1, v.2) in
    let (synced, grown) =
      commit_batch-IsSynced d d' es out (concat c.pending) c.session c.store s' (omega arith) v.0
        done in
    (
      subst (λ fl. IsSynced fl c.session s') (sym (concat-append c.pending out)) synced,
      v.1,
      omega (arith, grown, ap c.store.next v.1, ap s'.next v.1, v.2),
    )

kept-Follows :
    (id : String) (n : ℕ) (c : Shared) (bs : List (List Event))
    → c.pending ≡ bs
    → Follows id n c
    → Follows id n (kept (take_out 0 bs) c)
unfolding kept take_out
kept-Follows id n c [] e v = v
kept-Follows id n c (b ∷ bs) e v =
    let whole : IsSynced (b ++ concat bs) c.session c.store =
      subst (λ (l : List (List Event)). IsSynced (concat l) c.session c.store) e v.0 in
    (keep-IsSynced b (concat bs) c.session c.store whole, keep-id b c.session ∙ v.1, v.2)

reread-Follows :
    (id : String) (n : ℕ) (c : Shared) (r : Result Session)
    → ((ss' : Session)
        → r ≡ ok ss'
        → IsSynced (concat c.pending) ss' c.store × (ss'.id ≡ c.session.id))
    → Follows id n c
    → Follows id n (reread c r)
reread-Follows id n c (err e) h v = v
reread-Follows id n c (ok ss') h v = let (synced, same) = h ss' refl in (synced, same ∙ v.1, v.2)

apply-Follows :
    (id : String) (n : ℕ) (o : Op) (c : Shared)
    → IsInOrder o
    → n + size o + 2 < u64_mod
    → Follows id n c
    → Follows id (n + size o) (apply o c)
unfolding apply
apply-Follows id n (commits d d' es) c ordered h v =
    committed-Follows id n d d' es c (commit_batch d d' es c.session.id c.store) h refl v
apply-Follows id n (keeps k) c ordered h v =
    let (synced, same, small) = kept-Follows id n c c.pending refl v in
    subst (λ i. Follows id (n + 0) (kept (take_out i c.pending) c)) (sym ordered)
      (synced, same, omega (arith, small))
apply-Follows id n hydrates c ordered h v =
    let (synced, same, small) =
      reread-Follows id n c (hydrate c.session c.store)
        (λ ss' done.
          let (a, b, on) = hydrate-IsSynced (concat c.pending) c.session ss' c.store v.0 done in
          (a, b))
        v in
    (synced, same, omega (arith, small))
apply-Follows id n refreshes c ordered h v =
    let (synced, same, small) =
      reread-Follows id n c (refresh c.session c.store)
        (λ ss' done. refresh-IsSynced (concat c.pending) c.session ss' c.store v.0 done) v in
    (synced, same, omega (arith, small))

run-Follows :
    (id : String) (n : ℕ) (os : List Op) (c : Shared)
    → All IsInOrder os
    → n + total_size os + 2 < u64_mod
    → Follows id n c
    → Follows id (n + total_size os) (run os c)
unfolding run
run-Follows id n [] c ordered h v = (v.0, v.1, omega (arith, v.2))
run-Follows id n (o ∷ os) c ordered h v =
    let (synced, same, small) =
      run-Follows id (n + size o) os (apply o c) ordered.1 (omega arith)
        (apply-Follows id n o c ordered.0 (omega arith) v) in
    (synced, same, omega (arith, small))

abbrev pub new_shared : String → Shared
new_shared id = record { session = new_session id; store = new_memory_store; pending = [] }

start-Follows : (id : String) → Follows id 0 (new_shared id)
unfolding new_session new_memory_store
start-Follows id = (
  record {
    numbered = record { counted = refl; contiguous = tt };
    tail = λ on. absurd (cc);
    fresh = λ off. refl;
    old = tt;
  },
  refl,
  omega arith,
)

projected_tail :
    (ss ss' : Session) (s : MemoryStore) (es : List Event)
    → IsSynced [] ss s
    → projected ss s ≡ ok (ss', es)
    → es ≡ s.events ss.id
unfolding projected extend
projected_tail ss ss' s es v done =
    let (ss1, warm, made) = >>=-eq-ok (hydrate ss s) _ done in
    let (synced, same, on) = hydrate-IsSynced [] ss ss1 s v warm in
    ap (λ (x : Session × List Event). x.1) (sym (ok-injective (ss1, ss1.cached) (ss', es) made))
    ∙ ap (λ (x : List Event × ℕ). x.0) (synced.tail on)
    ∙ ap s.events same

-- A session shows its store. Appends of one session on a new store that no one else writes may
-- overlap: an append commits its batch and extends the tail later, and in between other appends,
-- hydrations and refreshes run, failed ones included. Where the batches reach the tail in the order in
-- which they were committed, and all have reached it, the events that `Project` gives the surface are
-- the log of the store. (Fewer than 2 ^ 64 - 2 events are handed in.)
pub projected-eq-events :
    (id : String) (os : List Op) (ss' : Session) (es : List Event)
    → All IsInOrder os
    → total_size os + 2 < u64_mod
    → (run os (new_shared id)).pending ≡ []
    → projected (run os (new_shared id)).session (run os (new_shared id)).store ≡ ok (ss', es)
    → es ≡ (run os (new_shared id)).store.events id
projected-eq-events id os ss' es ordered h settled done =
    let c = run os (new_shared id) in
    let (synced, same, small) =
      run-Follows id 0 os (new_shared id) ordered (omega arith) (start-Follows id) in
    let all : IsSynced [] c.session c.store =
      subst (λ (l : List (List Event)). IsSynced (concat l) c.session c.store) settled synced in
    projected_tail c.session ss' c.store es all done ∙ ap c.store.events same

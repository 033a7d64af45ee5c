-- ===== src/Session/Lease/Retries.antt =====
-- Retried fenced batches (session/fenced.go: AppendFenced, AppendFencedCommitted).
use awesome_go_agents.Base.{
  ℕ, suc, ◌+◌, ◌<◌, ◌≡◌, refl, sym, ap, ◌∙◌, List, [], ◌∷◌, ◌++◌, String, Bool, true, false, not,
  ◌&&◌, ◌||◌, inl, inr, Bool-cases, update_self, arith, eq_refl, All, u64, u64_mod, if◌then◌else◌,
  append-nil,
}
use mathlib.Core.Path.{subst}
use awesome_go_agents.Session.Errors.{ok, err, >>=-eq-ok, lease_lost}
use awesome_go_agents.Session.Blocks.{is_blank}
use awesome_go_agents.Session.Event.{Event}
use awesome_go_agents.Session.Store.{
  MemoryStore, Lease, Draws, Commit, adopt, assign, before, check_batch, commit_all, start_commit,
  finish_commit,
}
use awesome_go_agents.Session.Store.Retries.{IsIdentified, retried_loop, same_store}
use awesome_go_agents.Session.Lease.Committing.{commit_fenced_all-identified}
use awesome_go_agents.Session.Lease.{
  has_id, fence_all, store_fenced, write_fenced, closing, close_commit, write_committed,
  current_lease, check_fence, fenced_locked, committed_locked, append_fenced,
  append_fenced_committed,
}

-- Every event of the batch is in the log.
abbrev IsStored : List Event → List Event → Type 0
IsStored log = All (λ e. has_id e.id log ≡ true)

has_id-append :
    (id : String) (xs ys : List Event) → has_id id (xs ++ ys) ≡ (has_id id xs || has_id id ys)
unfolding has_id
has_id-append id [] ys = refl
has_id-append id (x ∷ xs) ys = ground (arith, has_id-append id xs ys)

adopt-assign-id : (now n : ℕ) (sid : String) (e : Event) → (assign now n (adopt sid e)).id ≡ e.id
unfolding assign adopt
adopt-assign-id now n sid e = ground arith

has_id_middle :
    (e x : Event) (log r : List Event)
    → is_blank e.id ≡ false
    → x.id ≡ e.id
    → has_id e.id (log ++ (x ∷ r)) ≡ true
unfolding has_id
has_id_middle e x log r named same = ground (arith, has_id-append e.id log (x ∷ r), eq_refl e.id)

IsStored-more :
    (log r : List Event) (x : Event) (es : List Event)
    → IsStored (log ++ r) es
    → IsStored (log ++ (x ∷ r)) es
unfolding has_id
IsStored-more log r x [] h = tt
IsStored-more log r x (e ∷ es) h = (
  ground (arith, has_id-append e.id log r, has_id-append e.id log (x ∷ r)),
  IsStored-more log r x es h.1,
)

-- A pass leaves every named event of its batch in the log.
fence_all-IsStored :
    (d : Draws) (sid : String) (log : List Event) (i next last : ℕ) (es : List Event)
    → IsIdentified es
    → IsStored (log ++ (fence_all d sid log i next last es).0) es
unfolding fence_all
fence_all-IsStored d sid log i next last [] named = tt
fence_all-IsStored d sid log i next last (e ∷ es) named = elim (Bool-cases (has_id e.id log)) [
  | inl known ↦
      let rest = fence_all d sid log (suc i) next last es in
      let step : fence_all d sid log i next last (e ∷ es) ≡ rest = rw (named.0, known) in
      subst (λ (out : List Event × ℕ). IsStored (log ++ out.0) (e ∷ es)) (sym step)
        (
          ground (arith, has_id-append e.id log rest.0),
          fence_all-IsStored d sid log (suc i) next last es named.1,
        )
  | inr new ↦
      let x = assign (d.clock i) next (adopt sid e) in
      let rest = fence_all d sid log (suc i) (u64 (next + 1)) next es in
      let step : fence_all d sid log i next last (e ∷ es) ≡ (x ∷ rest.0, rest.1) =
        rw (named.0, new) in
      subst (λ (out : List Event × ℕ). IsStored (log ++ out.0) (e ∷ es)) (sym step)
        (
          has_id_middle e x log rest.0 named.0 (adopt-assign-id (d.clock i) next sid e),
          IsStored-more log rest.0 x es
              (fence_all-IsStored d sid log (suc i) (u64 (next + 1)) next es named.1),
        )
]

-- A pass over a batch that is in the log keeps nothing.
fence_all-stored :
    (d : Draws) (sid : String) (log : List Event) (i next last : ℕ) (es : List Event)
    → IsIdentified es
    → IsStored log es
    → fence_all d sid log i next last es ≡ ([], last)
unfolding fence_all
fence_all-stored d sid log i next last [] named h = refl
fence_all-stored d sid log i next last (e ∷ es) named h =
    rw (named.0, h.0) (fence_all-stored d sid log (suc i) next last es named.1 h.1)

store_fenced-log :
    (sid : String) (stored : List Event) (last : ℕ) (s : MemoryStore)
    → (store_fenced sid stored last s).events sid ≡ s.events sid ++ stored
unfolding store_fenced
store_fenced-log sid [] last s = sym (append-nil (s.events sid))
store_fenced-log sid (e ∷ es) last s = rw eq_refl

-- The number that `AppendFenced` returns is the session's counter afterwards.
store_fenced-next :
    (sid : String) (stored : List Event) (last : ℕ) (s : MemoryStore)
    → (stored ≡ [] → last ≡ s.next sid)
    → (store_fenced sid stored last s).next sid ≡ last
unfolding store_fenced
store_fenced-next sid [] last s h = sym (h refl)
store_fenced-next sid (e ∷ es) last s h = rw eq_refl

fence_all-nil :
    (d : Draws) (sid : String) (log : List Event) (i next last : ℕ) (es : List Event)
    → (fence_all d sid log i next last es).0 ≡ []
    → (fence_all d sid log i next last es).1 ≡ last
unfolding fence_all
fence_all-nil d sid log i next last [] h = refl
fence_all-nil d sid log i next last (e ∷ es) h =
    elim (Bool-cases (not (is_blank e.id) && has_id e.id log)) [
      | inl skip ↦ rw skip (fence_all-nil d sid log (suc i) next last es (rw skip at h))
      | inr keep ↦
          let kept : assign (d.clock i) next (adopt sid e)
                ∷ (fence_all d sid log (suc i) (u64 (next + 1)) next es).0
              ≡ [] =
            rw keep at h in
          cc
    ]

-- After a fenced write, the same write of the same named events stores nothing and returns the
-- same number.
write_fenced-again :
    (d d' : Draws) (sid : String) (es : List Event) (s : MemoryStore)
    → IsIdentified es
    → let out = write_fenced d sid es s in write_fenced d' sid es out.0 ≡ out
unfolding write_fenced store_fenced
write_fenced-again d d' sid es s named =
    let pass = fence_all d sid (s.events sid) 0 (u64 (s.next sid + 1)) (s.next sid) es in
    let s' = store_fenced sid pass.0 pass.1 s in
    let kept =
      fence_all-IsStored d sid (s.events sid) 0 (u64 (s.next sid + 1)) (s.next sid) es named in
    let log = store_fenced-log sid pass.0 pass.1 s in
    let next =
      store_fenced-next sid pass.0 pass.1 s
        (fence_all-nil d sid (s.events sid) 0 (u64 (s.next sid + 1)) (s.next sid) es) in
    let again =
      fence_all-stored d' sid (s'.events sid) 0 (u64 (s'.next sid + 1)) (s'.next sid) es named
        (rw log kept) in
    rw again (ap (λ (n : ℕ). (s', n)) next)

current_of_fence :
    (now : ℕ) (l : Lease) (s : MemoryStore)
    → check_fence now l s ≡ ok tt
    → current_lease now l (s.leases l.session_id) ≡ true
unfolding check_fence
current_of_fence now l s h = ground arith

written_if {ℓ} :
    {A : Type ℓ} (b : Bool) (out r : A) → (if b then ok out else err lease_lost) ≡ ok r → out ≡ r
written_if true out r h = cc
written_if false out r h = absurd (cc)

-- `AppendFenced` may be retried with a batch whose events all have ids: as long as the lease is
-- held, the same call returns the same sequence number and leaves the store as it is.
pub append_fenced-retry :
    (d d' : Draws) (now₁ now₂ now₃ now₄ last : ℕ) (l : Lease) (es : List Event) (s s' : MemoryStore)
    → IsIdentified es
    → append_fenced d now₁ now₂ l es s ≡ ok (s', last)
    → check_fence now₃ l s' ≡ ok tt
    → check_fence now₄ l s' ≡ ok tt
    → append_fenced d' now₃ now₄ l es s' ≡ ok (s', last)
unfolding append_fenced fenced_locked
append_fenced-retry d d' now₁ now₂ now₃ now₄ last l es s s' named h c₃ c₄ =
    let sid = l.session_id in
    let (u, passed, e) = >>=-eq-ok (check_batch sid es) _ h in
    let (u', passed', e') = >>=-eq-ok (check_fence now₁ l s) _ e in
    let w : write_fenced d sid es s ≡ (s', last) =
      written_if (current_lease now₂ l (s.leases sid)) _ _ e' in
    let again : write_fenced d' sid es s' ≡ (s', last) =
      subst (λ (r : MemoryStore × ℕ). write_fenced d' sid es r.0 ≡ r) w
        (write_fenced-again d d' sid es s named) in
    rw (passed, c₃, current_of_fence now₄ l s' c₄, again)

before-u64 : (n : ℕ) → n < u64_mod → before (u64 (n + 1)) ≡ n
unfolding before
before-u64 n h = omega arith

closing_same : (out : List Event) (n : ℕ) → n < u64_mod → closing out n (u64 (n + 1)) ≡ n
unfolding closing
closing_same [] n h = refl
closing_same (x ∷ xs) n h = before-u64 n h

write_committed-again :
    (d d' : Draws) (sid : String) (es out : List Event) (s s' : MemoryStore)
    → IsIdentified es
    → s'.next sid < u64_mod
    → write_committed d sid es s ≡ (s', out)
    → write_committed d' sid es s' ≡ (s', out)
unfolding write_committed finish_commit close_commit start_commit
write_committed-again d d' sid es out s s' named small done =
    let c = commit_all d sid 0 es (start_commit sid s) in
    let done' : finish_commit sid s (close_commit (s.next sid) c) ≡ (s', out) =
      ap (λ x. finish_commit sid s (close_commit (s.next sid) x))
        (sym (commit_fenced_all-identified d sid 0 es (start_commit sid s) named))
      ∙ done in
    let log : s'.events sid ≡ c.log =
      ap (λ (r : MemoryStore × List Event). r.0.events sid) (sym done')
      ∙ update_self s.events sid c.log in
    let kept : close_commit (s'.next sid) (record (start_commit sid s') { committed = c.committed })
        ≡ record (start_commit sid s') { committed = c.committed } =
      ap (λ (n : ℕ). record (start_commit sid s') { committed = c.committed; recorded = n })
        (closing_same c.committed (s'.next sid) small) in
    ap (λ (x : Commit). finish_commit sid s' (close_commit (s'.next sid) x))
      (commit_fenced_all-identified d' sid 0 es (start_commit sid s') named
        ∙ retried_loop d d' sid es s s' named log)
    ∙ ap (finish_commit sid s') kept
    ∙ same_store sid s' c.committed
    ∙ ap (λ (l : List Event). (s', l)) (ap (λ (r : MemoryStore × List Event). r.1) done')

-- `AppendFencedCommitted` may be retried with a batch whose events all have ids: as long as the
-- lease is held, the same call returns the same committed events and leaves the store as it is.
-- (The session's counter is a uint64.)
pub append_fenced_committed-retry :
    (d d' : Draws) (now₁ now₂ now₃ now₄ : ℕ) (l : Lease) (es out : List Event) (s s' : MemoryStore)
    → IsIdentified es
    → s'.next l.session_id < u64_mod
    → append_fenced_committed d now₁ now₂ l es s ≡ ok (s', out)
    → check_fence now₃ l s' ≡ ok tt
    → check_fence now₄ l s' ≡ ok tt
    → append_fenced_committed d' now₃ now₄ l es s' ≡ ok (s', out)
unfolding append_fenced_committed committed_locked
append_fenced_committed-retry d d' now₁ now₂ now₃ now₄ l es out s s' named small h c₃ c₄ =
    let sid = l.session_id in
    let (u, passed, e) = >>=-eq-ok (check_batch sid es) _ h in
    let (u', passed', e') = >>=-eq-ok (check_fence now₁ l s) _ e in
    let w : write_committed d sid es s ≡ (s', out) =
      written_if (current_lease now₂ l (s.leases sid)) _ _ e' in
    rw (
      passed,
      c₃,
      current_of_fence now₄ l s' c₄,
      write_committed-again d d' sid es out s s' named small w,
    )

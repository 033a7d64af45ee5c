-- ===== src/Session/Trace/Exclusive.antt =====
-- While a lease lasts, nobody else gets the session (session/fenced.go).
use awesome_go_agents.Base.{
  ◌⊎◌, ℕ, ◌+◌, ◌≤◌, ◌<◌, ◌≡◌, ◌≢◌, List, [], ◌∷◌, String, ℤ, Option, none, some, true, arith, inl,
  inr, Bool-cases, Option-cases, str_eq-cases, ap, sym, ◌∙◌, update, All,
}
use mathlib.Core.Path.{subst}
use awesome_go_agents.Session.Errors.{err, lease_held}
use awesome_go_agents.Session.Store.{MemoryStore, Lease}
use awesome_go_agents.Session.Lease.{
  claim_lease, renew_lease, release_lease, write_checkpoint, held, renewed, renew_result,
  current_lease, default_ttl,
}
use awesome_go_agents.Session.Trace.Fencing.{
  append-SameLeases, append_committed-SameLeases, fenced_locked-SameLeases,
  committed_locked-SameLeases,
}
use awesome_go_agents.Session.Trace.{
  Call, plain, committing, claim, renew, release, fenced, fenced_committing, checkpoint, settle,
  apply, run,
}

-- The entry is the lease `l`, and lasts beyond the instant `t`.
abbrev pub LastsBeyond : ℕ → Lease → Option Lease → Type 0
LastsBeyond t l none = ⊥
LastsBeyond t l (some c) = (c.token ≡ l.token) × (c.fence ≡ l.fence) × (t < c.expires_at)

-- A call at an instant up to `t` that does not release `l`: claims of the session read the clock at
-- `t` at the latest, and a renewal is one of another session, or so late that it lasts beyond `t`.
abbrev pub LeavesAlone : ℕ → Lease → Call → Type 0
LeavesAlone t l (claim now now' token sid owner ttl) = now ≤ t
LeavesAlone t l (renew now now' r) = (r.session_id ≢ l.session_id) ⊎ (t < now' + default_ttl)
LeavesAlone t l (release r) = r.token ≢ l.token
LeavesAlone t l _ = Unit

abbrev Lasts : ℕ → Lease → MemoryStore → Type 0
Lasts t l s = LastsBeyond t l (s.leases l.session_id)

Lasts-same :
    (t : ℕ) (l : Lease) (s s' : MemoryStore) → s'.leases ≡ s.leases → Lasts t l s → Lasts t l s'
Lasts-same t l s s' e h = rw e h

held_of_LastsBeyond :
    (t now : ℕ) (l : Lease) (c : Option Lease) → now ≤ t → LastsBeyond t l c → held now c ≡ true
unfolding held
held_of_LastsBeyond t now l none h k = absurd k
held_of_LastsBeyond t now l (some c) h k = ground arith

claim_lease-Lasts :
    (t now now' : ℕ) (token sid owner : String) (ttl : ℤ) (l : Lease) (s : MemoryStore)
    → now ≤ t
    → Lasts t l s
    → Lasts t l (settle s (claim_lease now now' token sid owner ttl s))
unfolding claim_lease settle
claim_lease-Lasts t now now' token sid owner ttl l s h k =
    elim (Bool-cases (held now (s.leases sid))) [
      | inl busy ↦ rw busy k
      | inr free ↦ rw free (elim (str_eq-cases sid l.session_id) [
        | inl (same, p) ↦
            let busy : held now (s.leases sid) ≡ true =
              rw p (held_of_LastsBeyond t now l (s.leases l.session_id) h k) in
            absurd (cc)
        | inr (differ, p) ↦ rw differ k
      ])
    ]

renewed-LastsBeyond :
    (t now' : ℕ) (l : Lease) (c : Option Lease)
    → t < now' + default_ttl
    → LastsBeyond t l c
    → LastsBeyond t l (renewed now' c)
unfolding renewed
renewed-LastsBeyond t now' l none h k = k
renewed-LastsBeyond t now' l (some c) h k = (k.0, k.1, h)

renew_result-Lasts :
    (t : ℕ) (l : Lease) (sid : String) (c : Option Lease) (s : MemoryStore)
    → (sid ≡ l.session_id → LastsBeyond t l c)
    → Lasts t l s
    → Lasts t l (settle s (renew_result sid c s))
unfolding settle renew_result
renew_result-Lasts t l sid none s h k = k
renew_result-Lasts t l sid (some c) s h k = elim (str_eq-cases sid l.session_id) [
  | inl (same, p) ↦ rw same (h p)
  | inr (differ, p) ↦ rw differ k
]

renews_late :
    (t now' : ℕ) (l r : Lease)
    → r.session_id ≡ l.session_id
    → (r.session_id ≢ l.session_id) ⊎ (t < now' + default_ttl)
    → t < now' + default_ttl
renews_late t now' l r p (inl other) = absurd (other p)
renews_late t now' l r p (inr late) = late

renew_lease-Lasts :
    (t now now' : ℕ) (l r : Lease) (s : MemoryStore)
    → (r.session_id ≢ l.session_id) ⊎ (t < now' + default_ttl)
    → Lasts t l s
    → Lasts t l (settle s (renew_lease now now' r s))
unfolding renew_lease settle
renew_lease-Lasts t now now' l r s h k =
    let sid = r.session_id in
    elim (Bool-cases (current_lease now r (s.leases sid))) [
      | inl valid ↦ rw valid (
          renew_result-Lasts t l sid (renewed now' (s.leases sid)) s
            (λ p. renewed-LastsBeyond t now' l (s.leases sid) (renews_late t now' l r p h) (rw p k))
            k)
      | inr stale ↦ rw stale k
    ]

forget-Lasts :
    (t : ℕ) (l r c : Lease) (s : MemoryStore)
    → r.token ≢ l.token
    → c.token ≡ r.token
    → s.leases r.session_id ≡ some c
    → Lasts t l s
    → Lasts t l (record s { leases = update s.leases r.session_id none })
forget-Lasts t l r c s ne same e k = elim (str_eq-cases r.session_id l.session_id) [
  | inl (eq, p) ↦
      let own : LastsBeyond t l (some c) = subst (LastsBeyond t l) (ap s.leases (sym p) ∙ e) k in
      absurd (ne (sym same ∙ own.0))
  | inr (differ, p) ↦ rw differ k
]

release_lease-Lasts :
    (t : ℕ) (l r : Lease) (s : MemoryStore)
    → r.token ≢ l.token
    → Lasts t l s
    → Lasts t l (release_lease r s)
unfolding release_lease
release_lease-Lasts t l r s ne k = elim (Option-cases (s.leases r.session_id)) [
  | inl e ↦ rw (e, release_lease) k
  | inr (c, e) ↦
      rw (e, release_lease)
        (elim (str_eq-cases c.token r.token) [
          | inl (eq, same) ↦ rw eq (forget-Lasts t l r c s ne same e k)
          | inr (differ, p) ↦ rw differ k
        ])
]

apply-Lasts :
    (c : Call) (t : ℕ) (l : Lease) (s : MemoryStore)
    → LeavesAlone t l c
    → Lasts t l s
    → Lasts t l (apply c s)
unfolding apply write_checkpoint
apply-Lasts (plain d sid es) t l s h k = rw (append-SameLeases d sid es s).0 k
apply-Lasts (committing d sid es) t l s h k = rw (append_committed-SameLeases d sid es s).0 k
apply-Lasts (claim now now' token sid owner ttl) t l s h k =
    claim_lease-Lasts t now now' token sid owner ttl l s h k
apply-Lasts (renew now now' r) t l s h k = renew_lease-Lasts t now now' l r s h k
apply-Lasts (release r) t l s h k = release_lease-Lasts t l r s h k
apply-Lasts (fenced d now r es) t l s h k = rw (fenced_locked-SameLeases d now r es s).0 k
apply-Lasts (fenced_committing d now r es) t l s h k =
    rw (committed_locked-SameLeases d now r es s).0 k
apply-Lasts (checkpoint r) t l s h k = k

run-Lasts :
    (cs : List Call) (t : ℕ) (l : Lease) (s : MemoryStore)
    → All (LeavesAlone t l) cs
    → Lasts t l s
    → Lasts t l (run cs s)
unfolding run
run-Lasts [] t l s h k = k
run-Lasts (c ∷ cs) t l s h k = run-Lasts cs t l (apply c s) h.1 (apply-Lasts c t l s h.0 k)

-- A lease that lasts beyond the instant `t` keeps its session until then: after any calls up to `t`
-- that do not release it and do not renew it so early that 30 seconds later is `t` or before, every
-- claim of the session at `t` or before fails with `ErrLeaseHeld`, and the holder's entry is still
-- there with its token and fence.
pub held-exclusive :
    (cs : List Call) (t : ℕ) (l : Lease) (s : MemoryStore) (now now' : ℕ) (token owner : String)
    (ttl : ℤ)
    → LastsBeyond t l (s.leases l.session_id)
    → All (LeavesAlone t l) cs
    → now ≤ t
    → (claim_lease now now' token l.session_id owner ttl (run cs s) ≡ err lease_held)
      × LastsBeyond t l ((run cs s).leases l.session_id)
unfolding claim_lease
held-exclusive cs t l s now now' token owner ttl k h b =
    let still = run-Lasts cs t l s h k in
    (rw (held_of_LastsBeyond t now l ((run cs s).leases l.session_id) b still), still)

-- ===== src/Session/Trace/Fencing.antt =====
-- The execution fence (session/fenced.go): the lease that a session's entry holds always carries
-- the session's fence, and the fence never falls.
use awesome_go_agents.Base.{
  ℕ, ◌+◌, ◌≤◌, ◌<◌, ◌≡◌, refl, List, [], ◌∷◌, String, ℤ, Option, none, some, Bool, true, false, u64,
  u64_mod, arith, inl, inr, Bool-cases, Option-cases, update, str_eq-cases, str_eq, ap, sym, ◌∙◌,
  if◌then◌else◌,
}
use mathlib.Core.Path.{subst}
use awesome_go_agents.Session.Errors.{lease_lost}
use awesome_go_agents.Session.Event.{Event}
use awesome_go_agents.Session.Store.{
  MemoryStore, Lease, Draws, append, append_committed, check_batch, write_batch, commit_all,
  start_commit, finish_commit,
}
use awesome_go_agents.Session.Lease.{
  claim_lease, renew_lease, release_lease, fenced_locked, committed_locked, write_checkpoint,
  write_fenced, write_committed, store_fenced, held, renewed, renew_result, current_lease,
}
use awesome_go_agents.Session.Trace.Settle.{settle_checked, settle_if}
use awesome_go_agents.Session.Trace.{
  Call, plain, committing, claim, renew, release, fenced, fenced_committing, checkpoint, settle,
  apply, run, claims,
}

abbrev pub CarriesFence : Option Lease → ℕ → Type 0
CarriesFence none f = Unit
CarriesFence (some l) f = l.fence ≡ f

abbrev pub IsFenced : MemoryStore → String → Type 0
IsFenced s sid = CarriesFence (s.leases sid) (s.fences sid)

-- What calls with `w` claims may do to the session `j`.
abbrev Guards : ℕ → String → MemoryStore → MemoryStore → Type 0
Guards w j s s' =
    s.fences j + w < u64_mod
    → IsFenced s j
    → IsFenced s' j × (s.fences j ≤ s'.fences j) × (s'.fences j ≤ s.fences j + w)

Guards-same :
    (w : ℕ) (j : String) (s s' : MemoryStore)
    → s'.leases ≡ s.leases
    → s'.fences ≡ s.fences
    → Guards w j s s'
Guards-same w j s s' l f b v = rw (l, f) (v, omega arith, omega arith)

-- The appends touch neither leases nor fences.
abbrev pub SameLeases : MemoryStore → MemoryStore → Type 0
SameLeases s s' = (s'.leases ≡ s.leases) × (s'.fences ≡ s.fences)

pub append-SameLeases :
    (d : Draws) (sid : String) (es : List Event) (s : MemoryStore)
    → SameLeases s (settle s (append d sid es s))
unfolding append settle write_batch
append-SameLeases d sid [] s = (refl, refl)
append-SameLeases d sid (e ∷ es) s =
    settle_checked (SameLeases s) (check_batch sid (e ∷ es)) s (write_batch d sid (e ∷ es) s)
      (refl, refl) (refl, refl)

pub append_committed-SameLeases :
    (d : Draws) (sid : String) (es : List Event) (s : MemoryStore)
    → SameLeases s (settle s (append_committed d sid es s))
unfolding append_committed finish_commit
append_committed-SameLeases d sid es s =
    settle_checked (SameLeases s) (check_batch sid es) s
      (finish_commit sid s (commit_all d sid 0 es (start_commit sid s))) (refl, refl) (refl, refl)

store_fenced-SameLeases :
    (sid : String) (stored : List Event) (last : ℕ) (s : MemoryStore)
    → SameLeases s (store_fenced sid stored last s)
unfolding store_fenced
store_fenced-SameLeases sid [] last s = (refl, refl)
store_fenced-SameLeases sid (e ∷ es) last s = (refl, refl)

pub fenced_locked-SameLeases :
    (d : Draws) (now : ℕ) (l : Lease) (es : List Event) (s : MemoryStore)
    → SameLeases s (settle s (fenced_locked d now l es s))
unfolding fenced_locked write_fenced
fenced_locked-SameLeases d now l es s =
    settle_if (SameLeases s) (current_lease now l (s.leases l.session_id)) s
      (write_fenced d l.session_id es s) lease_lost (refl, refl)
      (store_fenced-SameLeases l.session_id _ _ s)

pub committed_locked-SameLeases :
    (d : Draws) (now : ℕ) (l : Lease) (es : List Event) (s : MemoryStore)
    → SameLeases s (settle s (committed_locked d now l es s))
unfolding committed_locked write_committed finish_commit
committed_locked-SameLeases d now l es s =
    settle_if (SameLeases s) (current_lease now l (s.leases l.session_id)) s
      (write_committed d l.session_id es s) lease_lost (refl, refl) (refl, refl)

claim_lease-Guards :
    (now now' : ℕ) (token sid owner : String) (ttl : ℤ) (s : MemoryStore) (j : String)
    → Guards 1 j s (settle s (claim_lease now now' token sid owner ttl s))
unfolding claim_lease settle
claim_lease-Guards now now' token sid owner ttl s j b v =
    elim (Bool-cases (held now (s.leases sid))) [
      | inl busy ↦ rw busy (v, omega arith, omega arith)
      | inr free ↦ rw free (elim (str_eq-cases sid j) [
        | inl (same, p) ↦
            let up : u64 (s.fences sid + 1) ≡ s.fences j + 1 = rw p (omega arith) in
            rw (same, up) (refl, omega arith, omega arith)
        | inr (differ, p) ↦ rw differ (v, omega arith, omega arith)
      ])
    ]

renew_result-Guards :
    (sid j : String) (c : Option Lease) (s : MemoryStore)
    → (IsFenced s sid → CarriesFence c (s.fences sid))
    → Guards 0 j s (settle s (renew_result sid c s))
unfolding renew_result settle
renew_result-Guards sid j none s h b v = (v, omega arith, omega arith)
renew_result-Guards sid j (some c) s h b v = elim (str_eq-cases sid j) [
  | inl (same, p) ↦
      rw same (h (subst (IsFenced s) (sym p) v) ∙ ap s.fences p, omega arith, omega arith)
  | inr (differ, p) ↦ rw differ (v, omega arith, omega arith)
]

renewed-CarriesFence :
    (now' f : ℕ) (c : Option Lease) → CarriesFence c f → CarriesFence (renewed now' c) f
unfolding renewed
renewed-CarriesFence now' f none h = h
renewed-CarriesFence now' f (some c) h = h

renew_lease-Guards :
    (now now' : ℕ) (l : Lease) (s : MemoryStore) (j : String)
    → Guards 0 j s (settle s (renew_lease now now' l s))
unfolding renew_lease settle
renew_lease-Guards now now' l s j b v =
    let sid = l.session_id in
    elim (Bool-cases (current_lease now l (s.leases sid))) [
      | inl h ↦ rw h (
          renew_result-Guards sid j (renewed now' (s.leases sid)) s
            (renewed-CarriesFence now' (s.fences sid) (s.leases sid)) b v)
      | inr h ↦ rw h (v, omega arith, omega arith)
    ]

forget_lease-Guards :
    (sid j : String) (s : MemoryStore)
    → Guards 0 j s (record s { leases = update s.leases sid none })
forget_lease-Guards sid j s b v = elim (Bool-cases (str_eq sid j)) [
  | inl same ↦ rw same (tt, omega arith, omega arith)
  | inr differ ↦ rw differ (v, omega arith, omega arith)
]

release_held-Guards :
    (l : Lease) (b : Bool) (s : MemoryStore) (j : String)
    → Guards 0 j s (if b then record s { leases = update s.leases l.session_id none } else s)
release_held-Guards l true s j = forget_lease-Guards l.session_id j s
release_held-Guards l false s j = Guards-same 0 j s s refl refl

release_lease-Guards : (l : Lease) (s : MemoryStore) (j : String) → Guards 0 j s (release_lease l s)
unfolding release_lease
release_lease-Guards l s j = elim (Option-cases (s.leases l.session_id)) [
  | inl e ↦ rw (e, release_lease) (Guards-same 0 j s s refl refl)
  | inr (c, e) ↦ rw (e, release_lease) (release_held-Guards l (str_eq c.token l.token) s j)
]

Guards-SameLeases : (w : ℕ) (j : String) (s s' : MemoryStore) → SameLeases s s' → Guards w j s s'
Guards-SameLeases w j s s' h = Guards-same w j s s' h.0 h.1

-- Every call keeps the fence of every session in its lease, and moves it by a claim at most.
apply-Guards : (c : Call) (s : MemoryStore) (j : String) → Guards (claims (c ∷ [])) j s (apply c s)
unfolding apply write_checkpoint
apply-Guards (plain d sid es) s j =
    Guards-SameLeases 0 j s (settle s (append d sid es s)) (append-SameLeases d sid es s)
apply-Guards (committing d sid es) s j =
    Guards-SameLeases 0 j s (settle s (append_committed d sid es s))
      (append_committed-SameLeases d sid es s)
apply-Guards (claim now now' token sid owner ttl) s j =
    claim_lease-Guards now now' token sid owner ttl s j
apply-Guards (renew now now' l) s j = renew_lease-Guards now now' l s j
apply-Guards (release l) s j = release_lease-Guards l s j
apply-Guards (fenced d now l es) s j =
    Guards-SameLeases 0 j s (settle s (fenced_locked d now l es s))
      (fenced_locked-SameLeases d now l es s)
apply-Guards (fenced_committing d now l es) s j =
    Guards-SameLeases 0 j s (settle s (committed_locked d now l es s))
      (committed_locked-SameLeases d now l es s)
apply-Guards (checkpoint r) s j = Guards-same 0 j s (write_checkpoint r s) refl refl

claims-cons : (c : Call) (cs : List Call) → claims (c ∷ cs) ≡ claims (c ∷ []) + claims cs
claims-cons (claim now now' token sid owner ttl) cs = omega arith
claims-cons (plain d sid es) cs = omega arith
claims-cons (committing d sid es) cs = omega arith
claims-cons (renew now now' l) cs = omega arith
claims-cons (release l) cs = omega arith
claims-cons (fenced d now l es) cs = omega arith
claims-cons (fenced_committing d now l es) cs = omega arith
claims-cons (checkpoint r) cs = omega arith

pub run-Guards : (cs : List Call) (s : MemoryStore) (j : String) → Guards (claims cs) j s (run cs s)
unfolding run
run-Guards [] s j b v = (v, omega arith, omega arith)
run-Guards (c ∷ cs) s j b v =
    let count = claims-cons c cs in
    let step = apply-Guards c s j (omega arith) v in
    let rest = run-Guards cs (apply c s) j (omega (arith, step.2)) step.0 in
    (rest.0, omega (arith, rest.1, step.1), omega (arith, rest.2, step.2))

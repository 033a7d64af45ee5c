-- ===== src/Session/Trace/Settle.antt =====
-- What holds after a call that may fail, from what holds on either outcome.
use awesome_go_agents.Base.{
  ℕ, Bool, true, false, if◌then◌else◌, String, ℤ, ◌≡◌, refl, Bool-cases, inl, inr, Option, none,
  some, arith,
}
use awesome_go_agents.Session.Errors.{Error, Result, ok, err, ◌>>◌}
use awesome_go_agents.Session.Store.{MemoryStore, Lease}
use awesome_go_agents.Session.Lease.{
  claim_lease, renew_lease, release_lease, held, renewed, renew_result, current_lease,
}
use awesome_go_agents.Session.Trace.{settle}

module _ {ℓ κ} {A : Type ℓ} (P : MemoryStore → Type κ) where
  -- Checks, then a write.
  pub settle_checked :
      (m : Result (Unit {0})) (s : MemoryStore) (out : MemoryStore × A)
      → P s
      → P out.0
      → P (settle s (m >> ok out))
  unfolding settle
  settle_checked (ok u) s out old new = new
  settle_checked (err e) s out old new = old

  -- A test, then a write or an error.
  pub settle_if :
      (b : Bool) (s : MemoryStore) (out : MemoryStore × A) (e : Error)
      → P s
      → P out.0
      → P (settle s (if b then ok out else err e))
  unfolding settle
  settle_if true s out e old new = new
  settle_if false s out e old new = old

-- The calls on leases leave every log and every counter as they were.
abbrev pub SameLogs : MemoryStore → MemoryStore → Type 0
SameLogs s s' = (s'.next ≡ s.next) × (s'.events ≡ s.events)

pub claim_lease-SameLogs :
    (now now' : ℕ) (token sid owner : String) (ttl : ℤ) (s : MemoryStore)
    → SameLogs s (settle s (claim_lease now now' token sid owner ttl s))
unfolding settle claim_lease
claim_lease-SameLogs now now' token sid owner ttl s = elim (Bool-cases (held now (s.leases sid))) [
  | inl h ↦ rw h (refl, refl)
  | inr h ↦ rw h (refl, refl)
]

renew_result-SameLogs :
    (sid : String) (c : Option Lease) (s : MemoryStore)
    → SameLogs s (settle s (renew_result sid c s))
unfolding settle renew_result
renew_result-SameLogs sid none s = (refl, refl)
renew_result-SameLogs sid (some c) s = (refl, refl)

pub renew_lease-SameLogs :
    (now now' : ℕ) (l : Lease) (s : MemoryStore) → SameLogs s (settle s (renew_lease now now' l s))
unfolding settle renew_lease
renew_lease-SameLogs now now' l s =
    elim (Bool-cases (current_lease now l (s.leases l.session_id))) [
      | inl h ↦ rw h (renew_result-SameLogs l.session_id (renewed now' (s.leases l.session_id)) s)
      | inr h ↦ rw h (refl, refl)
    ]

pub release_lease-SameLogs : (l : Lease) (s : MemoryStore) → SameLogs s (release_lease l s)
unfolding release_lease
release_lease-SameLogs l s = ground arith

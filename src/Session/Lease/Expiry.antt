-- ===== src/Session/Lease/Expiry.antt =====
-- How long a lease lasts (session/fenced.go).
use awesome_go_agents.Base.{
  Bool, if◌then◌else◌, String, ℤ, ◌≤◌, ℕ, ◌+◌, ◌<◌, ◌≡◌, refl, some, true, false, arith, eq_refl,
  ltb,
}
use awesome_go_agents.Session.Errors.{ok, err, lease_held, lease_lost}
use awesome_go_agents.Session.Store.{Lease, MemoryStore}
use awesome_go_agents.Session.Lease.{
  default_ttl, claim_lease, held, renew_lease, renewed, renew_result, check_fence, current_lease,
}

stored_renewed :
    (now now' : ℕ) (l c l' : Lease) (s s' : MemoryStore)
    → s.leases l.session_id ≡ some c
    → renew_lease now now' l s ≡ ok (s', l')
    → (s'.leases l.session_id ≡ some l') × (l'.expires_at ≡ now' + default_ttl)
unfolding renew_lease renewed renew_result
stored_renewed now now' l c l' s s' stored h = ground (arith, eq_refl l.session_id)

current_lease-expired :
    (t : ℕ) (l c : Lease) → c.expires_at ≤ t → current_lease t l (some c) ≡ false
unfolding current_lease
current_lease-expired t l c h = ground arith

granted :
    {A : Type 0} (b : Bool) (a : A)
    → b ≡ false
    → (r : A) × ((if b then err lease_held else ok a) ≡ ok r)
granted true a h = absurd (cc)
granted false a h = (a, refl)

-- Renewing a lease can cost it the session. A lease lasts beyond the instant `t`, and would keep the
-- session at `t`; its holder renews it 30 seconds or more before `t`, with success; then its fence
-- check fails at `t`, and a claim of the session at `t` by anyone succeeds.
pub renew_lease-exposes :
    (now now' t t' : ℕ) (l c l' : Lease) (s s' : MemoryStore) (token owner : String) (ttl : ℤ)
    → s.leases l.session_id ≡ some c
    → t < c.expires_at
    → now' + default_ttl ≤ t
    → renew_lease now now' l s ≡ ok (s', l')
    → (claim_lease t t' token l.session_id owner ttl s ≡ err lease_held)
      × (check_fence t l s' ≡ err lease_lost)
      × (r : MemoryStore × Lease) × (claim_lease t t' token l.session_id owner ttl s' ≡ ok r)
unfolding claim_lease check_fence held
renew_lease-exposes now now' t t' l c l' s s' token owner ttl stored long late h =
    let (now_stored, expiry) = stored_renewed now now' l c l' s s' stored h in
    let busy : ltb t c.expires_at ≡ true = ground arith in
    let free : ltb t l'.expires_at ≡ false = ground (arith, expiry) in
    let stale = current_lease-expired t l l' (omega (arith, expiry)) in
    let (r, won) = granted _ _ (rw now_stored free) in
    (rw (stored, busy) refl, rw (now_stored, stale) (ground arith), r, won)

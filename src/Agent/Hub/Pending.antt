-- ===== src/Agent/Hub/Pending.antt =====
-- The events that wait for their turn (agent/events.go: eventSubscription.pending).
use awesome_go_agents.Base.{
  ℕ, ◌≤◌, ◌<◌, ◌≡◌, ◌≢◌, ◌⊎◌, inl, inr, refl, Bool, true, false, Option, some, List, [], ◌∷◌, All,
  ◌==◌, if◌then◌else◌, length, arith, Bool-cases,
}
use mathlib.Core.Path.{subst}
use awesome_go_agents.Session.Event.{Event}
use awesome_go_agents.Agent.Hub.{find_pending, drop_pending}

pub find_pending_here :
    (k : ℕ) (e : Event) (es : List Event) → e.seq ≡ k → find_pending k (e ∷ es) ≡ some e
unfolding find_pending
find_pending_here k e es h = let same : e.seq == k ≡ true = ground arith in rw same refl

pub find_pending_other :
    (k : ℕ) (e : Event) (es : List Event) → e.seq ≢ k → find_pending k (e ∷ es) ≡ find_pending k es
unfolding find_pending
find_pending_other k e es h = let other : e.seq == k ≡ false = ground (arith, h) in rw other refl

pub find_pending-drop_pending :
    (k j : ℕ) (es : List Event) → j ≢ k → find_pending k (drop_pending j es) ≡ find_pending k es
unfolding drop_pending find_pending
find_pending-drop_pending k j [] h = refl
find_pending-drop_pending k j (e ∷ es) h = elim (Bool-cases (e.seq == j)) [
  | inl same ↦
      let other : e.seq ≢ k = λ q. h (ground arith) in
      rw (find_pending_other k e es other) (rw same (find_pending-drop_pending k j es h))
  | inr other ↦ rw other (elim (Bool-cases (e.seq == k)) [
    | inl here ↦ rw here refl
    | inr there ↦ rw there (find_pending-drop_pending k j es h)
  ])
]

if_found :
    (b : Bool) (x e : Event) (rest : Option Event)
    → (if b then some x else rest) ≡ some e
    → ((b ≡ true) × (x ≡ e)) ⊎ ((b ≡ false) × (rest ≡ some e))
if_found true x e rest h = inl (refl, cc)
if_found false x e rest h = inr (refl, h)

pub find_pending_lem :
    (P : Event → Type 0) (k : ℕ) (es : List Event) (e : Event)
    → find_pending k es ≡ some e
    → All P es
    → (e.seq ≡ k) × P e
unfolding find_pending
find_pending_lem P k [] e h v = absurd (cc)
find_pending_lem P k (x ∷ es) e h v = elim (if_found (x.seq == k) x e (find_pending k es) h) [
  | inl (here, same) ↦
      let at_k : x.seq ≡ k = ground arith in subst (λ y. (y.seq ≡ k) × P y) same (at_k, v.0)
  | inr (there, found) ↦ find_pending_lem P k es e found v.1
]

pub drop_pending-All :
    (P : Event → Type 0) (k : ℕ) (es : List Event) → All P es → All P (drop_pending k es)
unfolding drop_pending
drop_pending-All P k [] v = tt
drop_pending-All P k (e ∷ es) v = elim (Bool-cases (e.seq == k)) [
  | inl same ↦ rw same (drop_pending-All P k es v.1)
  | inr other ↦ rw other (v.0, drop_pending-All P k es v.1)
]

pub drop_pending-le : (k : ℕ) (es : List Event) → length (drop_pending k es) ≤ length es
unfolding drop_pending
drop_pending-le k [] = omega arith
drop_pending-le k (e ∷ es) = elim (Bool-cases (e.seq == k)) [
  | inl same ↦ rw same (omega (arith, drop_pending-le k es))
  | inr other ↦ rw other (omega (arith, drop_pending-le k es))
]

pub drop_pending-fewer :
    (k : ℕ) (es : List Event) (e : Event)
    → find_pending k es ≡ some e
    → length (drop_pending k es) < length es
unfolding drop_pending find_pending
drop_pending-fewer k [] e h = absurd (cc)
drop_pending-fewer k (x ∷ es) e h = elim (if_found (x.seq == k) x e (find_pending k es) h) [
  | inl (here, same) ↦ rw here (omega (arith, drop_pending-le k es))
  | inr (there, found) ↦ rw there (omega (arith, drop_pending-fewer k es e found))
]

-- ===== src/Session/Surface/Seqs.antt =====
-- The source sequences of a compaction (session/surface.go: validateCompactionSourceSeqs).
use awesome_go_agents.Base.{
  ℕ, ◌<◌, ◌≡◌, ◌≢◌, refl, false, ◌||◌, List, [], ◌∷◌, ◌==◌, ◌↔◌, inl, inr, Bool-cases, arith, All,
}
use awesome_go_agents.Session.Errors.{ok}
use awesome_go_agents.Session.Surface.{has_seq, check_seqs, validate_source_seqs}

-- Positive numbers without a repetition, none of them in `seen`.
abbrev IsFresh : List ℕ → List ℕ → Type 0
IsFresh seen [] = Unit
IsFresh seen (n ∷ ns) = (0 < n) × (has_seq n seen ≡ false) × IsFresh (n ∷ seen) ns

check_seqs_sound : (seen ns : List ℕ) → check_seqs seen ns ≡ ok tt → IsFresh seen ns
unfolding check_seqs
check_seqs_sound seen [] h = tt
check_seqs_sound seen (n ∷ ns) h = elim (Bool-cases (n == 0 || has_seq n seen)) [
  | inl bad ↦ absurd (cc (rw bad at h))
  | inr good ↦ (ground arith, ground arith, check_seqs_sound (n ∷ seen) ns (rw good at h))
]

check_seqs_complete : (seen ns : List ℕ) → IsFresh seen ns → check_seqs seen ns ≡ ok tt
unfolding check_seqs
check_seqs_complete seen [] h = refl
check_seqs_complete seen (n ∷ ns) h = ground (arith, check_seqs_complete (n ∷ seen) ns)

-- No number stands twice.
abbrev pub IsDistinct : List ℕ → Type 0
IsDistinct [] = Unit
IsDistinct (n ∷ ns) = All (λ m. n ≢ m) ns × IsDistinct ns

abbrev Unseen : List ℕ → List ℕ → Type 0
Unseen seen = All (λ k. has_seq k seen ≡ false)

Unseen-split :
    (n : ℕ) (seen ns : List ℕ) → Unseen (n ∷ seen) ns → All (λ m. n ≢ m) ns × Unseen seen ns
unfolding has_seq
Unseen-split n seen [] h = (tt, tt)
Unseen-split n seen (m ∷ ns) h =
    let rest = Unseen-split n seen ns h.1 in ((ground arith, rest.0), (ground arith, rest.1))

Unseen-join :
    (n : ℕ) (seen ns : List ℕ) → All (λ m. n ≢ m) ns → Unseen seen ns → Unseen (n ∷ seen) ns
unfolding has_seq
Unseen-join n seen [] h k = tt
Unseen-join n seen (m ∷ ns) h k = (ground (arith, h.0), Unseen-join n seen ns h.1 k.1)

IsFresh-split :
    (seen ns : List ℕ) → IsFresh seen ns → All (λ n. 0 < n) ns × IsDistinct ns × Unseen seen ns
IsFresh-split seen [] h = (tt, tt, tt)
IsFresh-split seen (n ∷ ns) h =
    let (positive, distinct, unseen) = IsFresh-split (n ∷ seen) ns h.2 in
    let (ne, old) = Unseen-split n seen ns unseen in ((h.0, positive), (ne, distinct), (h.1, old))

IsFresh-join :
    (seen ns : List ℕ) → All (λ n. 0 < n) ns → IsDistinct ns → Unseen seen ns → IsFresh seen ns
IsFresh-join seen [] p d u = tt
IsFresh-join seen (n ∷ ns) p d u =
    (p.0, u.0, IsFresh-join (n ∷ seen) ns p.1 d.1 (Unseen-join n seen ns d.0 u.1))

Unseen-none : (ns : List ℕ) → Unseen [] ns
unfolding has_seq
Unseen-none [] = tt
Unseen-none (n ∷ ns) = (refl, Unseen-none ns)

-- A list of source sequences is accepted exactly when it is not empty, all its numbers are positive
-- and none of them stands twice.
pub validate_source_seqs_iff :
    (ns : List ℕ)
    → (validate_source_seqs ns ≡ ok tt) ↔ ((ns ≢ []) × All (λ n. 0 < n) ns × IsDistinct ns)
unfolding validate_source_seqs
validate_source_seqs_iff [] = (λ h. absurd (cc), λ h. absurd (h.0 refl))
validate_source_seqs_iff (n ∷ ns) = (
  λ h. let s = IsFresh-split [] (n ∷ ns) (check_seqs_sound [] (n ∷ ns) h) in (λ e. cc, s.0, s.1),
  λ h. check_seqs_complete [] (n ∷ ns) (IsFresh-join [] (n ∷ ns) h.1 h.2 (Unseen-none (n ∷ ns))),
)

-- ===== src/Session/Lease/Committing.antt =====
-- The loop of the fenced appends that return what they commit (session/fenced.go:
-- AppendFencedCommitted).
use awesome_go_agents.Base.{
  ℕ, suc, ◌+◌, ◌<◌, ◌≤◌, ◌≡◌, refl, ap, ◌∙◌, List, [], ◌∷◌, String, u64_mod, length, arith, All,
}
use awesome_go_agents.Session.Event.{Event}
use awesome_go_agents.Session.Store.{Draws, Commit, adopt, identify, commit_all, commit_event}
use awesome_go_agents.Session.Store.Commits.{
  Continues, Continues-refl, Continues-trans, Continues-commit_event, length-commit_event,
}
use awesome_go_agents.Session.Store.Sequences.{IsCommitting, commit_event-IsCommitting}
use awesome_go_agents.Session.Store.Retries.{IsIdentified}
use awesome_go_agents.Session.Store.Valid.{IsValid, commit_event-IsValid, identify_data, adopt_data}
use awesome_go_agents.Session.Lease.{fenced_prior, commit_fenced_all}

pub Continues-commit_fenced_all :
    (d : Draws) (sid : String) (i : ℕ) (es : List Event) (c : Commit)
    → Continues c.log (commit_fenced_all d sid i es c).log
unfolding commit_fenced_all
Continues-commit_fenced_all d sid i [] c = Continues-refl c.log
Continues-commit_fenced_all d sid i (e ∷ es) c =
    let e' = identify (d.token i) (adopt sid e) in
    let prior = fenced_prior e.id e'.id c.existing in
    Continues-trans c.log _ _ (Continues-commit_event (d.clock i) e' prior c)
      (Continues-commit_fenced_all d sid (suc i) es (commit_event (d.clock i) e' prior c))

pub length-committed :
    (d : Draws) (sid : String) (i : ℕ) (es : List Event) (c : Commit)
    → length (commit_fenced_all d sid i es c).committed ≡ length c.committed + length es
unfolding commit_fenced_all
length-committed d sid i [] c = omega arith
length-committed d sid i (e ∷ es) c =
    let e' = identify (d.token i) (adopt sid e) in
    let prior = fenced_prior e.id e'.id c.existing in
    let c' = commit_event (d.clock i) e' prior c in
    omega (arith, length-committed d sid (suc i) es c', length-commit_event (d.clock i) e' prior c)

pub commit_fenced_all-IsCommitting :
    (d : Draws) (sid : String) (i : ℕ) (es : List Event) (c : Commit)
    → c.next + length es + 1 < u64_mod
    → IsCommitting c
    → IsCommitting (commit_fenced_all d sid i es c)
      × ((commit_fenced_all d sid i es c).next ≤ c.next + length es)
unfolding commit_fenced_all
commit_fenced_all-IsCommitting d sid i [] c h v = (v, omega arith)
commit_fenced_all-IsCommitting d sid i (e ∷ es) c h v =
    let e' = identify (d.token i) (adopt sid e) in
    let prior = fenced_prior e.id e'.id c.existing in
    let step = commit_event-IsCommitting (d.clock i) e' prior c (omega arith) v in
    let rest =
      commit_fenced_all-IsCommitting d sid (suc i) es (commit_event (d.clock i) e' prior c)
        (omega (arith, step.1)) step.0 in
    (rest.0, omega (arith, rest.1, step.1))

pub commit_fenced_all-IsValid :
    (d : Draws) (sid : String) (i : ℕ) (es : List Event) (c : Commit)
    → All IsValid es
    → All IsValid c.log
    → All IsValid (commit_fenced_all d sid i es c).log
unfolding commit_fenced_all
commit_fenced_all-IsValid d sid i [] c h v = v
commit_fenced_all-IsValid d sid i (e ∷ es) c h v =
    let e' = identify (d.token i) (adopt sid e) in
    let prior = fenced_prior e.id e'.id c.existing in
    commit_fenced_all-IsValid d sid (suc i) es (commit_event (d.clock i) e' prior c) h.1 (
      commit_event-IsValid (d.clock i) e' prior c
        (identify_data (d.token i) (adopt sid e) ∙ adopt_data sid e ∙ h.0) v)

-- Where every event names itself, it is the loop of `AppendCommitted`.
pub commit_fenced_all-identified :
    (d : Draws) (sid : String) (i : ℕ) (es : List Event) (c : Commit)
    → IsIdentified es
    → commit_fenced_all d sid i es c ≡ commit_all d sid i es c
unfolding commit_fenced_all commit_all fenced_prior
commit_fenced_all-identified d sid i [] c h = refl
commit_fenced_all-identified d sid i (e ∷ es) c h =
    let e' = identify (d.token i) (adopt sid e) in
    let prior : fenced_prior e.id e'.id c.existing ≡ c.existing e'.id = rw h.0 refl in
    ap (λ o. commit_fenced_all d sid (suc i) es (commit_event (d.clock i) e' o c)) prior
    ∙ commit_fenced_all-identified d sid (suc i) es
        (commit_event (d.clock i) e' (c.existing e'.id) c) h.1

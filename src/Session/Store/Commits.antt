-- ===== src/Session/Store/Commits.antt =====
-- What a committing append (session/store.go: AppendCommitted) returns and stores.
use awesome_go_agents.Base.{
  ℕ, suc, ◌+◌, ◌≡◌, refl, List, [], ◌∷◌, ◌++◌, String, length, arith, Option, none, some,
  length-append, append_assoc, append-nil, ap, sym, ◌∙◌,
}
use awesome_go_agents.Session.Event.{Event}
use awesome_go_agents.Session.Store.{
  Draws, Commit, adopt, assign, identify, commit_all, commit_event,
}

-- The second log continues the first.
abbrev pub Continues : List Event → List Event → Type 0
Continues old new = (rest : List Event) × (new ≡ old ++ rest)

pub Continues-refl : (log : List Event) → Continues log log
Continues-refl log = ([], sym (append-nil log))

pub Continues-trans : (a b c : List Event) → Continues a b → Continues b c → Continues a c
Continues-trans a b c h k = (h.0 ++ k.0, k.1 ∙ ap (λ l. l ++ k.0) h.1 ∙ append_assoc a h.0 k.0)

pub Continues-commit_event :
    (now : ℕ) (e : Event) (prior : Option Event) (c : Commit)
    → Continues c.log (commit_event now e prior c).log
unfolding commit_event
Continues-commit_event now e (some prior) c = Continues-refl c.log
Continues-commit_event now e none c = (assign now c.next e ∷ [], refl)

pub Continues-commit_all :
    (d : Draws) (sid : String) (i : ℕ) (es : List Event) (c : Commit)
    → Continues c.log (commit_all d sid i es c).log
unfolding commit_all
Continues-commit_all d sid i [] c = Continues-refl c.log
Continues-commit_all d sid i (e ∷ es) c =
    let e' = identify (d.token i) (adopt sid e) in
    Continues-trans c.log _ _ (Continues-commit_event (d.clock i) e' (c.existing e'.id) c)
      (Continues-commit_all d sid (suc i) es (commit_event (d.clock i) e' (c.existing e'.id) c))

pub length-commit_event :
    (now : ℕ) (e : Event) (prior : Option Event) (c : Commit)
    → length (commit_event now e prior c).committed ≡ suc (length c.committed)
unfolding commit_event
length-commit_event now e none c =
    let e' = assign now c.next e in length-append c.committed (e' ∷ []) ∙ omega arith
length-commit_event now e (some prior) c = length-append c.committed (prior ∷ []) ∙ omega arith

-- One committed copy for each event of the batch.
pub length-committed :
    (d : Draws) (sid : String) (i : ℕ) (es : List Event) (c : Commit)
    → length (commit_all d sid i es c).committed ≡ length c.committed + length es
unfolding commit_all
length-committed d sid i [] c = omega arith
length-committed d sid i (e ∷ es) c =
    let e' = identify (d.token i) (adopt sid e) in
    let c' = commit_event (d.clock i) e' (c.existing e'.id) c in
    omega (
      arith,
      length-committed d sid (suc i) es c',
      length-commit_event (d.clock i) e' (c.existing e'.id) c,
    )

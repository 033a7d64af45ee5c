-- ===== src/Session/Store/Valid.antt =====
-- What a committing append stores passes the checks of replay (session/store.go, session/event.go).
use awesome_go_agents.Base.{
  ℕ, suc, ◌+◌, ◌≡◌, refl, ap, ◌∙◌, Option, none, some, List, [], ◌∷◌, String, All, All-append, u64,
  str_eq, ◌||◌, Bool-cases, inl, inr,
}
use awesome_go_agents.Session.Errors.{Result, ok, guard, wrong_session, ◌>>◌, >>=-eq-ok}
use awesome_go_agents.Session.Blocks.{is_blank}
use awesome_go_agents.Session.Event.{Event, normalize}
use awesome_go_agents.Session.Event.Versions.{validate_type-effective_version}
use awesome_go_agents.Session.Event.Validate.{validate, check_data}
use awesome_go_agents.Session.Store.{
  Draws, Commit, adopt, assign, identify, commit_event, commit_all, check_batch, stamp_all,
}

-- `Validate` accepts the event.
abbrev pub IsValid : Event → Type 0
IsValid e = validate e ≡ ok tt

validate-normalize : (now : ℕ) (e : Event) → validate (normalize now e) ≡ validate e
unfolding validate normalize
validate-normalize now e =
    ap (λ (r : Result (Unit {0})). r >> check_data e)
      (validate_type-effective_version e.type e.format_version)

pub adopt_data : (sid : String) (e : Event) → validate (adopt sid e) ≡ validate e
unfolding adopt validate
adopt_data sid e = elim (Bool-cases (is_blank e.session_id)) [
  | inl blank ↦ rw blank refl
  | inr named ↦ rw named refl
]

pub identify_data : (token : String) (e : Event) → validate (identify token e) ≡ validate e
unfolding identify validate
identify_data token e = elim (Bool-cases (is_blank e.id)) [
  | inl blank ↦ simp blank refl
  | inr named ↦ simp named refl
]

assign_data : (now n : ℕ) (e : Event) → validate (assign now n e) ≡ validate e
unfolding assign
assign_data now n e = validate-normalize now (record e { seq = n }) ∙ unfold validate in refl

-- A checked batch is valid.
pub check_batch-IsValid :
    (sid : String) (es : List Event) → check_batch sid es ≡ ok tt → All IsValid es
unfolding check_batch
check_batch-IsValid sid [] h = tt
check_batch-IsValid sid (e ∷ es) h =
    let (u, valid, h') = >>=-eq-ok (validate e) _ h in
    let (u', own, rest) =
      >>=-eq-ok (guard (is_blank e.session_id || str_eq e.session_id sid) wrong_session) _ h' in
    (valid, check_batch-IsValid sid es rest)

pub commit_event-IsValid :
    (now : ℕ) (e : Event) (prior : Option Event) (c : Commit)
    → IsValid e
    → All IsValid c.log
    → All IsValid (commit_event now e prior c).log
unfolding commit_event
commit_event-IsValid now e (some p) c h v = v
commit_event-IsValid now e none c h v =
    All-append IsValid c.log (assign now c.next e ∷ []) v (assign_data now c.next e ∙ h, tt)

pub commit_all-IsValid :
    (d : Draws) (sid : String) (i : ℕ) (es : List Event) (c : Commit)
    → All IsValid es
    → All IsValid c.log
    → All IsValid (commit_all d sid i es c).log
unfolding commit_all
commit_all-IsValid d sid i [] c h v = v
commit_all-IsValid d sid i (e ∷ es) c h v =
    let e' = identify (d.token i) (adopt sid e) in
    commit_all-IsValid d sid (suc i) es (commit_event (d.clock i) e' (c.existing e'.id) c) h.1 (
      commit_event-IsValid (d.clock i) e' (c.existing e'.id) c
        (identify_data (d.token i) (adopt sid e) ∙ adopt_data sid e ∙ h.0) v)

pub stamp_all-IsValid :
    (d : Draws) (sid : String) (i next : ℕ) (es : List Event)
    → All IsValid es
    → All IsValid (stamp_all d sid i next es).0
unfolding stamp_all
stamp_all-IsValid d sid i next [] h = tt
stamp_all-IsValid d sid i next (e ∷ es) h = (
  assign_data (d.clock i) next (adopt sid e) ∙ adopt_data sid e ∙ h.0,
  stamp_all-IsValid d sid (suc i) (u64 (next + 1)) es h.1,
)

-- Numbering an event does not touch what `Validate` looks at.
pub stamped_data :
    (now n : ℕ) (sid : String) (e : Event) → validate (assign now n (adopt sid e)) ≡ validate e
stamped_data now n sid e = assign_data now n (adopt sid e) ∙ adopt_data sid e

-- ===== src/Session/Recovery/Deferred/Closings.antt =====
-- Which steps recovery leaves open (session/fenced.go: Recover).
use awesome_go_agents.Base.{
  ◌≡◌, refl, sym, ap, ◌∙◌, Bool, true, false, List, [], ◌∷◌, ◌++◌, String, All, ◌⊎◌, inl, inr,
  if◌then◌else◌, Bool-cases,
}
use mathlib.Core.Path.{subst}
use awesome_go_agents.Session.Event.{Event}
use awesome_go_agents.Session.Recovery.Steps.{
  OpenStep, key_of, open_steps, sort_steps, step_end_event, step_end_events,
  interrupted_step_end_events,
}
use awesome_go_agents.Session.Recovery.Steps.Closed.{
  Keyed, Has, Stored, map_All, open_steps-Keyed, sort_steps-All, sort_steps-Has, open_steps-append,
  closes,
}
use awesome_go_agents.Session.Recovery.Deferred.{
  pending_deferred_scopes, filter_step_ends, recovered_step_ends,
}

-- The entries whose end events pass the filter.
wanted : (String → Bool) → List OpenStep → List OpenStep
wanted deferred [] = []
wanted deferred (st ∷ sts) =
    let rest = wanted deferred sts in if deferred (key_of st.event) then rest else st ∷ rest

if_step_ends :
    (digest : String → String) (sid : String) (b : Bool) (st : OpenStep) (es : List Event)
    (sts : List OpenStep)
    → es ≡ step_end_events digest sid sts
    → (if b then es else step_end_event digest sid st ∷ es)
      ≡ step_end_events digest sid (if b then sts else st ∷ sts)
unfolding step_end_events
if_step_ends digest sid true st es sts h = h
if_step_ends digest sid false st es sts h = ap (◌∷◌ (step_end_event digest sid st)) h

filter_step_ends-wanted :
    (deferred : String → Bool) (digest : String → String) (sid : String) (sts : List OpenStep)
    → filter_step_ends deferred (step_end_events digest sid sts)
      ≡ step_end_events digest sid (wanted deferred sts)
unfolding filter_step_ends step_end_events step_end_event wanted
filter_step_ends-wanted deferred digest sid [] = refl
filter_step_ends-wanted deferred digest sid (st ∷ sts) =
    if_step_ends digest sid (deferred (key_of st.event)) st
      (filter_step_ends deferred (step_end_events digest sid sts)) (wanted deferred sts)
      (filter_step_ends-wanted deferred digest sid sts)

wanted-All :
    (P : OpenStep → Type 0) (deferred : String → Bool) (sts : List OpenStep)
    → All P sts
    → All P (wanted deferred sts)
unfolding wanted
wanted-All P deferred [] h = tt
wanted-All P deferred (st ∷ sts) h = elim (Bool-cases (deferred (key_of st.event))) [
  | inl left_out ↦ rw left_out (wanted-All P deferred sts h.1)
  | inr kept ↦ rw kept (h.0, wanted-All P deferred sts h.1)
]

wanted-Has :
    (deferred : String → Bool) (sts : List OpenStep) (k : String)
    → All Keyed sts
    → Has sts k
    → Has (wanted deferred sts) k ⊎ (deferred k ≡ true)
unfolding wanted
wanted-Has deferred (st ∷ sts) k v (inl same) = elim (Bool-cases (deferred (key_of st.event))) [
  | inl left_out ↦ inr (ap deferred (same ∙ v.0.key) ∙ left_out)
  | inr kept ↦ inl (rw kept (inl same))
]
wanted-Has deferred (st ∷ sts) k v (inr later) = elim (wanted-Has deferred sts k v.1 later) [
  | inr waits ↦ inr waits
  | inl found ↦ elim (Bool-cases (deferred (key_of st.event))) [
    | inl left_out ↦ inl (rw left_out found)
    | inr kept ↦ inl (rw kept (inr found))
  ]
]
wanted-Has deferred [] k v h = absurd h

-- Recovery leaves no step open but those of calls that wait for their resumption. Once the store has
-- added the step/end events that `Recover` makes for a log, with whatever numbers, times, ids and
-- sessions it gives them, every step that is open in the log is one that `pendingDeferredScopes` found
-- to be deferred.
pub recovered_step_ends-deferred :
    (digest : String → String) (es stored : List Event) (sid : String)
    → Stored (recovered_step_ends digest es sid) stored
    → All (λ st. (pending_deferred_scopes es).0 st.key ≡ true) (open_steps (es ++ stored) [])
unfolding recovered_step_ends interrupted_step_end_events
recovered_step_ends-deferred digest es stored sid same =
    let running = open_steps es [] in
    let deferred = (pending_deferred_scopes es).0 in
    let sorted = sort_steps running in
    let keyed : All Keyed sorted = sort_steps-All Keyed running (open_steps-Keyed es [] tt) in
    let IsDeferred : OpenStep → Type 0 = λ st. deferred st.key ≡ true in
    subst (All IsDeferred) (sym (open_steps-append es stored [])) (
      closes IsDeferred digest sid (wanted deferred sorted) stored running
        (wanted-All Keyed deferred sorted keyed)
        (subst (λ ends. Stored ends stored) (filter_step_ends-wanted deferred digest sid sorted)
          same)
        (map_All running (λ st found. wanted-Has deferred sorted st.key keyed found)
          (sort_steps-Has running)))

-- ===== src/Session/Recovery/Steps/Closed.antt =====
-- After its recovery a log has no open step (session/recovery.go).
use awesome_go_agents.Base.{
  ◌≡◌, refl, sym, ap, ◌∙◌, Bool, true, false, ◌||◌, List, [], ◌∷◌, ◌++◌, String, All, ◌⊎◌, inl, inr,
  if◌then◌else◌, str_eq, Bool-cases, eq_iff, arith,
}
use mathlib.Core.Path.{subst}
use awesome_go_agents.Session.Blocks.{is_blank}
use awesome_go_agents.Session.Event.{EventType, Event, step_start, step_end}
use awesome_go_agents.Session.Recovery.Steps.{
  OpenStep, drop_step, key_of, track_type, open_steps, step_before, insert_step, sort_steps,
  step_end_event, step_end_events, interrupted_step_end_events,
}

-- An entry stands under the key of its event, which names a step and a turn.
pub record Keyed (st : OpenStep) : Type 0 where
  pub key : st.key ≡ key_of st.event
  pub named : is_blank st.event.step_id || is_blank st.event.turn_id ≡ false

-- A key stands in a list of entries.
abbrev pub Has : List OpenStep → String → Type 0
Has [] k = ⊥
Has (st ∷ rest) k = (k ≡ st.key) ⊎ Has rest k

drop_step-All :
    {P Q : OpenStep → Type 0} (k : String) (running : List OpenStep)
    → ((st : OpenStep) → str_eq k st.key ≡ false → P st → Q st)
    → All P running
    → All Q (drop_step k running)
unfolding drop_step
drop_step-All k [] f h = tt
drop_step-All k (st ∷ running) f h = elim (Bool-cases (str_eq k st.key)) [
  | inl same ↦ rw same (drop_step-All k running f h.1)
  | inr other ↦ rw other (f st other h.0, drop_step-All k running f h.1)
]

if_All :
    (P : OpenStep → Type 0) (b : Bool) (x y : List OpenStep)
    → (b ≡ true → All P x)
    → (b ≡ false → All P y)
    → All P (if b then x else y)
if_All P true x y h k = h refl
if_All P false x y h k = k refl

track_type-Keyed :
    (t : EventType) (e : Event) (running : List OpenStep)
    → is_blank e.step_id || is_blank e.turn_id ≡ false
    → All Keyed running
    → All Keyed (track_type t e running)
unfolding track_type
track_type-Keyed step_start e running n h =
    (record { key = refl; named = n }, drop_step-All (key_of e) running (λ st other v. v) h)
track_type-Keyed step_end e running n h = drop_step-All (key_of e) running (λ st other v. v) h
track_type-Keyed _ e running n h = h

pub open_steps-Keyed :
    (es : List Event) (running : List OpenStep)
    → All Keyed running
    → All Keyed (open_steps es running)
unfolding open_steps
open_steps-Keyed [] running h = h
open_steps-Keyed (e ∷ es) running h =
    let blank = is_blank e.step_id || is_blank e.turn_id in
    open_steps-Keyed es (if blank then running else track_type e.type e running) (
      if_All Keyed blank running (track_type e.type e running) (λ b. h)
        (λ n. track_type-Keyed e.type e running n h))

insert_step-All :
    (P : OpenStep → Type 0) (st : OpenStep) (sts : List OpenStep)
    → P st
    → All P sts
    → All P (insert_step st sts)
unfolding insert_step
insert_step-All P st [] p h = (p, tt)
insert_step-All P st (next ∷ rest) p h =
    if_All P (step_before st next) (st ∷ next ∷ rest) (next ∷ insert_step st rest) (λ b. (p, h))
      (λ b. (h.0, insert_step-All P st rest p h.1))

pub sort_steps-All :
    (P : OpenStep → Type 0) (sts : List OpenStep) → All P sts → All P (sort_steps sts)
unfolding sort_steps
sort_steps-All P [] h = tt
sort_steps-All P (st ∷ rest) h =
    insert_step-All P st (sort_steps rest) h.0 (sort_steps-All P rest h.1)

if_Has :
    (k : String) (b : Bool) (x y : List OpenStep)
    → (b ≡ true → Has x k)
    → (b ≡ false → Has y k)
    → Has (if b then x else y) k
if_Has k true x y h j = h refl
if_Has k false x y h j = j refl

insert_step-here : (st : OpenStep) (sts : List OpenStep) → Has (insert_step st sts) st.key
unfolding insert_step
insert_step-here st [] = inl refl
insert_step-here st (next ∷ rest) =
    if_Has st.key (step_before st next) (st ∷ next ∷ rest) (next ∷ insert_step st rest)
      (λ b. inl refl) (λ b. inr (insert_step-here st rest))

insert_step-Has :
    (st : OpenStep) (sts : List OpenStep) (k : String) → Has sts k → Has (insert_step st sts) k
unfolding insert_step
insert_step-Has st [] k h = absurd h
insert_step-Has st (next ∷ rest) k (inl same) =
    if_Has k (step_before st next) (st ∷ next ∷ rest) (next ∷ insert_step st rest)
      (λ b. inr (inl same)) (λ b. inl same)
insert_step-Has st (next ∷ rest) k (inr later) =
    if_Has k (step_before st next) (st ∷ next ∷ rest) (next ∷ insert_step st rest)
      (λ b. inr (inr later)) (λ b. inr (insert_step-Has st rest k later))

pub map_All :
    {P Q : OpenStep → Type 0} (sts : List OpenStep)
    → ((st : OpenStep) → P st → Q st)
    → All P sts
    → All Q sts
map_All [] f h = tt
map_All (st ∷ sts) f h = (f st h.0, map_All sts f h.1)

pub sort_steps-Has : (sts : List OpenStep) → All (λ st. Has (sort_steps sts) st.key) sts
unfolding sort_steps
sort_steps-Has [] = tt
sort_steps-Has (st ∷ rest) = (
  insert_step-here st (sort_steps rest),
  map_All rest (λ other h. insert_step-Has st (sort_steps rest) other.key h) (sort_steps-Has rest),
)

elsewhere :
    (k j : String) (sts : List OpenStep) (A : Type 0)
    → str_eq k j ≡ false
    → ((j ≡ k) ⊎ Has sts j) ⊎ A
    → Has sts j ⊎ A
elsewhere k j sts A differ (inl (inl same)) = absurd (ground (arith, eq_iff k j, same, differ))
elsewhere k j sts A differ (inl (inr later)) = inl later
elsewhere k j sts A differ (inr kept) = inr kept

-- What the store makes of the events that recovery hands in: their type and the place in the log that
-- they close are kept; the number, the time and the rest are whatever it gives them.
pub record SameStep (e stored : Event) : Type 0 where
  pub type : stored.type ≡ e.type
  pub run : stored.run_id ≡ e.run_id
  pub turn : stored.turn_id ≡ e.turn_id
  pub step : stored.step_id ≡ e.step_id

abbrev pub Stored : List Event → List Event → Type 0
Stored [] [] = Unit
Stored (e ∷ es) (stored ∷ more) = SameStep e stored × Stored es more
Stored _ _ = ⊥

unless : (b : Bool) (x y : List OpenStep) → b ≡ false → (if b then x else y) ≡ y
unless b x y h = rw h refl

-- An end event takes its entry out.
tracked :
    (digest : String → String) (sid : String) (st : OpenStep) (e : Event) (running : List OpenStep)
    → Keyed st
    → SameStep (step_end_event digest sid st) e
    → (if is_blank e.step_id || is_blank e.turn_id then running else track_type e.type e running)
      ≡ drop_step st.key running
unfolding step_end_event track_type
tracked digest sid st e running v same =
    let k : key_of e ≡ st.key = rw (same.run, same.turn, same.step, v.key) refl in
    let named : is_blank e.step_id || is_blank e.turn_id ≡ false =
      rw (same.step, same.turn) v.named in
    unless (is_blank e.step_id || is_blank e.turn_id) running (track_type e.type e running) named
    ∙ ap (λ t. track_type t e running) same.type
    ∙ ap (λ t. drop_step t running) k

-- End events for some keys leave the entries of the other keys.
pub closes :
    (P : OpenStep → Type 0) (digest : String → String) (sid : String) (sts : List OpenStep)
    (stored : List Event) (running : List OpenStep)
    → All Keyed sts
    → Stored (step_end_events digest sid sts) stored
    → All (λ st. Has sts st.key ⊎ P st) running
    → All P (open_steps stored running)
unfolding step_end_events open_steps
closes P digest sid [] [] running v same h =
    map_All running (λ st. elim [ inl found ↦ absurd found | inr kept ↦ kept ]) h
closes P digest sid [] (e ∷ stored) running v same h = absurd same
closes P digest sid (st ∷ sts) [] running v same h = absurd same
closes P digest sid (st ∷ sts) (e ∷ stored) running v same h =
    subst (λ left. All P (open_steps stored left))
      (sym (tracked digest sid st e running v.0 same.0))
      (closes P digest sid sts stored (drop_step st.key running) v.1 same.1 (
        drop_step-All st.key running
          (λ other differ found. elsewhere st.key other.key sts (P other) differ found) h))

pub open_steps-append :
    (es more : List Event) (running : List OpenStep)
    → open_steps (es ++ more) running ≡ open_steps more (open_steps es running)
unfolding open_steps
open_steps-append [] more running = refl
open_steps-append (e ∷ es) more running = open_steps-append es more _

no_entry : (sts : List OpenStep) → All (λ st. ⊥) sts → sts ≡ []
no_entry [] h = refl
no_entry (st ∷ sts) h = absurd (h.0)

-- Recovery closes every step. Once the store has added the events that `InterruptedStepEndEvents`
-- returns for a log, with whatever numbers, times, ids and sessions it gives them, the log has no open
-- step, and the function returns nothing more.
pub interrupted_step_end_events-closed :
    (digest : String → String) (es stored : List Event) (sid : String)
    → Stored (interrupted_step_end_events digest es sid) stored
    → interrupted_step_end_events digest (es ++ stored) sid ≡ []
unfolding interrupted_step_end_events
interrupted_step_end_events-closed digest es stored sid same =
    let running = open_steps es [] in
    let none_left : open_steps (es ++ stored) [] ≡ [] =
      open_steps-append es stored []
      ∙ no_entry (open_steps stored running) (
          closes (λ st. ⊥) digest sid (sort_steps running) stored running
            (sort_steps-All Keyed running (open_steps-Keyed es [] tt)) same
            (map_All running (λ st found. inl found) (sort_steps-Has running))) in
    rw none_left (unfold sort_steps step_end_events in refl)

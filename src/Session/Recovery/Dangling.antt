-- ===== src/Session/Recovery/Dangling.antt =====
-- The calls whose outcome recovery does not know (session/fenced.go: danglingCallIDs,
-- dispatchedCallIDs).
use awesome_go_agents.Base.{
  ◌≡◌, refl, sym, ap, ◌∙◌, Bool, true, false, not, ◌&&◌, List, [], ◌∷◌, String, inl, inr,
  Bool-cases, str_eq-cases, update, if◌then◌else◌, arith, All, select, eq_iff,
}
use awesome_go_agents.Session.Json.{Json, element_text, elements_of, payload_field, payload_text}
use awesome_go_agents.Session.Blocks.{is_blank}
use awesome_go_agents.Session.Event.{
  EventType, Event, tool_call, tool_dispatched, tool_running, tool_deferred, tool_resume_started,
  assistant_message, tool_result, approval_requested,
}
use awesome_go_agents.Session.Recovery.{
  CallState, pending, dispatched, deferred, resuming, materialized_resuming, result,
  approval_pending, approval_resolved, Scan, new_scan, remember, set_state, announce, announce_all,
  move, resolve, scan_type, scan, is_open, dangling_call_ids, marks_dispatch, mark_dispatched,
  dispatched_call_ids, outcome_code, tool_outcome_unknown, is_approval_pending, is_materialized,
  resolved_id,
}

-- A scan in which only dispatched calls are open.
abbrev IsBacked : (String → Bool) → Scan → Type 0
IsBacked ids sc = (k : String) → is_open (sc.state k) ≡ true → ids k ≡ true

IsBacked-remember :
    (ids : String → Bool) (id : String) (sc : Scan)
    → IsBacked ids sc
    → IsBacked ids (remember id sc)
unfolding remember
IsBacked-remember ids id sc h k opened = ground (arith, h k)

-- A call may take any state that is not open, or any state once its dispatch is marked.
IsBacked-set_state :
    (ids : String → Bool) (id : String) (st : CallState) (sc : Scan)
    → (is_open st ≡ true → ids id ≡ true)
    → IsBacked ids sc
    → IsBacked ids (set_state id st sc)
unfolding set_state
IsBacked-set_state ids id st sc own h k opened = elim (str_eq-cases id k) [
  | inl (same, p) ↦ ap ids (sym p) ∙ own (rw same at opened)
  | inr (differ, p) ↦ h k (rw differ at opened)
]

-- Both branches of a test.
IsBacked-if :
    (ids : String → Bool) (b : Bool) (x y : Scan)
    → (b ≡ true → IsBacked ids x)
    → (b ≡ false → IsBacked ids y)
    → IsBacked ids (if b then x else y)
IsBacked-if ids true x y h k = h refl
IsBacked-if ids false x y h k = k refl

IsBacked-announce :
    (ids : String → Bool) (id : String) (sc : Scan)
    → IsBacked ids sc
    → IsBacked ids (announce id sc)
unfolding announce
IsBacked-announce ids id sc h =
    let sc' = remember id sc in
    let kept = IsBacked-remember ids id sc h in
    IsBacked-if ids _ (set_state id pending sc') sc'
      (λ e. IsBacked-set_state ids id pending sc' (λ e'. absurd (cc)) kept) (λ e. kept)

IsBacked-announce_all :
    (ids : String → Bool) (js : List Json) (sc : Scan)
    → IsBacked ids sc
    → IsBacked ids (announce_all js sc)
unfolding announce_all
IsBacked-announce_all ids [] sc h = h
IsBacked-announce_all ids (j ∷ js) sc h =
    IsBacked-announce_all ids js (announce (element_text "call_id" j) sc)
      (IsBacked-announce ids (element_text "call_id" j) sc h)

IsBacked-move :
    (ids : String → Bool) (id : String) (st : CallState) (sc : Scan)
    → (is_blank id ≡ false → is_open st ≡ true → ids id ≡ true)
    → IsBacked ids sc
    → IsBacked ids (move id st sc)
unfolding move
IsBacked-move ids id st sc own h =
    let sc' = remember id sc in
    IsBacked-if ids (is_blank id) sc (set_state id st sc') (λ e. h)
      (λ named. IsBacked-set_state ids id st sc' (own named) (IsBacked-remember ids id sc h))

IsBacked-resolve :
    (ids : String → Bool) (id : String) (sc : Scan) → IsBacked ids sc → IsBacked ids (resolve id sc)
unfolding resolve
IsBacked-resolve ids id sc h =
    let sc' = remember id sc in
    let kept = IsBacked-remember ids id sc h in
    let answered = set_state id approval_resolved sc' in
    let asked = is_approval_pending (sc'.state id) in
    IsBacked-if ids (is_blank id) sc (if asked then answered else sc') (λ e. h)
      (λ named.
        IsBacked-if ids asked answered sc'
          (λ e. IsBacked-set_state ids id approval_resolved sc' (λ e'. absurd (cc)) kept)
          (λ e. kept))

-- What an event adds to the marks.
mark : Event → (String → Bool) → String → Bool
mark e ids =
    if marks_dispatch e.type && not (is_blank e.call_id) then update ids e.call_id true else ids

mark_more : (e : Event) (ids : String → Bool) (k : String) → ids k ≡ true → mark e ids k ≡ true
unfolding mark
mark_more e ids k h = ground (arith, h)

IsBacked-mark :
    (e : Event) (ids : String → Bool) (sc : Scan) → IsBacked ids sc → IsBacked (mark e ids) sc
IsBacked-mark e ids sc h k opened = mark_more e ids k (h k opened)

mark_self :
    (e : Event) (ids : String → Bool)
    → marks_dispatch e.type ≡ true
    → is_blank e.call_id ≡ false
    → mark e ids e.call_id ≡ true
unfolding mark
mark_self e ids h k = ground (arith, eq_iff e.call_id e.call_id)

opening_move :
    (e : Event) (ids : String → Bool) (st : CallState) (sc : Scan)
    → marks_dispatch e.type ≡ true
    → IsBacked (mark e ids) sc
    → IsBacked (mark e ids) (move e.call_id st sc)
opening_move e ids st sc h v =
    IsBacked-move (mark e ids) e.call_id st sc (λ named is. mark_self e ids h named) v

closed_move :
    (ids : String → Bool) (id : String) (st : CallState) (sc : Scan)
    → is_open st ≡ false
    → IsBacked ids sc
    → IsBacked ids (move id st sc)
closed_move ids id st sc h v = IsBacked-move ids id st sc (λ named is. absurd (cc)) v

IsBacked-scan_type :
    (t : EventType) (e : Event) (ids : String → Bool) (sc : Scan)
    → e.type ≡ t
    → IsBacked (mark e ids) sc
    → IsBacked (mark e ids) (scan_type t e sc)
unfolding scan_type
IsBacked-scan_type tool_call e ids sc h v =
    IsBacked-announce (mark e ids) (payload_text "call_id" e.raw) sc v
IsBacked-scan_type tool_dispatched e ids sc h v =
    opening_move e ids dispatched sc (ap marks_dispatch h) v
IsBacked-scan_type tool_running e ids sc h v =
    opening_move e ids dispatched sc (ap marks_dispatch h) v
IsBacked-scan_type tool_deferred e ids sc h v =
    closed_move (mark e ids) e.call_id deferred sc refl v
IsBacked-scan_type tool_resume_started e ids sc h v =
    opening_move e ids (if is_materialized e.raw then materialized_resuming else resuming) sc
      (ap marks_dispatch h) v
IsBacked-scan_type assistant_message e ids sc h v =
    IsBacked-announce_all (mark e ids) (elements_of (payload_field "tool_calls" e.raw)) sc v
IsBacked-scan_type tool_result e ids sc h v =
    closed_move (mark e ids) (payload_text "call_id" e.raw) result sc refl v
IsBacked-scan_type approval_requested e ids sc h v =
    closed_move (mark e ids) e.call_id approval_pending sc refl v
IsBacked-scan_type EventType.approval_resolved e ids sc h v =
    IsBacked-resolve (mark e ids) (resolved_id e.raw) sc v
IsBacked-scan_type _ e ids sc h v = v

IsBacked-scan :
    (es : List Event) (ids : String → Bool) (sc : Scan)
    → IsBacked ids sc
    → IsBacked (mark_dispatched es ids) (scan es sc)
unfolding scan mark_dispatched mark
IsBacked-scan [] ids sc h = h
IsBacked-scan (e ∷ es) ids sc h =
    IsBacked-scan es (mark e ids) (scan_type e.type e sc)
      (IsBacked-scan_type e.type e ids sc refl (IsBacked-mark e ids sc h))

All-select :
    (p : String → Bool) (P : String → Type 0) (ids : List String)
    → ((k : String) → p k ≡ true → P k)
    → All P (select p ids)
All-select p P [] h = tt
All-select p P (k ∷ ids) h = elim (Bool-cases (p k)) [
  | inl hit ↦ rw hit (h k hit, All-select p P ids h)
  | inr miss ↦ rw miss (All-select p P ids h)
]

-- Every call that recovery finds dangling was dispatched, so the result that it writes always has
-- the code TOOL_OUTCOME_UNKNOWN: the branch for ABORTED_BEFORE_DISPATCH is never taken.
pub dangling_call_ids-dispatched :
    (es : List Event)
    → All
        (λ id. (dispatched_call_ids es id ≡ true) × (outcome_code es id ≡ tool_outcome_unknown))
        (dangling_call_ids es)
unfolding dangling_call_ids dispatched_call_ids outcome_code
dangling_call_ids-dispatched es = All-select _ _ (scan es new_scan).call_ids (λ k is.
    let marked = IsBacked-scan es (λ id. false) new_scan (λ j e. absurd (cc)) k is in
    (marked, rw marked))

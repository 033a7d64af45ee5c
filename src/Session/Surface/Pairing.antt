-- ===== src/Session/Surface/Pairing.antt =====
-- The check that no call is parted from its result (session/surface.go: validatePairing).
--
-- Bool stands for the error: true where the source returns nil.
use awesome_go_agents.Base.{
  ℕ, Bool, true, false, not, ◌&&◌, ◌||◌, Option, none, some, List, [], ◌∷◌, String, if◌then◌else◌,
  update,
}
use awesome_go_agents.Session.Json.{
  Json, RawMessage, empty, malformed, value, Fields, struct_fields, find_field, text_fits,
  elements_of, elements_fit, element_text,
}
use awesome_go_agents.Session.Blocks.{is_blank}
use awesome_go_agents.Session.Event.{EventType, Event, tool_result, assistant_message}
pub mod Pairs

abbrev pub is_result : EventType → Bool
is_result tool_result = true
is_result _ = false

abbrev pub is_assistant : EventType → Bool
is_assistant assistant_message = true
is_assistant _ = false

-- `resultByCall`
unfoldable pub result_by_call : List Event → (String → Option ℕ) → String → Option ℕ
result_by_call [] results = results
result_by_call (e ∷ es) results = result_by_call es (
    if is_result e.type && not (is_blank e.call_id)
    then update results e.call_id (some e.seq)
    else results)

-- Whether an element of `tool_calls` decodes as a `ToolCall`.
call_fits : Json → Bool
unfolding find_field
call_fits j = elim (struct_fields j) [
  | none ↦ false
  | some fs ↦ text_fits (find_field "call_id" fs) && text_fits (find_field "name" fs)
]

calls_fit : List Json → Bool
unfolding call_fits
calls_fit [] = true
calls_fit (j ∷ js) = call_fits j && calls_fit js

-- The call ids of the elements that have one.
call_ids_of : List Json → List String
call_ids_of [] = []
call_ids_of (j ∷ js) =
    let rest = call_ids_of js in
    if is_blank (element_text "call_id" j) then rest else element_text "call_id" j ∷ rest

call_ids_in : Option Fields → List String
unfolding calls_fit call_ids_of elements_of find_field
call_ids_in none = []
call_ids_in (some fs) =
    let calls = find_field "tool_calls" fs in
    if elements_fit calls && calls_fit (elements_of calls)
    then call_ids_of (elements_of calls)
    else []

-- The calls that the loop over the assistant messages takes from an event.
unfoldable pub calls_of : Event → List String
unfolding call_ids_in
calls_of e =
    if is_assistant e.type
    then elim e.raw [ empty ↦ [] | malformed ↦ [] | value j ↦ call_ids_in (struct_fields j) ]
    else []

-- A visible call whose result is shadowed.
unfoldable pub parts : (ℕ → Bool) → ℕ → Option ℕ → Bool
parts shadowed seq none = false
parts shadowed seq (some result) = not (shadowed seq) && shadowed result

-- The calls of one message: none is the error.
unfoldable pub check_calls :
    (String → Option ℕ)
    → (ℕ → Bool)
    → ℕ
    → List String
    → (String → Option ℕ)
    → Option (String → Option ℕ)
unfolding parts
check_calls results shadowed seq [] by_call = some by_call
check_calls results shadowed seq (id ∷ ids) by_call =
    let rest = check_calls results shadowed seq ids (update by_call id (some seq)) in
    if parts shadowed seq (results id) then none else rest

unfoldable pub check_assistants :
    (String → Option ℕ) → (ℕ → Bool) → List Event → (String → Option ℕ) → Option (String → Option ℕ)
unfolding check_calls calls_of
check_assistants results shadowed [] by_call = some by_call
check_assistants results shadowed (e ∷ es) by_call =
    elim (check_calls results shadowed e.seq (calls_of e) by_call) [
      | none ↦ none
      | some by_call' ↦ check_assistants results shadowed es by_call'
    ]

-- The sources of a result: those that it names, or the message that announced its call.
abbrev pub announced_by : Option ℕ → List ℕ
announced_by none = []
announced_by (some seq) = seq ∷ []

unfoldable pub sources_of : (String → Option ℕ) → Event → List ℕ → List ℕ
sources_of by_call e (seq ∷ seqs) = seq ∷ seqs
sources_of by_call e [] = if is_blank e.call_id then [] else announced_by (by_call e.call_id)

unfoldable pub any_shadowed : (ℕ → Bool) → List ℕ → Bool
any_shadowed shadowed [] = false
any_shadowed shadowed (seq ∷ seqs) = shadowed seq || any_shadowed shadowed seqs

unfoldable pub check_results : (ℕ → Bool) → (String → Option ℕ) → List Event → Bool
unfolding sources_of any_shadowed
check_results shadowed by_call [] = true
check_results shadowed by_call (e ∷ es) =
    let rest = check_results shadowed by_call es in
    if is_result e.type
      && not (shadowed e.seq)
      && any_shadowed shadowed (sources_of by_call e e.source_seqs)
    then false
    else rest

unfoldable pub validate_pairing : List Event → (ℕ → Bool) → Bool
unfolding check_assistants result_by_call check_results
validate_pairing es shadowed =
    elim (check_assistants (result_by_call es (λ id. none)) shadowed es (λ id. none)) [
      | none ↦ false
      | some by_call ↦ check_results shadowed by_call es
    ]

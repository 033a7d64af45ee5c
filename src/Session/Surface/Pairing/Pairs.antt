-- ===== src/Session/Surface/Pairing/Pairs.antt =====
-- What the check of the pairing promises (session/surface.go: validatePairing).
use awesome_go_agents.Base.{
  ℕ, ◌≡◌, refl, sym, ap, ◌∙◌, Bool, true, false, not, ◌&&◌, Option, none, some, List, [], ◌∷◌,
  String, All, if◌then◌else◌, update, inl, inr, Bool-cases,
}
use mathlib.Core.Path.{subst}
use awesome_go_agents.Session.Event.{Event}
use awesome_go_agents.Session.Surface.Pairing.{
  is_result, result_by_call, calls_of, parts, check_calls, check_assistants, sources_of,
  any_shadowed, check_results, validate_pairing,
}

-- The message that announced a call last.
pub announce_calls : ℕ → List String → (String → Option ℕ) → String → Option ℕ
announce_calls seq [] by_call = by_call
announce_calls seq (id ∷ ids) by_call = announce_calls seq ids (update by_call id (some seq))

pub assistant_by_call : List Event → (String → Option ℕ) → String → Option ℕ
unfolding announce_calls
assistant_by_call [] by_call = by_call
assistant_by_call (e ∷ es) by_call =
    assistant_by_call es (announce_calls e.seq (calls_of e) by_call)

-- No call of the message at `seq` has a shadowed result while the message is visible.
abbrev pub KeepsResults : (String → Option ℕ) → (ℕ → Bool) → Event → Type 0
KeepsResults results shadowed e =
    shadowed e.seq ≡ false
    → All (λ id. (r : ℕ) → results id ≡ some r → shadowed r ≡ false) (calls_of e)

-- A visible result has all its sources.
abbrev pub KeepsSources : (String → Option ℕ) → (ℕ → Bool) → Event → Type 0
KeepsSources by_call shadowed e =
    is_result e.type ≡ true
    → shadowed e.seq ≡ false
    → All (λ s. shadowed s ≡ false) (sources_of by_call e e.source_seqs)

parts_lem :
    (shadowed : ℕ → Bool) (seq : ℕ) (o : Option ℕ)
    → parts shadowed seq o ≡ false
    → shadowed seq ≡ false
    → (r : ℕ) → o ≡ some r
    → shadowed r ≡ false
unfolding parts
parts_lem shadowed seq none h v r e = absurd (cc)
parts_lem shadowed seq (some q) h v r e =
    let same : q ≡ r = cc in sym (ap shadowed same) ∙ sym (ap (λ b. not b && shadowed q) v) ∙ h

if_some :
    {A : Type 0} (b : Bool) (o : Option A) (a : A)
    → (if b then none else o) ≡ some a
    → (b ≡ false) × (o ≡ some a)
if_some true o a h = absurd (cc)
if_some false o a h = (refl, h)

through :
    {A B : Type 0} (o : Option A) (f : A → Option B) (b : B)
    → elim o [ none ↦ none | some a ↦ f a ] ≡ some b
    → (a : A) × (o ≡ some a) × (f a ≡ some b)
through none f b h = absurd (cc)
through (some a) f b h = (a, refl, h)

when_some :
    {A : Type 0} (o : Option A) (f : A → Bool)
    → elim o [ none ↦ false | some a ↦ f a ] ≡ true
    → (a : A) × (o ≡ some a) × (f a ≡ true)
when_some none f h = absurd (cc)
when_some (some a) f h = (a, refl, h)

check_calls_lem :
    (results : String → Option ℕ) (shadowed : ℕ → Bool) (seq : ℕ) (ids : List String)
    (by_call after : String → Option ℕ)
    → check_calls results shadowed seq ids by_call ≡ some after
    → (shadowed seq ≡ false → All (λ id. (r : ℕ) → results id ≡ some r → shadowed r ≡ false) ids)
      × (after ≡ announce_calls seq ids by_call)
unfolding check_calls announce_calls
check_calls_lem results shadowed seq [] by_call after h = (λ v. tt, cc)
check_calls_lem results shadowed seq (id ∷ ids) by_call after h =
    let (kept, rest) =
      if_some (parts shadowed seq (results id))
        (check_calls results shadowed seq ids (update by_call id (some seq))) after h in
    let (all, same) =
      check_calls_lem results shadowed seq ids (update by_call id (some seq)) after rest in
    (λ v. (parts_lem shadowed seq (results id) kept v, all v), same)

check_assistants_lem :
    (results : String → Option ℕ) (shadowed : ℕ → Bool) (es : List Event)
    (by_call after : String → Option ℕ)
    → check_assistants results shadowed es by_call ≡ some after
    → All (KeepsResults results shadowed) es × (after ≡ assistant_by_call es by_call)
unfolding check_assistants assistant_by_call
check_assistants_lem results shadowed [] by_call after h = (tt, cc)
check_assistants_lem results shadowed (e ∷ es) by_call after h =
    let (next, message, rest) =
      through (check_calls results shadowed e.seq (calls_of e) by_call)
        (check_assistants results shadowed es) after h in
    let (kept, same) = check_calls_lem results shadowed e.seq (calls_of e) by_call next message in
    let (all, all_same) = check_assistants_lem results shadowed es next after rest in
    ((kept, all), all_same ∙ ap (assistant_by_call es) same)

none_shadowed :
    (shadowed : ℕ → Bool) (seqs : List ℕ)
    → any_shadowed shadowed seqs ≡ false
    → All (λ s. shadowed s ≡ false) seqs
unfolding any_shadowed
none_shadowed shadowed [] h = tt
none_shadowed shadowed (s ∷ seqs) h = elim (Bool-cases (shadowed s)) [
  | inl hidden ↦ absurd (cc)
  | inr visible ↦ (visible, none_shadowed shadowed seqs (cc))
]

if_true : (b rest : Bool) → (if b then false else rest) ≡ true → (b ≡ false) × (rest ≡ true)
if_true true rest h = absurd (cc)
if_true false rest h = (refl, h)

check_results_lem :
    (shadowed : ℕ → Bool) (by_call : String → Option ℕ) (es : List Event)
    → check_results shadowed by_call es ≡ true
    → All (KeepsSources by_call shadowed) es
unfolding check_results
check_results_lem shadowed by_call [] h = tt
check_results_lem shadowed by_call (e ∷ es) h =
    let bad = any_shadowed shadowed (sources_of by_call e e.source_seqs) in
    let (first, rest) =
      if_true (is_result e.type && not (shadowed e.seq) && bad) (check_results shadowed by_call es)
        h in
    (
      λ r v.
          none_shadowed shadowed (sources_of by_call e e.source_seqs)
            (sym (ap (λ b. b && not (shadowed e.seq) && bad) r ∙ ap (λ b. not b && bad) v) ∙ first),
      check_results_lem shadowed by_call es rest,
    )

-- A projection that passes the check parts no call from its result. Where an assistant message is
-- visible, the last result of every call that it announces is visible; where a tool/result is visible,
-- so are the events that it names as its sources or, where it names none, the message that announced
-- its call last.
pub validate_pairing-pairs :
    (es : List Event) (shadowed : ℕ → Bool)
    → validate_pairing es shadowed ≡ true
    → All (KeepsResults (result_by_call es (λ id. none)) shadowed) es
      × All (KeepsSources (assistant_by_call es (λ id. none)) shadowed) es
unfolding validate_pairing
validate_pairing-pairs es shadowed h =
    let (by_call, found, checked) =
      when_some (check_assistants (result_by_call es (λ id. none)) shadowed es (λ id. none))
        (λ by_call. check_results shadowed by_call es) h in
    let (kept, same) =
      check_assistants_lem (result_by_call es (λ id. none)) shadowed es (λ id. none) by_call
        found in
    (
      kept,
      subst (λ m. All (KeepsSources m shadowed) es) same
          (check_results_lem shadowed by_call es checked),
    )

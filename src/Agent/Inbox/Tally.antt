-- ===== src/Agent/Inbox/Tally.antt =====
-- Counts of inbox items (agent/agent.go).
use awesome_go_agents.Base.{
  ℕ, ◌+◌, ◌≡◌, refl, ap, Bool, true, false, not, ◌||◌, Option, none, some, List, [], ◌∷◌, ◌++◌, map,
  String, str_eq, select, inl, inr, Bool-cases, arith,
}
use awesome_go_agents.Agent.Turn.{StepInput}
use awesome_go_agents.Agent.Inbox.{
  InboxKind, follow_up, steer, inject, InboxItem, first_of, next_wakeable, is_next_step, input_of,
  event_type_of, kind_of, item_of, is_skipped,
}
use awesome_go_agents.Agent.Inbox.System.{System}

abbrev pub one : Bool → ℕ
one true = 1
one false = 0

-- How many items pass a test.
abbrev pub tally : (InboxItem → Bool) → List InboxItem → ℕ
tally p [] = 0
tally p (item ∷ items) = one (p item) + tally p items

pub tally-append :
    (p : InboxItem → Bool) (xs ys : List InboxItem) → tally p (xs ++ ys) ≡ tally p xs + tally p ys
tally-append p [] ys = omega arith
tally-append p (x ∷ xs) ys = omega (arith, tally-append p xs ys)

pub tally-parts :
    (p q : InboxItem → Bool) (xs : List InboxItem)
    → tally p (select q xs) + tally p (select (λ x. not (q x)) xs) ≡ tally p xs
tally-parts p q [] = omega arith
tally-parts p q (x ∷ xs) = elim (Bool-cases (q x)) [
  | inl e ↦ rw e (omega (arith, tally-parts p q xs))
  | inr e ↦ rw e (omega (arith, tally-parts p q xs))
]

-- An item that goes through a turn comes back as it was.
back :
    (id text : String) (k : InboxKind)
    → (elim k [ follow_up ↦ false | _ ↦ true ]) ≡ true
    → kind_of (event_type_of k) ≡ k
back id text follow_up h = absurd (cc)
back id text steer h = refl
back id text inject h = refl

item_of-input_of : (item : InboxItem) → is_next_step item ≡ true → item_of (input_of item) ≡ item
item_of-input_of item h =
    ap (λ k. record { id = item.id; kind = k; text = item.text })
      (back item.id item.text item.kind h)

pub tally-inputs :
    (p : InboxItem → Bool) (xs : List InboxItem)
    → tally p (map item_of (map input_of (select is_next_step xs)))
      ≡ tally p (select is_next_step xs)
tally-inputs p [] = refl
tally-inputs p (x ∷ xs) = elim (Bool-cases (is_next_step x)) [
  | inl e ↦ rw e (rw (item_of-input_of x e) (omega (arith, tally-inputs p xs)))
  | inr e ↦ rw e (tally-inputs p xs)
]

abbrev pub is_blank : InboxItem → Bool
is_blank item = str_eq item.id "" || str_eq item.text ""

one-zero : (b : Bool) (n : ℕ) → one b + n ≡ 0 → (b ≡ false) × (n ≡ 0)
one-zero true n h = absurd (omega arith)
one-zero false n h = (refl, omega arith)

-- Where no input is blank, all go back.
pub tally-requeued :
    (p : InboxItem → Bool) (inputs : List StepInput)
    → tally is_blank (map item_of inputs) ≡ 0
    → tally p (map item_of (select (λ input. not (is_skipped input)) inputs))
      ≡ tally p (map item_of inputs)
tally-requeued p [] h = refl
tally-requeued p (i ∷ inputs) h =
    let (e, rest) = one-zero (is_skipped i) (tally is_blank (map item_of inputs)) h in
    rw e (omega (arith, tally-requeued p inputs rest))

abbrev pub Takes :
    (InboxItem → Bool) → List InboxItem → Option (InboxItem × List InboxItem) → Type 0
Takes p items none = Unit
Takes p items (some (found, rest)) = tally p items ≡ one (p found) + tally p rest

first_of-Takes :
    (p : InboxItem → Bool) (k : InboxKind) (item : InboxItem) (items : List InboxItem)
    (later : Option (InboxItem × List InboxItem))
    → Takes p items later
    → Takes p (item ∷ items) (first_of k item items later)
unfolding first_of
first_of-Takes p follow_up item items later h = refl
first_of-Takes p steer item items none h = tt
first_of-Takes p inject item items none h = tt
first_of-Takes p steer item items (some (found, rest)) h = omega (arith, h)
first_of-Takes p inject item items (some (found, rest)) h = omega (arith, h)

pub next_wakeable-Takes :
    (p : InboxItem → Bool) (items : List InboxItem) → Takes p items (next_wakeable items)
unfolding next_wakeable
next_wakeable-Takes p [] = tt
next_wakeable-Takes p (item ∷ items) =
    first_of-Takes p item.kind item items (next_wakeable items) (next_wakeable-Takes p items)

abbrev pub held : Option InboxItem → List InboxItem
held none = []
held (some item) = item ∷ []

-- The items that the handle, the worker and the turn have.
abbrev pub in_memory : (InboxItem → Bool) → System → ℕ
in_memory p s = tally p s.handle.inbox + tally p (held s.claimed) + tally p (map item_of s.inputs)

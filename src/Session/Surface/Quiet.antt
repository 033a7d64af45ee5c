-- ===== src/Session/Surface/Quiet.antt =====
-- Events that seal nothing leave the projection as it is (session/surface.go: Project).
use awesome_go_agents.Base.{
  ℕ, ◌≡◌, refl, ◌∙◌, Bool, true, false, not, ◌&&◌, ◌||◌, Option, none, some, List, [], ◌∷◌, String,
  All, inl, inr, Bool-cases, arith, str_eq, ◌==◌, if◌then◌else◌,
}
use awesome_go_agents.Session.Errors.{
  Result, ok, guard, no_transaction_id, invalid_start_order, invalid_summary_order,
  invalid_surface_order, invalid_replacement_order, summary_mismatch, surface_mismatch,
  replacement_mismatch,
}
use awesome_go_agents.Session.Blocks.{is_blank}
use awesome_go_agents.Session.Event.{
  EventType, Event, user_message, compaction_start, compaction_summary, compaction_surface,
  compaction_end,
}
use awesome_go_agents.Session.Surface.{
  Transaction, Pass, new_transaction, find_transaction, put_transaction, get_transaction, put,
  validate_source_seqs, is_legacy, same_seqs,
}
use awesome_go_agents.Session.Surface.Payloads.{
  Compaction, decode_start, decode_summary, decode_surface, decode_replacement,
}
use awesome_go_agents.Session.Surface.Reading.{
  begin, read_start, summarise, read_sealed_summary, read_summary, place_surface, read_surface,
  replace, replaceable, repeats, first_seqs, read_replacement, read_message, read_type,
}
use awesome_go_agents.Session.Surface.Ensures.{Ensures, good, bind}

-- Nothing is sealed, and the projection is the one before.
abbrev pub IsUnsealed : List Transaction → Type 0
IsUnsealed = All (λ t. t.sealed ≡ false)

pub record Quiet (p q : Pass) : Type 0 where
  pub shadowed : q.shadowed ≡ p.shadowed
  pub generation : q.generation ≡ p.generation
  pub summary : q.summary ≡ p.summary
  pub summary_blocks : q.summary_blocks ≡ p.summary_blocks
  pub fingerprint : q.fingerprint ≡ p.fingerprint
  pub legacy : q.legacy_summary ≡ p.legacy_summary
  pub unsealed : IsUnsealed q.transactions

put_transaction-IsUnsealed :
    (t : Transaction) (ts : List Transaction)
    → t.sealed ≡ false
    → IsUnsealed ts
    → IsUnsealed (put_transaction t ts)
unfolding put_transaction
put_transaction-IsUnsealed t [] h v = (h, tt)
put_transaction-IsUnsealed t (u ∷ ts) h v =
    elim (Bool-cases (str_eq u.transaction_id t.transaction_id)) [
      | inl same ↦ rw same (h, v.1)
      | inr other ↦ rw other (v.0, put_transaction-IsUnsealed t ts h v.1)
    ]

get_transaction-sealed :
    (id : String) (ts : List Transaction) → IsUnsealed ts → (get_transaction id ts).sealed ≡ false
unfolding get_transaction new_transaction find_transaction
get_transaction-sealed id [] v = refl
get_transaction-sealed id (t ∷ ts) v = ground (arith, v.0, get_transaction-sealed id ts v.1)

put-Quiet :
    (t : Transaction) (p : Pass) → t.sealed ≡ false → IsUnsealed p.transactions → Quiet p (put t p)
unfolding put
put-Quiet t p h v = record {
  shadowed = refl;
  generation = refl;
  summary = refl;
  summary_blocks = refl;
  fingerprint = refl;
  legacy = refl;
  unsealed = put_transaction-IsUnsealed t p.transactions h v;
}

-- The steps write an entry that is not sealed.
module _ (t : Transaction) (c : Compaction) (p : Pass) (h : t.sealed ≡ false)
    (v : IsUnsealed p.transactions) where
  begin-Quiet : Ensures (Quiet p) (begin t c p)
  unfolding begin
  begin-Quiet =
      bind
        (guard (not (t.start || t.summary_seen || t.replacement_seen || t.sealed))
          invalid_start_order)
        _ (λ _. good (put-Quiet _ p h v))

  summarise-Quiet : (seqs : List ℕ) → Ensures (Quiet p) (summarise t seqs c p)
  unfolding summarise
  summarise-Quiet seqs =
      bind
        (guard (t.start && not (t.summary_seen || t.replacement_seen || t.sealed))
          invalid_summary_order)
        _
        (λ _.
          bind
            (guard (t.generation == c.generation && same_seqs t.source_seqs seqs) summary_mismatch)
            _ (λ _. good (put-Quiet _ p h v)))

  place_surface-Quiet : Ensures (Quiet p) (place_surface t c p)
  unfolding place_surface
  place_surface-Quiet =
      bind (guard (replaceable t) invalid_surface_order) _
        (λ _. bind (guard (repeats t c) surface_mismatch) _ (λ _. good (put-Quiet _ p h v)))

  replace-Quiet : (seq : ℕ) → Ensures (Quiet p) (replace seq t c p)
  unfolding replace
  replace-Quiet seq =
      bind (guard (replaceable t) invalid_replacement_order) _
        (λ _. bind (guard (repeats t c) replacement_mismatch) _ (λ _. good (put-Quiet _ p h v)))

abbrev named : Compaction → Result (Unit {0})
named c = guard (not (is_blank c.transaction_id)) no_transaction_id

read_start-Quiet :
    (e : Event) (p : Pass) → IsUnsealed p.transactions → Ensures (Quiet p) (read_start e p)
unfolding read_start
read_start-Quiet e p v = bind (decode_start e.raw) _ (λ c. bind (named c) _ (λ _.
    bind (validate_source_seqs c.source_seqs) _ (λ _.
      let t = get_transaction c.transaction_id p.transactions in
      begin-Quiet t c p (get_transaction-sealed c.transaction_id p.transactions v) v)))

read_sealed_summary-Quiet :
    (c : Compaction) (p : Pass)
    → IsUnsealed p.transactions
    → Ensures (Quiet p) (read_sealed_summary c p)
unfolding read_sealed_summary
read_sealed_summary-Quiet c p v =
    let seqs = first_seqs c.source_seqs c.shadowed_seqs in
    bind (named c) _ (λ _. bind (validate_source_seqs seqs) _ (λ _.
      let t = get_transaction c.transaction_id p.transactions in
      summarise-Quiet t c p (get_transaction-sealed c.transaction_id p.transactions v) v seqs))

read_summary-Quiet :
    (e : Event) (p : Pass)
    → is_legacy e ≡ false
    → IsUnsealed p.transactions
    → Ensures (Quiet p) (read_summary e p)
unfolding read_summary
read_summary-Quiet e p modern v =
    bind (decode_summary e.raw) _ (λ c. rw modern (read_sealed_summary-Quiet c p v))

read_surface-Quiet :
    (e : Event) (p : Pass) → IsUnsealed p.transactions → Ensures (Quiet p) (read_surface e p)
unfolding read_surface
read_surface-Quiet e p v = bind (decode_surface e.raw) _ (λ c. bind (named c) _ (λ _.
    bind (validate_source_seqs c.source_seqs) _ (λ _.
      let t = get_transaction c.transaction_id p.transactions in
      place_surface-Quiet t c p (get_transaction-sealed c.transaction_id p.transactions v) v)))

read_replacement-Quiet :
    (e : Event) (c : Compaction) (p : Pass)
    → IsUnsealed p.transactions
    → Ensures (Quiet p) (read_replacement e c p)
unfolding read_replacement
read_replacement-Quiet e c p v = bind (validate_source_seqs c.source_seqs) _ (λ _.
    let t = get_transaction c.transaction_id p.transactions in
    replace-Quiet t c p (get_transaction-sealed c.transaction_id p.transactions v) v e.seq)

pub Quiet-refl : (p : Pass) → IsUnsealed p.transactions → Quiet p p
Quiet-refl p v = record {
  shadowed = refl;
  generation = refl;
  summary = refl;
  summary_blocks = refl;
  fingerprint = refl;
  legacy = refl;
  unsealed = v;
}

pub Quiet-trans : (p q r : Pass) → Quiet p q → Quiet q r → Quiet p r
Quiet-trans p q r h k = record {
  shadowed = k.shadowed ∙ h.shadowed;
  generation = k.generation ∙ h.generation;
  summary = k.summary ∙ h.summary;
  summary_blocks = k.summary_blocks ∙ h.summary_blocks;
  fingerprint = k.fingerprint ∙ h.fingerprint;
  legacy = k.legacy ∙ h.legacy;
  unsealed = k.unsealed;
}

choose :
    (b : Bool) (x y : Result Pass) {P : Pass → Type 0}
    → Ensures P x
    → Ensures P y
    → Ensures P (if b then x else y)
choose true x y h k = h
choose false x y h k = k

message-Quiet :
    (e : Event) (c : Option Compaction) (p : Pass)
    → IsUnsealed p.transactions
    → Ensures
        (Quiet p)
        (elim c [ none ↦ ok p | some c' ↦ if is_legacy e then ok p else read_replacement e c' p ])
message-Quiet e none p v = good (Quiet-refl p v)
message-Quiet e (some c) p v =
    choose (is_legacy e) (ok p) (read_replacement e c p) (good (Quiet-refl p v))
      (read_replacement-Quiet e c p v)

read_message-Quiet :
    (e : Event) (p : Pass) → IsUnsealed p.transactions → Ensures (Quiet p) (read_message e p)
unfolding read_message
read_message-Quiet e p v = bind (decode_replacement e.raw) _ (λ c. message-Quiet e c p v)

-- An event that seals nothing and is no legacy summary.
abbrev pub SealsNothing : Event → Type 0
SealsNothing e =
    (e.type ≡ compaction_end → is_legacy e ≡ true)
    × (e.type ≡ compaction_summary → is_legacy e ≡ false)

pub read_type-Quiet :
    (t : EventType) (e : Event) (p : Pass)
    → e.type ≡ t
    → SealsNothing e
    → IsUnsealed p.transactions
    → Ensures (Quiet p) (read_type t e p)
unfolding read_type
read_type-Quiet compaction_start e p h n v =
    choose (is_legacy e) (ok p) (read_start e p) (good (Quiet-refl p v)) (read_start-Quiet e p v)
read_type-Quiet compaction_summary e p h n v = read_summary-Quiet e p (n.1 h) v
read_type-Quiet compaction_surface e p h n v =
    choose (is_legacy e) (ok p) (read_surface e p) (good (Quiet-refl p v))
      (read_surface-Quiet e p v)
read_type-Quiet user_message e p h n v = read_message-Quiet e p v
read_type-Quiet compaction_end e p h n v = rw (n.0 h) (good (Quiet-refl p v))
read_type-Quiet _ e p h n v = good (Quiet-refl p v)

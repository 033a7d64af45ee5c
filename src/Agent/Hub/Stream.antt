-- ===== src/Agent/Hub/Stream.antt =====
-- What a reader is still to get from the events that wait for it, and the part of a log that it wants
-- (agent/events.go).
use awesome_go_agents.Base.{
  ℕ, zero, suc, ◌+◌, ◌≤◌, ◌<◌, ◌≡◌, ◌⊎◌, inl, inr, refl, sym, ap, ◌∙◌, Bool, true, false, List, [],
  ◌∷◌, ◌++◌, append_assoc, append-nil, leb, if◌then◌else◌, select, arith, Bool-cases,
}
use mathlib.Core.Path.{subst}
use awesome_go_agents.Session.Event.{Event}
use awesome_go_agents.Agent.Hub.{EventFilter, keeps}

-- The events that are returned from a list, each above those before it and above the cursor, and the
-- cursor behind them.
unfoldable pub fresh : ℕ → List Event → List Event
fresh d [] = []
fresh d (e ∷ es) =
    let old = fresh d es in let new = fresh e.seq es in if leb e.seq d then old else e ∷ new

unfoldable pub top : ℕ → List Event → ℕ
top d [] = d
top d (e ∷ es) = top (if leb e.seq d then d else e.seq) es

-- The events numbered a + 1 to a + n.
unfoldable pub segment : (ℕ → Event) → ℕ → ℕ → List Event
segment log a zero = []
segment log a (suc n) = log (suc a) ∷ segment log (suc a) n

pub fresh_old : (d : ℕ) (e : Event) (es : List Event) → e.seq ≤ d → fresh d (e ∷ es) ≡ fresh d es
unfolding fresh
fresh_old d e es h = let old : leb e.seq d ≡ true = ground arith in rw old refl

pub fresh_new :
    (d : ℕ) (e : Event) (es : List Event) → d < e.seq → fresh d (e ∷ es) ≡ e ∷ fresh e.seq es
unfolding fresh
fresh_new d e es h = let new : leb e.seq d ≡ false = ground arith in rw new refl

pub top_old : (d : ℕ) (e : Event) (es : List Event) → e.seq ≤ d → top d (e ∷ es) ≡ top d es
unfolding top
top_old d e es h = let old : leb e.seq d ≡ true = ground arith in rw old refl

pub top_new : (d : ℕ) (e : Event) (es : List Event) → d < e.seq → top d (e ∷ es) ≡ top e.seq es
unfolding top
top_new d e es h = let new : leb e.seq d ≡ false = ground arith in rw new refl

pub le_or_lt : (n m : ℕ) → (n ≤ m) ⊎ (m < n)
le_or_lt n m = elim (Bool-cases (leb n m)) [
  | inl e ↦ inl (ground arith)
  | inr e ↦ inr (ground arith)
]

pub top-append : (d : ℕ) (xs ys : List Event) → top d (xs ++ ys) ≡ top (top d xs) ys
unfolding top
top-append d [] ys = refl
top-append d (e ∷ es) ys = top-append (if leb e.seq d then d else e.seq) es ys

pub fresh-append :
    (d : ℕ) (xs ys : List Event) → fresh d (xs ++ ys) ≡ fresh d xs ++ fresh (top d xs) ys
unfolding fresh top
fresh-append d [] ys = refl
fresh-append d (e ∷ es) ys = elim (Bool-cases (leb e.seq d)) [
  | inl old ↦ rw old (fresh-append d es ys)
  | inr new ↦ rw new (ap (◌∷◌ e) (fresh-append e.seq es ys))
]

pub top-le : (d : ℕ) (xs : List Event) → d ≤ top d xs
unfolding top
top-le d [] = omega arith
top-le d (e ∷ es) = elim (le_or_lt e.seq d) [
  | inl old ↦ rw (top_old d e es old) (top-le d es)
  | inr new ↦ rw (top_new d e es new) (omega (arith, top-le e.seq es))
]

-- A reader with a higher cursor loses nothing when another one reads first.
pub fresh-fresh : (a t : ℕ) (xs : List Event) → a ≤ t → fresh t (fresh a xs) ≡ fresh t xs
fresh-fresh a t [] h = unfold fresh in refl
fresh-fresh a t (e ∷ es) h = elim (le_or_lt e.seq a) [
  | inl old ↦ rw (fresh_old a e es old, fresh_old t e es (omega arith)) (fresh-fresh a t es h)
  | inr new ↦ elim (le_or_lt e.seq t) [
    | inl below ↦
        rw (fresh_new a e es new, fresh_old t e (fresh e.seq es) below, fresh_old t e es below)
          (fresh-fresh e.seq t es below)
    | inr above ↦
        rw (fresh_new a e es new, fresh_new t e (fresh e.seq es) above, fresh_new t e es above)
          (ap (◌∷◌ e) (fresh-fresh e.seq e.seq es (omega arith)))
  ]
]

pub top-fresh : (a t : ℕ) (xs : List Event) → a ≤ t → top t (fresh a xs) ≡ top t xs
top-fresh a t [] h = unfold fresh in refl
top-fresh a t (e ∷ es) h = elim (le_or_lt e.seq a) [
  | inl old ↦ rw (fresh_old a e es old, top_old t e es (omega arith)) (top-fresh a t es h)
  | inr new ↦ elim (le_or_lt e.seq t) [
    | inl below ↦
        rw (fresh_new a e es new, top_old t e (fresh e.seq es) below, top_old t e es below)
          (top-fresh e.seq t es below)
    | inr above ↦
        rw (fresh_new a e es new, top_new t e (fresh e.seq es) above, top_new t e es above)
          (top-fresh e.seq e.seq es (omega arith))
  ]
]

-- A reader whose cursor is behind all of a list gets nothing from it.
pub fresh-behind : (d t : ℕ) (xs : List Event) → top d xs ≤ t → (fresh t xs ≡ []) × (top t xs ≡ t)
fresh-behind d t [] h = unfold fresh top in (refl, refl)
fresh-behind d t (e ∷ es) h = elim (le_or_lt e.seq d) [
  | inl old ↦
      let h' : top d es ≤ t = subst (λ k. k ≤ t) (top_old d e es old) h in
      let below : e.seq ≤ t = omega (arith, top-le d es) in
      rw (fresh_old t e es below, top_old t e es below) (fresh-behind d t es h')
  | inr new ↦
      let h' : top e.seq es ≤ t = subst (λ k. k ≤ t) (top_new d e es new) h in
      let below : e.seq ≤ t = omega (arith, top-le e.seq es) in
      rw (fresh_old t e es below, top_old t e es below) (fresh-behind e.seq t es h')
]

-- An event behind all that waits is added to it, one without a number is not.
pub fresh_added :
    (d : ℕ) (old ch : List Event) (e : Event)
    → top d (old ++ ch) < e.seq
    → (fresh d (old ++ (ch ++ (e ∷ []))) ≡ fresh d (old ++ ch) ++ (e ∷ []))
      × (top d (old ++ (ch ++ (e ∷ []))) ≡ e.seq)
fresh_added d old ch e h =
    let t = top d (old ++ ch) in
    let one : fresh t (e ∷ []) ≡ e ∷ [] = fresh_new t e [] h ∙ unfold fresh in refl in
    let last : top t (e ∷ []) ≡ e.seq = top_new t e [] h ∙ unfold top in refl in
    rw (sym (append_assoc old ch (e ∷ []))) (
      fresh-append d (old ++ ch) (e ∷ []) ∙ ap (◌++◌ (fresh d (old ++ ch))) one,
      top-append d (old ++ ch) (e ∷ []) ∙ last,
    )

pub fresh_ignored :
    (d : ℕ) (old ch : List Event) (e : Event)
    → e.seq ≤ top d (old ++ ch)
    → (fresh d (old ++ (ch ++ (e ∷ []))) ≡ fresh d (old ++ ch))
      × (top d (old ++ (ch ++ (e ∷ []))) ≡ top d (old ++ ch))
fresh_ignored d old ch e h =
    let t = top d (old ++ ch) in
    let one : fresh t (e ∷ []) ≡ [] = fresh_old t e [] h ∙ unfold fresh in refl in
    let last : top t (e ∷ []) ≡ t = top_old t e [] h ∙ unfold top in refl in
    rw (sym (append_assoc old ch (e ∷ []))) (
      fresh-append d (old ++ ch) (e ∷ [])
          ∙ ap (◌++◌ (fresh d (old ++ ch))) one
          ∙ append-nil (fresh d (old ++ ch)),
      top-append d (old ++ ch) (e ∷ []) ∙ last,
    )

pub select-append :
    (test : Event → Bool) (xs ys : List Event)
    → select test (xs ++ ys) ≡ select test xs ++ select test ys
select-append test [] ys = refl
select-append test (x ∷ xs) ys = elim (Bool-cases (test x)) [
  | inl e ↦ rw e (ap (◌∷◌ x) (select-append test xs ys))
  | inr e ↦ rw e (select-append test xs ys)
]

pub segment-append :
    (log : ℕ → Event) (a n m : ℕ) → segment log a (n + m) ≡ segment log a n ++ segment log (a + n) m
unfolding segment
segment-append log a zero m =
    let e : a + 0 ≡ a = omega arith in let f : 0 + m ≡ m = omega arith in rw (e, f) refl
segment-append log a (suc n) m =
    let e : a + suc n ≡ suc a + n = omega arith in
    let f : suc n + m ≡ suc (n + m) = omega arith in
    rw (e, f) (ap (◌∷◌ (log (suc a))) (segment-append log (suc a) n m))

-- A log that is numbered, and a filter.
module _ (log : ℕ → Event) (numbered : (k : ℕ) → (log k).seq ≡ k) (filter : EventFilter) where
  abbrev pub wanted : ℕ → ℕ → List Event
  wanted a n = select (λ e. keeps filter e) (segment log a n)

  pub wanted-append : (a n m : ℕ) → wanted a (n + m) ≡ wanted a n ++ wanted (a + n) m
  wanted-append a n m =
      ap (select (λ e. keeps filter e)) (segment-append log a n m)
      ∙ select-append (λ e. keeps filter e) (segment log a n) (segment log (a + n) m)

  pub fresh-wanted :
      (d a n : ℕ) → d ≤ a → (fresh d (wanted a n) ≡ wanted a n) × (top d (wanted a n) ≤ a + n)
  unfolding segment
  fresh-wanted d a zero h = unfold fresh top in (refl, omega arith)
  fresh-wanted d a (suc n) h = elim (Bool-cases (keeps filter (log (suc a)))) [
    | inl kept ↦
        let up : d < (log (suc a)).seq = omega (arith, numbered (suc a)) in
        let (same, small) =
          fresh-wanted (log (suc a)).seq (suc a) n (omega (arith, numbered (suc a))) in
        rw
          (
            kept,
            fresh_new d (log (suc a)) (wanted (suc a) n) up,
            top_new d (log (suc a)) (wanted (suc a) n) up,
          )
          (ap (◌∷◌ (log (suc a))) same, omega (arith, small))
    | inr left_out ↦
        let (same, small) = fresh-wanted d (suc a) n (omega arith) in
        rw left_out (same, omega (arith, small))
  ]

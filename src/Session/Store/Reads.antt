-- ===== src/Session/Store/Reads.antt =====
-- The reads of the store (session/store.go: Load, Tail).
use awesome_go_agents.Base.{
  ℕ, zero, suc, ◌+◌, ◌-◌, ◌<◌, ◌≡◌, refl, sym, ap, ◌∙◌, List, [], ◌∷◌, ◌++◌, String, length, take,
  drop, select, ltb, leb, ◌==◌, if◌then◌else◌, arith, Bool-cases, inl, inr, length-append,
  append_assoc, append-nil, ◌&&◌, ◌||◌, length-drop, min, true, false, take-append-drop,
}
use awesome_go_agents.Session.Event.{Event}
use awesome_go_agents.Session.Store.{MemoryStore, load_from, load, tail}
use awesome_go_agents.Session.Store.Sequences.{IsContiguous, IsSequenced, log-append}

-- The events after a sequence number.
abbrev pub newer : ℕ → List Event → List Event
newer after_seq = select (λ e. ltb after_seq e.seq)

-- The first `limit` elements, or all where the limit is 0.
abbrev pub limited : ℕ → List Event → List Event
limited zero es = es
limited (suc n) es = take (suc n) es

load_from_unlimited :
    (after_seq : ℕ) (out es : List Event) → load_from after_seq 0 out es ≡ out ++ newer after_seq es
unfolding load_from
load_from_unlimited after_seq out [] = sym (append-nil out)
load_from_unlimited after_seq out (e ∷ es) = elim (Bool-cases (ltb after_seq e.seq)) [
  | inl hit ↦
      rw hit (load_from_unlimited after_seq (out ++ (e ∷ [])) es ∙ append_assoc out (e ∷ []) _)
  | inr miss ↦ rw miss (load_from_unlimited after_seq out es)
]

load_from_limited :
    (after_seq limit room : ℕ) (out es : List Event)
    → limit ≡ length out + suc room
    → load_from after_seq limit out es ≡ out ++ take (suc room) (newer after_seq es)
unfolding load_from
load_from_limited after_seq limit room out [] h = sym (append-nil out)
load_from_limited after_seq limit zero out (e ∷ es) h = elim (Bool-cases (ltb after_seq e.seq)) [
  | inl hit ↦ rw hit (ground (arith, length-append out (e ∷ [])))
  | inr miss ↦ rw miss (load_from_limited after_seq limit zero out es h)
]
load_from_limited after_seq limit (suc room) out (e ∷ es) h =
    let size = log-append out (e ∷ []) in
    elim (Bool-cases (ltb after_seq e.seq)) [
      | inl hit ↦
          let onward = load_from_limited after_seq limit room (out ++ (e ∷ [])) es (omega arith) in
          let more : (ltb 0 limit && leb limit (length (out ++ (e ∷ [])))) ≡ false = ground arith in
          rw (hit, more) (onward ∙ append_assoc out (e ∷ []) _)
      | inr miss ↦ rw miss (load_from_limited after_seq limit (suc room) out es h)
    ]

-- `Load` returns, in the order of the log, the events with a number above `afterSeq`, cut to the
-- first `limit` of them where the limit is not 0.
pub load_lem :
    (sid : String) (after_seq limit : ℕ) (s : MemoryStore)
    → load sid after_seq limit s ≡ limited limit (newer after_seq (s.events sid))
unfolding load
load_lem sid after_seq zero s = load_from_unlimited after_seq [] (s.events sid)
load_lem sid after_seq (suc room) s =
    load_from_limited after_seq (suc room) room [] (s.events sid) (omega arith)

-- On a numbered log the numbers are positions.
newer_all :
    (n after_seq : ℕ) (es : List Event)
    → after_seq < n
    → IsContiguous n es
    → newer after_seq es ≡ es
newer_all n after_seq [] h v = refl
newer_all n after_seq (e ∷ es) h v =
    let hit : ltb after_seq e.seq ≡ true = ground arith in
    rw hit (ap (◌∷◌ e) (newer_all (suc n) after_seq es (omega arith) v.1))

newer-drop :
    (n cut k : ℕ) (es : List Event)
    → cut ≡ n + k
    → IsContiguous (suc n) es
    → newer cut es ≡ drop k es
newer-drop n cut zero es h v = newer_all (suc n) cut es (omega arith) v
newer-drop n cut (suc k) [] h v = refl
newer-drop n cut (suc k) (e ∷ es) h v =
    let miss : ltb cut e.seq ≡ false = ground arith in
    rw miss (newer-drop (suc n) cut k es (omega arith) v.1)

-- On a numbered log, what was read up to a cursor and what `Load` returns after it are the log:
-- a reader that resumes at the number of its last event misses nothing and sees nothing twice.
pub load-resume :
    (sid : String) (cursor : ℕ) (s : MemoryStore)
    → IsSequenced s sid
    → take cursor (s.events sid) ++ load sid cursor 0 s ≡ s.events sid
load-resume sid cursor s v = rw (load_lem sid cursor 0 s) (
    ap (λ t. take cursor (s.events sid) ++ t)
      (newer-drop 0 cursor cursor (s.events sid) (omega arith) v.contiguous)
    ∙ take-append-drop cursor (s.events sid))

whole_prefix : (all : List Event) → take (length all - length all) all ≡ []
whole_prefix all = let none_left : length all - length all ≡ 0 = omega arith in rw none_left

not_short :
    (all : List Event) (limit : ℕ)
    → (limit == 0 || leb (length all) limit) ≡ false
    → limit < length all
not_short all limit h = ground arith

-- `Tail` is the end of the log, the last `limit` events or all where there are fewer or the limit
-- is 0, and what comes before it is the rest of the log.
pub tail_lem :
    (sid : String) (limit : ℕ) (s : MemoryStore)
    → let all = s.events sid in
      let out = tail sid limit s in
      (take (length all - length out) all ++ out ≡ all)
      × (length out ≡ (if limit == 0 then length all else min limit (length all)))
unfolding tail
tail_lem sid limit s =
    let all = s.events sid in
    elim (Bool-cases (limit == 0 || leb (length all) limit)) [
      | inl whole ↦ rw (whole, whole_prefix all) (refl, ground arith)
      | inr part ↦
          let cut : length all - length (drop (length all - limit) all) ≡ length all - limit =
            omega (arith, length-drop (length all - limit) all, not_short all limit part) in
          rw (part, cut)
            (
              take-append-drop (length all - limit) all,
              ground (arith, length-drop (length all - limit) all),
            )
    ]

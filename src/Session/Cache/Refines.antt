-- ===== src/Session/Cache/Refines.antt =====
-- What a session projects is the log of its store (session/session.go: Project).
use awesome_go_agents.Base.{
  All, All-append, Option, none, some, ◌++◌, zero, ℕ, suc, ◌+◌, ◌≡◌, ◌<◌, ◌≤◌, refl, sym, ap, ◌∙◌,
  Bool, true, false, List, [], ◌∷◌, String, u64_mod, length, arith, if◌then◌else◌,
}
use mathlib.Core.Path.{subst}
use awesome_go_agents.Session.Errors.{Result, ok, err, ◌>>=◌, >>=-eq-ok, ok-injective}
use awesome_go_agents.Session.Event.{Event, normalize}
use awesome_go_agents.Session.Event.Validate.{validate}
use awesome_go_agents.Session.Store.{
  MemoryStore, Draws, commit_all, start_commit, finish_commit, check_batch, append_committed, load,
}
use awesome_go_agents.Session.Store.Sequences.{IsContiguous, IsSequenced, append_committed-GrewBy}
use awesome_go_agents.Session.Store.Reads.{load-resume}
use awesome_go_agents.Session.Cache.{
  Session, prepare, extend, keep, commit_batch, refresh, hydrate, last_seq, check_events,
  check_replay,
}
use awesome_go_agents.Session.Cache.Synced.{
  IsSynced, commit-tail, extend-append, extend_top, extend_all_old,
}

length-prepare :
    (d : Draws) (i : ℕ) (es batch : List Event)
    → prepare d i es ≡ ok batch
    → length batch ≡ length es
unfolding prepare
length-prepare d i [] batch h = let e : ◌≡◌ {A = List Event} [] batch = cc in ap length (sym e)
length-prepare d i (e ∷ es) batch h =
    let (u, valid, h') = >>=-eq-ok (validate e) _ h in
    let (rest, inner, out) = >>=-eq-ok (prepare d (suc i) es) _ h' in
    let same : normalize (d.clock i) e ∷ rest ≡ batch = cc in
    ap length (sym same) ∙ ap suc (length-prepare d (suc i) es rest inner)

if_IsSynced :
    (fl : List Event) (b : Bool) (x y : Session) (s : MemoryStore)
    → (b ≡ true → IsSynced fl x s)
    → (b ≡ false → IsSynced fl y s)
    → IsSynced fl (if b then x else y) s
if_IsSynced fl true x y s h k = h refl
if_IsSynced fl false x y s h k = k refl

pub keep-id : (es : List Event) (ss : Session) → (keep es ss).id ≡ ss.id
unfolding keep
keep-id es ss = ground arith

up_to : (n m : ℕ) (es : List Event) → n ≤ m → All (λ e. e.seq ≤ n) es → All (λ e. e.seq ≤ m) es
up_to n m [] h v = tt
up_to n m (e ∷ es) h (low, v) = (omega arith, up_to n m es h v)

rest_of : (n : ℕ) (xs ys : List Event) → All (λ e. e.seq ≤ n) (xs ++ ys) → All (λ e. e.seq ≤ n) ys
rest_of n [] ys h = h
rest_of n (x ∷ xs) ys h = rest_of n xs ys h.1

-- A batch is committed by the session's own store, and is under way.
finish-IsSynced :
    (d : Draws) (fl batch : List Event) (ss : Session) (s : MemoryStore)
    → s.next ss.id + length batch + 2 < u64_mod
    → IsSynced fl ss s
    → let (s', committed) =
        finish_commit ss.id s (commit_all d ss.id 0 batch (start_commit ss.id s)) in
      IsSynced (fl ++ committed) ss s'
finish-IsSynced d fl batch ss s h v =
    let (s', committed) =
      finish_commit ss.id s (commit_all d ss.id 0 batch (start_commit ss.id s)) in
    let (numbered, small) = append_committed-GrewBy d ss.id batch s h v.numbered in
    let ends : extend committed (s.events ss.id, s.next ss.id) ≡ (s'.events ss.id, s'.next ss.id) =
      commit-tail d batch ss.id s h v.numbered in
    let last : (extend committed (s.events ss.id, s.next ss.id)).1 ≡ s'.next ss.id =
      ap (λ (x : List Event × ℕ). x.1) ends in
    let (above, all) = extend_top committed (s.events ss.id) (s.next ss.id) in
    record {
      numbered = numbered;
      tail = λ on.
          extend-append fl committed (ss.cached, ss.cached_seq)
          ∙ ap (extend committed) (v.tail on)
          ∙ ends;
      fresh = v.fresh;
      old =
          All-append (λ e. e.seq ≤ s'.next ss.id) fl committed
            (up_to (s.next ss.id) (s'.next ss.id) fl (omega (arith, above, last)) v.old)
            (up_to (extend committed (s.events ss.id, s.next ss.id)).1 (s'.next ss.id) committed
              (omega (arith, last)) all);
    }

-- The oldest batch under way extends the tail.
pub keep-IsSynced :
    (b fl : List Event) (ss : Session) (s : MemoryStore)
    → IsSynced (b ++ fl) ss s
    → IsSynced fl (keep b ss) s
unfolding keep
keep-IsSynced b fl ss s v =
    let (cached, seq) = extend b (ss.cached, ss.cached_seq) in
    if_IsSynced fl ss.hydrated (record ss { cached = cached; cached_seq = seq }) ss s
      (λ on. record {
        numbered = v.numbered;
        tail = λ e. sym (extend-append b fl (ss.cached, ss.cached_seq)) ∙ v.tail on;
        fresh = λ off. absurd (cc);
        old = rest_of (s.next ss.id) b fl v.old;
      })
      (λ off. record {
        numbered = v.numbered;
        tail = λ on. absurd (cc);
        fresh = v.fresh;
        old = rest_of (s.next ss.id) b fl v.old;
      })

pub commit_batch-IsSynced :
    (d d' : Draws) (es out fl : List Event) (ss : Session) (s s' : MemoryStore)
    → s.next ss.id + length es + 2 < u64_mod
    → IsSynced fl ss s
    → commit_batch d d' es ss.id s ≡ ok (s', out)
    → IsSynced (fl ++ out) ss s' × (s'.next ss.id ≤ s.next ss.id + length es)
unfolding commit_batch append_committed
commit_batch-IsSynced d d' es out fl ss s s' h v done =
    let (batch, prepared, committed) = >>=-eq-ok (prepare d 0 es) _ done in
    let (u, checked, written) = >>=-eq-ok (check_batch ss.id batch) _ committed in
    let made = finish_commit ss.id s (commit_all d' ss.id 0 batch (start_commit ss.id s)) in
    let both : made ≡ (s', out) = ok-injective made (s', out) written in
    let count = length-prepare d 0 es batch prepared in
    let room : s.next ss.id + length batch + 2 < u64_mod = omega (arith, count) in
    let (numbered, small) = append_committed-GrewBy d' ss.id batch s room v.numbered in
    subst
      (λ (x : MemoryStore × List Event).
        IsSynced (fl ++ x.1) ss x.0 × (x.0.next ss.id ≤ s.next ss.id + length es))
      both (finish-IsSynced d' fl batch ss s room v, omega (arith, small, count))

last_seq-IsContiguous :
    (n : ℕ) (es : List Event) → IsContiguous (suc n) es → last_seq n es ≡ n + length es
unfolding last_seq
last_seq-IsContiguous n [] v = omega arith
last_seq-IsContiguous n (e ∷ es) v =
    ap (λ m. last_seq m es) v.0 ∙ last_seq-IsContiguous (suc n) es v.1 ∙ omega arith

load_all : (sid : String) (s : MemoryStore) → IsSequenced s sid → load sid 0 0 s ≡ s.events sid
load_all sid s v = load-resume sid 0 s v

-- A tail read from the store is its log.
read_tail :
    (fl : List Event) (ss : Session) (s : MemoryStore)
    → IsSequenced s ss.id
    → All (λ e. e.seq ≤ s.next ss.id) fl
    → let log = load ss.id 0 0 s in
      IsSynced fl (record ss { cached = log; cached_seq = last_seq 0 log; hydrated = true }) s
read_tail fl ss s v old = record {
  numbered = v;
  tail = λ on.
      let e = load_all ss.id s v in
      ap (extend fl) (
        ap (λ (l : List Event). (l, last_seq 0 l)) e
        ∙ ap (λ (n : ℕ). (s.events ss.id, n))
            (last_seq-IsContiguous 0 (s.events ss.id) v.contiguous ∙ omega (arith, v.counted)))
      ∙ extend_all_old fl (s.events ss.id) (s.next ss.id) old;
  fresh = λ off. absurd (cc);
  old = old;
}

pub refresh-IsSynced :
    (fl : List Event) (ss ss' : Session) (s : MemoryStore)
    → IsSynced fl ss s
    → refresh ss s ≡ ok ss'
    → IsSynced fl ss' s × (ss'.id ≡ ss.id)
unfolding refresh
refresh-IsSynced fl ss ss' s v done =
    let (u, checked, made) = >>=-eq-ok (check_events (load ss.id 0 0 s)) _ done in
    subst (λ (x : Session). IsSynced fl x s × (x.id ≡ ss.id)) (ok-injective _ _ made)
      (read_tail fl ss s v.numbered v.old, refl)

hydrate_cold :
    (fl : List Event) (ss ss' : Session) (s : MemoryStore)
    → IsSynced fl ss s
    → ss.cached_seq ≡ 0
    → (check_replay (load ss.id 0 0 s) >>= λ u. ok (record ss {
      cached = load ss.id 0 0 s;
      cached_seq = last_seq ss.cached_seq (load ss.id 0 0 s);
      hydrated = true;
    }))
      ≡ ok ss'
    → IsSynced fl ss' s × (ss'.id ≡ ss.id) × (ss'.hydrated ≡ true)
hydrate_cold fl ss ss' s v zero_seq done =
    let (u, checked, made) = >>=-eq-ok (check_replay (load ss.id 0 0 s)) _ done in
    let log = load ss.id 0 0 s in
    let from_zero : ◌≡◌ {A = Session}
        (record ss { cached = log; cached_seq = last_seq 0 log; hydrated = true })
        (record ss { cached = log; cached_seq = last_seq ss.cached_seq log; hydrated = true }) =
      ap (λ n. record ss { cached = log; cached_seq = last_seq n log; hydrated = true })
        (sym zero_seq) in
    subst (λ (x : Session). IsSynced fl x s × (x.id ≡ ss.id) × (x.hydrated ≡ true))
      (from_zero ∙ ok-injective _ _ made) (read_tail fl ss s v.numbered v.old, refl, refl)

if_ok :
    {A : Type 0} (P : A → Type 0) (b : Bool) (x y : Result A) (a : A)
    → (if b then x else y) ≡ ok a
    → (b ≡ true → x ≡ ok a → P a)
    → (b ≡ false → y ≡ ok a → P a)
    → P a
if_ok P true x y a e h k = h refl e
if_ok P false x y a e h k = k refl e

pub hydrate-IsSynced :
    (fl : List Event) (ss ss' : Session) (s : MemoryStore)
    → IsSynced fl ss s
    → hydrate ss s ≡ ok ss'
    → IsSynced fl ss' s × (ss'.id ≡ ss.id) × (ss'.hydrated ≡ true)
unfolding hydrate
hydrate-IsSynced fl ss ss' s v done =
    if_ok (λ x. IsSynced fl x s × (x.id ≡ ss.id) × (x.hydrated ≡ true)) ss.hydrated _ _ ss' done
      (λ on same.
        subst (λ (x : Session). IsSynced fl x s × (x.id ≡ ss.id) × (x.hydrated ≡ true))
          (ok-injective ss ss' same) (v, refl, on))
      (λ off cold. hydrate_cold fl ss ss' s v (v.fresh off) cold)

-- What happens on one session, whose store no one else writes: the two parts of an append, with the
-- place of the batch among those that are committed and not yet in the tail, and the readers.
pub data Op : Type 0 where
  commits : Draws → Draws → List Event → Op
  keeps : ℕ → Op
  hydrates refreshes : Op

-- The session, its store, and the batches under way, the oldest first.
pub record Shared : Type 0 where
  pub session : Session
  pub store : MemoryStore
  pub pending : List (List Event)

abbrev pub concat : List (List Event) → List Event
concat [] = []
concat (b ∷ bs) = b ++ concat bs

abbrev pub committed : Shared → Result (MemoryStore × List Event) → Shared
committed c (ok (s', out)) = record c { store = s'; pending = c.pending ++ (out ∷ []) }
committed c (err e) = c

abbrev pub reread : Shared → Result Session → Shared
reread c (ok ss') = record c { session = ss' }
reread c (err e) = c

unfoldable pub take_out : ℕ → List (List Event) → Option (List Event × List (List Event))
take_out k [] = none
take_out zero (b ∷ bs) = some (b, bs)
take_out (suc k) (b ∷ bs) = elim (take_out k bs) [
  | none ↦ none
  | some (found, rest) ↦ some (found, b ∷ rest)
]

unfoldable pub kept : Option (List Event × List (List Event)) → Shared → Shared
unfolding keep
kept none c = c
kept (some (b, rest)) c = record c { session = keep b c.session; pending = rest }

-- A call that fails changes nothing.
unfoldable pub apply : Op → Shared → Shared
unfolding commit_batch take_out kept hydrate refresh
apply (commits d d' es) c = committed c (commit_batch d d' es c.session.id c.store)
apply (keeps k) c = kept (take_out k c.pending) c
apply hydrates c = reread c (hydrate c.session c.store)
apply refreshes c = reread c (refresh c.session c.store)

unfoldable pub run : List Op → Shared → Shared
unfolding apply
run [] c = c
run (o ∷ os) c = run os (apply o c)

abbrev pub size : Op → ℕ
size (commits d d' es) = length es
size _ = 0

abbrev pub total_size : List Op → ℕ
total_size [] = 0
total_size (o ∷ os) = size o + total_size os

-- The batches reach the tail in the order in which they were committed.
abbrev pub IsInOrder : Op → Type 0
IsInOrder (keeps k) = k ≡ 0
IsInOrder _ = Unit

-- ===== src/Session/Cache.antt =====
-- The handle on a session with its in-memory tail of the log (session/session.go), over a
-- MemoryStore, which commits batches. What Refresh and hydrate read is what Load returns.
use awesome_go_agents.Base.{
  ℕ, zero, suc, ◌+◌, ◌-◌, Bool, true, false, List, [], ◌∷◌, ◌++◌, String, ltb, leb, if◌then◌else◌,
  u64, u64_mod, length,
}
use awesome_go_agents.Session.Errors.{Result, ok, err, ◌>>=◌, ◌>>◌}
use awesome_go_agents.Session.Event.{Event, validate_type, normalize}
use awesome_go_agents.Session.Event.Validate.{validate}
use awesome_go_agents.Session.Store.{MemoryStore, Draws, append, append_committed, load, sequence}
pub mod Synced
pub mod Refines
pub mod Projects

pub record Session : Type 0 where
  pub id : String
  pub cached : List Event
  pub cached_seq : ℕ
  pub hydrated : Bool

-- `NewSession`, without its surface.
unfoldable pub new_session : String → Session
new_session id = record { id = id; cached = []; cached_seq = 0; hydrated = false }

-- The batch after its checks, cloned and normalised.
unfoldable pub prepare : Draws → ℕ → List Event → Result (List Event)
unfolding normalize
prepare d i [] = ok []
prepare d i (e ∷ es) = do
  validate e
  rest ← prepare d (suc i) es
  ok (normalize (d.clock i) e ∷ rest)

-- The loop that extends the tail by the events behind its end.
unfoldable pub extend : List Event → List Event × ℕ → List Event × ℕ
extend [] (cached, seq) = (cached, seq)
extend (e ∷ es) (cached, seq) =
    extend es (if leb e.seq seq then (cached, seq) else (cached ++ (e ∷ []), e.seq))

unfoldable pub keep : List Event → Session → Session
unfolding extend
keep es ss =
    let (cached, seq) = extend es (ss.cached, ss.cached_seq) in
    if ss.hydrated then record ss { cached = cached; cached_seq = seq } else ss

-- `AppendCommitted`, with a store that commits batches, up to the extension of the tail: the lock of
-- the session is taken only then, so other calls may come between.
unfoldable pub commit_batch :
    Draws → Draws → List Event → String → MemoryStore → Result (MemoryStore × List Event)
unfolding prepare append_committed
commit_batch d d' es id s = do batch ← prepare d 0 es; append_committed d' id batch s

-- Both parts, where nothing comes between them.
unfoldable pub append_batch :
    Draws
    → Draws
    → List Event
    → Session
    → MemoryStore
    → Result ((Session × MemoryStore) × List Event)
unfolding commit_batch keep
append_batch d d' es ss s = do
  (s', canonical) ← commit_batch d d' es ss.id s
  ok ((keep canonical ss, s'), canonical)

-- The copies that the fallback makes up: `base + i`, and the session's id.
unfoldable pub number_from : Draws → String → ℕ → ℕ → List Event → List Event
unfolding normalize
number_from d id i base [] = []
number_from d id i base (e ∷ es) =
    normalize (d.clock i) (record e { session_id = id; seq = base })
    ∷ number_from d id (suc i) (u64 (base + 1)) es

-- `last - uint64(len(batchInput)) + 1`
unfoldable pub base_of : ℕ → ℕ → ℕ
base_of last count = u64 (last + (u64_mod - u64 count) + 1)

-- `AppendCommitted`, with a store that appends only.
unfoldable pub append_fallback :
    Draws
    → Draws
    → List Event
    → Session
    → MemoryStore
    → Result ((Session × MemoryStore) × List Event)
unfolding prepare append number_from base_of keep
append_fallback d d' es ss s = do
  batch ← prepare d 0 es
  (s', last) ← append d' ss.id batch s
  let made = number_from d ss.id 0 (base_of last (length batch)) batch
  ok ((keep made ss, s'), made)

-- The sequence number of the last event, or what there is without one.
unfoldable pub last_seq : ℕ → List Event → ℕ
last_seq none_yet [] = none_yet
last_seq none_yet (e ∷ es) = last_seq e.seq es

-- `AppendAll`
unfoldable pub append_all :
    Draws → Draws → List Event → Session → MemoryStore → Result ((Session × MemoryStore) × ℕ)
unfolding append_batch last_seq sequence
append_all d d' es ss s = do
  ((ss', s'), committed) ← append_batch d d' es ss s
  ok ((ss', s'), last_seq (sequence ss.id s') committed)

-- The checks of `Load` and `Refresh`, and those of `hydrate`.
unfoldable pub check_events : List Event → Result (Unit {0})
check_events [] = ok tt
check_events (e ∷ es) = do validate e; check_events es

unfoldable pub check_replay : List Event → Result (Unit {0})
check_replay [] = ok tt
check_replay (e ∷ es) = do validate_type e.type e.format_version; validate e; check_replay es

-- `Load`
unfoldable pub load_events : ℕ → Session → MemoryStore → Result (List Event)
unfolding load check_events
load_events after_seq ss s = do
  check_events (load ss.id after_seq 0 s)
  ok (load ss.id after_seq 0 s)

unfoldable pub refresh : Session → MemoryStore → Result Session
unfolding load check_events last_seq
refresh ss s = do
  check_events (load ss.id 0 0 s)
  ok (record ss {
    cached = load ss.id 0 0 s;
    cached_seq = last_seq 0 (load ss.id 0 0 s);
    hydrated = true;
  })

unfoldable pub hydrate : Session → MemoryStore → Result Session
unfolding load check_replay last_seq
hydrate ss s = if ss.hydrated then ok ss else (do
  check_replay (load ss.id 0 0 s)
  ok (record ss {
    cached = load ss.id 0 0 s;
    cached_seq = last_seq ss.cached_seq (load ss.id 0 0 s);
    hydrated = true;
  }))

-- The events that `Project` hands to the surface.
unfoldable pub projected : Session → MemoryStore → Result (Session × List Event)
unfolding hydrate
projected ss s = do ss' ← hydrate ss s; ok (ss', ss'.cached)

-- ===== src/Scenarios/Leases.antt =====
-- Two workers and their leases (session/fenced.go), and retried batches (session/store.go).
use awesome_go_agents.Base.{inr, ℕ, ◌+◌, ◌≡◌, refl, some, List, [], ◌∷◌, String, pos, update, arith}
use awesome_go_agents.Session.Json.{Json, Fields, value}
use awesome_go_agents.Session.Errors.{ok, err, lease_held, lease_lost}
use awesome_go_agents.Session.Event.{Event, user_message}
use awesome_go_agents.Session.Event.Validate.{validate}
use awesome_go_agents.Session.Store.{
  Lease, MemoryStore, Draws, new_memory_store, append_committed, assign,
}
use awesome_go_agents.Session.Store.Sequences.{IsSequenced}
use awesome_go_agents.Session.Store.Commits.{Continues}
use awesome_go_agents.Session.Store.Retries.{append_committed-retry}
use awesome_go_agents.Session.Lease.{
  claim_lease, renew_lease, check_fence, append_fenced, append_fenced_committed,
}
use awesome_go_agents.Session.Lease.Retries.{append_fenced-retry, append_fenced_committed-retry}
use awesome_go_agents.Session.Lease.Expiry.{renew_lease-exposes}
use awesome_go_agents.Session.Trace.{Call, committing, fenced, renew, run}
use awesome_go_agents.Session.Trace.Sequences.{run-IsSequenced}
use awesome_go_agents.Session.Trace.AppendOnly.{run-Continues}
use awesome_go_agents.Session.Trace.Superseded.{IsRefused, superseded-IsRefused}
use awesome_go_agents.Session.Trace.Exclusive.{LastsBeyond, held-exclusive}

abbrev pub message : String → Event
message id = record {
  seq = 0;
  type = user_message;
  format_version = pos 0;
  id = id;
  timestamp = 0;
  raw = value (Json.object (Fields.field "text" (Json.text "hello") Fields.end));
  source_seqs = [];
  session_id = "";
  run_id = "r";
  turn_id = "t";
  step_id = "";
  call_id = "";
}

abbrev pub draws : Draws
draws = record { clock = λ i. 100 + i; token = λ i. "random" }

abbrev pub later : Draws
later = record { clock = λ i. 200 + i; token = λ i. "other" }

abbrev first_lease : Lease
first_lease = record {
  session_id = "s";
  owner = "a";
  token = "t1";
  fence = 1;
  expires_at = 100000000010;
}

abbrev second_lease : Lease
second_lease = record {
  session_id = "s";
  owner = "b";
  token = "t2";
  fence = 2;
  expires_at = 230000000000;
}

-- A new store after the first claim, and after the second.
abbrev first_held : MemoryStore
first_held = record new_memory_store {
  fences = update new_memory_store.fences "s" 1;
  leases = update new_memory_store.leases "s" (some first_lease);
}

abbrev second_held : MemoryStore
second_held = record first_held {
  fences = update first_held.fences "s" 2;
  leases = update first_held.leases "s" (some second_lease);
}

abbrev batch : List Event
batch = message "e1" ∷ message "e2" ∷ message "e1" ∷ []

-- The first worker's lease expired, the second claimed, and the first still writes.
abbrev pub interleaving : List Call
interleaving =
    committing draws "s" batch
    ∷ fenced later 150000000000 first_lease batch
    ∷ renew 150000000000 150000000000 first_lease
    ∷ []

superseded-IsRefused_example : IsRefused first_lease (run interleaving second_held)
unfolding claim_lease run new_memory_store
superseded-IsRefused_example =
    superseded-IsRefused "s" [] [] interleaving 10 10 "t1" "a" (pos 100000000000) 200000000000
      200000000000 "t2" "b" (pos 0) first_held second_held first_lease second_lease (omega arith)
      refl refl

run-IsSequenced_example : IsSequenced (run interleaving new_memory_store) "s"
run-IsSequenced_example = run-IsSequenced interleaving "s" (omega arith)

run-Continues_example :
    Continues (second_held.events "s") ((run interleaving second_held).events "s")
run-Continues_example = run-Continues interleaving second_held "s"

held-exclusive_example :
    (claim_lease 50 50 "t9" "s" "c" (pos 0) (run (renew 20 20 first_lease ∷ []) first_held)
      ≡ err lease_held)
    × LastsBeyond 60 first_lease ((run (renew 20 20 first_lease ∷ []) first_held).leases "s")
unfolding new_memory_store
held-exclusive_example =
    held-exclusive (renew 20 20 first_lease ∷ []) 60 first_lease first_held 50 50 "t9" "c" (pos 0)
      (refl, refl, omega arith) (inr (omega arith), tt) (omega arith)

abbrev renewed_store : MemoryStore
renewed_store = record first_held {
  leases = update first_held.leases "s" (some (record first_lease { expires_at = 30000000020 }));
}

-- The lease lasts to 100 seconds and is renewed at once; at 50 seconds it is lost.
renew_lease-exposes_example :
    (claim_lease 50000000000 50000000000 "t9" "s" "c" (pos 0) first_held ≡ err lease_held)
    × (check_fence 50000000000 first_lease renewed_store ≡ err lease_lost)
    × (r : MemoryStore × Lease) × (claim_lease 50000000000 50000000000 "t9" "s" "c"
          (pos 0)
          renewed_store
        ≡ ok r)
unfolding renew_lease new_memory_store
renew_lease-exposes_example =
    renew_lease-exposes 20 20 50000000000 50000000000 first_lease first_lease
      (record first_lease { expires_at = 30000000020 }) first_held renewed_store "t9" "c" (pos 0)
      refl (omega arith) (omega arith) refl

-- The events as the store keeps them: the third is a retry of the first.
abbrev stored : ℕ → String → Event
stored n id = record (message id) {
  seq = n;
  format_version = pos 2;
  timestamp = 99 + n;
  session_id = "s";
}

abbrev after_commit : MemoryStore → MemoryStore
after_commit s = record s {
  next = update s.next "s" 2;
  events = update s.events "s" (stored 1 "e1" ∷ stored 2 "e2" ∷ []);
}

append_committed-retry_example :
    append_committed later "s" batch (after_commit new_memory_store)
    ≡ ok (after_commit new_memory_store, stored 1 "e1" ∷ stored 2 "e2" ∷ stored 1 "e1" ∷ [])
unfolding append_committed validate new_memory_store assign
append_committed-retry_example =
    append_committed-retry draws later "s" batch _ new_memory_store (after_commit new_memory_store)
      (refl, (refl, (refl, tt))) refl

append_fenced_committed-retry_example :
    append_fenced_committed later 30 30 first_lease batch (after_commit first_held)
    ≡ ok (after_commit first_held, stored 1 "e1" ∷ stored 2 "e2" ∷ stored 1 "e1" ∷ [])
unfolding append_fenced_committed check_fence validate new_memory_store assign
append_fenced_committed-retry_example =
    append_fenced_committed-retry draws later 20 20 30 30 first_lease batch _ first_held
      (after_commit first_held) (refl, (refl, (refl, tt))) (omega arith) refl refl refl

-- `AppendFenced` stores the repeated event of the batch once more.
abbrev after_fenced : MemoryStore
after_fenced = record first_held {
  next = update first_held.next "s" 3;
  events = update first_held.events "s" (stored 1 "e1" ∷ stored 2 "e2" ∷ stored 3 "e1" ∷ []);
}

append_fenced-retry_example :
    append_fenced later 30 30 first_lease batch after_fenced ≡ ok (after_fenced, 3)
unfolding append_fenced check_fence validate new_memory_store assign
append_fenced-retry_example =
    append_fenced-retry draws later 20 20 30 30 3 first_lease batch first_held after_fenced
      (refl, (refl, (refl, tt))) refl refl refl

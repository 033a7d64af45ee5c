-- ===== src/Agent/Approval.antt =====
-- Approvals of tool calls (agent/agent.go: approvalBroker).
--
-- A channel of `pending` is whether it is there. `told` has the answers that were given: by Approve, by
-- a value on the channel, and by `resume`, which every handle has set. The records of a call have one
-- id for each type, so the store takes the first of each type only; how a write goes is given: `append` may fail
-- after the record is stored, where it reads the record back from a store without fenced batches.
-- The requests, which `resume` gets, are left out.
use awesome_go_agents.Base.{
  Bool, true, false, not, ◌&&◌, ◌||◌, Option, none, some, List, [], ◌∷◌, ◌++◌, String, str_eq,
  update, if◌then◌else◌,
}
pub mod System
pub mod Agreement

pub record Broker : Type 0 where
  pub pending : String → Bool
  pub requested : String → Bool
  pub decisions : String → Option Bool

-- The calls of `EventApprovalRequested`, and the calls and answers of `EventApprovalResolved`.
pub record Records : Type 0 where
  pub asked : List String
  pub resolved : List (String × Bool)

-- A write is refused, or made, or made and then reported as failed.
pub data Written : Type 0 where
  refused stored stored_unseen : Written

pub data Reply : Type 0 where
  answered : Bool → Reply
  -- Decide is done and has told nobody
  settled : Reply
  waits already_pending not_recorded already_resolved none_pending : Reply

unfoldable pub is_asked : String → List String → Bool
is_asked call [] = false
is_asked call (c ∷ cs) = str_eq c call || is_asked call cs

unfoldable pub is_resolved : String → List (String × Bool) → Bool
is_resolved call [] = false
is_resolved call ((c, a) ∷ rs) = str_eq c call || is_resolved call rs

unfoldable pub record_asked : String → Records → Records
unfolding is_asked
record_asked call r =
    if is_asked call r.asked then r else record r { asked = r.asked ++ (call ∷ []) }

unfoldable pub record_resolved : String → Bool → Records → Records
unfolding is_resolved
record_resolved call a r =
    if is_resolved call r.resolved
    then r
    else record r { resolved = r.resolved ++ ((call, a) ∷ []) }

-- `Approve`, up to its wait, by the decision that there is.
unfoldable pub request_written : Written → String → Broker → Records → Reply × Broker × Records
unfolding record_asked
request_written stored call b r = (
  waits,
  record b { pending = update b.pending call true; requested = update b.requested call true },
  record_asked call r,
)
request_written refused call b r = (
  not_recorded,
  record b { pending = update b.pending call false; requested = update b.requested call false },
  r,
)
request_written stored_unseen call b r = (
  not_recorded,
  record b { pending = update b.pending call false; requested = update b.requested call false },
  record_asked call r,
)

unfoldable pub request_undecided :
    Option Bool → String → Written → Broker → Records → Reply × Broker × Records
unfolding request_written
request_undecided (some a) call written b r = (answered a, b, r)
request_undecided none call written b r =
    if b.pending call then (already_pending, b, r) else request_written written call b r

unfoldable pub request_approval : String → Written → Broker → Records → Reply × Broker × Records
unfolding request_undecided
request_approval call written b r = request_undecided (b.decisions call) call written b r

-- `Approve` is over.
unfoldable pub stop_waiting : String → Broker → Broker
stop_waiting call b = record b { pending = update b.pending call false }

-- What `Decide` sees in its first hold of the lock.
pub record Seen : Type 0 where
  pub channel : Bool
  pub requested : Bool
  pub decided : Option Bool

abbrev pub look : String → Broker → Seen
look call b = record {
  channel = b.pending call;
  requested = b.requested call;
  decided = b.decisions call;
}

abbrev pub same_answer : Bool → Bool → Bool
same_answer true b = b
same_answer false b = not b

-- A reply where `Decide` ends there, and none where it goes on to record the answer.
unfoldable pub judge : Bool → Bool → Bool → Option Bool → Option Reply
judge a channel requested (some before) =
    if not (same_answer before a)
    then some already_resolved
    else if not channel && requested
    then some (answered before)
    else some settled
judge a channel requested none = if not channel && not requested then some none_pending else none

abbrev pub conclude : String → Bool → Broker → Broker
conclude call a b = record b { decisions = update b.decisions call (some a) }

unfoldable pub follow :
    Option Reply → String → Bool → Written → Broker → Records → Reply × Broker × Records
unfolding record_resolved
follow (some reply) call a written b r = (reply, b, r)
follow none call a stored b r = (answered a, conclude call a b, record_resolved call a r)
follow none call a refused b r = (not_recorded, b, r)
follow none call a stored_unseen b r = (not_recorded, b, record_resolved call a r)

-- `Decide`, where nothing comes between its parts.
unfoldable pub decide : String → Bool → Written → Broker → Records → Reply × Broker × Records
unfolding judge follow
decide call a written b r =
    let seen = look call b in
    follow (judge a seen.channel seen.requested seen.decided) call a written b r

-- `restore`, on a new broker.
unfoldable pub restore_decisions :
    (String → Option Bool) → List (String × Bool) → String → Option Bool
restore_decisions m [] = m
restore_decisions m ((c, a) ∷ rs) = restore_decisions (update m c (some a)) rs

unfoldable pub restore : Records → Broker
unfolding restore_decisions is_asked is_resolved
restore r = record {
  pending = λ call. false;
  requested = λ call. is_asked call r.asked || is_resolved call r.resolved;
  decisions = restore_decisions (λ call. none) r.resolved;
}

-- ===== src/Lib.antt =====
-- The session log of the agent library, its leases and recovery, its projection to a model's
-- context, and the parts beside it: pruning, tool scopes, the pool that runs tools, jobs.
--
-- A session is an append-only log of events that a store numbers. Workers claim a session by a
-- lease, whose fence grows with every claim, and write under it; a worker that comes back after a
-- crash reads off the log what was cut short; the surface projection reads off the log what the
-- model sees, with compactions folded in. Context pruning shortens tool results, and a scope decides
-- which tools of the root registry an agent sees. A session handle keeps the tail of its log in
-- memory. The calls of a step run in a rolling pool, commands may run as jobs of an owner, a hub
-- hands committed events to those who follow a session, and a handle routes inputs to the turns.
--
-- Which file models what (paths from the repository's root):
-- - Session/Event.antt, Session/Event/Validate.antt: session/event.go, the vocabulary (EventType,
--   Known, Extension, Surface), Event, Validate, ValidateType, Normalize. The field Surface of an
--   Event, a hint that is not stored, is left out, and so is Clone: values do not alias.
-- - Session/Blocks.antt, Session/Blocks/Decode.antt, Session/Blocks/Encode.antt: session/blocks.go,
--   Validate, UnmarshalJSON, UnmarshalBlocks, MarshalJSON, MarshalBlocks.
-- - Session/Json.antt: what these files use of encoding/json. Raw bytes are what the decoder makes
--   of them; keys are exact, of two equal ones the later counts, and texts are code points, so that
--   what encoding/json does with keys in another case, with a key that stands twice and with bytes
--   that are no UTF-8 is not modelled.
-- - Session/Store.antt: session/store.go, the state of MemoryStore and Append, AppendCommitted,
--   Load, Tail, Sequence. A limit below 0 is a limit of 0. The clock and the random tokens of a call
--   are its argument `Draws`; sequence numbers and fences are uint64, which wrap.
-- - Session/Lease.antt: session/fenced.go, ClaimLease, RenewLease, ReleaseLease, checkFence,
--   AppendFenced, AppendFencedCommitted, SaveCompactionCheckpoint. The two readings of the clock in
--   a call are two arguments, since the lock is given back between them. Times are numbers of
--   nanoseconds.
-- - Session/Trace.antt: any sequence of calls of the store, each atomic, in any order of workers.
-- - Session/Cache.antt: session/session.go, the handle on one session: AppendAll, AppendCommitted (with
--   the fallback for a store without batches), Load, Refresh, hydrate, and the events that Project
--   hands to the surface. An append stores under the lock of the store and extends the tail later, so
--   that two of them may overlap. CompactionSummary, whose payloads are JSON texts, is not modelled.
-- - Session/Recovery.antt: session/fenced.go, danglingCallIDs, dispatchedCallIDs and the scan of
--   Recover for the open turn. Session/Recovery/Steps.antt: session/recovery.go,
--   InterruptedStepEndEvents. Session/Recovery/Deferred.antt: pendingDeferredScopes of
--   session/fenced.go and the step ends and the turn end that Recover makes with it. The drafts of
--   interrupted messages are not modelled.
-- - Session/Surface.antt and its children Payloads, Reading, FirstPass, Pairing, Folding:
--   session/surface.go, the first pass of Project, validatePairing, and how the second pass puts the
--   replacements among the nodes. The messages that the second pass builds are not modelled.
-- - Context/Pruner.antt, Context/Meter.antt: context/pruner.go, context/meter.go, on code points. The
--   digest of crypto/sha256 is a parameter.
-- - Tools/Scope.antt: tools/scope.go, the masks, their handles and what they admit. The
--   registries of a scope, and with them ModelTools and Run, are not modelled.
-- - Tools/Batch.antt: tools/registry.go, runRollingBatch. What a call completes with, whether it may
--   run beside others, when the context is cancelled and which running call ends next are given.
-- - Agent/Hub.antt, Agent/Hub/Cursor.antt, Agent/Hub/Notices.antt: agent/events.go, the hub of committed
--   events, a subscription from a cursor with its replay, and the notifications. Channels are lists.
-- - Agent/Turn.antt: agent/loop.go, runTurnSteps, and agent/policy.go. What a step, a policy, a
--   compaction, the context and an append answer is given, as functions of the calls made before.
-- - Agent/Inbox.antt, Agent/Inbox/System.antt: agent/agent.go, the inbox of a handle, Submit, Cancel,
--   Dispose, and the holds of its lock by callers, worker and turn, in any order.
-- - Agent/Approval.antt, Agent/Approval/System.antt: agent/agent.go, the approval broker, its records,
--   and the calls of it, one after the other.
-- - Job.antt, Job/Listing.antt, Job/Output.antt: job/types.go, integration/local/jobs.go and the
--   buffer of integration/local/process.go.
--   The end of a job's process, with its output, exit code and error, is a call of the manager; the
--   wait of Output lies between two states of it.
-- - The other children prove; Scenarios.antt runs the definitions and applies the theorems.
--
-- Loops over slices are structural recursion. Two loops run on fuel, which is proved to be
-- enough: that of runRollingBatch, one pass more than there are calls, and that of
-- flushPendingLocked, a turn for every pending event. The retries and passes of a turn are
-- structural recursion on those that are left. Not modelled: what a step of a turn does, the
-- restoring of an inbox, skills, the registry and pipeline of tools, the llm types and the other
-- integrations, which stand on providers, files and processes.
pub mod Base
pub mod Session
pub mod Context
pub mod Agent
pub mod Job
pub mod Tools
pub mod Scenarios

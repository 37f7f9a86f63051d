-- ===== src/Lib.antt =====
-- Verification of dsh-subagent-admission, an admission policy for subagents: before a session may
-- start or resume a child, it acquires a permit under four limits, on live children of a root and of
-- the process and on children ever admitted to a root and to a parent. All paths below are from the
-- repository's root; the code is in packages/dsh-subagent-admission/src, its host part in
-- packages/dsh-subagent-admission/src/host.
--
-- The parts, and how they interact. The authority (authority.ts) answers `acquire`: in one serial
-- section it asks the process guard whether this process owns the sessions, lets the root resolver
-- (root-resolver.ts) find the root session of the caller, has the ledger (ledger.ts) count a new
-- child durably after the cumulative checks and a callback that checks the live limits in the lease
-- registry (leases.ts), and enters a lease there. The permit that it returns binds the child, in the
-- resolver and the registry, and releases the lease through the serial section. state-model.ts is the
-- repository's own reference model of the same transitions, on one state.
-- The service (service.ts) takes the process guard (process-guard.ts), opens the ledger, looks at all
-- sessions, and hands the authority to the runtime, or it observes only; at its end it gives all back
-- in order. Telemetry (telemetry.ts) keeps the events of either and shows snapshots to the client, whose
-- controller (client/controller.ts) polls them.
--
-- Which file models which part:
--   Prelude and Prelude/*: what the parts share, and nothing of the program: Boolean tests, results,
--     JavaScript numbers as far as they are looked at, maps as association lists with their laws,
--     sums over maps, decimal printing.
--   Vocabulary: types.ts and errors.ts, the words of the host.
--   StateModel: state-model.ts. `transition_model` is `transitionModel`, each command with its own
--     function, named as in the source; StateModel/* has the invariant, runs and their theorems.
--   Leases: leases.ts. `insert_lease`, `bind_lease`, `remove_lease`, `mark_draining`, `when_empty` are
--     the methods of `ActiveLeaseRegistry`, the insertion in Leases and the rest in
--     Leases/Operations; a method that changes the registry returns the new one.
--   Ledger: ledger.ts and ledger-spec.ts. `reserve_new_locked` is `reserveNewLocked` (`prepare_row` up
--     to the write, `put_row` the write); Ledger/Tail models the promise tail, `read` and `close` as
--     operations that wait and are performed one by one.
--   Resolver: root-resolver.ts. `resolve`, with `traverse` for its loop and `memoize_all` for the
--     memo, and `bind_child`.
--   Authority: authority.ts and seam-v1.ts. The state and the errors in Authority, `acquire` in
--     Authority/Section and Authority/Reserve, one function for each stretch of code between two
--     awaits; `AdmissionPermit`, `bindLease` and `releaseLease` in Authority/Permits; Authority/Steps
--     interleaves them: a history is a list of steps, each a call by a client or the end of an await
--     with its answer.
--     Authority/Effects is an abstract view of a step, Authority/Refinement relates the steps to it,
--     Authority/Limits, Authority/Durability and Authority/Closing are about histories
--     (Authority/Closing/Drained about those after a drain),
--     Authority/Commit about the end of an acquisition, Authority/Bindings about a permit's binding.
--   Config: config.ts. `resolve_config` is `resolveConfig`.
--   Compatibility: compatibility.ts. `select_admission_mode` is `selectAdmissionMode`;
--     Compatibility/Targets describes a target that is installed, Compatibility/Selection the modes.
--   Telemetry: host/telemetry.ts. Telemetry/Values has the sanitizers; `record_event` is `record`
--     (`scoped` its event, `record_scoped` the rest), Telemetry/Snapshot has `snapshot` with the reads
--     of status, leases, root and ledger, Telemetry/Watch `watch`, as its start, the ways in which its
--     wait may end, and its answer. Telemetry/History relates the bounded history to the journal of
--     all events, Telemetry/Roots and Telemetry/Conflicts are about the roots of sessions,
--     Telemetry/Isolation and Telemetry/Enforcement about what a snapshot shows, the latter by what
--     the readers answered, in Telemetry/Answers.
--   Guard: host/process-guard.ts. Guard/Owner has the record and `parse_owner` (Guard/Owner/RoundTrip
--     writes and reads it), Guard/Calls the calls
--     of the operating system: a program `Io` asks for one call at a time and goes on with the answer,
--     so that a property of it ranges over every answer. `read_pinned_owner` and `assert_held` stand in
--     Guard, `acquire` with `publish_owner` and `quarantine_dead_owner` in Guard/Acquire,
--     `perform_release` in Guard/Release. Guard/Pinned, Guard/Claims with Guard/Attempts, and
--     Guard/Removal with Guard/Matches are about what the programs saw and did.
--   Service: host/service.ts. Service/Start has `create_service`, with the calls that take and give back
--     resources as a list, Service/Bootstrap `bootstrap_sessions` and `assert_no_live_subagents`,
--     Service/Disposal `dispose` and `finishDisposal` as steps from one await to the next,
--     Service/Audit the two listeners of an audit service, Service/Audit/Lineage `audit_lineage`,
--     Service/Bootstrap/Inspect `inspect` of `BootstrapHeaders`, Service/Modes the status, the readers
--     and the own events of each service. Service/Start/Resources and Service/Start/Conditions are
--     about the end of a start (Service/Start/Preflight about its first selection),
--     Service/Bootstrap/Roots, Service/Bootstrap/Listed, Service/Bootstrap/Quiet and
--     Service/Bootstrap/Agreement about a bootstrap, Service/Bootstrap/Inspect/Parents about inspections, Service/Disposal/Order and
--     Service/Disposal/Completion about a disposal, Service/Audit/Pairs about the end of a run,
--     Service/Modes/Enforcement about what a service claims.
--   Controller: client/controller.ts. `start`, `stop` and `subscribe` are the methods, `poll_answered`
--     is a round of `poll` from its answer on. Controller/Sessions is about the snapshot that is shown,
--     Controller/Polls about polls that are over and answers that fail.
--   Examples and Examples/*: runs at concrete inputs, and every theorem at one.
--
-- How the code corresponds to the model. A class instance is a record, a method takes it and returns
-- the new one; a throw is `err` of a `Result`. `undefined` and `null` are `none`. A `Map` is a `Dict`,
-- an association list that is read at the first match; that its keys are distinct is part of each
-- invariant. Counters are natural numbers, where the code has numbers that it checks to be safe
-- integers: a counter never exceeds a limit, which is one, so it does not round. The numbers
-- of permits are not bounded in the model, in StateModel and Leases; the source's number would stop
-- to advance after 2^53 permits of one process. A number that comes
-- from outside is a `Number`: natural, negative, or anything else. Field names are the source's in
-- snake case. What a type of the source excludes (a wrong operation, a missing field) is not tested
-- again in the model.
--
-- What other code answers is an argument and may be anything: the header reader and the abort signal
-- (`Reading`, `Signal`), the storage domain (`Storage`, `PutAnswer`, which covers a write that is
-- stored and rejected all the same), the guard, the clock; for telemetry the functions that read the
-- authority (`Readers`) and `Date.prototype.toISOString`; for the process guard the file system, the
-- process table and `JSON.parse`; for the controller the Remote; for
-- the service what each of its parts answers (`StartAnswers`), the session stores and the resolver.
-- Where telemetry looks up the type of a value, the model has `Value`: a text, or something else.
--
-- Bounds and fuel. The resolver's loop runs on fuel 1025: it may visit 1,024 headers, and the round
-- after the last one throws, so one unit more than the headers is enough. The three attempts of the
-- process guard's `acquire` are the code's own bound. The walk of `audit_lineage` visits no session id
-- twice, so one unit more than there are sessions is enough. Everything else is recursion on its data.
--
-- What is not modelled: freezing and copying of results, as values do not change; the times of events
-- of the authority, and the listeners of events and diagnostics, whose throws are swallowed; the promise
-- of the authority's `drain`, which is taken to settle where the service waits for it; the zod schema of ledger rows; the reading of the injected baseline; of
-- service.ts the reads from the context and of the installed version, the ledger cache, the attaching
-- of listeners, and the Remote methods, which hand on to telemetry; that calls of the guard's `release`
-- share a running attempt; the telemetry's revision as a rounding number; listeners of the controller that call it back; the client's view,
-- texts and styles; and the build and release scripts.
pub mod Prelude
pub mod Vocabulary
pub mod StateModel
pub mod Leases
pub mod Ledger
pub mod Resolver
pub mod Authority
pub mod Config
pub mod Compatibility
pub mod Telemetry
pub mod Guard
pub mod Service
pub mod Controller
pub mod Examples

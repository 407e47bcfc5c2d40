-- ===== src/Lib.antt =====
-- The kernel of distlab, a deterministic simulator of distributed systems (packages/kernel/src and the
-- contracts it is written against, packages/contracts/src/kernel). A run is a sequence of events: a
-- scheduler holds them in a binary heap by time and sequence number, the simulation takes the least
-- one, moves the virtual clock to it and calls the handler, which schedules more. Everything that
-- happens is recorded in a history, and whatever a caller hands in is copied and checked first.
--
-- Files:
--   Contracts/Errors, Contracts/Events, Contracts/Observation: packages/contracts/src/kernel/errors.ts,
--     events.ts and observability.ts, the codes, the drafts and events, and the sink of records.
--   Values: the numbers and the canonical values of contracts time.ts and canonical.ts. `simulation_time`
--     and `duration` are `simulationTime` and `duration`.
--   Canonical: `canonicalCopy` of packages/kernel/src/canonical.ts (`copy` is the function that walks the
--     value), with Canonical/RoundTrip; `canonicalEncode` is Canonical/Encode, with the host's printing of
--     numbers as a parameter.
--   Scheduler: packages/kernel/src/scheduler.ts, `DeterministicScheduler`. Its private methods `#swap`,
--     `#up`, `#down`, `#insert` and `#remove` are Scheduler/Heap (with Order, Sync, Up, Down, Insertion
--     and Removal below it), `#validate` is Scheduler/Validate, `forOwner` is Scheduler/Capability, and
--     `exportState` and `restore` are Scheduler/Restore. `schedule` is `validate` and then `enqueue`;
--     `takeNext` and `cancel` share `take_at`. Proofs: Sound (the invariant), Calls, Invariant, Sorting,
--     Dispatch, Drain, Restored, Confined and Reach.
--   Clock: packages/kernel/src/clock.ts, `addDuration` and `DeterministicVirtualClock`; Clock/Bounds, and
--     Clock/Timely with the head of `#dispatch` of packages/kernel/src/simulation.ts.
--   Identity: packages/kernel/src/identity.ts, the allocator of identities and the correlation contexts.
--   KeyValue: packages/kernel/src/key-value-store.ts. KeyValue/Map holds the entries, KeyValue the private
--     methods (`live` is `#live`, `note` is `#observe`, `drop_expired` is `#expire`), and
--     KeyValue/Operations the calls (`get_key`, `set_key`, `delete_key`, `increment`, `compare_and_set`,
--     `expire`, `schedule_initial_expiries`). KeyValue/View says what a store shows at a time; the calls
--     are compared with it in Refinement, Writes, Deletion, Counting and Expiry.
--   Random: packages/kernel/src/random.ts, `draw` and `revoke` of the seeded generator. Random/Seeding is
--     `splitMix32` and the constructor, with the digest of the seed as a parameter. Proofs: Live and Draws.
--   Faults: packages/kernel/src/fault-engine.ts, the data of rules, probes and decisions;
--     Faults/Evaluation is `evaluate`, whose loop is `visit_all` and whose rounds are `visit`, `count`,
--     `try_rule`, `consider` and `select`; Faults/Applications and Faults/Probes. The generator is a port,
--     `RandomPort`, which Random fills.
--   History: packages/kernel/src/history.ts. History/Validation is `validate`, History/Recording has
--     `record` as `append`, History/Query is `query` with `matches` and `validateFilter`; History/Indexes.
--   Database: packages/kernel/src/database.ts. A transaction is an object that the map of open ones and the
--     pending commits share, so it stands at a place of `transactions`, which the others name. Database/Cells
--     has the rows, the changes and `#key` and `#row`; Database/Constraints is `#constraint`;
--     Database/Transactions the calls of a transaction, `begin`, `submit`, `rollback`, `cleanup`,
--     `abandonGeneration` and `reset`; Database/Commit is `#dispatch`, from `dispatch` to `install`;
--     Database/Create the constructor. The checks of the rows are host functions, and so are parameters.
--     Proofs: Overlay (a snapshot is its base under the writes), Consistency (the invariant), Reach,
--     Successes, Outcomes, Race, Isolation and Satisfaction.
--   Network: packages/kernel/src/network.ts. Network/Policies is `policy`, the constructor, `register` and
--     `seal`; Network/Sending is `request`, `#decision` and `#sendLeg`; Network/Settling is `#deliver`,
--     `reply`, `#receive` and `#deadline`. A flight is read from the map of flights and written back. The
--     floating-point arithmetic on a draw (`scaled`, `unit_below`) is a parameter. A receiver is one too:
--     `accept` answers with the replies that it makes during the call. Proofs: Lives (how a flight may
--     move), Legs, Moves, Once and Departures. That an operation's identity is new where a request takes it,
--     which the controller of operations sees to, is the hypothesis `IsFresh`.
--   Simulation: packages/kernel/src/simulation.ts, `HeadlessSimulation`: its state, `#guard`, `#check` and
--     `#terminal`. Simulation/Operations has `#advance`, `operations.create`, `operations.complete` (up to the
--     task that goes on it is `complete_checked`) and `taskLifecycle.abandon`; Simulation/Events has
--     `registerHandler`, `#boundary` and `#dispatch`; Simulation/Control has `step`, `run`, `pause`, `reset`
--     and `#compose` without the construction of the ports. `Code` holds the bodies of handlers, of tasks and of the boundary hook, as
--     calls on the simulation, and `turn` what the host does while a run yields. Proofs: Ends, Latch,
--     Runs, Refusals, Boundary and Settled.
--   In these three, `world` is the state of the ports that the simulation gives; a call of the first two takes a
--     `Host`, what the simulation shows during the call.
--   Base: results, actions, texts and lists. Samples and Examples: concrete inputs.
--
-- Conventions. A call that may throw returns a Result: `throw e` for `throwSimulationError(e)`, and
-- `type_error` for a TypeError of the host, such as a read of a property of undefined. A call that
-- changes state is an Action, which returns the state also when it throws, since the program does not
-- undo what was written before a throw. The observation sink is a parameter: a function from a record and the
-- state of the history to an answer, which may be a refusal; theorems that need it to refuse nothing
-- say so by `Accepts`. The sealed registry of handlers is a parameter, a function from types to owners.
-- Texts are lists of UTF-16 code units. A number is a natural, a negative integer, -0, another finite
-- double under its bit pattern, or not finite; the arithmetic that the scheduler and the clock do is on
-- safe integers, where a double is exact, and the checks for that are modelled.
--
-- Bounds. The loop of `run` has a round for each event that it may dispatch, and needs no fuel besides. The
-- loop of `evaluate` has as many rounds as there are rules. The loop of `#up` has fuel
-- index + 1 and the loop of `#down` has the size of the heap; a loop that spent its fuel would leave the
-- heap out of order, and Heap/Up and Heap/Down show the order.
--
-- Not modelled: host promises and the handlers' JavaScript bodies, freezing of objects, stack traces and
-- error contexts, the web application's rendering, and the parts that the manifest lists as such. An error
-- is its code, and the codes are those of the contracts, where `failTask` takes any string. `sealFailure` and
-- `flushNotifications` are taken not to throw.
pub mod Contracts
pub mod Base
pub mod Values
pub mod Canonical
pub mod Scheduler
pub mod Clock
pub mod Identity
pub mod Faults
pub mod History
pub mod KeyValue
pub mod Database
pub mod Network
pub mod Random
pub mod Samples
pub mod Examples
pub mod Simulation

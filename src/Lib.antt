-- ===== src/Lib.antt =====
-- The verification library of AI Workstation Core: the MEK kernel and its adaptive control plane
-- (mek/), and from the runtime (runtime/) the contracts of MCP calls, the fair queue, the policy engine
-- and the release queue.
--
-- The program. The kernel takes an intermediate representation (RIR) of units and edges. The loader
-- validates it, the builder makes the execution graph (CEG), the scheduler splits each layer of the
-- graph into waves without conflicts and initialises the statuses. The loop then goes through the
-- waves: it claims the ready nodes, dispatches them concurrently, commits their results in the order
-- in which they arrive, waits for the wave and recomputes the blocked nodes. The commit engine is the
-- only writer of statuses, and announces what it writes on a channel, which the journal records.
-- Replay and structural verification read the journal, and the consistency check compares them with
-- the kernel and the trace collector. The adaptive control plane makes signals of their reports,
-- evaluates feedback rules over the history of signals, and delivers the actions on its bus. The
-- runtime takes requests through a queue with sessions in turns, asks the policy engine at each stage,
-- and calls adapters behind a breaker, retries with a budget and limits on what is active.
--
-- The modules.
--   * Base: tests, lists measured by native numbers, maps as association lists, the order of strings,
--     sorting and permutations.
--   * Types: mek/pkg/types/types.go. Go's pointers to node states are entries of the status map.
--   * Loader: mek/internal/rir/loader.go (`Validate` is `validate`).
--   * Ceg: mek/internal/ceg/builder.go. Activation has `EvaluateActivation` and `ShouldSkip`, Layers
--     the rounds of `topoSort`, Search `hasCycle` and `reachableSet`, Build the construction and
--     `validate`.
--   * Commit: mek/internal/commit/engine.go (`Commit` is `commit`, an engine to an engine and an
--     optional error). Transitions has the state diagram as a relation, Laws one commit, Histories
--     sequences of commits.
--   * Scheduler: mek/internal/scheduler/scheduler.go. Waves has `ComputeWaves`, Steps `InitStatusMap`,
--     `Recompute`, `Claim` and `WaitWave`, Loop `RunLoop`; Justified has the invariant on
--     activations, Ends how waits and runs end (Waits, Escalation, Returns).
--   * Dispatcher: mek/internal/dispatcher/dispatcher.go.
--   * Kernel: mek/internal/runtime/runtime.go (`New` is `start`, `Run` is `run`).
--   * Journal, Replay, Verify: mek/internal/journal/journal.go, mek/internal/replay/replay.go and
--     mek/internal/verify/verify.go.
--   * Trace: mek/internal/trace/collector.go.
--   * Consistency: `FullConsistencyCheck` of mek/internal/verify/verify.go.
--   * Adaptive: mek/internal/adaptctl. Signal has the classifier, Ingestor the signals from reports,
--     Feedback the rules and `Evaluate`, Bus `Publish`.
--   * FairQueue: runtime/queue/fair_queue.go.
--   * Retry, Backpressure: runtime/mcp/contracts/retry.go, adapter.go and backpressure.go.
--   * Policy: runtime/policy.
--   * Release: runtime/mcp/release/queue.go and retry.go. Restart has its use over time.
--   * CircuitBreaker: runtime/mcp/contracts/circuit_breaker.go, `Execute` in its two locked parts;
--     Rejecting has the calls of several clients.
--   * Samples: a graph of two nodes, small inputs, and the theorems at them.
--
-- State is passed explicitly: the status map and the channel of events stand in the commit engine.
-- What the code does not decide is a parameter: the answers of dispatched nodes (a result, an error, a
-- panic, or none ever), the order in which their goroutines end, parsed deadlines, and in which rounds
-- of a wait the contexts are done (`Env`); clocks are arguments. Endpoints and adapters are records of
-- an operation over a state that the caller does not see. A loop that waits for a dispatch without an
-- end, or in a wait that outlasts the rounds that are followed, is `hangs`.
--
-- Fuel. A round of `topoSort` takes a unit, and there are at most as many rounds with nodes as roots
-- and nodes of positive in-degree. A nested call of a depth-first search takes a unit, and marks a
-- key that was not marked. The search for a free colour takes a unit for each used colour. A turn of
-- `Dequeue` takes a unit, and there is one more than there are sessions; a pass of the exchange sort
-- takes one, and there is one for each rule. Attempts are counted down from their limit. The rounds of
-- a wait may go on for ever: how many are followed is a parameter (`rounds` of `Signals`), a function
-- of the timeout, and the theorems on waits say when enough are.
--
-- Bounds. The journal's sequence is taken modulo 2^64. The in-degrees of `topoSort` are integers that
-- may go below zero. Lengths, counters and durations are natural numbers.
--
-- Not modelled: files, JSON and YAML, the scanner and compiler of representations, the context store
-- and the predictor (floating-point trends); of the runtime its servers, gateways, stores, workers,
-- metrics and reports, the timeout adapter, and the backoff and percentages in floating point.
pub mod Base
pub mod Types
pub mod Loader
pub mod Commit
pub mod Ceg
pub mod Scheduler
pub mod Dispatcher
pub mod Kernel
pub mod Journal
pub mod Trace
pub mod Replay
pub mod Verify
pub mod Consistency
pub mod Adaptive
pub mod FairQueue
pub mod Retry
pub mod Policy
pub mod Backpressure
pub mod Release
pub mod CircuitBreaker
pub mod Samples

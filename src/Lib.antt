-- ===== src/Lib.antt =====
-- The workflow execution engine: a runtime that executes a workflow, a directed graph of nodes, each
-- a call of a worker (a language model under a contract) or of a tool. Paths are from the root of the
-- repository.
--
-- The scheduler (core/engine/scheduler.go, run) builds the graph, and then one coordinator goroutine
-- decides which nodes may run, hands their tasks to a pool of workers, and handles what they send
-- back: outputs, failures with their policies, the budget, approvals and cancellation. A worker runs
-- executeNode (node.go): the cache, the retries (retry.go), the artifact and the events. Every event
-- goes to a log whose lines are chained by hashes (core/eventlog), from which a run is resumed
-- (resume.go), run again (core/replay/reexecute.go) or read back (core/replay/audit.go). A node that
-- calls a tool goes through the placeholders of its input (tool_input.go) and the approval of calls
-- that change something (tool_executor.go); any other calls a model under a contract
-- (worker_executor.go). Before a run, the graph of a workflow is checked
-- (core/validate/graph.go); what nodes produce is kept by its hash (core/store/artifact_store.go).
--
-- Files, and the code that they model:
--   Prelude           numbers of 64 bits, lists, Go's maps as association lists, texts
--   Domain            core/domain, the values of JSON, error chains, core/diagnostic
--   Policy            core/policy/resolver.go
--   Contract, Cost    core/contract, core/cost/accounting.go
--   Cache             core/cache/store.go and inspect.go
--   Store             core/store/artifact_store.go
--   Validate          core/validate/graph.go and errors.go:
--     Problem         the problems, and where they are
--     Nodes, Graph    the checks, and Graph itself
--     Cycle           findCycle
--   Engine/Types      the data of core/engine/scheduler.go and node.go
--   Engine/Conditional, Retry, Budget, Inputs, Approval    the files of these names in core/engine
--   Engine/Scheduler  run of core/engine/scheduler.go:
--     Graph           the structures that it builds
--     Coordinator     halt, cancelHalt, settle, processDecisions
--     Completion      handleCompletion, failurePolicyOf
--     Loop            the seeding, the loop and its select, and the final result
--   Engine/Node       executeNode, cacheKeyFor, cacheHit of core/engine/node.go
--   Engine/Resume     core/engine/resume.go and core/replay/reexecute.go
--   Engine/ToolInput  core/engine/tool_input.go
--   Engine/ToolCall   Invoke of core/tool/tool.go, and redactPayload
--   Engine/ToolExecutor    core/engine/tool_executor.go, and checkpointID of approval.go
--   Engine/WorkerExecutor  core/engine/worker_executor.go, and Registry.Get of core/model/provider.go
--   EventLog          core/eventlog
--   Replay            core/replay/audit.go and divergence.go
--   Examples          runs at concrete inputs
--
-- The coordinator's variables are the record Coordinator, and each of its closures is a function on
-- it. The goroutines and the select are a sequence of moves: an idle worker takes the first ready
-- task, a task of the pool finishes with any result, or the context is done. What holds of every
-- reached state holds in every interleaving. Events are collected in the order in which they are
-- emitted; writing one to the log is best effort in the code.
--
-- The artifact store is a map from file names to files, with its temporary files, and every call of
-- the operating system may fail (Io). A file of the event log is a list of lines, of which the last
-- lacks its line break where a write was cut off (Fault). A tool is a record of what it answers (Tool), and a trace keeps
-- the inputs with which tools were run. A problem of a graph has a pointer and a message as data, and
-- the colors and the stack of findCycle are passed along.
--
-- Parameters: the arithmetic of float64 (FloatOps), the decoding of JSON, the text of an error, the
-- executor, the artifact store and the key of a node (Services), the encoding and the hash of the
-- log (Codec), SHA-256 and the operating system for the artifact store, the tools, the environment and
-- the codecs of a tool call (Tooling), what providers answer, the JSON Schema library and the verbs of
-- fmt for a worker's call (Modeling), the conversion of a float64 to an int64 when a log is read back,
-- the error of a context, and the clock. Ranges over Go's maps, whose order is not fixed, follow the
-- order of the association list.
--
-- Fuel: with_retry is given one attempt more than the two retry limits together, and the loop of
-- descendantsInclusive two rounds more than there are edges. The loop of processDecisions is given
-- one round for each queued node, and for each pending node one round for each edge and one more:
-- a round takes a node from the queue, and only a node that stops pending adds its children. The
-- search for a cycle is as deep as there are nodes, since each call colors one more, and the loop of
-- ancestorsOf has one round for each edge into the node and one for each edge, and one more.
--
-- Not modelled: the dispatch of nodes to their executors, the keys of the cache, bundles, the registry,
-- the settings, the tools and model providers themselves, the server, the command line and the SDK, which are around this core or mostly input and output.
pub mod Prelude
pub mod Domain
pub mod Policy
pub mod Contract
pub mod Cost
pub mod Cache
pub mod Store
pub mod Validate
pub mod Engine
pub mod EventLog
pub mod Replay
pub mod Examples

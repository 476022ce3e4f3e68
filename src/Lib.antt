-- ===== src/Lib.antt =====
-- A model of eywa, an engine that turns inbound events (Pulses) into answers of language-model agents
-- (Spirits), and the theorems that make its core correct.
--
-- The parts of the program and how they interact. A channel builds a Pulse; a Link says which Scouts,
-- guards, Spirits and Voice belong to its event type. The engine, Weave, runs a list of steps over one
-- ProcessingState: admission (validation, idempotency, rate limit), the session lock, enrichment,
-- filtering, the choice and loading of a Spirit, the session and its waiting messages, the budget, the
-- reasoning service, delivery, persistence and audit. The driver then releases the locks and assembles
-- the Response. Locks, idempotency keys and handoff pins live in stores that all turns share.
--
-- Files and code (paths from the repository's root):
-- - Prelude: shared names, tests, lists, Go's maps (Maps) and signed integers (Int).
-- - Errors: internal/implementation/orchestrator/errors.go and statusFromError in engine.go.
-- - Entities: internal/domain/entities; Keys, Value, Pulse (Builder, Reads) for pulse.go, Link for
--   link.go, Spirit, Memory and Response for the files of these names.
-- - Stores: the in-process adapters of internal/implementation/orchestrator; Bond for bond_noop.go,
--   Idempotency for idempotency_memory.go, Handoff for handoff_store_memory.go.
-- - Pipeline: Execute and executeStep of internal/implementation/orchestrator/pipeline.go, over any
--   state, with panics as a third ending.
-- - Engine: the steps of internal/implementation/orchestrator/pipeline_step_*.go, one function
--   Turn → Outcome Turn for each Execute. State holds the ProcessingState, the shared World and the
--   ports (Env); Admission, Filter, Routing, Session, Condition, Budget and Answer hold the steps; Run is
--   buildProcessingPipeline and runProcessingPipeline of engine.go. Kept carries invariants along the
--   pipeline; Locks, Delivery, Refusal, Held, Audit, Template, Sessionless and Laws prove the
--   properties.
-- - Reasoning: the reasoning service in internal/implementation/orchestrator. Policies: Stall for
--   progress_stall.go, Plan and Dispatch for plan_scratchpad.go, Confidence for handoff.go, Transfer and
--   Handoff for handoff_service.go, Compression for context_compression.go. One turn: Oracle for the
--   messages and answers of an oracle (internal/domain/ports/oracle.go), Turn for the state of a turn
--   and the service with its ports, Setup for newTurnState, Calls for processActionCalls, Answer for
--   callLLM and what uses it, Gates for finalizeTerminalResponse, Durable for reasoning_durable.go,
--   Iteration for runIteration and executeIterationActions, Loop for run; Executor for
--   tool_executor.go, Summon for summon_service.go and executeAllActions, Limits and Shaping for
--   tool_shaping.go, Stream for streaming.go. A function of the service takes the TurnState and gives
--   it back; Step, Gate and Ended say how an iteration, a gate and a run end. Frame says what the
--   parts of an iteration leave alone; Bounds, Novel and Liveness say what holds after each iteration
--   and of a whole run. A turn asks its oracle by buffered calls; Stream says what a streamed call
--   comes to.
-- - Entities/Policies.antt and Errors/Action.antt: internal/domain/entities/reasoning.go and
--   internal/domain/errors.
-- - Chunking: mergeAtoms of internal/helpers/chunking/chunking.go, and in Chunking/Windows.antt Recursive,
--   splitToAtoms and hardSplit of it; the windows run on fuel, one more than the runes of the text.
-- - Tests: a small deployment and concrete runs.
--
-- Conventions. A step takes a turn (its state and the world) and gives a turn back, so every write is
-- visible; a field that the source mutates in place is replaced in the record. Ports of services outside
-- the repository, and of interfaces that the engine is built on, are functions in Env that may depend on
-- the whole world; where one answers none, the port reports an error. Numbers are unbounded naturals, or
-- integers where the source allows a negative value; counters here stay far below 64 bits. A Go map is
-- an association list, and its order stands for an iteration order that Go leaves open.
--
-- Panics. A panic of the engine is the outcome `panic` of a step. In the reasoning loop an operation that
-- panics gives no result, or sets `unwinding` in the turn; the step that called it is then `panicked`, and the
-- run crashes with the turn as it was left.
--
-- Fuel. resolve_map_path recurs on the characters of the path, one unit for each key, of which there are no
-- more than characters (Engine/Filter/Laws). hard_from takes one unit for each rune and one more; the theorem on recursive
-- says that this is enough. The reasoning loop recurs on the iterations that are left, and the retries of
-- an Action on the attempts that are left, as the loops of the source count them. Every other loop is
-- structural.
--
-- Not modelled: log lines, traces, texts of errors, times other than deadlines, expiries and waits; the
-- events of a streamed turn and the descriptions of tools; the optional steps for media, HTTP tools,
-- summaries and imprints; the builder and the validation of the configuration; the adapters for
-- databases, caches, model providers, channels, HTTP and cloud services.
pub mod Prelude
pub mod Entities
pub mod Errors
pub mod Pipeline
pub mod Stores
pub mod Engine
pub mod Reasoning
pub mod Chunking
pub mod Tests

-- ===== src/Lib.antt =====
-- The core of galdor, a Go library for agents: the graph runtime of pkg/graph, the ReAct agent of
-- pkg/agent, its plan-execute agent, and the swarm and the supervisor of pkg/council that run on it
-- with tools and providers, the filter of thinking blocks in pkg/provider, the document chunkers of
-- pkg/memory/chunk, the in-memory store of pkg/memory and its bounded conversation window, and the
-- replay of a recorded run in pkg/replay.
--
-- The graph runtime. A caller chains builder calls (pkg/graph/graph.go), compiles the graph into a
-- `Runnable` and runs it (pkg/graph/runnable.go); the run goes from node to node by edges and
-- routers, saves a checkpoint before each node (pkg/graph/checkpoint.go), calls hooks around nodes
-- and runs (pkg/graph/hooks.go), pauses at interrupt gates and can be resumed.
--   Graph/Core        the shared types: errors, node and router functions, checkpoints, options. What
--                     the code takes from the context and time packages is the record `Env`.
--   Graph/Builder     graph.go: one function per method; `build` is a chain of calls.
--   Graph/Compile     `Compile`: one function per check, in the order of the code.
--   Graph/Hooks       hooks.go, with `safeCallNode` of panic.go and `logPanicIfAny`.
--   Graph/Checkpoint  checkpoint.go: `MemoryCheckpointer`, over a `clone` that stands for
--                     `cloneState`. The runtime takes any `Checkpointer` over any world.
--   Graph/Run         `InvokeWith`, `Resume`, `runLoop` and `resolveNext`. A function body that acts
--                     on the world and may return early is an `Act` of Prelude/Actions.
--   Graph/Stream      `StreamWith`, over a consumer that takes or refuses each event.
-- The loop of a run recurses on fuel: `rounds_left` gives one round for each step below the limit and
-- one that meets it. The loop raises the step by one in each round and stops at the limit, so this
-- is enough. A map with string keys is an association list
-- (Prelude/Maps); steps and limits are integers, as Resume may start below 0. The step limits that
-- agents and councils compute from their caps wrap around at 64 bits (`wrap_int` of Prelude/Int).
--
-- An invariant of a run, over any nodes, is used through Graph/Run/Invariant.
--
-- The agent. NewReAct (pkg/agent/react.go) compiles a graph of a node that calls the model and a node
-- that runs its tool calls, with a router between them, and Run starts it on a question.
--   Schema            pkg/schema: messages, tool calls and tool definitions.
--   Provider          pkg/provider: the interface, and in Provider/Retry the retry wrapper of
--                     retry.go, whose loop takes fuel for each attempt and one round more; floats,
--                     random numbers, timers and the kinds of errors are its parameters.
--   Guardrail         pkg/guardrail: the checks of a message by a list of guards.
--   Tool              pkg/tool: the registry and the executor, one call after the other.
--   Agent             react.go: validation, the nodes, the router and the builder calls (Agent), and
--                     `Run` (Agent/Once). Agent/Shape has the graph that they compile to.
-- Providers, guards and tools are values that act on a world.
--
-- The plan-execute agent. NewPlanAndExecute (pkg/agent/planexecute.go) compiles a graph of three nodes: one
-- plans, one runs the first step of the plan with `Run` of the ReAct agent, one plans again.
--   Fences            the JSON inside a model's reply: `stripFences` and the cutting to brackets, which
--                     planexecute.go and pkg/council/supervisor.go have in common.
--   Agent/PlanExecute the configuration and the router; in PlanExecute/Nodes the three nodes, in
--                     PlanExecute/Build the builder calls, in PlanExecute/Prompts the texts. The decoding
--                     of JSON is a parameter.
--
-- The swarm. NewSwarm (pkg/council/swarm.go) compiles a graph of one node for each agent and a trap
-- node; an agent hands control to another by a tool call that its node intercepts.
--   Council/Names     names and texts.
--   Council/Swarm     the configuration's checks, the router and the trap; in Swarm/Node the node of an
--                     agent with its loop of turns, a recursion on the turns that are left; in
--                     Swarm/Build `NewSwarm` and `RunSwarm`; in Swarm/Setup the graph they compile to.
--
-- The supervisor. NewSupervisor (pkg/council/supervisor.go) compiles a graph of a node that asks a model
-- which worker is next, a trap, and a node for each worker, which leads back.
--   Council/Supervisor the configuration's checks, the router and the nodes; in Supervisor/Build the
--                     builder calls and `RunSupervisor`, in Supervisor/Payload the texts.
-- What a chain of builder calls compiles to is read off with Graph/Compile/Entry, and where a run goes
-- from a node with Graph/Run/Next.
--
-- The filter. Provider/StripThinking models pkg/provider/strip_thinking.go over lists of
-- bytes: the searches for tags, that stand for its regular expressions on ASCII texts (Tags), whole
-- messages (Blocks) and streams (Stream), over a parameter for `strings.ToLower`. The fuel of `feed` is one more than the bytes at hand, enough as each
-- round drops an opening tag.
--
-- The chunkers. Chunk models `FixedSize`, `mergePieces`, `forceSplit` and `splitSentences` of
-- pkg/memory/chunk/chunk.go over lists of runes and of bytes that belong to no rune; `unicode.IsSpace`
-- is an argument. The loops of `FixedSize` and `forceSplit` recurse on the length of the text, which is
-- enough as each round goes on by at least one rune. Chunk/Splitters has `Recursive`, whose recursion is on its separators, and
-- `Sentence`; `strings.Split` is written out for a separator that is not empty.
--
-- The store. Memory/Store models `Add` and `Delete` of pkg/memory/inmem.go over its slice of chunks and
-- its index by id; new ids come from an argument. Memory/Store/Retrieve models `Retrieve` with its two
-- scores, over the operations of floats and of the strings package as a parameter.
--
-- The window. Window models pkg/memory/window.go over lists of bytes: `Snapshot` with its eviction
-- plan, its summary and its caps. The Summarizer's answer and the messages that arrive while it runs
-- are arguments.
--
-- The replay. Replay models pkg/replay/replay.go: a provider that serves recorded calls, in order
-- (Replay/Strict) or by the fingerprint of the request (Replay/Lenient), which is a parameter.
--
-- Not modelled: the texts of errors, elapsed times, the state's deep copy (gob and reflection), a
-- panic of a checkpointer or of a guard, machine overflow of step counters, the interleaving of the
-- goroutines of `ExecuteCalls`, the two letters outside ASCII whose case the regular expressions of the
-- filter ignore, and the other packages: provider adapters, protocols, stores, telemetry and the
-- command line.
pub mod Prelude
pub mod Fences
pub mod Schema
pub mod Provider
pub mod Guardrail
pub mod Tool
pub mod Graph
pub mod Agent
pub mod Council
pub mod Replay
pub mod Memory
pub mod Chunk
pub mod Window

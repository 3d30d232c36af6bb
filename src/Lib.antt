-- ===== src/Lib.antt =====
-- Domour, a runtime for agents on language models: the parts of it that hold its own logic, and
-- what they guarantee.
--
-- The parts and how they interact. A chat request takes the lock of its session, the context
-- manager keeps the recent nodes of the conversation in a ring buffer, signals reach the brain
-- through another, and the answer of a model streams back through a parser that tells thinking from
-- text; a local model is stopped by a detector of stop words. Agents that run beside it (processes
-- of command-line tools) are known to the supervisor by their heartbeats, and a tool call of theirs
-- is decided by the veto engine or by a person who answers an approval.
--
-- Files, and the code they are about:
--   Session/Locker      ark/session/lock.go. `Lock` is `enter`, then `acquire` or `cancel`; the
--                       function it returns is `unlock`. `Step` is any interleaving; the heap of
--                       `lockRef` objects is explicit.
--   Supervisor/Registry ark/supervisor/registry.go (types in types.go). Methods keep their names:
--                       `register`, `update_from_statusline` (its writes are `merge` and
--                       `next_status`), `set_tool_pending`, `sweep_expired`, `get`, `list`,
--                       `subscribe`, `unsubscribe`, `notify`. Processes are objects in a heap.
--   Supervisor/Approval ark/supervisor/controller.go, `WaitForDecision` (`enter`, `announce`,
--                       `receive` or `give_up`, `remove`, `retract`) and `SubmitToolDecision`
--                       (`find_item`, `send`), on the registry above.
--   Copilot/Veto        internal/bionic/tool/copilot/veto.go: `evaluate` is `decide` on the effective
--                       name and arguments.
--   Proxy/ThinkParser   internal/cognitor/proxy/think_parser.go: `feed` with its loop `feed_loop`,
--                       `flush`, `safe_flush_end`; `run` is the use of them on a stream.
--   Llama/Stops         ark/infra/llamacpp/chat.go, `StopDetector`: `process`, `flush_remaining`;
--                       `run` is the use of them that their comments describe.
--   Llama/Worker        ark/infra/llamacpp/worker.go, `handleGenerate`: `generate_loop`, `drain`,
--                       `generate`; what the native model does in a round is given.
--   Llama/Utf8          ark/infra/llamacpp/chat.go, `UTF8StreamBuffer`: `feed` with its loop
--                       `feed_loop`, `flush`; and `format_chat_ml`.
--   Brain/RingBuffer    internal/brain/ringbuffer.go: `push`, `pop`, and `evict_and_push_channel`.
--   Context/Stm         internal/bionic/context/context_manager.go, `STMBuffer`: `append`, `range`,
--                       `snapshot`, `protected_boundary`.
--   Context/Bridge      internal/bionic/context/context_bridge.go: `publish`, `publish_direct`,
--                       `subscribe`, `grant_access`, `can_read`, `read_latest`, `read_channel`.
--   Context/Node,       internal/bionic/context/context_node.go: the nodes; `add_node`, `add_edge`,
--   Context/Graph       `remove_node`.
--   Context/Pipeline    internal/bionic/context/pipeline.go: `mask_tools`, `degrade_blobs`,
--                       `distill_nodes`, `truncate_nodes`, and `run` for `Run`.
--   Context/Manager     internal/bionic/context/context_manager.go, `ContextManager`: `append_node`
--                       and what calls it, `apply_mode_config`, and the use of the bridge.
--   Model/Registry      internal/infra/model/registry.go: `register`, `unregister`,
--                       `list`, `query_best_model`.
--   Memory/Cache        internal/bionic/memory/context_cache.go: the key builders, `key_tier`, `get`,
--                       `set`, `del`, and the methods for each kind of entry (Entries). The caches
--                       of package otter are a parameter with laws (`CacheOps`, `IsCache`).
--   Config              internal/config/config.go: the types, the getters and setters of providers,
--                       entries and modes (Selection), `normalize_domour_config` (Normalize), and the
--                       settings that the environment overrides (Services).
--   Engine/Fallback     internal/engine/fallback.go: `fallback_candidates`, `resolve_loop`,
--                       `resolve_with_fallback`.
--   Infra/EventBus      internal/infra/eventbus/local/local.go: `subscribe`, `unsubscribe`, `publish`
--                       with its loop, `close`, and `deliver` for the goroutine of a subscription.
--   Common              lists, texts, maps, rings of cells and code points that these share.
--
-- Conventions. A Go string is a list of bytes, or of code points where the code lowers or folds it;
-- the tables of package unicode from 128 on are a parameter (`Unicode`). A map is an association
-- list in the order in which a loop sees it, or a function where nothing loops over it. Numbers
-- that the code keeps at or above 0 are natural numbers: capacities, sizes, offsets and times (no
-- counter here comes near 2 ^ 63); others are integers, and the count of turns is an int32 that
-- wraps around. A method that holds a mutex throughout is
-- one step; where a method leaves the mutex, its sections are steps of a relation. A callback
-- is an action on a state.
--
-- Fuel. `feed_loop` takes one round for each tag that it takes off, and is given one round more than
-- the text has bytes; a tag has bytes, so the text is empty before the rounds are used up. The loop
-- of `Feed` for UTF-8 has a round for each byte, and takes one at least in each. The loop
-- of stop word prefixes is given the length of the word, which bounds its counter. All other loops
-- recurse on the list or the number they run over.
--
-- Not modelled: calls of language models, the network, files, processes, the native libraries, the
-- generated code, logging and metrics; the managers that wire the parts together; and the texts that
-- `fmt` makes of a reason. `ProtectedBoundary` is taken to run without a writer between its two
-- read locks.
mod Common
pub mod Proxy
pub mod Llama
pub mod Session
pub mod Copilot
pub mod Brain
pub mod Context
pub mod Supervisor
pub mod Model
pub mod Memory
pub mod Config
pub mod Engine
pub mod Infra

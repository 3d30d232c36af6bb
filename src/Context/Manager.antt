-- ===== src/Context/Manager.antt =====
-- internal/bionic/context/context_manager.go, `ContextManager`: one agent's graph and buffer, and its
-- use of the bridge. The node that a caller keeps a pointer to is a value here, since it is not
-- written again; the memory manager and its cache are left out. A new package has the address
-- `at`, and `now` is the time.
mod Append
mod Bridging
mod Tests
use domour.Common.{
  ℕ, zero, suc, ◌+◌, ◌-◌, ◌/◌, ◌%◌, ◌^◌, Bool, true, false, not, Option, none, some, List, [], ◌∷◌,
  ◌++◌, map, leb, ltb, ℤ, pos, negsuc, ◌==◌, if◌then◌else◌, length, take, concat,
}
use domour.Common.Text.{Str, codes, equal}
use domour.Common.Assoc.{Assoc, lookup, insert}
use domour.Common.Unicode.{Unicode}
use domour.Context.Node.{NodeType, tool_result, system_event, ConcreteNode}
use domour.Context.Graph.{Graph, new as new_graph, add_node}
use domour.Context.Stm.{Config, Buffer, new as new_buffer, append as append_buffer}
use domour.Context.Pipeline.{Stage, register_defaults, set_all, estimate_tokens}
use domour.Context.Bridge.{
  ContextScope, local, isolated, ContextPackage, BridgeChannel, Bridge, channel_name, new_package,
  publish, publish_direct, subscribe, grant_access, subscribed_channels, read_channel,
}

pub record Manager : Type 0 where
  pub session_id : Str
  pub topic_id : Str
  pub agent_id : Str
  pub pristine : Graph
  pub stm : Buffer ConcreteNode
  pub token_budget : ℕ
  pub stages : List Stage
  pub mode : Str
  pub provider : Str
  -- the bits of an int32, which a text shows as a signed number
  pub turn_count : ℕ

-- the signed number with these 32 bits
unfoldable pub signed : ℕ → ℤ
signed bits = if ltb bits (2 ^ 31) then pos bits else negsuc (2 ^ 32 - bits - 1)

-- truncateStr
unfoldable pub truncate_str : Str → ℕ → Str
truncate_str s max_len = if leb (length s) max_len then s else take max_len s ++ codes "..."

module _ (u : Unicode) (decimal : ℕ → Str) where
  abbrev configure : Manager → ℕ → ℕ → ℕ → List Stage → Manager
  configure cm capacity budget protected stages = record cm {
    stm = record cm.stm { config = record { capacity = capacity; protected_turns = protected } };
    token_budget = budget;
    stages = stages;
  }

  -- applyModeConfig
  unfoldable pub apply_mode_config : Manager → Manager
  unfolding register_defaults set_all
  apply_mode_config cm =
      let capacity = cm.stm.config.capacity in
      if equal cm.mode (codes "deep_think")
      then configure cm capacity 512000 10 (set_all false cm.stages)
      else if equal cm.mode (codes "performance")
      then configure cm capacity 32000 1 (set_all true cm.stages)
      else if equal cm.mode (codes "survival")
      then configure cm 512 8000 1 (set_all true cm.stages)
      else configure cm capacity 128000 2 (register_defaults u decimal)

  -- the manager before the mode is looked at, with DefaultSTMConfig
  abbrev pub initial : Str → Str → Str → Str → Str → ℕ → Manager
  initial session_id topic_id agent_id mode provider now =
      let agent : Str = if equal agent_id [] then codes "default" else agent_id in
      record {
        session_id = session_id;
        topic_id = topic_id;
        agent_id = agent;
        pristine = new_graph isolated session_id agent now;
        stm = new_buffer (record { capacity = 2048; protected_turns = 2 });
        token_budget = 128000;
        stages = register_defaults u decimal;
        mode = mode;
        provider = provider;
        turn_count = 0;
      }

  -- NewContextManager
  unfoldable pub new : Str → Str → Str → Str → Str → ℕ → Manager
  unfolding apply_mode_config
  new session_id topic_id agent_id mode provider now =
      apply_mode_config (initial session_id topic_id agent_id mode provider now)

-- AppendNode
unfoldable pub append_node : ConcreteNode → ℕ → Manager → Manager
unfolding add_node signed
append_node node now cm =
    let count = (cm.turn_count + 1) % 2 ^ 32 in
    let node' : ConcreteNode = record node { version = signed count } in
    let graph = add_node node' now cm.pristine in
    let roots : List Str = elim graph.root_ids [ [] ↦ node.id ∷ [] | id ∷ ids ↦ id ∷ ids ] in
    record cm {
      pristine = record graph { root_ids = roots };
      stm = append_buffer cm.stm (some node');
      turn_count = count;
    }

-- the counter is read without the mutex; no other goroutine writes it in between here
module _ (decimal : ℤ → Str) where
  abbrev pub message_node : Manager → Str → Str → Str → NodeType → ℕ → ConcreteNode
  message_node cm turn_id role content kind now = record {
    id =
        cm.agent_id
        ++ (b'-' ∷ (role ++ (b'-' ∷ (turn_id ++ (b'-' ∷ decimal (signed cm.turn_count))))));
    kind = kind;
    role = role;
    turn_id = turn_id;
    timestamp = now;
    content = content;
    metadata = (codes "source", codes "user") ∷ (codes "mode", cm.mode) ∷ [];
    replaces_id = [];
    abstracts_ids = [];
    token_count = estimate_tokens content;
    version = pos 0;
  }

  -- AppendMessage
  unfoldable pub append_message : Str → Str → Str → NodeType → ℕ → Manager → Manager
  unfolding append_node
  append_message turn_id role content kind now cm =
      append_node (message_node cm turn_id role content kind now) now cm

abbrev pub tool_node : Manager → Str → Str → Str → Str → ℕ → ConcreteNode
tool_node cm turn_id tool_name input output now = record {
  id = cm.agent_id ++ codes "-tool-" ++ tool_name ++ (b'-' ∷ turn_id);
  kind = tool_result;
  role = codes "model";
  turn_id = turn_id;
  timestamp = now;
  content =
      codes "Tool("
      ++ tool_name
      ++ codes "): "
      ++ truncate_str input 500
      ++ codes "\n→ "
      ++ truncate_str output 2000;
  metadata =
      (codes "source", codes "tool") ∷ (codes "provider", tool_name) ∷ (codes "mode", cm.mode) ∷ [];
  replaces_id = [];
  abstracts_ids = [];
  token_count = estimate_tokens output;
  version = pos 0;
}

-- AppendToolResult, but for the write to the cache of the session
unfoldable pub append_tool_result : Str → Str → Str → Str → ℕ → Manager → Manager
unfolding append_node
append_tool_result turn_id tool_name input output now cm =
    append_node (tool_node cm turn_id tool_name input output now) now cm

abbrev pub allocate : ℕ → ContextPackage → Bridge → Bridge
allocate at p b = record b { heap = λ i. if i == at then p else b.heap i }

module _ (decimal : ℕ → Str) (now at : ℕ) where
  -- PublishContext, with a bridge; without one it returns the empty text.
  unfoldable pub publish_context : Str → Str → Assoc Str → Manager → Bridge → Bridge × Str
  unfolding publish channel_name new_package
  publish_context label summary artifacts cm b =
      publish decimal
        (record {
          name = channel_name local cm.session_id cm.topic_id label;
          scope = local;
          session_id = cm.session_id;
          topic_id = cm.topic_id;
          label = label;
        })
        now at
        (allocate at
          (record (new_package cm.agent_id label summary now) {
            artifacts = artifacts;
            session_id = cm.session_id;
            topic_id = cm.topic_id;
          })
          b)

  -- PublishDirect
  unfoldable pub publish_to_agent : Str → Str → Assoc Str → Manager → Bridge → Bridge × Str
  unfolding publish_direct new_package
  publish_to_agent target summary artifacts cm b = publish_direct decimal target now at (
      allocate at
        (record (new_package cm.agent_id (codes "direct") summary now) {
          artifacts = artifacts;
          session_id = cm.session_id;
        })
        b)

-- SubscribeToChannel
unfoldable pub subscribe_to_channel : Str → Manager → Bridge → Bridge
unfolding subscribe grant_access channel_name
subscribe_to_channel label cm b =
    let name = channel_name local cm.session_id cm.topic_id label in
    grant_access cm.agent_id name (subscribe cm.agent_id name b)

abbrev artifact_lines : Assoc Str → Str
artifact_lines [] = []
artifact_lines ((k, v) ∷ m) = codes "\n  " ++ k ++ codes ": " ++ v ++ artifact_lines m

module _ (decimal : ℕ → Str) where
  abbrev pub import_node : ContextPackage → ConcreteNode
  import_node p =
      let content =
        codes "[Bridge:"
        ++ p.label
        ++ codes "←"
        ++ p.source_agent
        ++ codes "] "
        ++ p.summary
        ++ artifact_lines p.artifacts in
      record {
        id = codes "bridge-" ++ p.source_agent ++ (b'-' ∷ (p.label ++ (b'-' ∷ p.id)));
        kind = system_event;
        role = codes "model";
        turn_id = codes "bridge-" ++ decimal p.timestamp;
        timestamp = p.timestamp;
        content = content;
        metadata = (codes "source", codes "bridge") ∷ (codes "provider", p.source_agent) ∷ [];
        replaces_id = [];
        abstracts_ids = [];
        token_count = estimate_tokens content;
        version = pos 0;
      }

  unfoldable pub import_packages : ℕ → List ContextPackage → Manager × ℕ → Manager × ℕ
  unfolding append_node
  import_packages now [] r = r
  import_packages now (p ∷ ps) (cm, imported) =
      import_packages now ps (append_node (import_node p) now cm, imported + 1)

  unfoldable pub import_channels : ℕ → Bridge → List Str → Manager × ℕ → Manager × ℕ
  unfolding import_packages read_channel
  import_channels now b [] r = r
  import_channels now b (name ∷ names) (cm, imported) =
      import_channels now b names
        (import_packages now (map b.heap (read_channel cm.agent_id name b)) (cm, imported))

  -- ImportContext, with a bridge; without one it imports nothing.
  unfoldable pub import_context : ℕ → Bridge → Manager → Manager × ℕ
  unfolding import_channels subscribed_channels
  import_context now b cm = import_channels now b (subscribed_channels cm.agent_id b) (cm, 0)

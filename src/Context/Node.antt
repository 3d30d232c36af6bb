-- ===== src/Context/Node.antt =====
-- internal/bionic/context/context_node.go: the nodes of the context of an agent. A map that is nil reads as an empty one.
use domour.Common.{ℕ, ℤ, Bool, true, false, List}
use domour.Common.Text.{Str}
use domour.Common.Assoc.{Assoc}

pub data NodeType : Type 0 where
  user_prompt agent_thought tool_call tool_result system_event intent snapshot rolling_summary :
      NodeType

abbrev pub is_tool_result : NodeType → Bool
is_tool_result tool_result = true
is_tool_result _ = false

pub record ConcreteNode : Type 0 where
  pub id : Str
  pub kind : NodeType
  pub role : Str
  pub turn_id : Str
  pub timestamp : ℕ
  pub content : Str
  pub metadata : Assoc Str
  pub replaces_id : Str
  pub abstracts_ids : List Str
  pub token_count : ℕ
  pub version : ℤ

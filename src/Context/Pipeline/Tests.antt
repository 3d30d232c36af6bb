-- ===== src/Context/Pipeline/Tests.antt =====
-- A result of a tool and an answer that are too large, before a zone of one node.
use domour.Common.{ℕ, ◌≤◌, ◌<◌, ◌⊎◌, length, concat, ◌≡◌, refl, String, pos, List, [], ◌∷◌, take}
use domour.Common.Text.{Str, codes, equal}
use domour.Common.Unicode.{ascii, trim_space, trim_left, space_rune}
use domour.Context.Pipeline.Masking.{trimmed_text, truncate_loop-keeps}
use domour.Context.Node.{ConcreteNode, NodeType, user_prompt, tool_result, agent_thought}
use domour.Context.Pipeline.{truncate_tool_output, truncate_loop}

abbrev decimal : ℕ → Str
decimal n = n ∷ []

abbrev node : NodeType → String → ℕ → ConcreteNode
node kind turn tokens = record {
  id = codes "n";
  kind = kind;
  role = codes "model";
  turn_id = codes turn;
  timestamp = 1;
  content = codes "text";
  metadata = [];
  replaces_id = [];
  abstracts_ids = [];
  token_count = tokens;
  version = pos 1;
}

abbrev nodes : List ConcreteNode
nodes = node tool_result "a" 9000 ∷ node agent_thought "a" 20000 ∷ node user_prompt "b" 3 ∷ []

-- Nothing is dropped here, but a line feed is not counted.
truncate_tool_output-marks :
    truncate_tool_output ascii (codes "a\nb") 2000 ≡ codes "a\nb\n...[truncated]"
unfolding truncate_tool_output truncate_loop trim_space trim_left space_rune equal
truncate_tool_output-marks = refl

truncate_loop-keeps_example :
    let r = (truncate_loop ascii 3 (codes " ab " ∷ codes "cde" ∷ []) [] 0).0 in
    (n : ℕ) × (n ≤ 3)
    × (concat r ≡ take n (trimmed_text ascii 3 (codes " ab " ∷ codes "cde" ∷ [])))
    × ((3 < length (trimmed_text ascii 3 (codes " ab " ∷ codes "cde" ∷ [])))
        ⊎ (concat r ≡ trimmed_text ascii 3 (codes " ab " ∷ codes "cde" ∷ [])))
truncate_loop-keeps_example = truncate_loop-keeps ascii 3 (codes " ab " ∷ codes "cde" ∷ [])

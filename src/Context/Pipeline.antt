-- ===== src/Context/Pipeline.antt =====
-- internal/bionic/context/pipeline.go: the chain of processors that compress the nodes before the
-- protected zone. The nodes are those of a snapshot of the buffer, none of which is nil; `decimal`
-- is `%d`, and a text is a list of runes. The zero time is 0.
mod Masking
mod Tests
use domour.Common.{
  ℕ, zero, suc, ◌+◌, ◌-◌, ◌/◌, ℤ, pos, negsuc, Bool, true, false, not, ◌&&◌, Option, none, some,
  List, [], ◌∷◌, ◌++◌, map, ltb, leb, ◌==◌, if◌then◌else◌, length, take, drop, filter, concat,
}
use domour.Common.Text.{Str, codes, equal}
use domour.Common.Assoc.{Assoc, lookup, insert}
use domour.Common.Unicode.{Unicode, trim_space}
use domour.Context.Stm.{Buffer, snapshot as nodes_of, protected_boundary}
use domour.Context.Node.{NodeType, tool_result, rolling_summary, is_tool_result, ConcreteNode}

-- A threshold that is not above 0 stands for the default.
abbrev pub threshold_or : ℕ → ℤ → ℕ
threshold_or default (pos n) = if n == 0 then default else n
threshold_or default (negsuc n) = default

-- estimateTokens
unfoldable pub estimate_tokens : Str → ℕ
estimate_tokens s = length s / 4

-- strings.Split at line feeds
abbrev pub split_lines : Str → List Str
split_lines [] = [] ∷ []
split_lines (c ∷ s) =
    let rest = split_lines s in
    if c == 10
    then [] ∷ rest
    else elim rest [ [] ↦ (c ∷ []) ∷ [] | line ∷ lines ↦ (c ∷ line) ∷ lines ]

-- strings.Join
abbrev pub join : Str → List Str → Str
join sep [] = []
join sep (s ∷ []) = s
join sep (s ∷ t ∷ ss) = s ++ sep ++ join sep (t ∷ ss)

module _ (u : Unicode) where
  -- the loop of truncateToolOutput, which never takes more than the maximum
  unfoldable pub truncate_loop : ℕ → List Str → List Str → ℕ → List Str × ℕ
  truncate_loop max_chars [] out total = (out, total)
  truncate_loop max_chars (line ∷ lines) out total =
      let trimmed = trim_space u line in
      let skipped = truncate_loop max_chars lines out total in
      let next = truncate_loop max_chars lines (out ++ (trimmed ∷ [])) (total + length trimmed) in
      let remaining = max_chars - total in
      if equal trimmed []
      then skipped
      else if ltb max_chars (total + length trimmed)
      then (if ltb 20 remaining then out ++ (take remaining trimmed ∷ []) else out, total)
      else next

  -- truncateToolOutput; Split returns one line at least.
  unfoldable pub truncate_tool_output : Str → ℕ → Str
  unfolding truncate_loop
  truncate_tool_output content max_chars =
      let (out, total) = truncate_loop max_chars (split_lines (trim_space u content)) [] 0 in
      let result = join (10 ∷ []) out in
      if ltb total (length content) then result ++ codes "\n...[truncated]" else result

  -- summarizeText
  unfoldable pub summarize_text : Str → ℕ → Str
  summarize_text text max_len =
      let runes = trim_space u text in
      if leb (length runes) max_len then runes else take max_len runes ++ codes "..."

  module _ (decimal : ℕ → Str) where
    unfoldable pub mask_node : ℕ → ConcreteNode → ConcreteNode
    unfolding truncate_tool_output estimate_tokens insert
    mask_node threshold node =
        let content = truncate_tool_output node.content 2000 in
        if is_tool_result node.kind && ltb threshold node.token_count
        then record {
          id = node.id ++ codes "-masked";
          kind = tool_result;
          role = node.role;
          turn_id = node.turn_id;
          timestamp = node.timestamp;
          content = content;
          metadata =
              insert (codes "original_token_count") (decimal node.token_count)
                (insert (codes "masked") (codes "true") node.metadata);
          replaces_id = node.id;
          abstracts_ids = [];
          token_count = estimate_tokens content;
          version = pos 0;
        }
        else node

    -- ToolMaskingProcessor.Process
    unfoldable pub mask_tools : ℤ → List ConcreteNode → List ConcreteNode
    unfolding mask_node
    mask_tools max_token_count nodes = map (mask_node (threshold_or 8000 max_token_count)) nodes

    unfoldable pub degrade_node : ℕ → ConcreteNode → ConcreteNode
    unfolding insert
    degrade_node threshold node =
        if ltb threshold node.token_count && equal node.role (codes "model")
        then record {
          id = node.id ++ codes "-degraded";
          kind = node.kind;
          role = node.role;
          turn_id = node.turn_id;
          timestamp = node.timestamp;
          content =
              codes "[degraded: original "
              ++ decimal node.token_count
              ++ codes " tokens; replaced with brief summary]";
          metadata = insert (codes "degraded") (codes "true") node.metadata;
          replaces_id = node.id;
          abstracts_ids = [];
          token_count = 20;
          version = pos 0;
        }
        else node

    -- BlobDegradationProcessor.Process
    unfoldable pub degrade_blobs : ℤ → List ConcreteNode → List ConcreteNode
    unfolding degrade_node
    degrade_blobs max_blob_token_count nodes =
        map (degrade_node (threshold_or 15000 max_blob_token_count)) nodes

  -- The nodes by turn; the turns stand in the order of turnOrder.
  unfoldable pub group_turns :
      List ConcreteNode → Assoc (List ConcreteNode) → Assoc (List ConcreteNode)
  unfolding lookup insert
  group_turns [] turns = turns
  group_turns (node ∷ nodes) turns =
      let earlier : List ConcreteNode = elim (lookup node.turn_id turns) [
        | none ↦ []
        | some ns ↦ ns
      ] in
      group_turns nodes (insert node.turn_id (earlier ++ (node ∷ [])) turns)

  abbrev pub total_tokens : List ConcreteNode → ℕ
  total_tokens [] = 0
  total_tokens (n ∷ ns) = n.token_count + total_tokens ns

  unfoldable pub distill_turn : ℕ → Str × List ConcreteNode → List ConcreteNode
  unfolding summarize_text estimate_tokens
  distill_turn threshold (tid, nodes) =
      let is_user : ConcreteNode → Bool = λ n. equal n.role (codes "user") in
      let user_parts = map (λ n. n.content) (filter is_user nodes) in
      let model_parts = map (λ n. n.content) (filter (λ n. not (is_user n)) nodes) in
      let summary =
        codes "[Distilled turn "
        ++ tid
        ++ codes ": user: "
        ++ summarize_text (join (codes " | ") user_parts) 200
        ++ codes " | model: "
        ++ summarize_text (join (codes " | ") model_parts) 500
        ++ codes "]" in
      if ltb threshold (total_tokens nodes)
      then record {
        id = codes "distill-" ++ tid;
        kind = rolling_summary;
        role = codes "model";
        turn_id = tid;
        timestamp = 0;
        content = summary;
        metadata = [];
        replaces_id = [];
        abstracts_ids = map (λ n. n.id) nodes;
        token_count = estimate_tokens summary;
        version = pos 0;
      }
        ∷ []
      else nodes

  -- NodeDistillationProcessor.Process
  unfoldable pub distill_nodes : ℤ → List ConcreteNode → List ConcreteNode
  unfolding group_turns distill_turn
  distill_nodes min_turn_tokens nodes =
      concat (map (distill_turn (threshold_or 15000 min_turn_tokens)) (group_turns nodes []))

-- NodeTruncationProcessor.Process
unfoldable pub truncate_nodes : ℤ → List ConcreteNode → List ConcreteNode
truncate_nodes max_nodes nodes =
    let limit = threshold_or 4000 max_nodes in
    if leb (length nodes) limit then nodes else drop (length nodes - limit) nodes

-- pipelineStage; a processor that fails is skipped.
pub record Stage : Type 0 where
  pub process : List ConcreteNode → Option (List ConcreteNode)
  pub enabled : Bool

-- registerDefaults
unfoldable pub register_defaults : Unicode → (ℕ → Str) → List Stage
unfolding mask_tools degrade_blobs distill_nodes truncate_nodes
register_defaults u decimal =
    record { process = λ ns. some (mask_tools u decimal (pos 0) ns); enabled = true }
    ∷ record { process = λ ns. some (degrade_blobs u decimal (pos 0) ns); enabled = true }
    ∷ record { process = λ ns. some (distill_nodes u (pos 0) ns); enabled = true }
    ∷ record { process = λ ns. some (truncate_nodes (pos 0) ns); enabled = true }
    ∷ []

-- DisableAll, EnableAll
unfoldable pub set_all : Bool → List Stage → List Stage
set_all on [] = []
set_all on (stage ∷ stages) = record stage { enabled = on } ∷ set_all on stages

-- The loop of Run. `cancelled i` is whether the context is done when stage `i` is reached. The nodes
-- are a local variable: the result is only whether Run returns the error of the context.
unfoldable pub run_loop : (ℕ → Bool) → ℕ → ℕ → List Stage → List ConcreteNode → Bool
run_loop cancelled protected_idx i [] nodes = false
run_loop cancelled protected_idx i (stage ∷ stages) nodes =
    let processed : List ConcreteNode = elim (stage.process (take protected_idx nodes)) [
      | none ↦ nodes
      | some ns ↦ ns ++ drop protected_idx nodes
    ] in
    let nodes' =
      if ltb 0 protected_idx && ltb protected_idx (length nodes) then processed else nodes in
    let skipped = run_loop cancelled protected_idx (suc i) stages nodes in
    let next = run_loop cancelled protected_idx (suc i) stages nodes' in
    if not stage.enabled then skipped else if cancelled i then true else next

-- Run
unfoldable pub run : (ℕ → Bool) → List Stage → Buffer ConcreteNode → Bool
unfolding run_loop nodes_of protected_boundary
run cancelled stages stm =
    run_loop cancelled (protected_boundary (λ n. n.turn_id) stm) 0 stages (nodes_of stm)

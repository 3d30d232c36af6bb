-- ===== src/Context/Graph.antt =====
-- internal/bionic/context/context_node.go, `ContextGraph`: the nodes of an agent and the edges from
-- parents to children. The time of the last update is an argument.
mod Closed
mod Tests
use domour.Common.{
  ℕ, ◌+◌, Bool, true, false, not, ◌&&◌, ◌⊎◌, inl, inr, List, [], ◌∷◌, ◌++◌, Option, none, some,
  if◌then◌else◌, filter, is_some, all,
}
use domour.Common.Text.{Str, equal}
use domour.Common.Assoc.{Assoc, lookup, insert, delete}
use domour.Context.Node.{ConcreteNode}
use domour.Context.Bridge.{ContextScope}

pub record Graph : Type 0 where
  pub nodes : Assoc ConcreteNode
  pub edges : Assoc (List Str)
  pub root_ids : List Str
  pub scope : ContextScope
  pub session_id : Str
  pub agent_id : Str
  pub version : ℕ
  pub updated_at : ℕ

-- The errors of AddEdge.
pub data EdgeError : Type 0 where
  parent_not_found child_not_found : Str → EdgeError

-- NewContextGraph
unfoldable pub new : ContextScope → Str → Str → ℕ → Graph
new scope session_id agent_id now = record {
  nodes = [];
  edges = [];
  root_ids = [];
  scope = scope;
  session_id = session_id;
  agent_id = agent_id;
  version = 1;
  updated_at = now;
}

-- AddNode
unfoldable pub add_node : ConcreteNode → ℕ → Graph → Graph
unfolding insert
add_node node now g = record g {
  nodes = insert node.id node g.nodes;
  version = g.version + 1;
  updated_at = now;
}

abbrev pub has_node : Graph → Str → Bool
has_node g id = is_some (lookup id g.nodes)

-- AddEdge
unfoldable pub add_edge : Str → Str → Graph → EdgeError ⊎ Graph
unfolding lookup insert
add_edge parent child g =
    let children : List Str = elim (lookup parent g.edges) [ none ↦ [] | some cs ↦ cs ] in
    if not (has_node g parent)
    then inl (parent_not_found parent)
    else if not (has_node g child)
    then inl (child_not_found child)
    else inr (record g { edges = insert parent (children ++ (child ∷ [])) g.edges })

-- the loop over g.Edges in RemoveNode
unfoldable pub drop_child : Str → Assoc (List Str) → Assoc (List Str)
drop_child id [] = []
drop_child id ((parent, children) ∷ m) =
    (parent, filter (λ child. not (equal child id)) children) ∷ drop_child id m

-- RemoveNode
unfoldable pub remove_node : Str → Graph → Graph
unfolding delete drop_child
remove_node id g = record g { nodes = delete id g.nodes; edges = drop_child id (delete id g.edges) }

-- A call of a method that writes; an edge that is refused leaves the graph as it is.
pub data Call : Type 0 where
  add_node_call : ConcreteNode → ℕ → Call
  add_edge_call : Str → Str → Call
  remove_node_call : Str → Call

unfoldable pub apply : Call → Graph → Graph
unfolding add_node add_edge remove_node
apply (add_node_call node now) g = add_node node now g
apply (add_edge_call parent child) g = elim (add_edge parent child g) [ inl _ ↦ g | inr g' ↦ g' ]
apply (remove_node_call id) g = remove_node id g

unfoldable pub run : List Call → Graph → Graph
unfolding apply
run [] g = g
run (c ∷ cs) g = run cs (apply c g)

-- ===== src/Context/Graph/Tests.antt =====
-- A graph with an edge to a node that is removed, and one that is refused.
use domour.Common.{pos, ◌≡◌, refl, true, List, [], ◌∷◌}
use domour.Common.Text.{Str, codes, equal}
use domour.Common.Assoc.{lookup, insert, delete}
use domour.Context.Node.{ConcreteNode, user_prompt}
use domour.Context.Bridge.{isolated}
use domour.Context.Graph.{
  new, add_node, add_edge, drop_child, remove_node, Call, add_node_call, add_edge_call,
  remove_node_call, apply, run,
}
use domour.Context.Graph.Closed.{is_closed, run-closed}

abbrev node : Str → ConcreteNode
node id = record {
  id = id;
  kind = user_prompt;
  role = codes "user";
  turn_id = codes "1";
  timestamp = 1;
  content = [];
  metadata = [];
  replaces_id = [];
  abstracts_ids = [];
  token_count = 0;
  version = pos 0;
}

abbrev calls : List Call
calls =
    add_node_call (node (codes "a")) 1
    ∷ add_node_call (node (codes "b")) 2
    ∷ add_edge_call (codes "a") (codes "b")
    ∷ add_edge_call (codes "a") (codes "c")
    ∷ remove_node_call (codes "b")
    ∷ []

run-calls : (run calls (new isolated [] [] 0)).edges ≡ (codes "a", []) ∷ []
unfolding run apply add_node add_edge remove_node drop_child lookup insert delete equal new
run-calls = refl

run-closed_example : is_closed (run calls (new isolated [] [] 0)) ≡ true
run-closed_example = run-closed isolated [] [] 0 calls

-- ===== src/Context/Graph/Closed.antt =====
-- internal/bionic/context/context_node.go: both ends of an edge are nodes.
use domour.Common.{
  ℕ, Bool, true, not, ◌&&◌, ◌≡◌, refl, inl, inr, arith, List, [], ◌∷◌, ◌++◌, none, some, filter,
  all, Bool-cases,
}
use domour.Common.Text.{Str, equal, equal_iff}
use domour.Common.Assoc.{Assoc, lookup, insert, delete, lookup-insert, lookup-delete}
use domour.Context.Bridge.{ContextScope}
use domour.Context.Graph.{
  Graph, new, has_node, add_node, add_edge, drop_child, remove_node, Call, add_node_call,
  add_edge_call, remove_node_call, apply, run,
}

-- Whether the parents and children of all edges are in a set.
abbrev pub ends_in : (Str → Bool) → Assoc (List Str) → Bool
ends_in known [] = true
ends_in known ((parent, children) ∷ m) = known parent && all known children && ends_in known m

all_mono :
    (p q : Str → Bool) (ss : List Str)
    → ((s : Str) → p s ≡ true → q s ≡ true)
    → all p ss ≡ true
    → all q ss ≡ true
all_mono p q [] le h = refl
all_mono p q (s ∷ ss) le h = ground (arith, le s, all_mono p q ss le)

ends_in_mono :
    (p q : Str → Bool) (m : Assoc (List Str))
    → ((s : Str) → p s ≡ true → q s ≡ true)
    → ends_in p m ≡ true
    → ends_in q m ≡ true
ends_in_mono p q [] le h = refl
ends_in_mono p q ((parent, children) ∷ m) le h =
    ground (arith, le parent, all_mono p q children le, ends_in_mono p q m le)

all-append : (p : Str → Bool) (ss : List Str) (s : Str) → all p (ss ++ (s ∷ [])) ≡ all p ss && p s
all-append p [] s = ground arith
all-append p (t ∷ ss) s = ground (arith, all-append p ss s)

abbrev children_of : Str → Assoc (List Str) → List Str
children_of id m = elim (lookup id m) [ none ↦ [] | some cs ↦ cs ]

ends_in-children :
    (p : Str → Bool) (id : Str) (m : Assoc (List Str))
    → ends_in p m ≡ true
    → all p (children_of id m) ≡ true
unfolding lookup
ends_in-children p id [] h = refl
ends_in-children p id ((parent, children) ∷ m) h = ground (arith, ends_in-children p id m)

ends_in-insert :
    (p : Str → Bool) (parent : Str) (cs : List Str) (m : Assoc (List Str))
    → p parent ≡ true
    → all p cs ≡ true
    → ends_in p m ≡ true
    → ends_in p (insert parent cs m) ≡ true
unfolding insert
ends_in-insert p parent cs [] hp hc h = ground arith
ends_in-insert p parent cs ((j, children) ∷ m) hp hc h =
    ground (arith, ends_in-insert p parent cs m)

all-filter :
    (p : Str → Bool) (id : Str) (ss : List Str)
    → all p ss ≡ true
    → all (λ s. not (equal id s) && p s) (filter (λ c. not (equal c id)) ss) ≡ true
all-filter p id [] h = refl
all-filter p id (s ∷ ss) h = ground (arith, equal_iff s id, equal_iff id s, all-filter p id ss)

ends_in-remove :
    (p : Str → Bool) (id : Str) (m : Assoc (List Str))
    → ends_in p m ≡ true
    → ends_in (λ s. not (equal id s) && p s) (drop_child id (delete id m)) ≡ true
unfolding drop_child delete
ends_in-remove p id [] h = refl
ends_in-remove p id ((parent, children) ∷ m) h = ground (
  arith,
  equal_iff parent id,
  equal_iff id parent,
  all-filter p id children,
  ends_in-remove p id m,
)

-- Both ends of every edge are nodes of the graph.
abbrev pub is_closed : Graph → Bool
is_closed g = ends_in (has_node g) g.edges

apply-closed : (c : Call) (g : Graph) → is_closed g ≡ true → is_closed (apply c g) ≡ true
unfolding apply add_node add_edge remove_node
apply-closed (add_node_call node now) g h =
    ends_in_mono (has_node g) (has_node (add_node node now g)) g.edges
      (λ s known. ground (arith, lookup-insert node.id s node g.nodes)) h
apply-closed (add_edge_call parent child) g h = elim (Bool-cases (has_node g parent)) [
  | inr e ↦ rw (e, apply, add_edge) h
  | inl e ↦ elim (Bool-cases (has_node g child)) [
    | inr e' ↦ rw (e, e', apply, add_edge) h
    | inl e' ↦
        rw (e, e', apply, add_edge)
          (ends_in-insert (has_node g) parent (children_of parent g.edges ++ (child ∷ [])) g.edges e
            (ground (
              arith,
              all-append (has_node g) (children_of parent g.edges) child,
              ends_in-children (has_node g) parent g.edges,
            ))
            h)
  ]
]
apply-closed (remove_node_call id) g h =
    ends_in_mono (λ s. not (equal id s) && has_node g s) (has_node (remove_node id g))
      (drop_child id (delete id g.edges)) (λ s known. ground (arith, lookup-delete id s g.nodes))
      (ends_in-remove (has_node g) id g.edges h)

run-closed_from :
    (calls : List Call) (g : Graph) → is_closed g ≡ true → is_closed (run calls g) ≡ true
unfolding run
run-closed_from [] g h = h
run-closed_from (c ∷ cs) g h = run-closed_from cs (apply c g) (apply-closed c g h)

-- After any calls of AddNode, AddEdge and RemoveNode on a new graph, both ends of every edge are
-- nodes of the graph.
pub run-closed :
    (scope : ContextScope) (session_id agent_id : Str) (now : ℕ) (calls : List Call)
    → is_closed (run calls (new scope session_id agent_id now)) ≡ true
unfolding new
run-closed scope session_id agent_id now calls =
    run-closed_from calls (new scope session_id agent_id now) refl

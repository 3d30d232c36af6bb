-- ===== src/Context/Stm/Tests.antt =====
-- A buffer of three nodes that five are appended to, one of them nil; a node is its turn.
use domour.Common.{◌≡◌, refl, arith, List, [], ◌∷◌, some, none, Option}
use domour.Common.Text.{Str, codes, equal}
use domour.Context.Stm.{
  Config, Buffer, new, set_capacity, append, snapshot, range, range_loop, protected_boundary,
  boundary_loop,
}
use domour.Context.Stm.Spec.{recent, values}
use domour.Context.Stm.Recent.{append_all, snapshot-recent}
use domour.Context.Stm.Protected.{IsBoundary, protected_boundary-longest}

abbrev cfg : Config
cfg = record { capacity = 8; protected_turns = 1 }

abbrev nodes : List (Option Str)
nodes = some (codes "a") ∷ some (codes "b") ∷ some (codes "b") ∷ none ∷ some (codes "c") ∷ []

abbrev buffer : Buffer Str
buffer = append_all (set_capacity (new cfg) 3) nodes

buffer-snapshot : snapshot buffer ≡ codes "b" ∷ codes "c" ∷ []
unfolding snapshot range range_loop append new set_capacity
buffer-snapshot = refl

buffer-boundary : protected_boundary (λ t. t) buffer ≡ 1
unfolding protected_boundary boundary_loop equal snapshot range range_loop append new set_capacity
buffer-boundary = refl

snapshot-recent_example : snapshot buffer ≡ values (recent 3 nodes)
snapshot-recent_example = snapshot-recent cfg 3 nodes (omega arith) (omega arith)

protected_boundary-longest_example :
    IsBoundary (λ t. t) 1 (values (recent 3 nodes)) (protected_boundary (λ t. t) buffer)
protected_boundary-longest_example =
    protected_boundary-longest (λ t. t) cfg 3 nodes (omega arith) (omega arith)

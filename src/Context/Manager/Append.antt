-- ===== src/Context/Manager/Append.antt =====
-- internal/bionic/context/context_manager.go: what the graph and the buffer of an agent hold after
-- nodes were appended.
use domour.Common.{
  ℕ, zero, suc, ◌+◌, ◌-◌, ◌%◌, ◌^◌, ◌≤◌, ◌<◌, ◌≡◌, refl, ap, sym, ◌∙◌, inl, inr, arith, Option,
  none, some, List, [], ◌∷◌, map, Bool-cases, if◌then◌else◌, length, length-map, drop, subst,
}
use domour.Common.Text.{Str, codes, equal}
use domour.Common.Assoc.{lookup, lookup-insert}
use domour.Common.Unicode.{Unicode}
use domour.Context.Node.{ConcreteNode}
use domour.Context.Graph.{add_node, new as new_graph}
use domour.Context.Stm.{
  Config, Buffer, set_capacity, snapshot, new as new_buffer, append as append_buffer,
}
use domour.Context.Stm.Spec.{recent, values}
use domour.Context.Stm.Recent.{append_all, snapshot-recent}
use domour.Context.Manager.{Manager, initial, new, signed, apply_mode_config, append_node}

-- calls of AppendNode one after another, each with its time
abbrev pub append_nodes : List (ConcreteNode × ℕ) → Manager → Manager
append_nodes [] cm = cm
append_nodes ((node, now) ∷ ns) cm = append_nodes ns (append_node node now cm)

-- The nodes with the versions that they get, after the first `k`: an int32, which wraps around.
abbrev pub numbered : ℕ → List (ConcreteNode × ℕ) → List ConcreteNode
numbered k [] = []
numbered k ((node, now) ∷ ns) =
    record node { version = signed ((k + 1) % 2 ^ 32) } ∷ numbered (k + 1) ns

-- the last node with the id, or else `before`
abbrev pub latest_or : Option ConcreteNode → Str → List ConcreteNode → Option ConcreteNode
latest_or before id [] = before
latest_or before id (node ∷ ns) = latest_or (if equal node.id id then some node else before) id ns

-- the counter of one more node
next_count : (c k : ℕ) → c ≡ k % 2 ^ 32 → (c + 1) % 2 ^ 32 ≡ (k + 1) % 2 ^ 32
next_count c k h = omega arith

append_nodes-count :
    (ns : List (ConcreteNode × ℕ)) (k : ℕ) (cm : Manager)
    → cm.turn_count ≡ k % 2 ^ 32
    → (append_nodes ns cm).turn_count ≡ (k + length ns) % 2 ^ 32
unfolding append_node
append_nodes-count [] k cm h = omega arith
append_nodes-count ((node, now) ∷ ns) k cm h =
    omega (
      arith,
      append_nodes-count ns (k + 1) (append_node node now cm) (next_count cm.turn_count k h),
    )

append_nodes-nodes :
    (ns : List (ConcreteNode × ℕ)) (k : ℕ) (cm : Manager) (id : Str)
    → cm.turn_count ≡ k % 2 ^ 32
    → lookup id (append_nodes ns cm).pristine.nodes
      ≡ latest_or (lookup id cm.pristine.nodes) id (numbered k ns)
unfolding append_node add_node
append_nodes-nodes [] k cm id h = refl
append_nodes-nodes ((node, now) ∷ ns) k cm id h =
    let count = (cm.turn_count + 1) % 2 ^ 32 in
    let node' : ConcreteNode = record node { version = signed count } in
    let next = next_count cm.turn_count k h in
    append_nodes-nodes ns (k + 1) (append_node node now cm) id next
    ∙ ap (λ before. latest_or before id (numbered (k + 1) ns))
        (lookup-insert node.id id node' cm.pristine.nodes)
    ∙ ap
        (λ c.
          latest_or
            (if equal node.id id
              then some (record node { version = signed c })
              else lookup id cm.pristine.nodes)
            id (numbered (k + 1) ns))
        next

append_nodes-stm :
    (ns : List (ConcreteNode × ℕ)) (k : ℕ) (cm : Manager)
    → cm.turn_count ≡ k % 2 ^ 32
    → (append_nodes ns cm).stm ≡ append_all cm.stm (map some (numbered k ns))
unfolding append_node
append_nodes-stm [] k cm h = refl
append_nodes-stm ((node, now) ∷ ns) k cm h =
    let next = next_count cm.turn_count k h in
    append_nodes-stm ns (k + 1) (append_node node now cm) next
    ∙ ap
        (λ c.
          append_all (append_buffer cm.stm (some (record node { version = signed c })))
            (map some (numbered (k + 1) ns)))
        next

values-drop : {A : Type 0} (n : ℕ) (xs : List A) → values (drop n (map some xs)) ≡ drop n xs
values-drop zero [] = refl
values-drop zero (x ∷ xs) = ap (◌∷◌ x) (values-drop zero xs)
values-drop (suc n) [] = refl
values-drop (suc n) (x ∷ xs) = values-drop n xs

values-recent : {A : Type 0} (n : ℕ) (xs : List A) → values (recent n (map some xs)) ≡ recent n xs
values-recent n xs =
    ap (λ k. values (drop (k - n) (map some xs))) (length-map some xs)
    ∙ values-drop (length xs - n) xs

abbrev default_buffer : Buffer ConcreteNode
default_buffer = new_buffer (record { capacity = 2048; protected_turns = 2 })

-- a new buffer, the capacity of which may have been lowered
abbrev IsFresh : Buffer ConcreteNode → Type 0
IsFresh b =
    (0 < b.config.capacity)
    × (b.config.capacity ≤ 2048)
    × (b
        ≡ set_capacity
            (new_buffer (record { capacity = 2048; protected_turns = b.config.protected_turns }))
            b.config.capacity)

configured-IsFresh :
    (b : Buffer ConcreteNode) (capacity protected : ℕ)
    → b ≡ default_buffer
    → 0 < capacity
    → capacity ≤ 2048
    → IsFresh (record b { config = record { capacity = capacity; protected_turns = protected } })
unfolding set_capacity new_buffer
configured-IsFresh b capacity protected h pos le =
    subst
      (λ x.
        IsFresh (record x { config = record { capacity = capacity; protected_turns = protected } }))
      (sym h) (pos, le, refl)

module _ (u : Unicode) (decimal : ℕ → Str) where
  apply_mode_config-IsFresh :
      (cm : Manager) → cm.stm ≡ default_buffer → IsFresh ((apply_mode_config u decimal cm).stm)
  unfolding apply_mode_config new_buffer
  apply_mode_config-IsFresh cm h =
      let full : cm.stm.config.capacity ≡ 2048 = ap (λ b. b.config.capacity) h in
      elim (Bool-cases (equal cm.mode (codes "deep_think"))) [
        | inl e ↦
            rw (e, apply_mode_config)
              (configured-IsFresh cm.stm cm.stm.config.capacity 10 h (omega arith) (omega arith))
        | inr e ↦ elim (Bool-cases (equal cm.mode (codes "performance"))) [
          | inl e' ↦
              rw (e, e', apply_mode_config)
                (configured-IsFresh cm.stm cm.stm.config.capacity 1 h (omega arith) (omega arith))
          | inr e' ↦ elim (Bool-cases (equal cm.mode (codes "survival"))) [
            | inl e'' ↦
                rw (e, e', e'', apply_mode_config)
                  (configured-IsFresh cm.stm 512 1 h (omega arith) (omega arith))
            | inr e'' ↦
                rw (e, e', e'', apply_mode_config)
                  (configured-IsFresh cm.stm cm.stm.config.capacity 2 h (omega arith) (omega arith))
          ]
        ]
      ]

  apply_mode_config-count :
      (cm : Manager) → (apply_mode_config u decimal cm).turn_count ≡ cm.turn_count
  unfolding apply_mode_config
  apply_mode_config-count cm = ground arith

  apply_mode_config-pristine :
      (cm : Manager) → (apply_mode_config u decimal cm).pristine ≡ cm.pristine
  unfolding apply_mode_config
  apply_mode_config-pristine cm = ground arith

  module _ (session_id topic_id agent_id mode provider : Str) (now : ℕ) where
    abbrev cm_initial : Manager
    cm_initial = initial u decimal session_id topic_id agent_id mode provider now

    abbrev cm_new : Manager
    cm_new = new u decimal session_id topic_id agent_id mode provider now

    new-count : cm_new.turn_count ≡ 0
    unfolding new
    new-count = apply_mode_config-count cm_initial

    new-nodes : cm_new.pristine.nodes ≡ []
    unfolding new new_graph
    new-nodes = ap (λ g. g.nodes) (apply_mode_config-pristine cm_initial)

    new-IsFresh : IsFresh (cm_new.stm)
    unfolding new
    new-IsFresh = apply_mode_config-IsFresh cm_initial refl

  -- After nodes were appended to a new manager, in whatever mode: the count is their number
  -- modulo 2 ^ 32, the bits of an int32; the graph has under each id the node that was appended last with it; and the snapshot of the buffer
  -- holds the nodes appended last, as many as the capacity of the mode. A node has as its version
  -- its place among all, as an int32.
  pub append_nodes-records :
      (session_id topic_id agent_id mode provider : Str) (now : ℕ) (ns : List (ConcreteNode × ℕ))
      → let cm = new u decimal session_id topic_id agent_id mode provider now in
        let after = append_nodes ns cm in
        (after.turn_count ≡ length ns % 2 ^ 32)
        × ((id : Str) → lookup id after.pristine.nodes ≡ latest_or none id (numbered 0 ns))
        × (snapshot after.stm ≡ recent cm.stm.config.capacity (numbered 0 ns))
  unfolding lookup
  append_nodes-records session_id topic_id agent_id mode provider now ns =
      let cm = new u decimal session_id topic_id agent_id mode provider now in
      let count = new-count session_id topic_id agent_id mode provider now in
      let start : cm.turn_count ≡ 0 % 2 ^ 32 = omega (arith, count) in
      let none_yet = new-nodes session_id topic_id agent_id mode provider now in
      let (pos, le, fresh) = new-IsFresh session_id topic_id agent_id mode provider now in
      let capacity = cm.stm.config.capacity in
      let cfg : Config = record {
        capacity = 2048;
        protected_turns = cm.stm.config.protected_turns;
      } in
      let nodes : List (Option ConcreteNode) = map some (numbered 0 ns) in
      (
        omega (arith, append_nodes-count ns 0 cm start),
        λ id.
            append_nodes-nodes ns 0 cm id start
            ∙ ap (λ m. latest_or (lookup id m) id (numbered 0 ns)) none_yet,
        ap snapshot (
              append_nodes-stm ns 0 cm start
              ∙ ap (λ b. append_all b (map some (numbered 0 ns))) fresh)
            ∙ snapshot-recent cfg capacity nodes pos le
            ∙ values-recent capacity (numbered 0 ns),
      )

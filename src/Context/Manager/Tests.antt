-- ===== src/Context/Manager/Tests.antt =====
-- An agent in survival mode that calls a tool twice in a turn, and one that imports a package.
use domour.Common.{ℕ, ◌%◌, ◌^◌, ◌≡◌, refl, true, List, [], ◌∷◌, pos, length, none}
use domour.Common.Text.{Str, codes, equal}
use domour.Common.Assoc.{lookup, insert}
use domour.Common.Unicode.{ascii}
use domour.Context.Node.{ConcreteNode}
use domour.Context.Graph.{add_node, new as new_graph}
use domour.Context.Stm.{snapshot, range, range_loop, new as new_buffer, append as append_buffer}
use domour.Context.Stm.Spec.{recent}
use domour.Context.Pipeline.{estimate_tokens}
use domour.Context.Bridge.{
  isolated, ContextPackage, Bridge, can_read, new_package, new as new_bridge, publish, stamp, queue,
  subscribe, grant_access, add_name, channel_name, subscribed_channels, read_channel,
}
use domour.Context.Manager.{
  Manager, apply_mode_config, new, append_node, tool_node, append_tool_result, truncate_str,
  publish_context, subscribe_to_channel, import_context, import_channels, import_packages,
}
use domour.Context.Manager.Append.{append_nodes, numbered, latest_or, append_nodes-records}
use domour.Context.Manager.Bridging.{subscribe_to_channel-opens_all}

abbrev decimal : ℕ → Str
decimal n = n ∷ []

abbrev start : Manager
unfolding new apply_mode_config new_graph new_buffer
start = new ascii decimal (codes "s") (codes "t") (codes "bob") (codes "survival") (codes "cli") 7

-- The graph keeps one of the two results, and the buffer both.
append_tool_result-collides :
    let after =
      append_tool_result
        (codes "1")
        (codes "ls")
        (codes "/a")
        (codes "x")
        8
        (append_tool_result (codes "1") (codes "ls") (codes "/b") (codes "y") 8 start) in
    (length after.pristine.nodes ≡ 1) × (length (snapshot after.stm) ≡ 2)
unfolding append_tool_result append_node add_node insert equal snapshot range range_loop
    append_buffer truncate_str estimate_tokens new apply_mode_config new_graph new_buffer
append_tool_result-collides = (refl, refl)

abbrev heap : ℕ → ContextPackage
unfolding new_package
heap i = new_package (codes "ann") (codes "news") (codes "hi") 7

abbrev shared : Bridge
unfolding new_bridge subscribe_to_channel publish_context subscribe grant_access add_name publish
    stamp queue channel_name new_package new apply_mode_config new_graph new_buffer
shared =
    (publish_context decimal 8 0 (codes "news") (codes "hi") [] start
      (subscribe_to_channel (codes "news") start (new_bridge heap (pos 2)))).0

-- A second import takes the same package again.
import_context-repeats :
    let (once, one) = import_context decimal 9 shared start in
    let (twice, two) = import_context decimal 9 shared once in
    (one ≡ 1) × (two ≡ 1) × (twice.turn_count ≡ 2)
unfolding import_context import_channels import_packages append_node add_node estimate_tokens lookup
    insert equal append_buffer read_channel queue can_read subscribed_channels new_bridge
    subscribe_to_channel publish_context subscribe grant_access add_name publish stamp channel_name
    new_package new apply_mode_config new_graph new_buffer
import_context-repeats = (refl, refl, refl)

abbrev history : List (ConcreteNode × ℕ)
history =
    (tool_node start (codes "1") (codes "ls") (codes "/a") (codes "x") 8, 8)
    ∷ (tool_node start (codes "2") (codes "ls") (codes "/b") (codes "y") 9, 9)
    ∷ []

append_nodes-records_example :
    let cm =
      new ascii decimal (codes "s") (codes "t") (codes "bob") (codes "survival") (codes "cli") 7 in
    let after = append_nodes history cm in
    (after.turn_count ≡ length history % 2 ^ 32)
    × ((id : Str) → lookup id after.pristine.nodes ≡ latest_or none id (numbered 0 history))
    × (snapshot after.stm ≡ recent cm.stm.config.capacity (numbered 0 history))
append_nodes-records_example =
    append_nodes-records ascii decimal (codes "s") (codes "t") (codes "bob") (codes "survival")
      (codes "cli") 7 history

subscribe_to_channel-opens_all_example :
    can_read
      (subscribe_to_channel (codes "news") start (new_bridge heap (pos 2)))
      start.agent_id
      (record (heap 0) { scope = isolated })
    ≡ true
unfolding new_package
subscribe_to_channel-opens_all_example =
    subscribe_to_channel-opens_all (codes "news") start (new_bridge heap (pos 2))
      (record (heap 0) { scope = isolated }) refl

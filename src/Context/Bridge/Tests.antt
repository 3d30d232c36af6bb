-- ===== src/Context/Bridge/Tests.antt =====
-- A bridge of two packages per channel, with a package for "bob" and one for all.
use mathlib.Core.List.{Memᴰ}
use domour.Common.{ℕ, ◌≡◌, refl, true, ◌↔◌, List, [], ◌∷◌, pos, none}
use domour.Common.Text.{Str, codes, equal}
use domour.Common.Assoc.{lookup, insert, delete}
use domour.Context.Stm.Spec.{recent}
use domour.Context.Bridge.{
  local, isolated, ContextPackage, BridgeChannel, Bridge, new, new_package, publish_call,
  direct_call, subscribe_call, grant_call, revoke_call, Call, run, apply, publish, publish_direct,
  direct_channel, stamp, subscribe, grant_access, revoke_access, add_name, remove_name, has_name,
  queue, can_read, subscribed_channels, read_channel, read_latest, channel_name,
}
use domour.Context.Bridge.Access.{IsReader, read_channel-readers, grant_access-opens_all}
use domour.Context.Bridge.Queue.{published, run-new-queue}

abbrev decimal : ℕ → Str
decimal n = n ∷ []

abbrev heap : ℕ → ContextPackage
unfolding new_package
heap i = new_package (codes "ann") (codes "result") (i ∷ []) 7

abbrev news : BridgeChannel
unfolding channel_name
news = record {
  name = channel_name local (codes "s") (codes "t") (codes "news");
  scope = local;
  session_id = codes "s";
  topic_id = codes "t";
  label = codes "news";
}

abbrev calls : List Call
unfolding channel_name new_package
calls =
    direct_call (codes "bob") 8 0
    ∷ publish_call news 9 1
    ∷ publish_call news 9 2
    ∷ publish_call news 9 3
    ∷ subscribe_call (codes "eve") (codes "x")
    ∷ grant_call (codes "eve") (codes "x")
    ∷ revoke_call (codes "eve") (codes "x")
    ∷ []

abbrev bridge : Bridge
unfolding new run channel_name new_package
bridge = run decimal calls (new heap (pos 2))

abbrev direct : Str
direct = codes "direct:ann:bob"

bridge-bob : read_channel (codes "bob") direct bridge ≡ 0 ∷ []
unfolding read_channel queue can_read new run apply publish publish_direct direct_channel stamp
    subscribe grant_access revoke_access add_name remove_name lookup insert delete equal has_name
    subscribed_channels channel_name new_package
bridge-bob = refl

bridge-eve : read_latest (codes "eve") direct bridge ≡ none
unfolding read_latest queue can_read new run apply publish publish_direct direct_channel stamp
    subscribe grant_access revoke_access add_name remove_name lookup insert delete equal has_name
    subscribed_channels channel_name new_package
bridge-eve = refl

read_channel-readers_example :
    Memᴰ 0 (read_channel (codes "bob") direct bridge)
    ↔ (Memᴰ 0 (queue bridge direct) × IsReader calls (codes "bob") (bridge.heap 0))
unfolding channel_name new_package run new
read_channel-readers_example =
    read_channel-readers decimal heap (pos 2) calls (codes "bob") direct 0

grant_access-opens_all_example :
    can_read
      (grant_access (codes "eve") (codes "x") (subscribe (codes "eve") (codes "x") bridge))
      (codes "eve")
      (record (heap 0) { scope = isolated })
    ≡ true
unfolding channel_name new_package run new
grant_access-opens_all_example =
    grant_access-opens_all bridge (codes "eve") (codes "x") (record (heap 0) { scope = isolated })
      refl

run-new-queue_example :
    queue (run decimal calls (new heap (pos 2))) (news.name)
    ≡ recent ((new heap (pos 2)).cap) (published (λ i. (heap i).source_agent) (news.name) calls)
unfolding channel_name new_package
run-new-queue_example = run-new-queue decimal heap (pos 2) calls (news.name)

-- ===== src/Context/Manager/Bridging.antt =====
-- internal/bionic/context/context_manager.go: the use of the bridge by an agent.
use domour.Common.{true, ◌≡◌}
use domour.Common.Text.{Str}
use domour.Context.Bridge.{isolated, local, ContextPackage, Bridge, can_read, channel_name}
use domour.Context.Bridge.Access.{grant_access-opens_all}
use domour.Context.Manager.{Manager, subscribe_to_channel}

-- Once an agent has subscribed to any channel of its topic by SubscribeToChannel, it can read every
-- isolated package, whatever channel the package is on and whomever it is directed to.
pub subscribe_to_channel-opens_all :
    (label : Str) (cm : Manager) (b : Bridge) (p : ContextPackage)
    → p.scope ≡ isolated
    → can_read (subscribe_to_channel label cm b) cm.agent_id p ≡ true
unfolding subscribe_to_channel
subscribe_to_channel-opens_all label cm b p e =
    grant_access-opens_all b cm.agent_id (channel_name local cm.session_id cm.topic_id label) p e

-- ===== src/Supervisor/Registry/Tests.antt =====
-- A process that is discovered, waits for a tool and is swept.
use mathlib.Core.List.{Memᴰ}
use domour.Common.{pos, negsuc, ◌≡◌, ◌↔◌, refl, [], ◌∷◌, Bool, true, false, some}
use domour.Common.Text.{Str, codes, equal}
use domour.Common.Assoc.{lookup, insert}
use domour.Supervisor.Registry.{
  AgentProcess, StatuslineUpdate, awaiting_confirmation, initializing, discovered, Registry, new,
  subscribe, notify, notify_all, offer, update_from_statusline, get, sweep_expired, sweep_loop,
  merge, fresh, next_status, is_expired,
}
use domour.Supervisor.Registry.Report.{sweep_expired-reports}
use domour.Supervisor.Registry.Steps.{
  updates, pends, subscribes, sweeps, apply, view_apply, Reach, start, called, Reach-Inv,
  apply-view, ShowsPending, apply-ShowsPending,
}
use domour.Supervisor.Registry.Fill.{occurrences, repeated, filled}
use domour.Supervisor.Registry.Notify.{events, apply-delivers}

abbrev bot : Str
bot = codes "bot"

-- a heartbeat; the tool is the pending one
abbrev beat : Bool → StatuslineUpdate
beat waits = record {
  id = bot;
  pid = pos 7;
  workspace = [];
  agent_state = codes "busy";
  tool_pending = waits;
  current_tool = codes "bash";
  transcript_path = [];
  context_percent = 0;
  quota_remaining = negsuc 0;
}

abbrev no_process : AgentProcess
no_process = record {
  id = [];
  pid = pos 0;
  provider = [];
  client_type = [];
  workspace = [];
  status = initializing;
  tool_pending = false;
  current_tool = [];
  transcript_path = [];
  context_percent = 0;
  quota_remaining = pos 0;
  last_heartbeat = 0;
}

-- every channel has room for two events
abbrev begin : Registry
begin = new (λ a. no_process) 0 (λ ch. record { capacity = 2; queue = [] })

abbrev waiting : Registry
waiting = apply (apply begin (subscribes 4)) (updates 10 (beat true) (codes "agy"))

waiting-Reach : Reach waiting
waiting-Reach = called (updates 10 (beat true) (codes "agy")) refl (
    called (subscribes 4) refl
      (start (λ a. no_process) 0 (λ ch. record { capacity = 2; queue = [] })))

waiting-known : get waiting bot ≡ some (merge 10 (beat true) (fresh (beat true) (codes "agy")))
unfolding get apply update_from_statusline subscribe new lookup insert notify equal merge fresh
    next_status
waiting-known = refl

swept : (sweep_expired 40 waiting 20).0 ≡ bot ∷ []
unfolding sweep_expired sweep_loop is_expired get apply update_from_statusline subscribe new lookup
    insert notify equal merge fresh next_status
swept = refl

waiting-heard : (waiting.channels 4).queue ≡ record { kind = discovered; process = 0 } ∷ []
unfolding apply update_from_statusline subscribe new lookup insert notify notify_all offer equal
    merge fresh next_status
waiting-heard = refl

apply-view_example :
    get (apply waiting (pends bot false [])) bot
    ≡ view_apply waiting.heap (pends bot false []) (get waiting) bot
apply-view_example = apply-view waiting-Reach (pends bot false []) bot

sweep_expired-reports_example :
    Memᴰ bot (sweep_expired 40 waiting 20).0
    ↔ ((p : AgentProcess) × (get waiting bot ≡ some p) × (is_expired 40 20 p ≡ true))
sweep_expired-reports_example = sweep_expired-reports 40 20 waiting bot (Reach-Inv waiting-Reach)

begin-shows : (k : Str) (p : AgentProcess) → get begin k ≡ some p → ShowsPending p
unfolding get new lookup
begin-shows k p e = absurd (cc)

abbrev shown : AgentProcess
shown = merge 10 (beat true) (fresh (beat true) (codes "agy"))

begin-known : get (apply begin (updates 10 (beat true) (codes "agy"))) bot ≡ some shown
unfolding get apply update_from_statusline new lookup insert notify equal merge fresh next_status
begin-known = refl

apply-ShowsPending_example : shown.status ≡ awaiting_confirmation
unfolding merge
apply-ShowsPending_example =
    apply-ShowsPending (start (λ a. no_process) 0 (λ ch. record { capacity = 2; queue = [] }))
      (updates 10 (beat true) (codes "agy")) begin-shows refl bot shown begin-known refl

apply-delivers_example :
    ((apply waiting (sweeps 40 20)).channels 4)
    ≡ filled
        (repeated (occurrences 4 waiting.listeners) (events waiting (sweeps 40 20)))
        (waiting.channels 4)
apply-delivers_example = apply-delivers waiting (sweeps 40 20) 4

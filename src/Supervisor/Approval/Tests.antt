-- ===== src/Supervisor/Approval/Tests.antt =====
-- A tool call that is approved, and two waits for one process.
use mathlib.Core.List.{Memᴰ}
use domour.Common.{ℕ, ◌≡◌, refl, none, false, [], ◌∷◌, pos}
use domour.Common.Text.{Str, codes}
use domour.Supervisor.Registry.{AgentProcess, unset, Registry}
use domour.Supervisor.Registry
use domour.Supervisor.Approval.{
  DecisionResult, allow, selecting, returned, State, new, find_item, Reach, start,
}
use domour.Supervisor.Approval.Safety.{allow-was_submitted}
use domour.Supervisor.Approval.Orphan.{wait-orphaned}
use domour.Supervisor.Approval.Delivery.{Steps, Steps-Reach, decision-returned}

abbrev nobody : AgentProcess
nobody = record {
  id = [];
  pid = pos 0;
  provider = [];
  client_type = [];
  workspace = [];
  status = unset;
  tool_pending = false;
  current_tool = [];
  transcript_path = [];
  context_percent = 0;
  quota_remaining = pos 0;
  last_heartbeat = 0;
}

abbrev registry : Registry
registry = Registry.new (λ a. nobody) 0 (λ ch. record { capacity = 0; queue = [] })

abbrev bot : Str
bot = codes "bot"

abbrev bash : Str
bash = codes "bash"

abbrev approval : DecisionResult
approval = record { decision = allow; reason = codes "ok" }

decision-returned_example :
    (t : State) × Steps (new registry) t
    × (t.log ≡ (bot, approval) ∷ (new registry).log)
    × (t.waiters 0 ≡ returned bot approval)
    × (t.pending_approvals bot ≡ none)
unfolding new
decision-returned_example = decision-returned 0 0 bot bash approval {s = new registry} refl refl

-- the state after the approval
abbrev approved :
    (t : State) × Steps (new registry) t
    × (t.log ≡ (bot, approval) ∷ (new registry).log)
    × (t.waiters 0 ≡ returned bot approval)
    × (t.pending_approvals bot ≡ none)
unfolding new
approved = decision-returned 0 0 bot bash approval {s = new registry} refl refl

allow-was_submitted_example : Memᴰ (bot, approval) approved.0.log
unfolding new
allow-was_submitted_example =
    allow-was_submitted (Steps-Reach (start registry) approved.1) 0 bot approval approved.3 refl

wait-orphaned_example :
    (s : State) × Reach s
    × (s.waiters 1 ≡ selecting bot bash 1)
    × ((j : ℕ) (res : DecisionResult) → find_item j bot res s ≡ none)
wait-orphaned_example = wait-orphaned registry bot bash bash

-- ===== src/Supervisor/Approval/Safety.antt =====
-- No tool call goes through that was not approved.
use mathlib.Core.List.{Memᴰ}
use domour.Common.{ℕ, ◌≡◌, inl, inr, ap}
use domour.Common.Text.{Str}
use domour.Supervisor.Approval.{allow, DecisionResult, returned, State, Reach}
use domour.Supervisor.Approval.Inv.{result, Reach-Inv}

-- If a call of WaitForDecision for a process has returned `allow` (in any interleaving of calls),
-- then SubmitToolDecision was called for that process with that decision and reason, and sent it.
pub allow-was_submitted :
    {s : State}
    → Reach s
    → (i : ℕ) (id : Str) (res : DecisionResult) → s.waiters i ≡ returned id res
    → res.decision ≡ allow
    → Memᴰ (id, res) s.log
allow-was_submitted reach i id res at allowed =
    elim ((Reach-Inv reach).backed i id res (ap result at)) [
      | inl denied ↦ absurd (cc)
      | inr sent ↦ sent
    ]

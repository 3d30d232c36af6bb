-- ===== src/Supervisor/Approval.antt =====
-- ark/supervisor/controller.go, the approval of tool calls: `WaitForDecision` and
-- `SubmitToolDecision`, run by any number of goroutines. A step is one section under the mutex, one
-- call of the registry, or one channel operation. `owner` and `log` are not in the code: they
-- record for which process a channel was made and which decisions were sent.
mod Inv
pub mod Safety
pub mod Orphan
pub mod Delivery
mod Tests
use domour.Common.{
  ℕ, suc, ◌+◌, ◌<◌, ◌≡◌, Bool, true, false, Option, none, some, List, [], ◌∷◌, ◌==◌, if◌then◌else◌,
}
use domour.Common.Text.{Str, codes, equal}
use domour.Supervisor.Registry.{Registry, set_tool_pending}

-- ToolDecision
pub data ToolDecision : Type 0 where
  allow deny ask_user : ToolDecision

-- decisionResult
pub record DecisionResult : Type 0 where
  pub decision : ToolDecision
  pub reason : Str

-- approvalItem; the channel is an address.
pub record ApprovalItem : Type 0 where
  pub decision_ch : ℕ
  pub tool_name : Str

-- Where a call of WaitForDecision is: before its first section, before and after it has told the
-- registry, with its result before and after it has left the map, and returned.
pub data Waiter : Type 0 where
  outside : Waiter
  entered selecting : Str → Str → ℕ → Waiter
  leaving removed : Str → Str → DecisionResult → Waiter
  returned : Str → DecisionResult → Waiter

-- Where a call of SubmitToolDecision is: outside, or past the lookup with the item's channel.
pub data Submitter : Type 0 where
  absent : Submitter
  sending : Str → ℕ → DecisionResult → Submitter

pub record State : Type 0 where
  pub pending_approvals : Str → Option ApprovalItem
  pub registry : Registry
  -- what the one place of each channel holds, and the number of channels made
  pub channels : ℕ → Option DecisionResult
  pub made : ℕ
  pub waiters : ℕ → Waiter
  pub submitters : ℕ → Submitter
  pub owner : ℕ → Str
  pub log : List (Str × DecisionResult)

abbrev pub put {ℓ} : {A : Type ℓ} → (ℕ → A) → ℕ → A → ℕ → A
put f i v j = if i == j then v else f j

abbrev pub put_key {ℓ} : {A : Type ℓ} → (Str → A) → Str → A → Str → A
put_key f k v j = if equal k j then v else f j

-- NewController
unfoldable pub new : Registry → State
new registry = record {
  pending_approvals = λ k. none;
  registry = registry;
  channels = λ a. none;
  made = 0;
  waiters = λ i. outside;
  submitters = λ i. absent;
  owner = λ a. [];
  log = [];
}

-- WaitForDecision, its first section.
unfoldable pub enter : ℕ → Str → Str → State → State
enter i id tool s = record s {
  pending_approvals =
      put_key s.pending_approvals id (some (record { decision_ch = s.made; tool_name = tool }));
  channels = put s.channels s.made none;
  made = s.made + 1;
  waiters = put s.waiters i (entered id tool s.made);
  owner = put s.owner s.made id;
}

unfoldable pub announce : ℕ → Str → Str → ℕ → State → State
announce i id tool ch s = record s {
  registry = set_tool_pending s.registry id true tool;
  waiters = put s.waiters i (selecting id tool ch);
}

-- `case res := <-ch`
unfoldable pub receive : ℕ → Str → Str → ℕ → DecisionResult → State → State
receive i id tool ch res s = record s {
  channels = put s.channels ch none;
  waiters = put s.waiters i (leaving id tool res);
}

abbrev pub cancelled : DecisionResult
cancelled = record { decision = deny; reason = codes "Request context cancelled" }

abbrev pub timeout : DecisionResult
timeout = record { decision = deny; reason = codes "Approval timeout" }

-- `case <-ctx.Done()` and `case <-time.After(timeout)`
unfoldable pub give_up : ℕ → Str → Str → Bool → State → State
give_up i id tool late s = record s {
  waiters = put s.waiters i (leaving id tool (if late then timeout else cancelled));
}

-- The deferred function, its section and its call of the registry.
unfoldable pub remove : ℕ → Str → Str → DecisionResult → State → State
remove i id tool res s = record s {
  pending_approvals = put_key s.pending_approvals id none;
  waiters = put s.waiters i (removed id tool res);
}

unfoldable pub retract : ℕ → Str → Str → DecisionResult → State → State
retract i id tool res s = record s {
  registry = set_tool_pending s.registry id false tool;
  waiters = put s.waiters i (returned id res);
}

-- SubmitToolDecision, its section: `none` is the error that no approval is pending.
unfoldable pub find_item : ℕ → Str → DecisionResult → State → Option State
find_item j id res s = elim (s.pending_approvals id) [
  | none ↦ none
  | some item ↦
      some (record s { submitters = put s.submitters j (sending id item.decision_ch res) })
]

-- The send, and whether it was made; otherwise the error is that a decision was submitted already.
unfoldable pub send : ℕ → Str → ℕ → DecisionResult → State → Bool × State
send j id ch res s = elim (s.channels ch) [
  | none ↦ (
    true,
    record s {
      channels = put s.channels ch (some res);
      submitters = put s.submitters j absent;
      log = (id, res) ∷ s.log;
    },
  )
  | some old ↦ (false, record s { submitters = put s.submitters j absent })
]

pub data Step : State → State → Type 0 where
  enters : {s : State} (i : ℕ) (id tool : Str) → s.waiters i ≡ outside → Step s (enter i id tool s)
  announces :
      {s : State} (i : ℕ) (id tool : Str) (ch : ℕ)
      → s.waiters i ≡ entered id tool ch
      → Step s (announce i id tool ch s)
  receives :
      {s : State} (i : ℕ) (id tool : Str) (ch : ℕ) (res : DecisionResult)
      → s.waiters i ≡ selecting id tool ch
      → s.channels ch ≡ some res
      → Step s (receive i id tool ch res s)
  gives_up :
      {s : State} (i : ℕ) (id tool : Str) (ch : ℕ) (late : Bool)
      → s.waiters i ≡ selecting id tool ch
      → Step s (give_up i id tool late s)
  removes :
      {s : State} (i : ℕ) (id tool : Str) (res : DecisionResult)
      → s.waiters i ≡ leaving id tool res
      → Step s (remove i id tool res s)
  retracts :
      {s : State} (i : ℕ) (id tool : Str) (res : DecisionResult)
      → s.waiters i ≡ removed id tool res
      → Step s (retract i id tool res s)
  finds :
      {s t : State} (j : ℕ) (id : Str) (res : DecisionResult)
      → s.submitters j ≡ absent
      → find_item j id res s ≡ some t
      → Step s t
  sends :
      {s : State} (j : ℕ) (id : Str) (ch : ℕ) (res : DecisionResult)
      → s.submitters j ≡ sending id ch res
      → Step s (send j id ch res s).1

pub data Reach : State → Type 0 where
  start : (registry : Registry) → Reach (new registry)
  later : {s t : State} → Reach s → Step s t → Reach t

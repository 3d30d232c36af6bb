-- ===== src/Supervisor/Approval/Orphan.antt =====
-- Two waits for one process: the end of the first takes the entry of the second away.
use domour.Common.{ℕ, ◌≡◌, refl, arith, none, true}
use domour.Common.Text.{Str, equal_refl}
use domour.Supervisor.Registry.{Registry}
use domour.Supervisor.Approval.{
  DecisionResult, selecting, State, new, enter, announce, give_up, remove, find_item, timeout,
  enters, announces, gives_up, removes, Reach, start, later,
}

-- wait 0 and wait 1 begin, wait 0 times out and cleans up
abbrev pub orphaned : Registry → Str → Str → Str → State
orphaned r id tool tool' = remove 0 id tool timeout (
    give_up 0 id tool true
      (announce 1 id tool' 1 (enter 1 id tool' (announce 0 id tool 0 (enter 0 id tool (new r))))))

orphaned-Reach : (r : Registry) (id tool tool' : Str) → Reach (orphaned r id tool tool')
unfolding new enter announce give_up remove
orphaned-Reach r id tool tool' =
    later
      (later
        (later
          (later (later (later (start r) (enters 0 id tool refl)) (announces 0 id tool 0 refl))
            (enters 1 id tool' refl))
          (announces 1 id tool' 1 refl))
        (gives_up 0 id tool 0 true refl))
      (removes 0 id tool timeout refl)

-- For every process a state is reachable in which a call of WaitForDecision waits for a decision
-- on that process, while SubmitToolDecision refuses every decision for it with the error that no
-- approval is pending.
pub wait-orphaned :
    (r : Registry) (id tool tool' : Str)
    → (s : State) × Reach s
      × (s.waiters 1 ≡ selecting id tool' 1)
      × ((j : ℕ) (res : DecisionResult) → find_item j id res s ≡ none)
unfolding new enter announce give_up remove find_item
wait-orphaned r id tool tool' = (
  orphaned r id tool tool',
  orphaned-Reach r id tool tool',
  refl,
  λ j res. ground (arith, equal_refl id),
)

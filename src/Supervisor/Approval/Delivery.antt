-- ===== src/Supervisor/Approval/Delivery.antt =====
-- A decision reaches the call that waits for it.
use domour.Common.{ℕ, ◌≡◌, refl, arith, ◌==◌, none, some, true, ◌∷◌}
use domour.Common.Text.{Str, equal_refl}
use domour.Supervisor.Approval.{
  DecisionResult, selecting, entered, leaving, removed, returned, outside, absent, sending, State,
  enter, announce, receive, remove, retract, find_item, send, enters, announces, receives, removes,
  retracts, finds, sends, Reach, later, put, Step,
}

-- some steps, one after another
pub data Steps (s : State) : State → Type 0 where
  stay : Steps s s
  more : {t v : State} → Steps s t → Step t v → Steps s v

pub Steps-Reach : {s t : State} → Reach s → Steps s t → Reach t
Steps-Reach reach stay = reach
Steps-Reach reach (more steps step) = later (Steps-Reach reach steps) step

put_self : {A : Type 0} (f : ℕ → A) (i : ℕ) (v : A) → put f i v i ≡ v
put_self f i v = ground arith

eq_self : (a : ℕ) → (a == a) ≡ true
eq_self a = ground arith

module _ (i j : ℕ) (id tool : Str) (res : DecisionResult) where
  -- waiter `i` has entered and told the registry
  abbrev asked : State → State
  asked s = announce i id tool s.made (enter i id tool s)

  abbrev found : State → State
  found s = record (asked s) { submitters = put s.submitters j (sending id s.made res) }

  abbrev sent : State → State
  sent s = (send j id s.made res (found s)).1

  abbrev done : State → State
  done s = retract i id tool res (remove i id tool res (receive i id tool s.made res (sent s)))

  finds-asked : (s : State) → find_item j id res (asked s) ≡ some (found s)
  unfolding find_item announce enter
  finds-asked s = rw (equal_refl id, find_item) refl

  sent-fills : (s : State) → (sent s).channels s.made ≡ some res
  unfolding send announce enter
  sent-fills s = rw (eq_self s.made, sent, send) (put_self (asked s).channels s.made (some res))

  sent-waits : (s : State) → (sent s).waiters i ≡ selecting id tool s.made
  unfolding send announce enter
  sent-waits s =
      rw (eq_self s.made, sent, send)
        (put_self (enter i id tool s).waiters i (selecting id tool s.made))

  sent-logs : (s : State) → (sent s).log ≡ (id, res) ∷ s.log
  unfolding send announce enter
  sent-logs s = rw (eq_self s.made, sent, send) refl

  -- From every state in which a waiter and a submitter are free, some steps lead to a state in which
  -- the waiter has returned exactly the decision that the submitter sent, and left no entry behind; in
  -- these steps that decision was sent and no other.
  pub decision-returned :
      {s : State}
      → s.waiters i ≡ outside
      → s.submitters j ≡ absent
      → (t : State) × Steps s t
        × (t.log ≡ (id, res) ∷ s.log)
        × (t.waiters i ≡ returned id res)
        × (t.pending_approvals id ≡ none)
  unfolding enter announce receive remove retract
  decision-returned {s} free idle =
      let r1 : Steps s (asked s) =
        more (more stay (enters i id tool free))
          (announces i id tool s.made (put_self s.waiters i (entered id tool s.made))) in
      let r2 : Steps s (sent s) =
        more (more r1 (finds j id res idle (finds-asked s)))
          (sends j id s.made res (put_self s.submitters j (sending id s.made res))) in
      let r3 = more r2 (receives i id tool s.made res (sent-waits s) (sent-fills s)) in
      let r4 =
        more r3 (removes i id tool res (put_self (sent s).waiters i (leaving id tool res))) in
      let r5 = more r4 (
        retracts i id tool res
          (put_self (put (sent s).waiters i (leaving id tool res)) i (removed id tool res))) in
      (
        done s,
        r5,
        sent-logs s,
        put_self (remove i id tool res (receive i id tool s.made res (sent s))).waiters i
            (returned id res),
        ground (arith, equal_refl id),
      )

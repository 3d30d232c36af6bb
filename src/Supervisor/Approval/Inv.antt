-- ===== src/Supervisor/Approval/Inv.antt =====
-- What holds in every reachable state: channels serve one process, and decisions were sent.
use mathlib.Core.List.{Memᴰ}
use domour.Common.{
  ℕ, ◌<◌, ◌≡◌, ◌⊎◌, inl, inr, refl, ap, sym, subst, ◌∙◌, arith, Bool, true, false, Bool-cases,
  Option, Option-cases, none, some, List, ◌==◌, if◌then◌else◌,
}
use domour.Common.Text.{Str, equal_iff}
use domour.Supervisor.Registry.{Registry}
use domour.Supervisor.Approval.{
  deny, DecisionResult, ApprovalItem, Waiter, entered, selecting, leaving, removed, returned,
  sending, State, put, new, enter, announce, receive, give_up, remove, retract, find_item, send,
  cancelled, timeout, Step, enters, announces, receives, gives_up, removes, retracts, finds, sends,
  Reach, start, later,
}

-- the process and the channel of a wait that has no result yet
abbrev pub place : Waiter → Option (Str × ℕ)
place (entered id tool ch) = some (id, ch)
place (selecting id tool ch) = some (id, ch)
place _ = none

abbrev pub result : Waiter → Option (Str × DecisionResult)
result (leaving id tool res) = some (id, res)
result (removed id tool res) = some (id, res)
result (returned id res) = some (id, res)
result _ = none

-- A denial, or a decision that was sent for the process.
abbrev pub IsBacked : List (Str × DecisionResult) → Str → DecisionResult → Type 0
IsBacked log id res = (res.decision ≡ deny) ⊎ Memᴰ (id, res) log

denied : (late : Bool) → (if late then timeout else cancelled).decision ≡ deny
denied true = refl
denied false = refl

pub record Inv (s : State) : Type 0 where
  pub listed :
      (id : Str) (item : ApprovalItem)
      → s.pending_approvals id ≡ some item
      → (s.owner item.decision_ch ≡ id) × (item.decision_ch < s.made)
  pub filled :
      (ch : ℕ) (res : DecisionResult) → s.channels ch ≡ some res → Memᴰ (s.owner ch, res) s.log
  pub waited :
      (i : ℕ) (id : Str) (ch : ℕ)
      → place (s.waiters i) ≡ some (id, ch)
      → (s.owner ch ≡ id) × (ch < s.made)
  pub found :
      (j : ℕ) (id : Str) (ch : ℕ) (res : DecisionResult)
      → s.submitters j ≡ sending id ch res
      → (s.owner ch ≡ id) × (ch < s.made)
  pub backed :
      (i : ℕ) (id : Str) (res : DecisionResult)
      → result (s.waiters i) ≡ some (id, res)
      → IsBacked s.log id res

new-Inv : (r : Registry) → Inv (new r)
unfolding new
new-Inv r = record {
  listed = λ id item e. absurd (cc);
  filled = λ ch res e. absurd (cc);
  waited = λ i id ch e. absurd (cc);
  found = λ j id ch res e. absurd (cc);
  backed = λ i id res e. absurd (cc);
}

-- A step of one waiter that keeps its place or has none after.
module _ (s : State) (inv : Inv s) where
  enter-Inv : (i : ℕ) (id tool : Str) → Inv (enter i id tool s)
  unfolding enter
  enter-Inv i id tool = record {
    listed = λ k item e.
        (ground (arith, equal_iff id k, inv.listed k item), ground (arith, inv.listed k item));
    filled = λ ch res e. elim (Bool-cases (s.made == ch)) [
      | inl now ↦ absurd (ground arith)
      | inr ne ↦ rw ne (inv.filled ch res (ground arith))
    ];
    waited = λ j k ch e. (ground (arith, inv.waited j k ch), ground (arith, inv.waited j k ch));
    found = λ j k ch res e.
        (ground (arith, inv.found j k ch res e), ground (arith, inv.found j k ch res e));
    backed = λ j k res e. inv.backed j k res (ground arith);
  }

  announce-Inv :
      (i : ℕ) (id tool : Str) (ch : ℕ)
      → s.waiters i ≡ entered id tool ch
      → Inv (announce i id tool ch s)
  unfolding announce
  announce-Inv i id tool ch at = record {
    listed = inv.listed;
    filled = inv.filled;
    waited = λ j k c e. inv.waited j k c (ground arith);
    found = inv.found;
    backed = λ j k res e. inv.backed j k res (ground arith);
  }

  receive-Inv :
      (i : ℕ) (id tool : Str) (ch : ℕ) (res : DecisionResult)
      → s.waiters i ≡ selecting id tool ch
      → s.channels ch ≡ some res
      → Inv (receive i id tool ch res s)
  unfolding receive
  receive-Inv i id tool ch res at full =
      let (mine, below) = inv.waited i id ch (ap place at) in
      let sent : Memᴰ (id, res) s.log =
        subst (λ k. Memᴰ (k, res) s.log) mine (inv.filled ch res full) in
      record {
        listed = inv.listed;
        filled = λ c r e. inv.filled c r (ground arith);
        waited = λ j k c e. inv.waited j k c (ground arith);
        found = inv.found;
        backed = λ j k r e. elim (Bool-cases (i == j)) [
          | inl here ↦
              let same : (id, res) ≡ (k, r) = ground arith in
              inr (subst (λ x. Memᴰ x s.log) same sent)
          | inr ne ↦ inv.backed j k r (ground arith)
        ];
      }

  give_up-Inv : (i : ℕ) (id tool : Str) (late : Bool) → Inv (give_up i id tool late s)
  unfolding give_up
  give_up-Inv i id tool late = record {
    listed = inv.listed;
    filled = inv.filled;
    waited = λ j k c e. inv.waited j k c (ground arith);
    found = inv.found;
    backed = λ j k r e. elim (Bool-cases (i == j)) [
      | inl here ↦
          let same : ◌≡◌ {A = Str × DecisionResult} (id, if late then timeout else cancelled)
              (k, r) =
            ground arith in
          inl (sym (ap (λ x. x.1.decision) same) ∙ denied late)
      | inr ne ↦ inv.backed j k r (ground arith)
    ];
  }

  remove-Inv :
      (i : ℕ) (id tool : Str) (res : DecisionResult)
      → s.waiters i ≡ leaving id tool res
      → Inv (remove i id tool res s)
  unfolding remove
  remove-Inv i id tool res at = record {
    listed = λ k item e. inv.listed k item (ground arith);
    filled = inv.filled;
    waited = λ j k c e. inv.waited j k c (ground arith);
    found = inv.found;
    backed = λ j k r e. inv.backed j k r (ground arith);
  }

  retract-Inv :
      (i : ℕ) (id tool : Str) (res : DecisionResult)
      → s.waiters i ≡ removed id tool res
      → Inv (retract i id tool res s)
  unfolding retract
  retract-Inv i id tool res at = record {
    listed = inv.listed;
    filled = inv.filled;
    waited = λ j k c e. inv.waited j k c (ground arith);
    found = inv.found;
    backed = λ j k r e. inv.backed j k r (ground arith);
  }

  find_item-Inv :
      (j : ℕ) (id : Str) (res : DecisionResult) (t : State) → find_item j id res s ≡ some t → Inv t
  unfolding find_item
  find_item-Inv j id res t e = elim (Option-cases (s.pending_approvals id)) [
    | inl n ↦ absurd (ground arith)
    | inr (item, at) ↦
        let same : record s { submitters = put s.submitters j (sending id item.decision_ch res) }
            ≡ t =
          ground arith in
        subst Inv same (record {
          listed = inv.listed;
          filled = inv.filled;
          waited = inv.waited;
          found = λ l k c r f. elim (Bool-cases (j == l)) [
            | inl here ↦ ground (arith, inv.listed id item at)
            | inr ne ↦ inv.found l k c r (ground arith)
          ];
          backed = inv.backed;
        })
  ]

  send-Inv :
      (j : ℕ) (id : Str) (ch : ℕ) (res : DecisionResult)
      → s.submitters j ≡ sending id ch res
      → Inv (send j id ch res s).1
  unfolding send
  send-Inv j id ch res at = elim (Option-cases (s.channels ch)) [
    | inl room ↦
        let (mine, below) = inv.found j id ch res at in
        rw (room, send)
          (record {
            listed = inv.listed;
            filled = λ c r e. elim (Bool-cases (ch == c)) [
              | inl here ↦ Memᴰ.head (ground (arith, mine))
              | inr ne ↦ Memᴰ.tail (inv.filled c r (ground arith))
            ];
            waited = inv.waited;
            found = λ l k c r f. inv.found l k c r (ground arith);
            backed =
                λ i k r e. elim (inv.backed i k r e) [ inl d ↦ inl d | inr m ↦ inr (Memᴰ.tail m) ];
          })
    | inr (old, full) ↦
        rw (full, send)
          (record {
            listed = inv.listed;
            filled = inv.filled;
            waited = inv.waited;
            found = λ l k c r f. inv.found l k c r (ground arith);
            backed = inv.backed;
          })
  ]

Step-Inv : {s t : State} → Step s t → Inv s → Inv t
Step-Inv {s} (enters i id tool at) inv = enter-Inv s inv i id tool
Step-Inv {s} (announces i id tool ch at) inv = announce-Inv s inv i id tool ch at
Step-Inv {s} (receives i id tool ch res at full) inv = receive-Inv s inv i id tool ch res at full
Step-Inv {s} (gives_up i id tool ch late at) inv = give_up-Inv s inv i id tool late
Step-Inv {s} (removes i id tool res at) inv = remove-Inv s inv i id tool res at
Step-Inv {s} (retracts i id tool res at) inv = retract-Inv s inv i id tool res at
Step-Inv {s} {t} (finds j id res at e) inv = find_item-Inv s inv j id res t e
Step-Inv {s} (sends j id ch res at) inv = send-Inv s inv j id ch res at

pub Reach-Inv : {s : State} → Reach s → Inv s
Reach-Inv (start r) = new-Inv r
Reach-Inv (later reach step) = Step-Inv step (Reach-Inv reach)

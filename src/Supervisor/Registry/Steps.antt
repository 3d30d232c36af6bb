-- ===== src/Supervisor/Registry/Steps.antt =====
-- Every call on a registry is a step of a map from ids to processes.
use domour.Common.{
  ℕ, ◌+◌, ◌<◌, ◌≡◌, refl, sym, subst, ◌∙◌, arith, inl, inr, Bool, Bool-cases, Option-cases, true,
  some, none,
}
use domour.Common.Text.{Str, equal}
use domour.Common.Assoc.{lookup}
use domour.Supervisor.Registry.{
  AgentProcess, StatuslineUpdate, awaiting_confirmation, Channel, Registry, put, new, subscribe,
  unsubscribe, register, update_from_statusline, get, set_tool_pending, sweep_expired, merge, fresh,
  pend, next_status,
}
use domour.Supervisor.Registry.View.{
  Inv, View, view_register, view_update, view_sweep, view_pend, get-register, get-update,
  get-set_tool_pending,
}
use domour.Supervisor.Registry.Fields.{register-Inv, update-Inv, set_tool_pending-Inv}
use domour.Supervisor.Registry.Sweep.{get-sweep_expired, sweep_expired-Inv}

-- The calls; the first number of three of them is the time.
pub data Op : Type 0 where
  registers : ℕ → ℕ → Op
  updates : ℕ → StatuslineUpdate → Str → Op
  pends : Str → Bool → Str → Op
  sweeps : ℕ → ℕ → Op
  subscribes unsubscribes : ℕ → Op

unfoldable pub apply : Registry → Op → Registry
apply r (registers now a) = register now r a
apply r (updates now u provider) = (update_from_statusline now r u provider).1
apply r (pends id pending tool) = set_tool_pending r id pending tool
apply r (sweeps now ttl) = (sweep_expired now r ttl).1
apply r (subscribes ch) = subscribe r ch
apply r (unsubscribes ch) = unsubscribe r ch

-- The same calls on a map; `Register` reads the caller's object.
abbrev pub view_apply : (ℕ → AgentProcess) → Op → View → View
view_apply heap (registers now a) v = view_register now (heap a) v
view_apply heap (updates now u provider) v = view_update now u provider v
view_apply heap (pends id pending tool) v = view_pend id pending tool v
view_apply heap (sweeps now ttl) v = view_sweep now ttl v
view_apply heap (subscribes ch) v = v
view_apply heap (unsubscribes ch) v = v

-- A call of Register is given an object that exists.
abbrev pub IsGiven : Registry → Op → Type 0
IsGiven r (registers now a) = a < r.made
IsGiven r _ = ◌≡◌ {A = ℕ} 0 0

-- Calls, and objects that the callers make.
pub data Reach : Registry → Type 0 where
  start :
      (heap : ℕ → AgentProcess) (made : ℕ) (channels : ℕ → Channel) → Reach (new heap made channels)
  allocated :
      {r : Registry} (p : AgentProcess)
      → Reach r
      → Reach (record r { heap = put r.heap r.made p; made = r.made + 1 })
  called : {r : Registry} (op : Op) → IsGiven r op → Reach r → Reach (apply r op)

apply-Inv : (r : Registry) (op : Op) → Inv r → IsGiven r op → Inv (apply r op)
unfolding apply subscribe unsubscribe
apply-Inv r (registers now a) inv ok = register-Inv now r a inv ok
apply-Inv r (updates now u provider) inv ok = update-Inv now r u provider inv
apply-Inv r (pends id pending tool) inv ok = set_tool_pending-Inv r id pending tool inv
apply-Inv r (sweeps now ttl) inv ok = sweep_expired-Inv now ttl r inv
apply-Inv r (subscribes ch) inv ok = record {
  named = inv.named;
  allocated = inv.allocated;
  is_map = inv.is_map;
}
apply-Inv r (unsubscribes ch) inv ok = record {
  named = inv.named;
  allocated = inv.allocated;
  is_map = inv.is_map;
}

-- In every reachable registry the map has one entry for each id, and the entry's object has that
-- id, so no two ids share an object.
pub Reach-Inv : {r : Registry} → Reach r → Inv r
unfolding new lookup
Reach-Inv (start heap made channels) = record {
  named = λ k a e. absurd (cc);
  allocated = λ k a e. absurd (cc);
  is_map = refl;
}
Reach-Inv (allocated {r} p reach) =
    let inv = Reach-Inv reach in
    record {
      named = λ k b e. ground (arith, inv.named k b e, inv.allocated k b e);
      allocated = λ k b e. omega (arith, inv.allocated k b e);
      is_map = inv.is_map;
    }
Reach-Inv (called {r} op ok reach) = apply-Inv r op (Reach-Inv reach) ok

-- In a reachable registry every call changes what Get returns, for each id, exactly as the same
-- call on a map from ids to processes, although the processes are objects that calls share.
pub apply-view :
    {r : Registry}
    → Reach r
    → (op : Op) (j : Str) → get (apply r op) j ≡ view_apply r.heap op (get r) j
unfolding apply subscribe unsubscribe get
apply-view {r} reach (registers now a) j = get-register now r a j (Reach-Inv reach)
apply-view {r} reach (updates now u provider) j = get-update now r u provider j (Reach-Inv reach)
apply-view {r} reach (pends id pending tool) j =
    get-set_tool_pending r id pending tool j (Reach-Inv reach)
apply-view {r} reach (sweeps now ttl) j = get-sweep_expired now ttl r j (Reach-Inv reach)
apply-view {r} reach (subscribes ch) j = refl
apply-view {r} reach (unsubscribes ch) j = refl

-- A process that waits for a tool is shown as waiting.
abbrev pub ShowsPending : AgentProcess → Type 0
ShowsPending p = p.tool_pending ≡ true → p.status ≡ awaiting_confirmation

merge-ShowsPending :
    (now : ℕ) (u : StatuslineUpdate) (p : AgentProcess) → ShowsPending (merge now u p)
unfolding merge next_status
merge-ShowsPending now u p e = ground arith

pend-ShowsPending :
    (pending : Bool) (tool : Str) (p : AgentProcess) → ShowsPending (pend pending tool p)
unfolding pend
pend-ShowsPending pending tool p e = ground arith

ShowsPending-some : (q p : AgentProcess) → some q ≡ some p → ShowsPending q → ShowsPending p
ShowsPending-some q p e h = let same : q ≡ p = cc in subst ShowsPending same h

-- What a call of Register brings in.
abbrev pub BringsPending : Registry → Op → Type 0
BringsPending r (registers now a) = ShowsPending (r.heap a)
BringsPending r _ = ◌≡◌ {A = ℕ} 0 0

-- In a reachable registry where each process with a pending tool has the status that shows it, the
-- same holds after every call, for Register provided that it holds of the registered process.
pub apply-ShowsPending :
    {r : Registry}
    → Reach r
    → (op : Op) → ((k : Str) (p : AgentProcess) → get r k ≡ some p → ShowsPending p)
    → BringsPending r op
    → (k : Str) (p : AgentProcess) → get (apply r op) k ≡ some p
    → ShowsPending p
apply-ShowsPending {r} reach op old brings k p e =
    view-ShowsPending op brings (sym (apply-view reach op k) ∙ e)
  where
    view-ShowsPending :
        (op : Op) → BringsPending r op → view_apply r.heap op (get r) k ≡ some p → ShowsPending p
    view-ShowsPending (registers now a) b f = elim (Bool-cases (equal (r.heap a).id k)) [
      | inl here ↦ ShowsPending-some (record (r.heap a) { last_heartbeat = now }) p (ground arith) b
      | inr there ↦ old k p (ground arith)
    ]
    view-ShowsPending (updates now u provider) b f =
        let before : AgentProcess = elim (get r u.id) [ some q ↦ q | none ↦ fresh u provider ] in
        elim (Bool-cases (equal u.id k)) [
          | inl here ↦
              ShowsPending-some (merge now u before) p (ground arith)
                (merge-ShowsPending now u before)
          | inr there ↦ old k p (ground arith)
        ]
    view-ShowsPending (pends id pending tool) b f = elim (Bool-cases (equal id k)) [
      | inl here ↦ elim (Option-cases (get r id)) [
        | inl e' ↦ absurd (ground arith)
        | inr (q, e') ↦
            ShowsPending-some (pend pending tool q) p (ground arith)
              (pend-ShowsPending pending tool q)
      ]
      | inr there ↦ old k p (ground arith)
    ]
    view-ShowsPending (sweeps now ttl) b f = elim (Option-cases (get r k)) [
      | inl e' ↦ absurd (ground arith)
      | inr (q, e') ↦ old k p (ground arith)
    ]
    view-ShowsPending (subscribes ch) b f = old k p f
    view-ShowsPending (unsubscribes ch) b f = old k p f

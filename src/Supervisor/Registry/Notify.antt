-- ===== src/Supervisor/Registry/Notify.antt =====
-- What the listeners get.
use domour.Common.{
  ℕ, ◌≡◌, refl, ap, sym, ap₂, ◌∙◌, arith, inl, inr, List, [], ◌∷◌, ◌++◌, ◌-◌, ◌+◌, ◌==◌, ltb, some,
  none, if◌then◌else◌, Bool-cases, Option-cases,
}
use domour.Common.Text.{Str}
use domour.Common.Assoc.{Assoc, lookup, insert, delete}
use domour.Supervisor.Registry.{
  AgentProcess, ProcessEvent, process_terminated, tool_pending_event, discovered, updated,
  terminated, merge, next_status, is_awaiting, known, Registry, put, notify, subscribe, unsubscribe,
  register, update_from_statusline, set_tool_pending, sweep_loop, sweep_expired, is_expired, fresh,
  pend,
}
use domour.Supervisor.Registry.Steps.{
  Op, registers, updates, pends, sweeps, subscribes, unsubscribes, apply,
}
use domour.Supervisor.Registry.Fill.{
  occurrences, repeated, filled, filled-filled, filled-none, repeated-append, notify-delivers,
}

-- the events of a sweep: one for each entry whose process has expired
abbrev pub swept_events : ℕ → ℕ → Registry → Assoc ℕ → List ProcessEvent
swept_events now ttl r [] = []
swept_events now ttl r ((id, a) ∷ m) =
    let rest = swept_events now ttl r m in
    if is_expired now ttl (r.heap a)
    then record { kind = process_terminated; process = a } ∷ rest
    else rest

-- The events that a call makes.
abbrev pub events : Registry → Op → List ProcessEvent
events r (registers now a) =
    record {
      kind = if known (lookup (r.heap a).id r.processes) then updated else discovered;
      process = a;
    }
    ∷ []
events r (updates now u provider) = elim (lookup u.id r.processes) [
  | none ↦ record { kind = discovered; process = r.made } ∷ []
  | some a ↦
      record {
        kind =
            if is_awaiting (next_status u (r.heap a).status) then tool_pending_event else updated;
        process = a;
      }
      ∷ []
]
events r (pends id pending tool) = elim (lookup id r.processes) [
  | none ↦ []
  | some a ↦ record { kind = tool_pending_event; process = a } ∷ []
]
events r (sweeps now ttl) = swept_events now ttl r r.processes
events r (subscribes ch) = []
events r (unsubscribes ch) = []

same_heartbeat :
    (heap : ℕ → AgentProcess) (a b : ℕ)
    → (put heap a (record (heap a) { status = terminated }) b).last_heartbeat
      ≡ (heap b).last_heartbeat
same_heartbeat heap a b = elim (Bool-cases (a == b)) [
  | inl e ↦ let same : a ≡ b = ground arith in rw e (ap (λ c. (heap c).last_heartbeat) same)
  | inr ne ↦ rw ne refl
]

-- An object that is marked as terminated expires as before.
swept_events-heap :
    (now ttl : ℕ) (r : Registry) (a : ℕ) (m : Assoc ℕ)
    → swept_events now ttl
        (record r { heap = put r.heap a (record (r.heap a) { status = terminated }) })
        m
      ≡ swept_events now ttl r m
unfolding is_expired
swept_events-heap now ttl r a [] = refl
swept_events-heap now ttl r a ((id, b) ∷ m) =
    ap₂
      (λ beat rest.
        if ltb ttl (now - beat)
        then record { kind = process_terminated; process = b } ∷ rest
        else rest)
      (same_heartbeat r.heap a b) (swept_events-heap now ttl r a m)

sweep_loop-delivers :
    (now ttl : ℕ) (m : Assoc ℕ) (ex : List Str) (r : Registry) (ch : ℕ)
    → (sweep_loop now ttl m ex r).1.channels ch
      ≡ filled (repeated (occurrences ch r.listeners) (swept_events now ttl r m)) (r.channels ch)
unfolding sweep_loop notify
sweep_loop-delivers now ttl [] ex r ch = filled-none (r.channels ch)
sweep_loop-delivers now ttl ((id, a) ∷ m) ex r ch =
    elim (Bool-cases (is_expired now ttl (r.heap a))) [
      | inl old ↦
          let marked : Registry = record r {
            heap = put r.heap a (record (r.heap a) { status = terminated });
          } in
          let told : Registry = notify marked process_terminated a in
          let n = occurrences ch r.listeners in
          let event : ProcessEvent = record { kind = process_terminated; process = a } in
          let later = swept_events now ttl r m in
          rw (sweep_loop, old, swept_events)
            (sweep_loop-delivers now ttl m (ex ++ (id ∷ []))
                (record told { processes = delete id r.processes }) ch
              ∙ ap (λ es. filled (repeated n es) (told.channels ch))
                  (swept_events-heap now ttl r a m)
              ∙ ap (filled (repeated n later)) (notify-delivers marked process_terminated a ch)
              ∙ filled-filled (repeated n (event ∷ [])) (repeated n later) (r.channels ch)
              ∙ ap (λ es. filled es (r.channels ch)) (sym (repeated-append n (event ∷ []) later)))
      | inr young ↦ rw (sweep_loop, young) (sweep_loop-delivers now ttl m ex r ch)
    ]

-- After a call, each channel has the events of the call behind what it held, every event as often as
-- the channel is subscribed: the first of them, as many as there is room for, and no others.
pub apply-delivers :
    (r : Registry) (op : Op) (ch : ℕ)
    → (apply r op).channels ch
      ≡ filled (repeated (occurrences ch r.listeners) (events r op)) (r.channels ch)
unfolding apply merge register update_from_statusline set_tool_pending sweep_expired subscribe
    unsubscribe
apply-delivers r (registers now a) ch =
    notify-delivers
      (record r {
        heap = put r.heap a (record (r.heap a) { last_heartbeat = now });
        processes = insert (r.heap a).id a r.processes;
      })
      (if known (lookup (r.heap a).id r.processes) then updated else discovered) a ch
apply-delivers r (updates now u provider) ch = elim (Option-cases (lookup u.id r.processes)) [
  | inl e ↦
      rw (apply, update_from_statusline, events, e)
        (notify-delivers
          (record r {
            processes = insert u.id r.made r.processes;
            heap = put r.heap r.made (merge now u (fresh u provider));
            made = r.made + 1;
          })
          discovered r.made ch)
  | inr (a, e) ↦
      let kind =
        if is_awaiting (next_status u (r.heap a).status) then tool_pending_event else updated in
      rw (apply, update_from_statusline, events, e)
        (notify-delivers (record r { heap = put r.heap a (merge now u (r.heap a)) }) kind a ch)
]
apply-delivers r (pends id pending tool) ch = elim (Option-cases (lookup id r.processes)) [
  | inl e ↦ rw (apply, set_tool_pending, events, e) (filled-none (r.channels ch))
  | inr (a, e) ↦
      rw (apply, set_tool_pending, events, e)
        (notify-delivers (record r { heap = put r.heap a (pend pending tool (r.heap a)) })
          tool_pending_event a ch)
]
apply-delivers r (sweeps now ttl) ch = sweep_loop-delivers now ttl r.processes [] r ch
apply-delivers r (subscribes c) ch = filled-none (r.channels ch)
apply-delivers r (unsubscribes c) ch = filled-none (r.channels ch)

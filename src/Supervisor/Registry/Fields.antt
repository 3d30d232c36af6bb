-- ===== src/Supervisor/Registry/Fields.antt =====
-- Every operation keeps the map and the objects well formed.
use domour.Common.{
  ℕ, ◌<◌, ◌≡◌, refl, subst, arith, inl, inr, [], ◌∷◌, if◌then◌else◌, Bool, Bool-cases, Option-cases,
  none,
}
use domour.Common.Text.{Str, equal, equal_iff}
use domour.Common.Assoc.{Assoc, lookup, insert, delete, lookup-insert, lookup-delete}
use domour.Supervisor.Registry.{
  AgentProcess, StatuslineUpdate, ProcessEventType, updated, tool_pending_event, is_awaiting,
  Registry, put, register, update_from_statusline, set_tool_pending, notify, merge, fresh, pend,
}
use domour.Supervisor.Registry.View.{IsMap, Inv}

insert-IsMap : (k : Str) (v : ℕ) (m : Assoc ℕ) → IsMap m → IsMap (insert k v m)
unfolding insert lookup
insert-IsMap k v [] h = (refl, refl)
insert-IsMap k v ((j, w) ∷ m) (free, rest) = elim (Bool-cases (equal j k)) [
  | inl e ↦ rw (e, insert) (subst (λ i. lookup i m ≡ none) ((equal_iff j k).0 e) free, rest)
  | inr ne ↦
      rw (ne, insert)
        (
          ground (arith, lookup-insert k j v m, equal_iff k j, equal_iff j k),
          insert-IsMap k v m rest,
        )
]

pub delete-IsMap : (k : Str) (m : Assoc ℕ) → IsMap m → IsMap (delete k m)
unfolding delete lookup
delete-IsMap k [] h = refl
delete-IsMap k ((j, w) ∷ m) (free, rest) = elim (Bool-cases (equal j k)) [
  | inl e ↦ rw (e, delete) (delete-IsMap k m rest)
  | inr ne ↦ rw (ne, delete) (ground (arith, lookup-delete k j m), delete-IsMap k m rest)
]

-- A write to an object that keeps its id.
pub put-Inv :
    (r : Registry) (a : ℕ) (p : AgentProcess)
    → Inv r
    → p.id ≡ (r.heap a).id
    → Inv (record r { heap = put r.heap a p })
put-Inv r a p inv same = record {
  named = λ k b e. ground (arith, inv.named k b e);
  allocated = inv.allocated;
  is_map = inv.is_map;
}

pub delete-Inv :
    (r : Registry) (id : Str) → Inv r → Inv (record r { processes = delete id r.processes })
delete-Inv r id inv = record {
  named = λ k b e. ground (arith, lookup-delete id k r.processes, inv.named k b);
  allocated = λ k b e. ground (arith, lookup-delete id k r.processes, inv.allocated k b);
  is_map = delete-IsMap id r.processes inv.is_map;
}

pub notify-Inv : (r : Registry) (kind : ProcessEventType) (a : ℕ) → Inv r → Inv (notify r kind a)
unfolding notify
notify-Inv r kind a inv = record {
  named = inv.named;
  allocated = inv.allocated;
  is_map = inv.is_map;
}

pub register-Inv : (now : ℕ) (r : Registry) (a : ℕ) → Inv r → a < r.made → Inv (register now r a)
unfolding register notify
register-Inv now r a inv below = record {
  named = λ k b e. ground (
    arith,
    lookup-insert (r.heap a).id k a r.processes,
    equal_iff (r.heap a).id k,
    inv.named k b,
  );
  allocated =
      λ k b e. ground (arith, lookup-insert (r.heap a).id k a r.processes, inv.allocated k b);
  is_map = insert-IsMap (r.heap a).id a r.processes inv.is_map;
}

pub update-Inv :
    (now : ℕ) (r : Registry) (u : StatuslineUpdate) (provider : Str)
    → Inv r
    → Inv (update_from_statusline now r u provider).1
unfolding update_from_statusline notify merge fresh
update-Inv now r u provider inv = elim (Option-cases (lookup u.id r.processes)) [
  | inl e ↦
      rw (e, update_from_statusline)
        (record {
          named = λ k b f. ground (
            arith,
            lookup-insert u.id k r.made r.processes,
            equal_iff u.id k,
            inv.named k b,
            inv.allocated k b,
          );
          allocated =
              λ k b f. ground (arith, lookup-insert u.id k r.made r.processes, inv.allocated k b);
          is_map = insert-IsMap u.id r.made r.processes inv.is_map;
        })
  | inr (a, e) ↦
      rw (e, update_from_statusline)
        (let p : AgentProcess = merge now u (r.heap a) in
          notify-Inv (record r { heap = put r.heap a p })
            (if is_awaiting p.status then tool_pending_event else updated) a
            (put-Inv r a p inv refl))
]

pub set_tool_pending-Inv :
    (r : Registry) (id : Str) (pending : Bool) (tool : Str)
    → Inv r
    → Inv (set_tool_pending r id pending tool)
unfolding set_tool_pending notify pend
set_tool_pending-Inv r id pending tool inv = elim (Option-cases (lookup id r.processes)) [
  | inl e ↦ rw (e, set_tool_pending) inv
  | inr (a, e) ↦
      rw (e, set_tool_pending)
        (let p : AgentProcess = pend pending tool (r.heap a) in
          notify-Inv (record r { heap = put r.heap a p }) tool_pending_event a
            (put-Inv r a p inv refl))
]

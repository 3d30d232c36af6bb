-- ===== src/Supervisor/Registry/View.antt =====
-- What each operation does to the processes that `Get` shows, whoever shares their objects.
use domour.Common.{
  ℕ, ◌<◌, ◌≡◌, arith, inl, inr, [], ◌∷◌, if◌then◌else◌, Bool, Option-cases, some, none, Option,
}
use domour.Common.Text.{Str, equal, equal_iff}
use domour.Common.Assoc.{Assoc, lookup, lookup-insert}
use domour.Supervisor.Registry.{
  AgentProcess, StatuslineUpdate, Registry, put, register, update_from_statusline, get,
  set_tool_pending, notify, merge, fresh, pend, is_expired,
}

-- A map with one entry for each key.
abbrev pub IsMap : Assoc ℕ → Type 0
IsMap [] = ◌≡◌ {A = ℕ} 0 0
IsMap ((k, a) ∷ m) = (lookup k m ≡ none) × IsMap m

pub record Inv (r : Registry) : Type 0 where
  pub named : (k : Str) (a : ℕ) → lookup k r.processes ≡ some a → (r.heap a).id ≡ k
  pub allocated : (k : Str) (a : ℕ) → lookup k r.processes ≡ some a → a < r.made
  pub is_map : IsMap r.processes

-- A registry without objects: what it knows of each id.
abbrev pub View : Type 0
View = Str → Option AgentProcess

module _ (now : ℕ) where
  abbrev pub view_register : AgentProcess → View → View
  view_register p v j = if equal p.id j then some (record p { last_heartbeat = now }) else v j

  abbrev pub view_update : StatuslineUpdate → Str → View → View
  view_update u provider v j =
      let old : AgentProcess = elim (v u.id) [ some p ↦ p | none ↦ fresh u provider ] in
      if equal u.id j then some (merge now u old) else v j

  abbrev pub view_sweep : ℕ → View → View
  view_sweep ttl v j = elim (v j) [
    | some p ↦ if is_expired now ttl p then none else some p
    | none ↦ none
  ]

abbrev pub view_pend : Str → Bool → Str → View → View
view_pend id pending tool v j =
    if equal id j then elim (v id) [ some p ↦ some (pend pending tool p) | none ↦ none ] else v j

-- A write to the object of one id is seen at that id and at no other.
get-put :
    (r : Registry) (id : Str) (a : ℕ) (p : AgentProcess) (j : Str)
    → Inv r
    → lookup id r.processes ≡ some a
    → get (record r { heap = put r.heap a p }) j ≡ (if equal id j then some p else get r j)
unfolding get
get-put r id a p j inv at = elim (Option-cases (lookup j r.processes)) [
  | inl e ↦ ground (arith, equal_iff id j)
  | inr (b, e) ↦ ground (arith, equal_iff id j, inv.named id a at, inv.named j b e)
]

pub get-set_tool_pending :
    (r : Registry) (id : Str) (pending : Bool) (tool : Str) (j : Str)
    → Inv r
    → get (set_tool_pending r id pending tool) j ≡ view_pend id pending tool (get r) j
unfolding set_tool_pending notify get
get-set_tool_pending r id pending tool j inv = elim (Option-cases (lookup id r.processes)) [
  | inl e ↦ ground (arith, equal_iff id j)
  | inr (a, e) ↦ rw (e, set_tool_pending) (get-put r id a (pend pending tool (r.heap a)) j inv e)
]

pub get-register :
    (now : ℕ) (r : Registry) (a : ℕ) (j : Str)
    → Inv r
    → get (register now r a) j ≡ view_register now (r.heap a) (get r) j
unfolding register notify get
get-register now r a j inv = elim (Option-cases (lookup j r.processes)) [
  | inl e ↦ ground (arith, lookup-insert (r.heap a).id j a r.processes)
  | inr (b, e) ↦ ground (
    arith,
    lookup-insert (r.heap a).id j a r.processes,
    equal_iff (r.heap a).id j,
    inv.named j b e,
  )
]

pub get-update :
    (now : ℕ) (r : Registry) (u : StatuslineUpdate) (provider : Str) (j : Str)
    → Inv r
    → get (update_from_statusline now r u provider).1 j ≡ view_update now u provider (get r) j
unfolding update_from_statusline notify get
get-update now r u provider j inv = elim (Option-cases (lookup u.id r.processes)) [
  | inl e ↦ elim (Option-cases (lookup j r.processes)) [
    | inl n ↦ ground (arith, lookup-insert u.id j r.made r.processes, equal_iff u.id j)
    | inr (b, f) ↦
        ground
          (arith, lookup-insert u.id j r.made r.processes, equal_iff u.id j, inv.allocated j b f)
  ]
  | inr (a, e) ↦ rw (e, update_from_statusline) (get-put r u.id a (merge now u (r.heap a)) j inv e)
]

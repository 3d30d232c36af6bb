-- ===== src/Supervisor/Registry/Report.antt =====
-- What a sweep reports.
use mathlib.Core.List.{Memᴰ}
use domour.Common.{
  ℕ, ◌≡◌, ◌↔◌, ◌⊎◌, refl, ap, ap₂, sym, subst, ◌∙◌, arith, inl, inr, List, [], ◌∷◌, ◌++◌,
  append_assoc, append-nil, if◌then◌else◌, Bool-cases, Option-cases, true, some,
}
use domour.Common.Text.{Str, equal, equal_iff}
use domour.Common.Assoc.{Assoc, lookup}
use domour.Supervisor.Registry.{
  AgentProcess, Registry, get, notify, is_expired, sweep_loop, sweep_expired,
}
use domour.Supervisor.Registry.View.{IsMap, Inv}
use domour.Supervisor.Registry.Sweep.{drop_entry}

module _ (now ttl : ℕ) where
  -- The ids that a loop reports, by the objects as they were.
  abbrev reported : Assoc ℕ → (ℕ → AgentProcess) → List Str
  reported [] heap = []
  reported ((id, a) ∷ m) heap =
      if is_expired now ttl (heap a) then id ∷ reported m heap else reported m heap

  -- The report depends on the heartbeats only, and a drop changes none.
  expired-drop :
      (r : Registry) (id : Str) (a b : ℕ)
      → is_expired now ttl ((drop_entry now ttl r id a).heap b) ≡ is_expired now ttl (r.heap b)
  unfolding notify is_expired
  expired-drop r id a b = ground arith

  reported-drop :
      (m : Assoc ℕ) (r : Registry) (id : Str) (a : ℕ)
      → reported m (drop_entry now ttl r id a).heap ≡ reported m r.heap
  unfolding notify
  reported-drop [] r id a = refl
  reported-drop ((k, b) ∷ m) r id a =
      ap₂ (λ c q. if c then k ∷ q else q) (expired-drop r id a b) (reported-drop m r id a)

  sweep_loop-reported :
      (m : Assoc ℕ) (ex : List Str) (r : Registry)
      → (sweep_loop now ttl m ex r).0 ≡ ex ++ reported m r.heap
  unfolding sweep_loop
  sweep_loop-reported [] ex r = sym (append-nil ex)
  sweep_loop-reported ((id, a) ∷ m) ex r = elim (Bool-cases (is_expired now ttl (r.heap a))) [
    | inl old ↦
        rw (sweep_loop, old)
          (sweep_loop-reported m (ex ++ (id ∷ [])) (drop_entry now ttl r id a)
            ∙ ap (λ q. (ex ++ (id ∷ [])) ++ q) (reported-drop m r id a)
            ∙ append_assoc ex (id ∷ []) (reported m r.heap))
    | inr young ↦ rw (sweep_loop, young) (sweep_loop-reported m ex r)
  ]

  mem-cons : (k x : Str) (xs : List Str) → Memᴰ k (x ∷ xs) → (k ≡ x) ⊎ Memᴰ k xs
  mem-cons k x xs (Memᴰ.head e) = inl e
  mem-cons k x xs (Memᴰ.tail m) = inr m

  reported-mem :
      (m : Assoc ℕ) (heap : ℕ → AgentProcess) (k : Str)
      → IsMap m
      → Memᴰ k (reported m heap)
      → (a : ℕ) × (lookup k m ≡ some a) × (is_expired now ttl (heap a) ≡ true)
  unfolding lookup
  reported-mem [] heap k h mem = elim mem [ ]
  reported-mem ((id, a) ∷ m) heap k (free, rest) mem =
      elim (Bool-cases (is_expired now ttl (heap a))) [
        | inl old ↦
            let mem' : Memᴰ k (id ∷ reported m heap) =
              subst (λ c. Memᴰ k (if c then id ∷ reported m heap else reported m heap)) old mem in
            elim (mem-cons k id (reported m heap) mem') [
              | inl e ↦ (a, ground (arith, equal_iff id k, sym e), old)
              | inr later ↦ behind (reported-mem m heap k rest later)
            ]
        | inr young ↦ behind (
            reported-mem m heap k rest
              (subst (λ c. Memᴰ k (if c then id ∷ reported m heap else reported m heap)) young mem))
      ]
    where
      behind :
          (b : ℕ) × (lookup k m ≡ some b) × (is_expired now ttl (heap b) ≡ true)
          → (b : ℕ) × ((if equal id k then some a else lookup k m) ≡ some b)
            × (is_expired now ttl (heap b) ≡ true)
      behind (b, at, old) = (b, ground (arith, equal_iff id k), old)

  mem-reported :
      (m : Assoc ℕ) (heap : ℕ → AgentProcess) (k : Str) (a : ℕ)
      → lookup k m ≡ some a
      → is_expired now ttl (heap a) ≡ true
      → Memᴰ k (reported m heap)
  unfolding lookup
  mem-reported [] heap k a e old = absurd (cc)
  mem-reported ((id, b) ∷ m) heap k a e old = elim (Bool-cases (equal id k)) [
    | inl same ↦
        let hit : is_expired now ttl (heap b) ≡ true = ground arith in
        rw hit (Memᴰ.head (sym ((equal_iff id k).0 same)))
    | inr ne ↦
        let later = mem-reported m heap k a (ground arith) old in
        elim (Bool-cases (is_expired now ttl (heap b))) [
          | inl hit ↦ rw hit (Memᴰ.tail later)
          | inr miss ↦ rw miss later
        ]
  ]

  -- A sweep reports an id exactly if the registry knew it with a heartbeat longer ago than the time
  -- to live.
  pub sweep_expired-reports :
      (r : Registry) (k : Str)
      → Inv r
      → Memᴰ k (sweep_expired now r ttl).0
        ↔ ((p : AgentProcess) × (get r k ≡ some p) × (is_expired now ttl p ≡ true))
  unfolding sweep_expired get
  sweep_expired-reports r k inv =
      let same = sweep_loop-reported r.processes [] r in
      (
        λ mem.
            let (a, at, old) =
              reported-mem r.processes r.heap k inv.is_map (subst (λ q. Memᴰ k q) same mem) in
            (r.heap a, rw (at, get) refl, old),
        λ (p, at, old). elim (Option-cases (lookup k r.processes)) [
          | inl e ↦ absurd (ground arith)
          | inr (a, e) ↦
              subst (λ q. Memᴰ k q) (sym same)
                (mem-reported r.processes r.heap k a e (ground arith))
        ],
      )

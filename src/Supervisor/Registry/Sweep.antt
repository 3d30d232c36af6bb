-- ===== src/Supervisor/Registry/Sweep.antt =====
-- What a sweep removes.
use domour.Common.{
  ℕ, ◌≡◌, refl, ◌∙◌, arith, inl, inr, List, [], ◌∷◌, ◌++◌, if◌then◌else◌, Bool-cases, Option-cases,
  true, false, some, none, Option,
}
use domour.Common.Text.{Str, equal, equal_iff, equal_refl}
use domour.Common.Assoc.{Assoc, lookup, delete, lookup-delete}
use domour.Supervisor.Registry.{
  AgentProcess, terminated, process_terminated, Registry, put, get, notify, is_expired, sweep_loop,
  sweep_expired,
}
use domour.Supervisor.Registry.View.{IsMap, Inv, view_sweep}
use domour.Supervisor.Registry.Fields.{put-Inv, delete-Inv, notify-Inv}

module _ (now ttl : ℕ) where
  -- the registry after one expired entry
  abbrev pub drop_entry : Registry → Str → ℕ → Registry
  drop_entry r id a =
      let told =
        notify (record r { heap = put r.heap a (record (r.heap a) { status = terminated }) })
          process_terminated a in
      record told { processes = delete id r.processes }

  drop_entry-Inv : (r : Registry) (id : Str) (a : ℕ) → Inv r → Inv (drop_entry r id a)
  unfolding notify
  drop_entry-Inv r id a inv =
      let told : Registry = record r {
        heap = put r.heap a (record (r.heap a) { status = terminated });
      } in
      delete-Inv (notify told process_terminated a) id (
        notify-Inv told process_terminated a
          (put-Inv r a (record (r.heap a) { status = terminated }) inv refl))

  get-drop_entry :
      (r : Registry) (id : Str) (a : ℕ) (j : Str)
      → Inv r
      → lookup id r.processes ≡ some a
      → get (drop_entry r id a) j ≡ (if equal id j then none else get r j)
  unfolding notify get
  get-drop_entry r id a j inv at = elim (Option-cases (lookup j r.processes)) [
    | inl e ↦ ground (arith, equal_iff id j, lookup-delete id j r.processes)
    | inr (b, e) ↦
        ground (
          arith,
          equal_iff id j,
          lookup-delete id j r.processes,
          inv.named id a at,
          inv.named j b e,
        )
  ]

  -- The entries that the loop has not reached are still there.
  abbrev IsAhead : Assoc ℕ → Registry → Type 0
  IsAhead m r = (k : Str) (a : ℕ) → lookup k m ≡ some a → lookup k r.processes ≡ some a

  abbrev after : Option ℕ → Registry → Option AgentProcess → Option AgentProcess
  after none r old = old
  after (some a) r old = if is_expired now ttl (r.heap a) then none else old

  IsAhead-skip :
      (id : Str) (a : ℕ) (m : Assoc ℕ) (r : Registry)
      → lookup id m ≡ none
      → IsAhead ((id, a) ∷ m) r
      → IsAhead m r
  unfolding lookup
  IsAhead-skip id a m r free ahead k b e = ground (arith, ahead k b, equal_iff id k)

  IsAhead-drop :
      (id : Str) (a : ℕ) (m : Assoc ℕ) (r : Registry)
      → lookup id m ≡ none
      → IsAhead ((id, a) ∷ m) r
      → IsAhead m (drop_entry r id a)
  unfolding notify
  IsAhead-drop id a m r free ahead k b e = ground (
    arith,
    IsAhead-skip id a m r free ahead k b e,
    equal_iff id k,
    lookup-delete id k r.processes,
  )

  lookup-cons :
      (j id : Str) (a : ℕ) (m : Assoc ℕ)
      → lookup j ((id, a) ∷ m) ≡ (if equal id j then some a else lookup j m)
  unfolding lookup
  lookup-cons j id a m = refl

  first-ahead :
      (id : Str) (a : ℕ) (m : Assoc ℕ) (r : Registry)
      → IsAhead ((id, a) ∷ m) r
      → lookup id r.processes ≡ some a
  first-ahead id a m r ahead = ahead id a (ground (arith, lookup-cons id id a m, equal_refl id))

  after-kept :
      (id : Str) (a : ℕ) (m : Assoc ℕ) (r : Registry) (j : Str)
      → lookup id m ≡ none
      → is_expired now ttl (r.heap a) ≡ false
      → after (lookup j m) r (get r j) ≡ after (lookup j ((id, a) ∷ m)) r (get r j)
  after-kept id a m r j free young = elim (Bool-cases (equal id j)) [
    | inl e ↦ ground (arith, lookup-cons j id a m, equal_iff id j)
    | inr ne ↦ ground (arith, lookup-cons j id a m)
  ]

  after-dropped :
      (id : Str) (a : ℕ) (m : Assoc ℕ) (r : Registry) (j : Str)
      → Inv r
      → lookup id m ≡ none
      → is_expired now ttl (r.heap a) ≡ true
      → IsAhead ((id, a) ∷ m) r
      → after (lookup j m) (drop_entry r id a) (get (drop_entry r id a) j)
        ≡ after (lookup j ((id, a) ∷ m)) r (get r j)
  unfolding notify
  after-dropped id a m r j inv free old ahead =
      let at = first-ahead id a m r ahead in
      elim (Option-cases (lookup j m)) [
        | inl e ↦ ground (arith, lookup-cons j id a m, get-drop_entry r id a j inv at)
        | inr (b, e) ↦ ground (
          arith,
          lookup-cons j id a m,
          equal_iff id j,
          get-drop_entry r id a j inv at,
          inv.named id a at,
          ahead j b,
          inv.named j b,
        )
      ]

  get-sweep_loop :
      (m : Assoc ℕ) (ex : List Str) (r : Registry) (j : Str)
      → Inv r
      → IsMap m
      → IsAhead m r
      → get (sweep_loop now ttl m ex r).1 j ≡ after (lookup j m) r (get r j)
  unfolding sweep_loop lookup
  get-sweep_loop [] ex r j inv is_map ahead = refl
  get-sweep_loop ((id, a) ∷ m) ex r j inv (free, rest) ahead =
      elim (Bool-cases (is_expired now ttl (r.heap a))) [
        | inl old ↦
            rw (sweep_loop, old)
              (get-sweep_loop m (ex ++ (id ∷ [])) (drop_entry r id a) j (drop_entry-Inv r id a inv)
                  rest (IsAhead-drop id a m r free ahead)
                ∙ after-dropped id a m r j inv free old ahead)
        | inr young ↦
            rw (sweep_loop, young)
              (get-sweep_loop m ex r j inv rest (IsAhead-skip id a m r free ahead)
                ∙ after-kept id a m r j free young)
      ]

  pub get-sweep_expired :
      (r : Registry) (j : Str)
      → Inv r
      → get (sweep_expired now r ttl).1 j ≡ view_sweep now ttl (get r) j
  unfolding sweep_expired get
  get-sweep_expired r j inv =
      get-sweep_loop r.processes [] r j inv inv.is_map (λ k a e. e)
      ∙ (elim (Option-cases (lookup j r.processes)) [
        | inl e ↦ ground arith
        | inr (a, e) ↦ ground arith
      ])

  sweep_loop-Inv :
      (m : Assoc ℕ) (ex : List Str) (r : Registry) → Inv r → Inv (sweep_loop now ttl m ex r).1
  unfolding sweep_loop
  sweep_loop-Inv [] ex r inv = inv
  sweep_loop-Inv ((id, a) ∷ m) ex r inv = elim (Bool-cases (is_expired now ttl (r.heap a))) [
    | inl old ↦
        rw (sweep_loop, old)
          (sweep_loop-Inv m (ex ++ (id ∷ [])) (drop_entry r id a) (drop_entry-Inv r id a inv))
    | inr young ↦ rw (sweep_loop, young) (sweep_loop-Inv m ex r inv)
  ]

  pub sweep_expired-Inv : (r : Registry) → Inv r → Inv (sweep_expired now r ttl).1
  unfolding sweep_expired
  sweep_expired-Inv r inv = sweep_loop-Inv r.processes [] r inv

-- ===== src/Model/Registry/Best.antt =====
-- The model that a query returns is the best of the map, whatever the order of the loop.
use mathlib.Core.List.{Memᴰ}
use domour.Common.{
  ◌≡◌, ◌⊎◌, inl, inr, refl, ap, sym, ◌∙◌, arith, Bool, true, false, Bool-cases, Option, none, some,
  List, [], ◌∷◌,
}
use domour.Common.Text.{Str}
use domour.Common.Sort.{before_trans, before_total, before_cotrans, before_irrefl}
use domour.Common.Unicode.{Unicode}
use domour.Model.Registry.{Registration, Registry, is_candidate, is_better, best_loop}

module _ (u : Unicode) (required prefer exclude : List Str) where
  abbrev better : Registration → Registration → Bool
  better a b = is_better u required prefer exclude a b

  abbrev candidate : Registration → Bool
  candidate a = is_candidate u required prefer exclude a

  better_trans : (a b c : Registration) → better a b ≡ true → better b c ≡ true → better a c ≡ true
  unfolding is_better
  better_trans a b c p q = ground (arith, before_trans a.id b.id c.id)

  better_cotrans :
      (a b c : Registration) → better a b ≡ false → better b c ≡ false → better a c ≡ false
  unfolding is_better
  better_cotrans a b c p q = ground (arith, before_cotrans a.id b.id c.id)

  pub better_tied : (a b : Registration) → better a b ≡ false → better b a ≡ false → a.id ≡ b.id
  unfolding is_better
  better_tied a b p q = before_total a.id b.id (ground arith) (ground arith)

  better_irrefl : (a : Registration) → better a a ≡ false
  unfolding is_better
  better_irrefl a = ground (arith, before_irrefl a.id)

  -- A candidate of the map that no other candidate is better than.
  pub record IsBest (m : Registry) (b : Registration) : Type 0 where
    pub key : Str
    pub there : Memᴰ (key, b) m
    pub fits : candidate b ≡ true
    pub unbeaten :
        (k : Str) (reg : Registration)
        → Memᴰ (k, reg) m
        → candidate reg ≡ true
        → better reg b ≡ false

  -- What the loop makes of the best so far and the rest of the map.
  record IsNext (m : Registry) (b c : Registration) : Type 0 where
    from : (c ≡ b) ⊎ ((k : Str) × Memᴰ (k, c) m × (candidate c ≡ true))
    kept : better b c ≡ false
    rest :
        (k : Str) (reg : Registration)
        → Memᴰ (k, reg) m
        → candidate reg ≡ true
        → better reg c ≡ false

  -- where a result stands in a map with one entry more
  shift :
      {m : Registry} {id : Str} {reg b c : Registration}
      → (c ≡ b) ⊎ ((k : Str) × Memᴰ (k, c) m × (candidate c ≡ true))
      → (c ≡ b) ⊎ ((k : Str) × Memᴰ (k, c) ((id, reg) ∷ m) × (candidate c ≡ true))
  shift (inl e) = inl e
  shift (inr (k, mem, good)) = inr (k, Memᴰ.tail mem, good)

  shift_new :
      {m : Registry} {id : Str} {reg b c : Registration}
      → candidate reg ≡ true
      → (c ≡ reg) ⊎ ((k : Str) × Memᴰ (k, c) m × (candidate c ≡ true))
      → (c ≡ b) ⊎ ((k : Str) × Memᴰ (k, c) ((id, reg) ∷ m) × (candidate c ≡ true))
  shift_new {id} {c} good (inl e) = inr (id, Memᴰ.head (ap (λ x. (id, x)) e), ap candidate e ∙ good)
  shift_new good (inr (k, mem, fits)) = inr (k, Memᴰ.tail mem, fits)

  unbeaten-cons :
      (m : Registry) (id : Str) (reg c : Registration)
      → (candidate reg ≡ true → better reg c ≡ false)
      → ((k : Str) (r : Registration) → Memᴰ (k, r) m → candidate r ≡ true → better r c ≡ false)
      → (k : Str) (r : Registration) → Memᴰ (k, r) ((id, reg) ∷ m)
      → candidate r ≡ true
      → better r c ≡ false
  unbeaten-cons m id reg c first rest k r (Memᴰ.head e) good =
      let same : r ≡ reg = ap (λ x. x.1) e in
      ap (λ x. better x c) same ∙ first (ap candidate (sym same) ∙ good)
  unbeaten-cons m id reg c first rest k r (Memᴰ.tail mem) good = rest k r mem good

  best_loop-IsNext :
      (m : Registry) (b : Registration)
      → (c : Registration) × (best_loop u required prefer exclude m (some b) ≡ some c)
        × IsNext m b c
  unfolding best_loop
  best_loop-IsNext [] b = (
    b,
    refl,
    record { from = inl refl; kept = better_irrefl b; rest = λ k reg mem. elim mem [ ] },
  )
  best_loop-IsNext ((id, reg) ∷ m) b = elim (Bool-cases (candidate reg)) [
    | inl good ↦ elim (Bool-cases (better reg b)) [
      | inl wins ↦
          let (c, e, next) = best_loop-IsNext m reg in
          (
            c,
            rw (good, wins, best_loop) e,
            record {
              from = shift_new good next.from;
              kept = elim (Bool-cases (better b c)) [
                | inl more ↦ absurd (cc (better_trans reg b c wins more, next.kept))
                | inr less ↦ less
              ];
              rest = unbeaten-cons m id reg c (λ _. next.kept) next.rest;
            },
          )
      | inr loses ↦
          let (c, e, next) = best_loop-IsNext m b in
          (
            c,
            rw (good, loses, best_loop) e,
            record {
              from = shift next.from;
              kept = next.kept;
              rest =
                  unbeaten-cons m id reg c (λ _. better_cotrans reg b c loses next.kept) next.rest;
            },
          )
    ]
    | inr bad ↦
        let (c, e, next) = best_loop-IsNext m b in
        (
          c,
          rw (bad, best_loop) e,
          record {
            from = shift next.from;
            kept = next.kept;
            rest = unbeaten-cons m id reg c (λ good. absurd (cc)) next.rest;
          },
        )
  ]

  -- Nothing in the map is a candidate.
  abbrev pub NoCandidate : Registry → Type 0
  NoCandidate m = (k : Str) (reg : Registration) → Memᴰ (k, reg) m → candidate reg ≡ false

  abbrev pub Best : Registry → Option Registration → Type 0
  Best m none = NoCandidate m
  Best m (some b) = IsBest m b

  NoCandidate-cons :
      (m : Registry) (id : Str) (reg : Registration)
      → candidate reg ≡ false
      → NoCandidate m
      → NoCandidate ((id, reg) ∷ m)
  NoCandidate-cons m id reg bad nothing k r (Memᴰ.head e) = ap candidate (ap (λ x. x.1) e) ∙ bad
  NoCandidate-cons m id reg bad nothing k r (Memᴰ.tail mem) = nothing k r mem

  Best-cons :
      (m : Registry) (id : Str) (reg : Registration) (o : Option Registration)
      → candidate reg ≡ false
      → Best m o
      → Best ((id, reg) ∷ m) o
  Best-cons m id reg none bad nothing = NoCandidate-cons m id reg bad nothing
  Best-cons m id reg (some b) bad best = record {
    key = best.key;
    there = Memᴰ.tail best.there;
    fits = best.fits;
    unbeaten = unbeaten-cons m id reg b (λ good. absurd (cc)) best.unbeaten;
  }

  -- The loop finds a best candidate, or nothing when there is no candidate.
  pub best_loop-Best : (m : Registry) → Best m (best_loop u required prefer exclude m none)
  unfolding best_loop
  best_loop-Best [] = λ k reg mem. elim mem [ ]
  best_loop-Best ((id, reg) ∷ m) = elim (Bool-cases (candidate reg)) [
    | inl good ↦
        let (c, e, next) = best_loop-IsNext m reg in
        rw (good, best_loop, e) (best-of_first m id reg c good next)
    | inr bad ↦
        rw (bad, best_loop)
          (Best-cons m id reg (best_loop u required prefer exclude m none) bad (best_loop-Best m))
  ]
    where
      best-of_first :
          (m : Registry) (id : Str) (reg c : Registration)
          → candidate reg ≡ true
          → IsNext m reg c
          → IsBest ((id, reg) ∷ m) c
      best-of_first m id reg c good next = elim (shift_new {id = id} {b = reg} good next.from) [
        | inl e ↦ record {
          key = id;
          there = Memᴰ.head (ap (λ x. (id, x)) e);
          fits = ap candidate e ∙ good;
          unbeaten = unbeaten-cons m id reg c (λ _. next.kept) next.rest;
        }
        | inr (k, mem, fits) ↦ record {
          key = k;
          there = mem;
          fits = fits;
          unbeaten = unbeaten-cons m id reg c (λ _. next.kept) next.rest;
        }
      ]

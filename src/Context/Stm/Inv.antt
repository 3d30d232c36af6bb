-- ===== src/Context/Stm/Inv.antt =====
-- What holds of the fields between calls, and the nodes that they hold, the oldest first.
use domour.Common.{
  ℕ, ◌+◌, ◌-◌, ◌≤◌, ◌<◌, ◌≡◌, refl, arith, inl, inr, List, ltb, if◌then◌else◌, Bool-cases, length,
  length-set, length-replicate, none, Option,
}
use domour.Common.Ring.{wrap, next-wrap, window, length-window, window-store, drop-window, wrap-lt}
use domour.Context.Stm.{Config, Buffer, new, set_capacity, append}
use domour.Context.Stm.Spec.{enqueue}

pub record Inv {A : Type 0} (b : Buffer A) : Type 0 where
  pub cells : b.config.capacity ≤ length b.nodes
  pub positive : 0 < b.config.capacity
  pub fits : b.size ≤ b.config.capacity
  pub offset_lt : b.offset < b.config.capacity
  pub filling : b.size < b.config.capacity → b.offset ≡ b.size

module _ {A : Type 0} where
  -- the place of the oldest node
  abbrev pub oldest : Buffer A → ℕ
  oldest b = if ltb b.size b.config.capacity then 0 else b.offset

  abbrev pub contents : Buffer A → List (Option A)
  contents b = window none b.config.capacity b.nodes (oldest b) b.size

  pub new-Inv :
      (cfg : Config) (n : ℕ) → 0 < n → n ≤ cfg.capacity → Inv (set_capacity (new {A = A} cfg) n)
  unfolding new set_capacity
  new-Inv cfg n pos le = record {
    cells = omega (arith, length-replicate {A = Option A} cfg.capacity none);
    positive = pos;
    fits = omega arith;
    offset_lt = pos;
    filling = λ p. refl;
  }

  pub append-Inv : (b : Buffer A) (x : Option A) → Inv b → Inv (append b x)
  unfolding append
  append-Inv b x inv =
      let next = next-wrap b.config.capacity b.offset inv.offset_lt in
      record {
        cells = ground (arith, length-set b.nodes b.offset x, inv.cells);
        positive = inv.positive;
        fits = ground (arith, inv.fits);
        offset_lt = ground (arith, next, inv.offset_lt);
        filling = λ p. ground (arith, next, inv.offset_lt, inv.filling, inv.fits);
      }

  pub append-contents :
      (b : Buffer A) (x : Option A)
      → Inv b
      → contents (append b x) ≡ enqueue b.config.capacity (contents b) x
  unfolding append
  append-contents b x inv =
      let cap = b.config.capacity in
      let next = next-wrap cap b.offset inv.offset_lt in
      elim (Bool-cases (ltb b.size cap)) [
        | inl room ↦
            rw (room, append)
              (ground (
                arith,
                next,
                inv.filling,
                length-window none cap b.nodes 0 b.size,
                window-store none cap b.nodes 0 b.size x inv.positive (ground arith) inv.cells,
              ))
        | inr full ↦
            rw (full, append)
              (ground (
                arith,
                next,
                inv.offset_lt,
                inv.fits,
                wrap-lt cap b.offset inv.offset_lt,
                length-window none cap b.nodes b.offset b.size,
                drop-window none cap b.nodes b.offset b.size (ground (arith, inv.positive)),
                window-store none cap b.nodes (wrap cap (b.offset + 1)) (cap - 1) x
                    (wrap-lt cap b.offset inv.offset_lt) (omega (arith, inv.positive)) inv.cells,
              ))
      ]

-- ===== src/Brain/RingBuffer/Inv.antt =====
-- What holds of the fields between calls, and the queue that they hold.
use domour.Common.{
  ℕ, ◌+◌, ◌-◌, ◌≤◌, ◌<◌, ◌≡◌, refl, arith, inl, inr, List, ◌==◌, Bool-cases, length, length-set,
  length-replicate,
}
use domour.Common.Ring.{wrap, next-wrap, window, length-window, window-store, drop-window, wrap-lt}
use domour.Brain.RingBuffer.{Ring, new, push, pop}
use domour.Brain.RingBuffer.Queue.{enqueue}

pub record Inv {A : Type 0} (r : Ring A) : Type 0 where
  pub cells : length r.signals ≡ r.capacity
  pub fits : r.size ≤ r.capacity
  pub head_lt : 0 < r.capacity → r.head < r.capacity
  pub tail_at : 0 < r.capacity → r.tail ≡ wrap r.capacity (r.head + r.size)

module _ {A : Type 0} (blank : A) where
  abbrev pub contents : Ring A → List A
  contents r = window blank r.capacity r.signals r.head r.size

  pub new-Inv : (n : ℕ) → Inv (new blank n)
  unfolding new
  new-Inv n = record {
    cells = length-replicate n blank;
    fits = omega arith;
    head_lt = λ p. p;
    tail_at = λ p. ground arith;
  }

  tail-lt : (r : Ring A) → Inv r → 0 < r.capacity → r.tail < r.capacity
  tail-lt r inv p = ground (arith, inv.tail_at p, inv.head_lt p, inv.fits)

  pub push-Inv : (r : Ring A) (x : A) → Inv r → Inv (push blank r x)
  unfolding push
  push-Inv r x inv = elim (Bool-cases (r.capacity == 0)) [
    | inl none_fits ↦ rw (none_fits, push) inv
    | inr some_fits ↦
        let p : 0 < r.capacity = ground arith in
        let next_head = next-wrap r.capacity r.head (inv.head_lt p) in
        let next_tail = next-wrap r.capacity r.tail (tail-lt r inv p) in
        record {
          cells = ground (arith, length-set r.signals r.tail x, inv.cells);
          fits = ground (arith, inv.fits);
          head_lt = λ q. ground (arith, inv.head_lt p, next_head);
          tail_at =
              λ q. ground (arith, inv.head_lt p, next_head, next_tail, inv.tail_at p, inv.fits);
        }
  ]

  pub push-contents :
      (r : Ring A) (x : A) → Inv r → contents (push blank r x) ≡ enqueue r.capacity (contents r) x
  unfolding push
  push-contents r x inv = elim (Bool-cases (r.capacity == 0)) [
    | inl none_fits ↦ rw (none_fits, push) refl
    | inr some_fits ↦
        let p : 0 < r.capacity = ground arith in
        let next_head = next-wrap r.capacity r.head (inv.head_lt p) in
        elim (Bool-cases (r.size == r.capacity)) [
          | inl full ↦
              rw (some_fits, full, push)
                (ground (
                  arith,
                  inv.tail_at p,
                  inv.head_lt p,
                  next_head,
                  wrap-lt r.capacity r.head (inv.head_lt p),
                  length-window blank r.capacity r.signals r.head r.size,
                  drop-window blank r.capacity r.signals r.head r.size (ground arith),
                  window-store blank r.capacity r.signals (wrap r.capacity (r.head + 1))
                      (r.size - 1) x (wrap-lt r.capacity r.head (inv.head_lt p)) (ground arith)
                      (omega (arith, inv.cells)),
                ))
          | inr room ↦
              rw (some_fits, room, push)
                (ground (
                  arith,
                  inv.tail_at p,
                  length-window blank r.capacity r.signals r.head r.size,
                  window-store blank r.capacity r.signals r.head r.size x (inv.head_lt p)
                      (ground (arith, inv.fits)) (omega (arith, inv.cells)),
                ))
        ]
  ]

  pub pop-Inv : (r : Ring A) → Inv r → Inv (pop blank r).1
  unfolding pop
  pop-Inv r inv = elim (Bool-cases (r.size == 0)) [
    | inl is_empty ↦ rw (is_empty, pop) inv
    | inr filled ↦
        let p : 0 < r.capacity = ground (arith, inv.fits) in
        let next_head = next-wrap r.capacity r.head (inv.head_lt p) in
        record {
          cells = ground (arith, length-set r.signals r.head blank, inv.cells);
          fits = ground (arith, inv.fits);
          head_lt = λ q. ground (arith, inv.head_lt p, next_head);
          tail_at = λ q. ground (arith, inv.head_lt p, next_head, inv.tail_at p, inv.fits);
        }
  ]

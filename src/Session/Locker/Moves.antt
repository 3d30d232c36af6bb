-- ===== src/Session/Locker/Moves.antt =====
-- Each step keeps the invariant.
use domour.Common.{
  ℕ, ◌-◌, ◌≤◌, ◌<◌, ◌≡◌, ◌≢◌, refl, sym, ap, inl, inr, true, false, Option, none, some, ◌==◌,
  if◌then◌else◌, arith, Option-cases, dec_lt,
}
use domour.Common.Text.{Str, equal_iff}
use domour.Session.Locker.{
  Pc, idle, waiting, holding, State, new, enter, obtain, acquire, cancel, unlock, put, put_key,
}
use domour.Session.Locker.Total.{total, total-put, le-total, total-zero, total_mono, two-le-total}
use domour.Session.Locker.Invariant.{Inv, points, holds, place}

pub Inv-new : (n : ℕ) → Inv n new
unfolding new
Inv-new n = record {
  counted = λ a. sym (total-zero (points a) n (λ i. idle) (λ i. refl));
  one = λ k a e. absurd (cc);
  used = λ k a e. absurd (cc);
  old = λ k a e. absurd (cc);
  only = λ k j a e f. absurd (cc);
  placed = λ i k a e. absurd (cc);
  fresh = λ a h. refl;
  outside = λ i h. refl;
}

points-place : (p : Pc) (k : Str) (a : ℕ) → place p ≡ some (k, a) → points a p ≡ 1
points-place idle k a e = absurd (cc)
points-place (waiting j b) k a e = ground arith
points-place (holding j b) k a e = ground arith

holds-le-points : (a n : ℕ) (f : ℕ → Pc) → total (holds a) n f ≤ total (points a) n f
holds-le-points a n f = total_mono (holds a) (points a) (holds-le a) n f
  where
    holds-le : (b : ℕ) (p : Pc) → holds b p ≤ points b p
    holds-le b idle = omega arith
    holds-le b (waiting j c) = omega arith
    holds-le b (holding j c) = omega arith

pub inside :
    (n : ℕ) (s : State) → Inv n s → (x : ℕ) (k : Str) (a : ℕ) → place (s.pc x) ≡ some (k, a) → x < n
inside n s inv x k a e = elim (dec_lt x n) [
  | yes h ↦ h
  | no h ↦ absurd (ground (arith, inv.outside x (omega arith)))
]

module _ (n : ℕ) (s : State) (inv : Inv n s) (i : ℕ) (k : Str) (a : ℕ) (hi : i < n) where
  pub acquire-Inv : s.pc i ≡ waiting k a → s.sem a ≡ true → Inv n (acquire i k a s)
  unfolding acquire
  acquire-Inv at free = record {
    counted = λ b. ground (arith, inv.counted b, total-put (points b) n i (holding k a) s.pc hi);
    one = λ j b e. ground (arith, inv.one j b e, total-put (holds b) n i (holding k a) s.pc hi);
    used = inv.used;
    old = inv.old;
    only = inv.only;
    placed = λ x j b e. ground (arith, inv.placed x j b, inv.placed i k a);
    fresh = inv.fresh;
    outside = λ x h. ground (arith, inv.outside x h);
  }

  -- The other goroutines, where the last user of an object leaves.
  alone :
      (x : ℕ) (j : Str) (b : ℕ)
      → place (s.pc i) ≡ some (k, a)
      → (s.ref a - 1 == 0) ≡ true
      → i ≢ x
      → place (s.pc x) ≡ some (j, b)
      → a ≢ b
  alone x j b at last ne px same = ground (
    arith,
    inv.counted a,
    points-place (s.pc i) k a at,
    points-place (s.pc x) j b px,
    two-le-total (points a) n i x idle s.pc hi (inside n s inv x j b px) ne refl,
  )

  module _ (at : place (s.pc i) ≡ some (k, a)) where
    abbrev left : ℕ
    left = s.ref a - 1

    abbrev locks' : Str → Option ℕ
    locks' = if left == 0 then put_key s.locks k none else s.locks

    leave-counted : (b : ℕ) → put s.ref a left b ≡ total (points b) n (put s.pc i idle)
    leave-counted b = ground (
      arith,
      inv.counted b,
      total-put (points b) n i idle s.pc hi,
      le-total (points b) n i s.pc hi,
    )

    -- What is still in the map was there, and is another object if the last user left.
    leave-entry : (j : Str) (b : ℕ) → locks' j ≡ some b → (s.locks j ≡ some b) × (left ≡ 0 → b ≢ a)
    leave-entry j b e = ground (arith, equal_iff k j, inv.placed i k a at, inv.only j k a)

    leave-used : (j : Str) (b : ℕ) → locks' j ≡ some b → 0 < put s.ref a left b
    leave-used j b e =
        let (was, other) = leave-entry j b e in
        ground (arith, inv.used j b was, inv.counted a, points-place (s.pc i) k a at)

    leave-placed :
        (x : ℕ) (j : Str) (b : ℕ) → place (put s.pc i idle x) ≡ some (j, b) → locks' j ≡ some b
    leave-placed x j b e =
        ground (arith, equal_iff k j, inv.placed i k a at, inv.placed x j b, alone x j b)

    leave-only : (j j' : Str) (b : ℕ) → locks' j ≡ some b → locks' j' ≡ some b → j ≡ j'
    leave-only j j' b e f = inv.only j j' b (leave-entry j b e).0 (leave-entry j' b f).0

    leave-fresh : (b : ℕ) → s.made ≤ b → put s.ref a left b ≡ 0
    leave-fresh b h = ground (arith, inv.fresh b h)

    leave-outside : (x : ℕ) → n ≤ x → put s.pc i idle x ≡ idle
    leave-outside x h = ground (arith, inv.outside x h)

  pub cancel-Inv : s.pc i ≡ waiting k a → Inv n (cancel i k a s)
  unfolding cancel
  cancel-Inv at =
      let p : place (s.pc i) ≡ some (k, a) = ap place at in
      record {
        counted = leave-counted p;
        one = λ j b e.
            let (was, other) = leave-entry p j b e in
            ground (arith, inv.one j b was, total-put (holds b) n i idle s.pc hi);
        used = leave-used p;
        old = λ j b e. inv.old j b (leave-entry p j b e).0;
        only = leave-only p;
        placed = leave-placed p;
        fresh = leave-fresh p;
        outside = leave-outside p;
      }

  -- The goroutine that unlocks has the token: the place for it is free.
  pub sem-of-holder : s.pc i ≡ holding k a → s.sem a ≡ false
  sem-of-holder at =
      ground (arith, inv.one k a (inv.placed i k a (ap place at)), le-total (holds a) n i s.pc hi)

  pub unlock-Inv : s.pc i ≡ holding k a → Inv n (unlock i k a s)
  unfolding unlock
  unlock-Inv at =
      let p : place (s.pc i) ≡ some (k, a) = ap place at in
      record {
        counted = leave-counted p;
        one = λ j b e.
            let (was, other) = leave-entry p j b e in
            ground (
              arith,
              inv.one j b was,
              sem-of-holder at,
              total-put (holds b) n i idle s.pc hi,
              le-total (holds b) n i s.pc hi,
            );
        used = leave-used p;
        old = λ j b e. inv.old j b (leave-entry p j b e).0;
        only = leave-only p;
        placed = leave-placed p;
        fresh = leave-fresh p;
        outside = leave-outside p;
      }

module _ (n : ℕ) (s : State) (inv : Inv n s) (i : ℕ) (k : Str) (hi : i < n)
    (at : s.pc i ≡ idle) where
  enter_known : (a : ℕ) → s.locks k ≡ some a → Inv n (enter i k s)
  unfolding enter
  enter_known a known =
      rw (known, enter, obtain)
        (record {
          counted =
              λ b. ground (arith, inv.counted b, total-put (points b) n i (waiting k a) s.pc hi);
          one =
              λ j b e. ground (arith, inv.one j b e, total-put (holds b) n i (waiting k a) s.pc hi);
          used = λ j b e. ground (arith, inv.used j b e);
          old = inv.old;
          only = inv.only;
          placed = λ x j b e. ground (arith, inv.placed x j b);
          fresh = λ b h. ground (arith, inv.fresh b h, inv.old k a known);
          outside = λ x h. ground (arith, inv.outside x h);
        })

  holds-fresh : total (holds s.made) n s.pc ≡ 0
  holds-fresh = ground (arith, inv.counted s.made, inv.fresh s.made, holds-le-points s.made n s.pc)

  enter_new : s.locks k ≡ none → Inv n (enter i k s)
  unfolding enter
  enter_new unknown =
      rw (unknown, enter, obtain)
        (record {
          counted = λ b. ground (
            arith,
            inv.counted b,
            inv.fresh b,
            total-put (points b) n i (waiting k s.made) s.pc hi,
          );
          one = λ j b e. ground (
            arith,
            equal_iff k j,
            inv.one j b,
            inv.old j b,
            holds-fresh,
            total-put (holds b) n i (waiting k s.made) s.pc hi,
          );
          used = λ j b e. ground (arith, equal_iff k j, inv.used j b, inv.old j b);
          old = λ j b e. ground (arith, equal_iff k j, inv.old j b);
          only = λ j j' b e f.
              ground
                (arith, equal_iff k j, equal_iff k j', inv.only j j' b, inv.old j b, inv.old j' b);
          placed = λ x j b e. ground (arith, equal_iff k j, inv.placed x j b);
          fresh = λ b h. ground (arith, inv.fresh b);
          outside = λ x h. ground (arith, inv.outside x h);
        })

  pub enter-Inv : Inv n (enter i k s)
  enter-Inv = elim (Option-cases (s.locks k)) [
    | inl unknown ↦ enter_new unknown
    | inr (a, known) ↦ enter_known a known
  ]

-- ===== src/Session/Locker/Safety.antt =====
-- What callers may rely on, in any interleaving of any number of goroutines.
use domour.Common.{
  ℕ, ◌<◌, ◌≡◌, ◌↔◌, refl, ap, subst, ◌⊎◌, inl, inr, true, false, some, arith, Bool-cases,
  ℕ_discrete,
}
use domour.Common.Text.{Str}
use domour.Session.Locker.{
  Pc, idle, waiting, holding, State, Step, enters, acquires, cancels, unlocks, Reach, start, later,
}
use domour.Session.Locker.Total.{two-le-total, total-pos}
use domour.Session.Locker.Invariant.{Inv, points, holds, place}
use domour.Session.Locker.Moves.{
  Inv-new, enter-Inv, acquire-Inv, cancel-Inv, unlock-Inv, sem-of-holder, inside,
}

holds-pos : (p : Pc) (a : ℕ) → 0 < holds a p → (k : Str) × (p ≡ holding k a)
holds-pos idle a h = absurd (omega arith)
holds-pos (waiting k b) a h = absurd (omega arith)
holds-pos (holding k b) a h = (k, ground arith)

points-pos : (p : Pc) (a : ℕ) → 0 < points a p → (k : Str) × (place p ≡ some (k, a))
points-pos idle a h = absurd (omega arith)
points-pos (waiting k b) a h = (k, ground arith)
points-pos (holding k b) a h = (k, ground arith)

Step-Inv : {n : ℕ} {s t : State} → Step n s t → Inv n s → Inv n t
Step-Inv {n} {s} (enters i k hi at) inv = enter-Inv n s inv i k hi at
Step-Inv {n} {s} (acquires i k a hi at free) inv = acquire-Inv n s inv i k a hi at free
Step-Inv {n} {s} (cancels i k a hi at) inv = cancel-Inv n s inv i k a hi at
Step-Inv {n} {s} (unlocks i k a hi at room) inv = unlock-Inv n s inv i k a hi at

Reach-Inv : {n : ℕ} {s : State} → Reach n s → Inv n s
Reach-Inv {n} start = Inv-new n
Reach-Inv (later r st) = Step-Inv st (Reach-Inv r)

module _ {n : ℕ} {s : State} (r : Reach n s) where
  -- In every reachable state at most one goroutine holds the lock of a session.
  pub mutual_exclusion :
      (i j : ℕ) (k : Str) (a b : ℕ) → s.pc i ≡ holding k a → s.pc j ≡ holding k b → i ≡ j
  mutual_exclusion i j k a b hi hj = elim (ℕ_discrete i j) [
    | yes e ↦ e
    | no ne ↦
        let inv = Reach-Inv r in
        absurd (
          ground (
            arith,
            inv.placed i k a (ap place hi),
            inv.placed j k b (ap place hj),
            inv.one k a,
            two-le-total (holds a) n i j idle s.pc (inside n s inv i k a (ap place hi))
                (inside n s inv j k b (ap place hj)) ne refl,
          ))
  ]

  -- In every reachable state the place in the semaphore is free when its holder unlocks, so the
  -- send under `l.mu` does not block.
  pub unlock-never_blocks : (i : ℕ) (k : Str) (a : ℕ) → s.pc i ≡ holding k a → s.sem a ≡ false
  unlock-never_blocks i k a h =
      let inv = Reach-Inv r in sem-of-holder n s inv i k a (inside n s inv i k a (ap place h)) h

  -- No wake-up is lost: in every reachable state, while a goroutine waits for a session, the token
  -- is there for it to take or some goroutine holds that session's lock.
  pub no_lost_wakeup :
      (i : ℕ) (k : Str) (a : ℕ)
      → s.pc i ≡ waiting k a
      → (s.sem a ≡ true) ⊎ ((j : ℕ) × (s.pc j ≡ holding k a))
  no_lost_wakeup i k a h = elim (Bool-cases (s.sem a)) [
    | inl there ↦ inl there
    | inr taken ↦
        let inv = Reach-Inv r in
        let entry = inv.placed i k a (ap place h) in
        let (j, hj, pos) = total-pos (holds a) n s.pc (ground (arith, inv.one k a entry)) in
        let (x, at) = holds-pos (s.pc j) a pos in
        inr (
          j,
          subst (λ y. s.pc j ≡ holding y a) (inv.only x k a (inv.placed j x a (ap place at)) entry)
              at,
        )
  ]

  -- In every reachable state the map has an entry for a session exactly if some goroutine waits
  -- for it or holds it, and that goroutine uses the entry's object: unused entries are gone.
  pub entry-iff-used :
      (k : Str) (a : ℕ) → (s.locks k ≡ some a) ↔ ((i : ℕ) × (place (s.pc i) ≡ some (k, a)))
  entry-iff-used k a = (user, λ (i, at). inv.placed i k a at)
    where
      inv : Inv n s
      inv = Reach-Inv r

      user : s.locks k ≡ some a → (i : ℕ) × (place (s.pc i) ≡ some (k, a))
      user e =
          let (i, hi, pos) =
            total-pos (points a) n s.pc (omega (arith, inv.used k a e, inv.counted a)) in
          let (j, at) = points-pos (s.pc i) a pos in
          (i, subst (λ x. place (s.pc i) ≡ some (x, a)) (inv.only j k a (inv.placed i j a at) e) at)

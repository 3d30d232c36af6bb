-- ===== src/Session/Locker/Invariant.antt =====
-- What holds in every reachable state of the locker.
use domour.Common.{
  ℕ, ◌+◌, ◌≤◌, ◌<◌, ◌≡◌, Bool, true, false, Option, none, some, ◌==◌, if◌then◌else◌,
}
use domour.Common.Text.{Str}
use domour.Session.Locker.{Pc, idle, waiting, holding, State}
use domour.Session.Locker.Total.{total}

-- whether a goroutine points to object `a`, and whether it has the token of `a`
abbrev pub points : ℕ → Pc → ℕ
points a idle = 0
points a (waiting k b) = if b == a then 1 else 0
points a (holding k b) = if b == a then 1 else 0

abbrev pub holds : ℕ → Pc → ℕ
holds a idle = 0
holds a (waiting k b) = 0
holds a (holding k b) = if b == a then 1 else 0

abbrev pub place : Pc → Option (Str × ℕ)
place idle = none
place (waiting k a) = some (k, a)
place (holding k a) = some (k, a)

abbrev pub bit : Bool → ℕ
bit true = 1
bit false = 0

pub record Inv (n : ℕ) (s : State) : Type 0 where
  -- `ref` counts the goroutines that point to the object.
  pub counted : (a : ℕ) → s.ref a ≡ total (points a) n s.pc
  -- An object in the map has its token in the semaphore, or one goroutine has it.
  pub one : (k : Str) (a : ℕ) → s.locks k ≡ some a → total (holds a) n s.pc + bit (s.sem a) ≡ 1
  -- Nothing in the map is unused.
  pub used : (k : Str) (a : ℕ) → s.locks k ≡ some a → 0 < s.ref a
  pub old : (k : Str) (a : ℕ) → s.locks k ≡ some a → a < s.made
  pub only : (k j : Str) (a : ℕ) → s.locks k ≡ some a → s.locks j ≡ some a → k ≡ j
  -- What a goroutine points to is in the map, under its session.
  pub placed : (i : ℕ) (k : Str) (a : ℕ) → place (s.pc i) ≡ some (k, a) → s.locks k ≡ some a
  pub fresh : (a : ℕ) → s.made ≤ a → s.ref a ≡ 0
  pub outside : (i : ℕ) → n ≤ i → s.pc i ≡ idle

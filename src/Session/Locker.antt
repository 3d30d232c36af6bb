-- ===== src/Session/Locker.antt =====
-- ark/session/lock.go, `LocalLocker`: goroutines are numbers; a step is one goroutine's passage
-- through a section under `l.mu`, or its receive from a semaphore. The heap of `lockRef` objects is
-- explicit, since an entry of the map may be deleted while goroutines still point to the object.
mod Total
mod Invariant
mod Moves
pub mod Safety
mod Tests
use domour.Common.{
  ℕ, zero, suc, ◌+◌, ◌-◌, ◌<◌, ◌≡◌, Bool, true, false, Option, none, some, ◌==◌, if◌then◌else◌,
}
use domour.Common.Text.{Str, equal}

-- Where a goroutine is: outside, in the `select` of `Lock`, or in possession of `unlock`.
pub data Pc : Type 0 where
  idle : Pc
  waiting : Str → ℕ → Pc
  holding : Str → ℕ → Pc

-- `locks`, the objects' fields `ref` and `sem` (whether its one place holds the token), the number
-- of objects made so far, and the goroutines.
pub record State : Type 0 where
  pub locks : Str → Option ℕ
  pub ref : ℕ → ℕ
  pub sem : ℕ → Bool
  pub made : ℕ
  pub pc : ℕ → Pc

abbrev pub put {ℓ} : {A : Type ℓ} → (ℕ → A) → ℕ → A → ℕ → A
put f i v j = if i == j then v else f j

abbrev pub put_key {ℓ} : {A : Type ℓ} → (Str → A) → Str → A → Str → A
put_key f k v j = if equal k j then v else f j

-- NewLocalLocker
unfoldable pub new : State
new = record { locks = λ k. none; ref = λ a. 0; sem = λ a. false; made = 0; pc = λ i. idle }

-- The object of a session: the one in the map, or a new one whose semaphore holds the token.
unfoldable pub obtain : Str → State → ℕ × State
obtain k s = elim (s.locks k) [
  | some a ↦ (a, s)
  | none ↦ (
    s.made,
    record s {
      locks = put_key s.locks k (some s.made);
      ref = put s.ref s.made 0;
      sem = put s.sem s.made true;
      made = s.made + 1;
    },
  )
]

-- Lock, up to its `select`.
unfoldable pub enter : ℕ → Str → State → State
unfolding obtain
enter i k s =
    let (a, s') = obtain k s in
    record s' { ref = put s'.ref a (s'.ref a + 1); pc = put s'.pc i (waiting k a) }

-- `case <-ref.sem`
unfoldable pub acquire : ℕ → Str → ℕ → State → State
acquire i k a s = record s { sem = put s.sem a false; pc = put s.pc i (holding k a) }

-- `case <-ctx.Done()`
unfoldable pub cancel : ℕ → Str → ℕ → State → State
cancel i k a s =
    let left = s.ref a - 1 in
    record s {
      locks = if left == 0 then put_key s.locks k none else s.locks;
      ref = put s.ref a left;
      pc = put s.pc i idle;
    }

-- The function that `Lock` returns; `once` lets it run once for each `Lock`.
unfoldable pub unlock : ℕ → Str → ℕ → State → State
unlock i k a s =
    let left = s.ref a - 1 in
    record s {
      locks = if left == 0 then put_key s.locks k none else s.locks;
      ref = put s.ref a left;
      sem = if left == 0 then s.sem else put s.sem a true;
      pc = put s.pc i idle;
    }

-- `n` goroutines, in any interleaving. The receive waits for the token. The send in `unlock` would
-- wait while the place is taken.
pub data Step (n : ℕ) : State → State → Type 0 where
  enters : {s : State} (i : ℕ) (k : Str) → i < n → s.pc i ≡ idle → Step n s (enter i k s)
  acquires :
      {s : State} (i : ℕ) (k : Str) (a : ℕ)
      → i < n
      → s.pc i ≡ waiting k a
      → s.sem a ≡ true
      → Step n s (acquire i k a s)
  cancels :
      {s : State} (i : ℕ) (k : Str) (a : ℕ)
      → i < n
      → s.pc i ≡ waiting k a
      → Step n s (cancel i k a s)
  unlocks :
      {s : State} (i : ℕ) (k : Str) (a : ℕ)
      → i < n
      → s.pc i ≡ holding k a
      → ((s.ref a - 1 == 0) ≡ false → s.sem a ≡ false)
      → Step n s (unlock i k a s)

pub data Reach (n : ℕ) : State → Type 0 where
  start : Reach n new
  later : {s t : State} → Reach n s → Step n s t → Reach n t

-- ===== src/Session/Locker/Tests.antt =====
-- A run of two goroutines on one session: the second waits while the first holds the lock.
use domour.Common.{ℕ, ◌≡◌, ◌↔◌, ◌⊎◌, refl, true, false, some, arith}
use domour.Common.Text.{Str, codes, equal}
use domour.Session.Locker.{
  holding, State, new, enter, acquire, unlock, enters, acquires, Reach, start, later,
}
use domour.Session.Locker.Invariant.{place}
use domour.Session.Locker.Safety.{
  mutual_exclusion, unlock-never_blocks, no_lost_wakeup, entry-iff-used,
}

abbrev chat : Str
chat = codes "chat"

-- goroutine 0 holds the lock, goroutine 1 waits
abbrev contended : State
contended = enter 1 chat (acquire 0 chat 0 (enter 0 chat new))

contended-Reach : Reach 2 contended
unfolding enter acquire new equal
contended-Reach =
    later
      (later (later start (enters 0 chat (omega arith) refl))
        (acquires 0 chat 0 (omega arith) refl refl))
      (enters 1 chat (omega arith) refl)

-- after the unlock goroutine 1 may take the token
released : (unlock 0 chat 0 contended).sem 0 ≡ true
unfolding unlock enter acquire new equal
released = refl

mutual_exclusion_example : ◌≡◌ {A = ℕ} 0 0
unfolding enter acquire new equal
mutual_exclusion_example = mutual_exclusion contended-Reach 0 0 chat 0 0 refl refl

unlock-never_blocks_example : contended.sem 0 ≡ false
unfolding enter acquire new equal
unlock-never_blocks_example = unlock-never_blocks contended-Reach 0 chat 0 refl

no_lost_wakeup_example : (contended.sem 0 ≡ true) ⊎ ((j : ℕ) × (contended.pc j ≡ holding chat 0))
unfolding enter acquire new equal
no_lost_wakeup_example = no_lost_wakeup contended-Reach 1 chat 0 refl

entry-iff-used_example :
    (contended.locks chat ≡ some 0) ↔ ((i : ℕ) × (place (contended.pc i) ≡ some (chat, 0)))
entry-iff-used_example = entry-iff-used contended-Reach chat 0

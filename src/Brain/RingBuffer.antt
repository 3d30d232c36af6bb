-- ===== src/Brain/RingBuffer.antt =====
-- internal/brain/ringbuffer.go: a ring buffer of signals that drops the oldest when it is full, and
-- the same service on a channel. A method is one step, since each holds the mutex. The type of
-- signals is a parameter, with its zero value; a capacity below 0 makes `make` panic.
mod Queue
mod Inv
pub mod Refine
mod Tests
use domour.Common.{
  ℕ, ◌+◌, ◌-◌, ◌%◌, Option, none, some, List, [], ◌∷◌, ◌++◌, ltb, ◌==◌, if◌then◌else◌, length,
  get_or, set, drop, replicate,
}

pub record Ring (A : Type 0) : Type 0 where
  pub signals : List A
  pub capacity : ℕ
  pub head : ℕ
  pub tail : ℕ
  pub size : ℕ

pub data Op (A : Type 0) : Type 0 where
  push_op : A → Op A
  pop_op size_op : Op A

-- What a call returns.
pub data Answer (A : Type 0) : Type 0 where
  done : Answer A
  popped : Option A → Answer A
  count : ℕ → Answer A

module _ {A : Type 0} (blank : A) where
  -- NewSensorySignalRingBuffer
  unfoldable pub new : ℕ → Ring A
  new capacity = record {
    signals = replicate capacity blank;
    capacity = capacity;
    head = 0;
    tail = 0;
    size = 0;
  }

  -- Push
  unfoldable pub push : Ring A → A → Ring A
  push r sig =
      if r.capacity == 0
      then r
      else let full = r.size == r.capacity in
        let head = if full then (r.head + 1) % r.capacity else r.head in
        let size = if full then r.size - 1 else r.size in
        record r {
          signals = set r.signals r.tail sig;
          head = head;
          tail = (r.tail + 1) % r.capacity;
          size = size + 1;
        }

  -- Pop
  unfoldable pub pop : Ring A → Option A × Ring A
  pop r = if r.size == 0 then (none, r) else (
    some (get_or r.signals r.head blank),
    record r {
      signals = set r.signals r.head blank;
      head = (r.head + 1) % r.capacity;
      size = r.size - 1;
    },
  )

  unfoldable pub call : Ring A → Op A → Answer A × Ring A
  call r (push_op sig) = (done, push r sig)
  call r pop_op = let (sig, r') = pop r in (popped sig, r')
  call r size_op = (count r.size, r)

  unfoldable pub run : Ring A → List (Op A) → List (Answer A)
  run r [] = []
  run r (op ∷ ops) = let (answer, r') = call r op in answer ∷ run r' ops

-- EvictAndPushChannel on a channel of capacity `cap` that holds `ch`, with no other goroutine at
-- it: a send succeeds if there is room.
unfoldable pub try_send : {A : Type 0} → ℕ → List A → A → Option (List A)
try_send cap ch sig = if ltb (length ch) cap then some (ch ++ (sig ∷ [])) else none

unfoldable pub evict_and_push_channel : {A : Type 0} → ℕ → List A → A → List A
unfolding try_send
evict_and_push_channel cap ch sig = elim (try_send cap ch sig) [
  | some sent ↦ sent
  | none ↦ let rest = drop 1 ch in elim (try_send cap rest sig) [ some sent ↦ sent | none ↦ rest ]
]

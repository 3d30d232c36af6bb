-- ===== src/Brain/RingBuffer/Queue.antt =====
-- What the buffer promises: a queue that drops its oldest signal when it is full.
use domour.Common.{ℕ, none, some, List, [], ◌∷◌, ◌++◌, ltb, ◌==◌, if◌then◌else◌, length, drop}
use domour.Brain.RingBuffer.{Op, push_op, pop_op, size_op, Answer, done, popped, count}

module _ {A : Type 0} (capacity : ℕ) where
  abbrev pub enqueue : List A → A → List A
  enqueue q sig =
      if capacity == 0
      then q
      else if ltb (length q) capacity
      then q ++ (sig ∷ [])
      else drop 1 q ++ (sig ∷ [])

  abbrev pub serve : List A → Op A → Answer A × List A
  serve q (push_op sig) = (done, enqueue q sig)
  serve [] pop_op = (popped none, [])
  serve (sig ∷ q) pop_op = (popped (some sig), q)
  serve q size_op = (count (length q), q)

  abbrev pub serve_all : List A → List (Op A) → List (Answer A)
  serve_all q [] = []
  serve_all q (op ∷ ops) = let (answer, q') = serve q op in answer ∷ serve_all q' ops

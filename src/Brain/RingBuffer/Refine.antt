-- ===== src/Brain/RingBuffer/Refine.antt =====
-- The ring buffer answers as the queue does, and so does the channel.
use domour.Common.{
  ℕ, zero, suc, ◌+◌, ◌-◌, ◌≤◌, ◌<◌, ◌≡◌, refl, ap, ap₂, sym, ◌∙◌, arith, inl, inr, List, [], ◌∷◌,
  ◌==◌, Bool-cases, length, get_or, set, length-drop, some, none, Option,
}
use domour.Common.Ring.{wrap, next-wrap, window, length-window, window-set, wrap-lt}
use domour.Brain.RingBuffer.{
  Ring, Op, push_op, pop_op, size_op, done, popped, count, new, push, pop, call, run, try_send,
  evict_and_push_channel,
}
use domour.Brain.RingBuffer.Queue.{enqueue, serve, serve_all}
use domour.Brain.RingBuffer.Inv.{Inv, contents, new-Inv, push-Inv, push-contents, pop-Inv}

-- A queue that is `[]` or not, as `serve` tells them apart, by its length.
abbrev dequeue : {A : Type 0} → List A → Option A × List A
dequeue [] = (none, [])
dequeue (x ∷ q) = (some x, q)

module _ {A : Type 0} (blank : A) where
  -- A window after its first place is blanked and left.
  window-blanked :
      (cap : ℕ) (cells : List A) (h n : ℕ)
      → h < cap
      → 0 < n
      → n ≤ cap
      → window blank cap (set cells h blank) (wrap cap (h + 1)) (n - 1)
        ≡ window blank cap cells (wrap cap (h + 1)) (n - 1)
  window-blanked cap cells h n below pos room =
      ap (λ x. window blank cap (set cells x blank) (wrap cap (h + 1)) (n - 1)) (ground arith)
      ∙ window-set blank cap cells (wrap cap (h + 1)) (n - 1) (cap - 1) blank (wrap-lt cap h below)
          (omega arith) (omega arith)

  dequeue-nil :
      (cap : ℕ) (cells : List A) (h n : ℕ)
      → n ≡ 0
      → (none, window blank cap cells h n) ≡ dequeue (window blank cap cells h n)
  dequeue-nil cap cells h zero e = refl
  dequeue-nil cap cells h (suc n) e = absurd (omega arith)

  dequeue-window :
      (cap : ℕ) (cells : List A) (h n : ℕ)
      → 0 < n
      → dequeue (window blank cap cells h n)
        ≡ (some (get_or cells h blank), window blank cap cells (wrap cap (h + 1)) (n - 1))
  dequeue-window cap cells h zero p = absurd (omega arith)
  dequeue-window cap cells h (suc n) p =
      ap (λ k. (some (get_or cells h blank), window blank cap cells (wrap cap (h + 1)) k))
        (omega arith)

  pop-dequeue :
      (r : Ring A)
      → Inv r
      → ((pop blank r).0, contents blank (pop blank r).1) ≡ dequeue (contents blank r)
  unfolding pop
  pop-dequeue r inv = elim (Bool-cases (r.size == 0)) [
    | inl is_empty ↦
        rw (is_empty, pop) (dequeue-nil r.capacity r.signals r.head r.size (ground arith))
    | inr filled ↦
        let p : 0 < r.capacity = ground (arith, inv.fits) in
        rw (filled, pop)
          (ap
              (λ h. (
                some (get_or r.signals r.head blank),
                window blank r.capacity (set r.signals r.head blank) h (r.size - 1),
              ))
              (next-wrap r.capacity r.head (inv.head_lt p))
            ∙ ap (λ q. (some (get_or r.signals r.head blank), q))
                (window-blanked r.capacity r.signals r.head r.size (inv.head_lt p) (ground arith)
                  inv.fits)
            ∙ sym (dequeue-window r.capacity r.signals r.head r.size (ground arith)))
  ]

  serve-pop : (cap : ℕ) (q : List A) → serve cap q pop_op ≡ (popped (dequeue q).0, (dequeue q).1)
  serve-pop cap [] = refl
  serve-pop cap (x ∷ q) = refl

  serve-size : (cap : ℕ) (q : List A) → serve cap q size_op ≡ (count (length q), q)
  serve-size cap [] = refl
  serve-size cap (x ∷ q) = refl

  capacity-call : (r : Ring A) (op : Op A) → (call blank r op).1.capacity ≡ r.capacity
  unfolding call push pop
  capacity-call r (push_op x) = ground arith
  capacity-call r pop_op = ground arith
  capacity-call r size_op = refl

  call-Inv : (r : Ring A) (op : Op A) → Inv r → Inv (call blank r op).1
  unfolding call
  call-Inv r (push_op x) inv = push-Inv blank r x inv
  call-Inv r pop_op inv = pop-Inv blank r inv
  call-Inv r size_op inv = inv

  call-serve :
      (r : Ring A) (op : Op A)
      → Inv r
      → ((call blank r op).0, contents blank (call blank r op).1)
        ≡ serve r.capacity (contents blank r) op
  unfolding call
  call-serve r (push_op x) inv = ap (λ q. (done, q)) (push-contents blank r x inv)
  call-serve r pop_op inv =
      ap (λ (x, q). (popped x, q)) (pop-dequeue r inv)
      ∙ sym (serve-pop r.capacity (contents blank r))
  call-serve r size_op inv =
      ap (λ n. (count n, contents blank r))
        (sym (length-window blank r.capacity r.signals r.head r.size))
      ∙ sym (serve-size r.capacity (contents blank r))

  run-serve :
      (r : Ring A) (ops : List (Op A))
      → Inv r
      → run blank r ops ≡ serve_all r.capacity (contents blank r) ops
  unfolding run
  run-serve r [] inv = refl
  run-serve r (op ∷ ops) inv =
      let r' = (call blank r op).1 in
      ap₂ (λ a rest. a ∷ rest) (ap (λ s. s.0) (call-serve r op inv))
        (run-serve r' ops (call-Inv r op inv)
          ∙ ap₂ (λ c q. serve_all c q ops) (capacity-call r op)
              (ap (λ s. s.1) (call-serve r op inv)))

  -- Whatever calls of Push, Pop and Size are made on a new buffer, each returns what the queue
  -- returns that holds at most `capacity` signals and drops its oldest for a new one.
  pub run-refines :
      (capacity : ℕ) (ops : List (Op A))
      → run blank (new blank capacity) ops ≡ serve_all capacity [] ops
  unfolding new
  run-refines capacity ops = run-serve (new blank capacity) ops (new-Inv blank capacity)

  channel-enqueue :
      (cap : ℕ) (q : List A) (x : A)
      → 0 < cap
      → length q ≤ cap
      → evict_and_push_channel cap q x ≡ enqueue cap q x
  unfolding evict_and_push_channel try_send
  channel-enqueue cap q x pos fits = ground (arith, length-drop 1 q)

  -- On a buffered channel that nobody else uses EvictAndPushChannel does to the signals in the
  -- channel what Push does to those in a ring buffer of the same capacity.
  pub evict_and_push_channel-push :
      (r : Ring A) (x : A)
      → Inv r
      → 0 < r.capacity
      → evict_and_push_channel r.capacity (contents blank r) x ≡ contents blank (push blank r x)
  unfolding evict_and_push_channel try_send
  evict_and_push_channel-push r x inv pos =
      channel-enqueue r.capacity (contents blank r) x pos
        (rw (length-window blank r.capacity r.signals r.head r.size) inv.fits)
      ∙ sym (push-contents blank r x inv)

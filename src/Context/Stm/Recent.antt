-- ===== src/Context/Stm/Recent.antt =====
-- A snapshot is the nodes that were appended last.
use domour.Common.{
  ℕ, zero, suc, ◌+◌, ◌%◌, ◌≤◌, ◌<◌, ◌≡◌, refl, ap, ap₂, sym, ◌∙◌, arith, inl, inr, List, [], ◌∷◌,
  ◌++◌, append_assoc, append-nil, ltb, Bool, Bool-cases, Option-cases, true, get_or, none, Option,
}
use domour.Common.Ring.{wrap, next-mod, mod-below, window}
use domour.Context.Stm.{Config, Buffer, new, set_capacity, append, range_loop, range, snapshot}
use domour.Context.Stm.Spec.{enqueue_all, enqueue_all-recent, recent, values}
use domour.Context.Stm.Inv.{Inv, contents, new-Inv, append-Inv, append-contents}

module _ {A : Type 0} where
  -- a sequence of calls of Append
  abbrev pub append_all : Buffer A → List (Option A) → Buffer A
  append_all b [] = b
  append_all b (x ∷ xs) = append_all (append b x) xs

  abbrev collect : ℕ → A → List A → Bool × List A
  collect i node result = (true, result ++ (node ∷ []))

  range_loop-window :
      (capacity : ℕ) (nodes : List (Option A)) (place : ℕ → ℕ) (n i : ℕ) (acc : List A)
      → ((j : ℕ) → j < i + n → wrap capacity (place j + 1) ≡ place (j + 1))
      → range_loop collect nodes place n i acc
        ≡ acc ++ values (window none capacity nodes (place i) n)
  unfolding range_loop
  range_loop-window capacity nodes place zero i acc steps = sym (append-nil acc)
  range_loop-window capacity nodes place (suc n) i acc steps =
      let next = steps i (omega arith) in
      let later : (r : List A)
          → range_loop collect nodes place n (i + 1) r
            ≡ r ++ values (window none capacity nodes (place (i + 1)) n) =
        λ r. range_loop-window capacity nodes place n (i + 1) r (λ j h. steps j (omega arith)) in
      elim (Option-cases (get_or nodes (place i) none)) [
        | inl e ↦ rw (e, range_loop, next) (later acc)
        | inr (x, e) ↦
            rw (e, range_loop, next)
              (later (acc ++ (x ∷ []))
                ∙ append_assoc acc (x ∷ []) (values (window none capacity nodes (place (i + 1)) n)))
      ]

  pub snapshot-contents : (b : Buffer A) → Inv b → snapshot b ≡ values (contents b)
  unfolding snapshot range
  snapshot-contents b inv =
      let capacity = b.config.capacity in
      elim (Bool-cases (ltb b.size capacity)) [
        | inl room ↦
            rw (room, snapshot, range)
              (range_loop-window capacity b.nodes (λ i. i) b.size 0 [] (λ j h. ground arith))
        | inr full ↦
            rw (full, snapshot, range)
              (range_loop-window capacity b.nodes (λ i. (b.offset + i) % capacity) capacity 0 []
                  (λ j h.
                    next-mod capacity (b.offset + j) inv.positive
                    ∙ ap (λ k. k % capacity) (omega arith))
                ∙ ap₂ (λ h n. values (window none capacity b.nodes h n))
                    (mod-below capacity b.offset inv.offset_lt) (ground (arith, inv.fits)))
      ]

  pub append_all-contents :
      (b : Buffer A) (xs : List (Option A))
      → Inv b
      → Inv (append_all b xs)
        × (contents (append_all b xs) ≡ enqueue_all b.config.capacity (contents b) xs)
  unfolding append
  append_all-contents b [] inv = (inv, refl)
  append_all-contents b (x ∷ xs) inv =
      let (after, same) = append_all-contents (append b x) xs (append-Inv b x inv) in
      (after, same ∙ ap (λ q. enqueue_all b.config.capacity q xs) (append-contents b x inv))

  -- After any appends to a new buffer, the capacity of which may have been lowered first to some
  -- `n` above 0, a snapshot holds the last `n` of the nodes that were appended, in their order, and
  -- skips those that are nil.
  pub snapshot-recent :
      (cfg : Config) (n : ℕ) (xs : List (Option A))
      → 0 < n
      → n ≤ cfg.capacity
      → snapshot (append_all (set_capacity (new cfg) n) xs) ≡ values (recent n xs)
  unfolding new set_capacity
  snapshot-recent cfg n xs pos le =
      let b : Buffer A = set_capacity (new cfg) n in
      let (inv, same) = append_all-contents b xs (new-Inv cfg n pos le) in
      snapshot-contents (append_all b xs) inv
      ∙ ap values (same ∙ enqueue_all-recent n [] xs pos (omega arith))

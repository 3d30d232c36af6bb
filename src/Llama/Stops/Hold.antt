-- ===== src/Llama/Stops/Hold.antt =====
-- What `Process` keeps back: every place where a stop word may still be completed.
use mathlib.Core.List.{Memᴰ}
use domour.Common.{
  ℕ, zero, suc, ◌+◌, ◌-◌, ◌≤◌, ◌<◌, true, false, List, [], ◌∷◌, ◌++◌, ◌≡◌, ◌∙◌, arith, inl, inr,
  Bool-cases, none, length, take, drop, ap, subst, dec_lt, length-drop, drop-append_le,
}
use domour.Common.Text.{Str, has_prefix, has_suffix, index}
use domour.Common.Text.Match.{
  has_prefix-append-cases, has_prefix_symm, has_suffix-drop, index-eq-none,
}
use domour.Llama.Stops.{longest_prefix, max_prefix_len}

module _ (w buf : Str) where
  le-longest_prefix : (n l best : ℕ) → best ≤ longest_prefix n l w buf best
  unfolding longest_prefix
  le-longest_prefix zero l best = omega arith
  le-longest_prefix (suc n) l best =
      ground (arith, le-longest_prefix n (l + 1) l, le-longest_prefix n (l + 1) best)

  longest_prefix-le :
      (n l best : ℕ) → best ≤ length buf → longest_prefix n l w buf best ≤ length buf
  unfolding longest_prefix
  longest_prefix-le zero l best h = h
  longest_prefix-le (suc n) l best h =
      ground (arith, longest_prefix-le n (l + 1) l, longest_prefix-le n (l + 1) best)

  longest_prefix-hit :
      (n l best k : ℕ)
      → l ≤ k
      → k < l + n
      → k < length w
      → k ≤ length buf
      → has_suffix buf (take k w) ≡ true
      → k ≤ longest_prefix n l w buf best
  unfolding longest_prefix
  longest_prefix-hit zero l best k a b c d e = absurd (omega arith)
  longest_prefix-hit (suc n) l best k a b c d e = elim (dec_lt l k) [
    | yes later ↦
        ground (arith, longest_prefix-hit n (l + 1) l k, longest_prefix-hit n (l + 1) best k)
    | no now ↦
        let here : l ≡ k = omega arith in
        let e' : has_suffix buf (take l w) ≡ true = ap (λ j. has_suffix buf (take j w)) here ∙ e in
        ground (arith, le-longest_prefix n (l + 1) l, le-longest_prefix n (l + 1) best)
  ]

module _ (buf : Str) where
  le-max_prefix_len : (ws : List Str) (best : ℕ) → best ≤ max_prefix_len ws buf best
  unfolding max_prefix_len
  le-max_prefix_len [] best = omega arith
  le-max_prefix_len (w ∷ ws) best = omega (
    arith,
    le-longest_prefix w buf (length w) 1 best,
    le-max_prefix_len ws (longest_prefix (length w) 1 w buf best),
  )

  pub max_prefix_len-le :
      (ws : List Str) (best : ℕ) → best ≤ length buf → max_prefix_len ws buf best ≤ length buf
  unfolding max_prefix_len
  max_prefix_len-le [] best h = h
  max_prefix_len-le (w ∷ ws) best h =
      max_prefix_len-le ws _ (longest_prefix-le w buf (length w) 1 best h)

  max_prefix_len-hit :
      (w : Str) (ws : List Str) (best k : ℕ)
      → Memᴰ w ws
      → 1 ≤ k
      → k < length w
      → k ≤ length buf
      → has_suffix buf (take k w) ≡ true
      → k ≤ max_prefix_len ws buf best
  unfolding max_prefix_len
  max_prefix_len-hit w [] best k m a b c d = elim m [ ]
  max_prefix_len-hit w (v ∷ ws) best k (Memᴰ.head e) a b c d = omega (
    arith,
    longest_prefix-hit v buf (length v) 1 best k a (omega (arith, ap length e))
        (omega (arith, ap length e)) c (subst (λ x. has_suffix buf (take k x) ≡ true) e d),
    le-max_prefix_len ws (longest_prefix (length v) 1 v buf best),
  )
  max_prefix_len-hit w (v ∷ ws) best k (Memᴰ.tail m) a b c d = max_prefix_len-hit w ws _ k m a b c d

module _ (ws : List Str) (buf r : Str) where
  -- In front of what is kept, no text behind completes a stop word.
  pub not_completed :
      {w : Str} (d : ℕ)
      → Memᴰ w ws
      → index buf w ≡ none
      → d < length buf - max_prefix_len ws buf 0
      → has_prefix (drop d (buf ++ r)) w ≡ false
  not_completed {w} d m e h = elim (Bool-cases (has_prefix (drop d (buf ++ r)) w)) [
    | inl found ↦
        elim (has_prefix-append-cases (drop d buf) w r
          (rw (← drop-append_le d buf r (omega arith)) found)) [
            | inl whole ↦ absurd (cc (index-eq-none buf w d e (omega arith)))
            | inr begun ↦ elim (dec_lt (length buf - d) (length w)) [
              | yes partial ↦ absurd (
                  omega (
                    arith,
                    max_prefix_len-hit buf w ws 0 (length buf - d) m (omega arith) partial
                        (omega arith) (has_suffix-drop buf w d (omega arith) begun),
                  ))
              | no full ↦ absurd (
                  cc (
                    index-eq-none buf w d e (omega arith),
                    has_prefix_symm w (drop d buf) begun (omega (arith, length-drop d buf)),
                  ))
            ]
          ]
    | inr no_match ↦ no_match
  ]

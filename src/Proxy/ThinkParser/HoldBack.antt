-- ===== src/Proxy/ThinkParser/HoldBack.antt =====
-- `safeFlushEnd` keeps back every position at which a tag may still be completed.
use domour.Common.{
  ℕ, zero, suc, ◌+◌, ◌-◌, ◌≤◌, ◌<◌, true, false, none, ◌++◌, inl, inr, ◌≡◌, ◌∙◌, ap, arith,
  Bool-cases, if◌then◌else◌, dec_lt, length, take, drop, length-drop, drop-append_le,
}
use domour.Common.Text.{Str, has_prefix, has_suffix, index}
use domour.Common.Text.Match.{
  length-le_of_has_prefix, has_prefix-append-cases, has_suffix-drop, index-eq-none,
}
use domour.Proxy.ThinkParser.{min, max_match, safe_flush_end}

module _ (s tag : Str) where
  le-max_match : (n i best : ℕ) → best ≤ i → best ≤ max_match n i s tag best
  unfolding max_match
  le-max_match zero i best h = omega arith
  le-max_match (suc n) i best h = elim (Bool-cases (has_suffix s (take i tag))) [
    | inl hit ↦ rw hit (omega (arith, le-max_match n (i + 1) i))
    | inr miss ↦ rw miss (le-max_match n (i + 1) best (omega arith))
  ]

  max_match-hit :
      (n i best k : ℕ)
      → best ≤ i
      → i ≤ k
      → k < i + n
      → has_suffix s (take k tag) ≡ true
      → k ≤ max_match n i s tag best
  unfolding max_match
  max_match-hit zero i best k b l u hit = absurd (omega arith)
  max_match-hit (suc n) i best k b l u hit = elim (dec_lt i k) [
    | yes later ↦
        max_match-hit n (i + 1) (if has_suffix s (take i tag) then i else best) k (ground arith)
          (omega arith) (omega arith) hit
    | no now ↦
        let here : i ≡ k = omega arith in
        rw (ap (λ j. has_suffix s (take j tag)) here ∙ hit)
          (omega (arith, le-max_match n (i + 1) i))
  ]

  pub safe_flush_end-le : safe_flush_end s tag ≤ length s
  unfolding safe_flush_end
  safe_flush_end-le = omega arith

  -- Before the end of what is flushed no tag has begun.
  not_begun : (d : ℕ) → d < safe_flush_end s tag → has_prefix tag (drop d s) ≡ false
  unfolding safe_flush_end
  not_begun d h = elim (Bool-cases (has_prefix tag (drop d s))) [
    | inl begun ↦ absurd (
        omega (
          arith,
          length-drop d s,
          length-le_of_has_prefix tag (drop d s) begun,
          max_match-hit (min (length s) (length tag)) 1 0 (length s - d) (omega arith) (omega arith)
              (ground (arith, length-drop d s, length-le_of_has_prefix tag (drop d s) begun))
              (has_suffix-drop s tag d (omega arith) begun),
        ))
    | inr e ↦ e
  ]

  -- Nor can any text behind complete one there.
  pub not_completed :
      (r : Str) (d : ℕ)
      → index s tag ≡ none
      → d < safe_flush_end s tag
      → has_prefix (drop d (s ++ r)) tag ≡ false
  not_completed r d e h = elim (Bool-cases (has_prefix (drop d (s ++ r)) tag)) [
    | inl found ↦
        elim (has_prefix-append-cases (drop d s) tag r
          (rw (← drop-append_le d s r (omega (arith, safe_flush_end-le))) found)) [
            | inl whole ↦ absurd (cc (index-eq-none s tag d e (omega (arith, safe_flush_end-le))))
            | inr begun ↦ absurd (cc (not_begun d h))
          ]
    | inr e ↦ e
  ]

-- ===== src/Llama/Utf8/Runes.antt =====
-- ark/infra/llamacpp/chat.go: how many bytes Feed takes.
use domour.Common.{
  ℕ, zero, suc, ◌+◌, ◌≤◌, true, false, ◌≡◌, refl, ap, ap₂, sym, ◌∙◌, inl, inr, arith, List, [], ◌∷◌,
  ◌++◌, Bool-cases, length, length-drop, drop, drop-drop, drop-append_le,
}
use domour.Llama.Utf8.{decode_rune, is_cut, feed_loop}
use domour.Llama.Utf8.Decode.{decode_rune-bounds, decode_rune-append, is_cut-append}

-- the number of bytes before the first rune that is cut
abbrev pub whole_runes : List ℕ → ℕ
whole_runes p = feed_loop (length p) p 0

abbrev size : List ℕ → ℕ
size p = (decode_rune p).0

feed_loop-add : (fuel : ℕ) (p : List ℕ) (n : ℕ) → feed_loop fuel p n ≡ n + feed_loop fuel p 0
unfolding feed_loop
feed_loop-add zero p n = omega arith
feed_loop-add (suc fuel) [] n = omega arith
feed_loop-add (suc fuel) (a ∷ p) n =
    let rest = drop (size (a ∷ p)) (a ∷ p) in
    ground (
      arith,
      feed_loop-add fuel rest (n + size (a ∷ p)),
      feed_loop-add fuel rest (0 + size (a ∷ p)),
    )

-- More rounds than bytes make no difference.
feed_loop-fuel :
    (m n : ℕ) (p : List ℕ) → length p ≤ m → length p ≤ n → feed_loop m p 0 ≡ feed_loop n p 0
unfolding feed_loop
feed_loop-fuel zero zero p hm hn = refl
feed_loop-fuel zero (suc n) [] hm hn = refl
feed_loop-fuel (suc m) zero [] hm hn = refl
feed_loop-fuel (suc m) (suc n) [] hm hn = refl
feed_loop-fuel zero (suc n) (a ∷ p) hm hn = absurd (omega arith)
feed_loop-fuel (suc m) zero (a ∷ p) hm hn = absurd (omega arith)
feed_loop-fuel (suc m) (suc n) (a ∷ p) hm hn =
    let k = size (a ∷ p) in
    let rest = drop k (a ∷ p) in
    let (low, high) = decode_rune-bounds a p in
    let short : length rest ≤ length p = omega (arith, length-drop k (a ∷ p)) in
    ground (
      arith,
      feed_loop-add m rest (0 + k),
      feed_loop-add n rest (0 + k),
      feed_loop-fuel m n rest (omega arith) (omega arith),
    )

whole_runes-cut : (a : ℕ) (p : List ℕ) → is_cut (a ∷ p) ≡ true → whole_runes (a ∷ p) ≡ 0
unfolding feed_loop
whole_runes-cut a p cut = ground (arith, cut)

pub whole_runes-cons :
    (a : ℕ) (p : List ℕ)
    → is_cut (a ∷ p) ≡ false
    → whole_runes (a ∷ p) ≡ size (a ∷ p) + whole_runes (drop (size (a ∷ p)) (a ∷ p))
unfolding feed_loop
whole_runes-cons a p whole =
    let k = size (a ∷ p) in
    let rest = drop k (a ∷ p) in
    let (low, high) = decode_rune-bounds a p in
    let short : length rest ≤ length p = omega (arith, length-drop k (a ∷ p)) in
    ground (
      arith,
      whole,
      feed_loop-add (length p) rest (0 + k),
      feed_loop-fuel (length p) (length rest) rest short (omega arith),
    )

pub whole_runes-bound : (fuel : ℕ) (p : List ℕ) → length p ≤ fuel → whole_runes p ≤ length p
unfolding feed_loop
whole_runes-bound fuel [] h = omega arith
whole_runes-bound zero (a ∷ p) h = absurd (omega arith)
whole_runes-bound (suc fuel) (a ∷ p) h = elim (Bool-cases (is_cut (a ∷ p))) [
  | inl cut ↦ omega (arith, whole_runes-cut a p cut)
  | inr whole ↦
      let k = size (a ∷ p) in
      let (low, high) = decode_rune-bounds a p in
      let left = length-drop k (a ∷ p) in
      omega (
        arith,
        whole_runes-cons a p whole,
        left,
        whole_runes-bound fuel (drop k (a ∷ p)) (omega arith),
      )
]

-- Taking the runes of a first part, and then those of what stays with the rest, is taking them at
-- once.
pub whole_runes-append :
    (fuel : ℕ) (p q : List ℕ)
    → length p ≤ fuel
    → whole_runes (p ++ q) ≡ whole_runes p + whole_runes (drop (whole_runes p) p ++ q)
unfolding feed_loop
whole_runes-append fuel [] q h = omega arith
whole_runes-append zero (a ∷ p) q h = absurd (omega arith)
whole_runes-append (suc fuel) (a ∷ p) q h = elim (Bool-cases (is_cut (a ∷ p))) [
  | inl cut ↦ let none_yet = whole_runes-cut a p cut in rw none_yet (omega arith)
  | inr whole ↦
      let k = size (a ∷ p) in
      let (low, high) = decode_rune-bounds a p in
      let rest = drop k (a ∷ p) in
      let left = length-drop k (a ∷ p) in
      let same : decode_rune (a ∷ (p ++ q)) ≡ decode_rune (a ∷ p) =
        decode_rune-append a p q whole in
      let size_same : size (a ∷ (p ++ q)) ≡ k = ap (λ r. r.0) same in
      let later : drop (size (a ∷ (p ++ q))) (a ∷ (p ++ q)) ≡ rest ++ q =
        ap (λ n. drop n (a ∷ (p ++ q))) size_same ∙ drop-append_le k (a ∷ p) q (omega arith) in
      let here = whole_runes-cons a p whole in
      let stays : drop (whole_runes (a ∷ p)) (a ∷ p) ≡ drop (whole_runes rest) rest =
        ap (λ n. drop n (a ∷ p)) here ∙ sym (drop-drop k (whole_runes rest) (a ∷ p)) in
      let more : whole_runes (a ∷ (p ++ q)) ≡ k + whole_runes (rest ++ q) =
        whole_runes-cons a (p ++ q) (is_cut-append a p q whole)
        ∙ ap₂ (λ n r. n + whole_runes r) size_same later in
      let split = whole_runes-append fuel rest q (omega arith) in
      omega (arith, more, here, split, ap (λ r. whole_runes (r ++ q)) stays)
]

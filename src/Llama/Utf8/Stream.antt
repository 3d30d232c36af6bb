-- ===== src/Llama/Utf8/Stream.antt =====
-- ark/infra/llamacpp/chat.go: a stream of chunks against the whole text.
use domour.Common.{
  ℕ, zero, suc, ◌+◌, ◌≤◌, true, false, ◌≡◌, refl, ap, ap₂, sym, subst, ◌∙◌, inl, inr, arith, List,
  [], ◌∷◌, ◌++◌, append_assoc, append-nil, Bool-cases, ◌==◌, length, take, take-append-drop,
  zero_left, suc_left, ◌⊎◌, drop, drop-drop, drop-append_le, take-append_le, concat,
}
use domour.Llama.Utf8.{full_rune, is_cut, feed_loop, feed, flush, run}
use domour.Llama.Utf8.Decode.{decode_rune-bounds, is_cut-short}
use domour.Llama.Utf8.Runes.{whole_runes, whole_runes-cons, whole_runes-bound, whole_runes-append}

feed-whole_runes :
    (buf c : List ℕ)
    → let t = buf ++ c in feed buf c ≡ (take (whole_runes t) t, drop (whole_runes t) t)
unfolding feed
feed-whole_runes buf c =
    let t = buf ++ c in
    elim (Bool-cases (whole_runes (buf ++ c) == 0)) [
      | inl e ↦
          let zero_yet : whole_runes t ≡ 0 = ground (arith, e) in
          rw (e, feed) (sym (ap (λ n. (take n t, drop n t)) zero_yet))
      | inr e ↦ rw (e, feed) refl
    ]

whole_runes-rest : (p : List ℕ) → whole_runes (drop (whole_runes p) p) ≡ 0
whole_runes-rest p =
    let split = whole_runes-append (length p) p [] (omega arith) in
    omega (
      arith,
      split,
      ap whole_runes (append-nil p),
      ap whole_runes (append-nil (drop (whole_runes p) p)),
    )

take-nil : (n : ℕ) → take {A = ℕ} n [] ≡ []
take-nil zero = refl
take-nil (suc n) = refl

take-add : (m n : ℕ) (xs : List ℕ) → take (m + n) xs ≡ take m xs ++ take n (drop m xs)
take-add zero n xs = ap (λ k. take k xs) (zero_left n)
take-add (suc m) n [] = take-nil (suc m + n) ∙ sym (take-nil n)
take-add (suc m) n (x ∷ xs) =
    ap (λ k. take k (x ∷ xs)) (sym (suc_left m n)) ∙ ap (◌∷◌ x) (take-add m n xs)

run-whole_runes :
    (buf : List ℕ) (cs : List (List ℕ))
    → whole_runes buf ≡ 0
    → let t = buf ++ concat cs in run buf cs ≡ (take (whole_runes t) t, drop (whole_runes t) t)
run-whole_runes buf [] h =
    let same : whole_runes (buf ++ []) ≡ 0 = ap whole_runes (append-nil buf) ∙ h in
    sym (ap₂ (λ n t. (take n t, drop n t)) same (append-nil buf))
run-whole_runes buf (c ∷ cs) h =
    let t = buf ++ c in
    let w = whole_runes t in
    let buf' = drop w t in
    let t' = buf' ++ concat cs in
    let w' = whole_runes t' in
    let later = run-whole_runes buf' cs (whole_runes-rest t) in
    let whole : buf ++ (c ++ concat cs) ≡ t ++ concat cs = sym (append_assoc buf c (concat cs)) in
    let split : whole_runes (t ++ concat cs) ≡ w + w' =
      whole_runes-append (length t) t (concat cs) (omega arith) in
    let fits = whole_runes-bound (length t) t (omega arith) in
    let stays : drop w (t ++ concat cs) ≡ t' = drop-append_le w t (concat cs) fits in
    let fed = feed-whole_runes buf c in
    let parts : run buf (c ∷ cs) ≡ (take w t ++ take w' t', drop w' t') =
      ap (λ r. let (later, left) = run (r.1) cs in (r.0 ++ later, left)) fed
      ∙ ap (λ r. (take w t ++ r.0, r.1)) later in
    let texts : take (w + w') (t ++ concat cs) ≡ take w t ++ take w' t' =
      take-add w w' (t ++ concat cs)
      ∙ ap₂ (λ x y. x ++ take w' y) (take-append_le w t (concat cs) fits) stays in
    let lefts : drop (w + w') (t ++ concat cs) ≡ drop w' t' =
      sym (drop-drop w w' (t ++ concat cs)) ∙ ap (drop w') stays in
    parts
    ∙ sym (ap₂ (λ x y. (x, y)) texts lefts)
    ∙ ap (λ n. (take n (t ++ concat cs), drop n (t ++ concat cs))) (sym split)
    ∙ ap (λ x. (take (whole_runes x) x, drop (whole_runes x) x)) (sym whole)

-- Feeding a stream in any chunks yields the text that feeding it at once does, and the same bytes
-- stay; with those that Flush returns the text is the whole stream.
pub run-feed :
    (cs : List (List ℕ))
    → (run [] cs ≡ feed [] (concat cs)) × ((run [] cs).0 ++ (flush ((run [] cs).1)).0 ≡ concat cs)
unfolding flush feed_loop
run-feed cs =
    let t = concat cs in
    let all = run-whole_runes [] cs refl in
    (
      all ∙ sym (feed-whole_runes [] t),
      ap (λ r. r.0 ++ r.1) all ∙ take-append-drop (whole_runes t) t,
    )

pub feed-join : (buf c : List ℕ) → (feed buf c).0 ++ (feed buf c).1 ≡ buf ++ c
feed-join buf c =
    let t = buf ++ c in
    ap (λ r. r.0 ++ r.1) (feed-whole_runes buf c) ∙ take-append-drop (whole_runes t) t

abbrev IsLeft : List ℕ → Type 0
IsLeft p = (p ≡ []) ⊎ ((is_cut p ≡ true) × (full_rune p ≡ false) × (length p ≤ 3))

cut-not-full : (p : List ℕ) → is_cut p ≡ true → full_rune p ≡ false
unfolding is_cut
cut-not-full p h = ground arith

whole_runes-IsLeft : (p : List ℕ) → whole_runes p ≡ 0 → IsLeft p
whole_runes-IsLeft [] h = inl refl
whole_runes-IsLeft (a ∷ p) h = elim (Bool-cases (is_cut (a ∷ p))) [
  | inl cut ↦ inr (cut, cut-not-full (a ∷ p) cut, is_cut-short (a ∷ p) cut)
  | inr whole ↦
      let (low, high) = decode_rune-bounds a p in absurd (omega (arith, whole_runes-cons a p whole))
]

-- The loop of Feed ends at the end of the bytes or at a rune that is cut: the bytes that stay are
-- none, or the first of a rune whose others are missing, and then at most 3.
pub feed-left :
    (buf chunk : List ℕ)
    → let left = (feed buf chunk).1 in
      (left ≡ []) ⊎ ((is_cut left ≡ true) × (full_rune left ≡ false) × (length left ≤ 3))
feed-left buf chunk =
    let t = buf ++ chunk in
    subst IsLeft (sym (ap (λ r. r.1) (feed-whole_runes buf chunk)))
      (whole_runes-IsLeft (drop (whole_runes t) t) (whole_runes-rest t))

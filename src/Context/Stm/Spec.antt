-- ===== src/Context/Stm/Spec.antt =====
-- What the buffer promises: the last `n` of the nodes that were appended.
use domour.Common.{
  ℕ, suc, ◌-◌, ◌≤◌, ◌<◌, ◌≡◌, ap, sym, arith, inl, inr, Bool-cases, ◌∙◌, Option, none, some, List,
  [], ◌∷◌, ◌++◌, append_assoc, append-nil, length, length-append, length-drop, drop, drop-drop,
  drop-append_le, ◌+◌, ltb, if◌then◌else◌,
}

module _ {A : Type 0} where
  abbrev pub recent : ℕ → List A → List A
  recent n xs = drop (length xs - n) xs

  -- one more, at the cost of the first when there are `n`
  abbrev pub enqueue : ℕ → List A → A → List A
  enqueue n q x = if ltb (length q) n then q ++ (x ∷ []) else drop 1 q ++ (x ∷ [])

  abbrev pub enqueue_all : ℕ → List A → List A → List A
  enqueue_all n q [] = q
  enqueue_all n q (x ∷ xs) = enqueue_all n (enqueue n q x) xs

  -- the nodes that are not nil
  abbrev pub values : List (Option A) → List A
  values [] = []
  values (none ∷ xs) = values xs
  values (some x ∷ xs) = x ∷ values xs

  enqueue-length : (n : ℕ) (q : List A) (x : A) → 0 < n → length q ≤ n → length (enqueue n q x) ≤ n
  enqueue-length n [] x pos fits = ground arith
  enqueue-length n (y ∷ q) x pos fits =
      ground (arith, length-append (y ∷ q) (x ∷ []), length-append q (x ∷ []))

  recent-cons : (n : ℕ) (y : A) (r : List A) → n ≤ length r → recent n r ≡ recent n (y ∷ r)
  recent-cons n y r long =
      let e : suc (length r - n) ≡ suc (length r) - n = omega arith in ap (λ k. drop k (y ∷ r)) e

  recent-enqueue :
      (n : ℕ) (q : List A) (x : A) (xs : List A)
      → 0 < n
      → length q ≤ n
      → recent n (enqueue n q x ++ xs) ≡ recent n (q ++ (x ∷ xs))
  recent-enqueue n q x xs pos fits = elim (Bool-cases (ltb (length q) n)) [
    | inl room ↦ rw room (ap (recent n) (append_assoc q (x ∷ []) xs))
    | inr full ↦ rw full (moved q (ground arith))
  ]
    where
      moved :
          (p : List A)
          → length p ≡ n
          → recent n ((drop 1 p ++ (x ∷ [])) ++ xs) ≡ recent n (p ++ (x ∷ xs))
      moved [] e = absurd (omega arith)
      moved (y ∷ p) e =
          ap (recent n) (append_assoc p (x ∷ []) xs)
          ∙ recent-cons n y (p ++ (x ∷ xs)) (omega (arith, length-append p (x ∷ xs)))

  pub recent-fits : (n : ℕ) (q : List A) → length q ≤ n → recent n q ≡ q
  recent-fits n q fits = let e : length q - n ≡ 0 = omega arith in ap (λ k. drop k q) e

  pub enqueue_all-recent :
      (n : ℕ) (q xs : List A) → 0 < n → length q ≤ n → enqueue_all n q xs ≡ recent n (q ++ xs)
  enqueue_all-recent n q [] pos fits = sym (ap (recent n) (append-nil q) ∙ recent-fits n q fits)
  enqueue_all-recent n q (x ∷ xs) pos fits =
      enqueue_all-recent n (enqueue n q x) xs pos (enqueue-length n q x pos fits)
      ∙ recent-enqueue n q x xs pos fits

  -- Taking the last ones in two steps.
  pub recent-recent : (n : ℕ) (xs ys : List A) → recent n (recent n xs ++ ys) ≡ recent n (xs ++ ys)
  recent-recent n xs ys =
      let k = length xs - n in
      let joined : recent n xs ++ ys ≡ drop k (xs ++ ys) =
        sym (drop-append_le k xs ys (omega arith)) in
      let places : k + (length (recent n xs ++ ys) - n) ≡ length (xs ++ ys) - n =
        omega (arith, length-append xs ys, length-append (recent n xs) ys, length-drop k xs) in
      ap (drop (length (recent n xs ++ ys) - n)) joined
      ∙ drop-drop k (length (recent n xs ++ ys) - n) (xs ++ ys)
      ∙ ap (λ j. drop j (xs ++ ys)) places

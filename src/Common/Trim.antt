-- ===== src/Common/Trim.antt =====
-- Package `strings`: trimming and lowering a second time changes nothing.
use Prim.Native.Nat.{ℕ, ◌≤◌}
use mathlib.Core.Path.{◌≡◌, refl, ap, ap₂, sym, subst, ◌∙◌}
use mathlib.Core.Logic.{inl, inr}
use mathlib.Core.List.{[], ◌∷◌, ◌++◌, map, reverse, reverse-reverse, reverse_aux, reverse-append}
use native.Mathlib.Omega.{arith}
use domour.Common.Tests.{Bool-cases}
use domour.Common.Lists.{length}
use domour.Common.Text.{Str}
use domour.Common.Unicode.{Unicode, ascii, lower_rune, space_rune, to_lower, trim_left, trim_space}

-- What the tables of package unicode have.
pub record CaseLaws (u : Unicode) : Type 0 where
  pub lower-space : (c : _) → space_rune u (lower_rune u c) ≡ space_rune u c
  pub lower_twice : (c : _) → lower_rune u (lower_rune u c) ≡ lower_rune u c

map-reverse_aux :
    (f : ℕ → ℕ) (s acc : Str) → reverse_aux (map f s) (map f acc) ≡ map f (reverse_aux s acc)
map-reverse_aux f [] acc = refl
map-reverse_aux f (c ∷ s) acc = map-reverse_aux f s (c ∷ acc)

module _ (u : Unicode) where
  -- no white space at the ends
  abbrev pub Trimmed : Str → Type 0
  Trimmed s = (trim_left u s ≡ s) × (trim_left u (reverse s) ≡ reverse s)

  trim_left_twice : (s : Str) → trim_left u (trim_left u s) ≡ trim_left u s
  unfolding trim_left
  trim_left_twice [] = refl
  trim_left_twice (c ∷ s) = elim (Bool-cases (space_rune u c)) [
    | inl e ↦ let later = trim_left_twice s in rw (e, trim_left) later
    | inr e ↦ ground (arith, e, trim_left)
  ]

  length-trim_left : (s : Str) → length (trim_left u s) ≤ length s
  unfolding trim_left
  length-trim_left [] = omega arith
  length-trim_left (c ∷ s) = ground (arith, length-trim_left s)

  -- A first part of a text that starts with no space starts with none.
  trim_left-prefix : (s t : Str) → trim_left u (s ++ t) ≡ s ++ t → trim_left u s ≡ s
  unfolding trim_left
  trim_left-prefix [] t h = refl
  trim_left-prefix (c ∷ s) t h = elim (Bool-cases (space_rune u c)) [
    | inl e ↦
        let same : trim_left u (s ++ t) ≡ c ∷ (s ++ t) = sym (rw e refl) ∙ h in
        absurd (omega (arith, length-trim_left (s ++ t), ap length same))
    | inr e ↦ rw (e, trim_left) refl
  ]

  trim_left-suffix : (s : Str) → (pre : Str) × (s ≡ pre ++ trim_left u s)
  unfolding trim_left
  trim_left-suffix [] = ([], refl)
  trim_left-suffix (c ∷ s) = elim (Bool-cases (space_rune u c)) [
    | inl e ↦
        let (pre, same) = trim_left-suffix s in
        let whole : c ∷ s ≡ c ∷ (pre ++ trim_left u (c ∷ s)) =
          rw (e, trim_left) (ap (◌∷◌ c) same) in
        (c ∷ pre, whole)
    | inr e ↦ ([], rw (e, trim_left) refl)
  ]

  pub trim_space-Trimmed : (s : Str) → Trimmed (trim_space u s)
  unfolding trim_space
  trim_space-Trimmed s =
      let t = trim_left u s in
      let r = trim_left u (reverse t) in
      let (pre, same) = trim_left-suffix (reverse t) in
      let split : t ≡ reverse r ++ reverse pre =
        sym (reverse-reverse t) ∙ ap reverse same ∙ reverse-append pre r in
      (
        trim_left-prefix (reverse r) (reverse pre)
            (subst (λ x. trim_left u x ≡ x) split (trim_left_twice s)),
        subst (λ x. trim_left u x ≡ x) (sym (reverse-reverse r)) (trim_left_twice (reverse t)),
      )

  pub Trimmed-trim_space : (s : Str) → Trimmed s → trim_space u s ≡ s
  unfolding trim_space
  Trimmed-trim_space s (left, right) = rw left (ap reverse right ∙ reverse-reverse s)

  pub trim_space_twice : (s : Str) → trim_space u (trim_space u s) ≡ trim_space u s
  trim_space_twice s = Trimmed-trim_space (trim_space u s) (trim_space-Trimmed s)

  reverse-to_lower : (s : Str) → reverse (to_lower u s) ≡ to_lower u (reverse s)
  unfolding to_lower
  reverse-to_lower s = map-reverse_aux (lower_rune u) s []

  trim_left-to_lower :
      CaseLaws u → (s : Str) → trim_left u (to_lower u s) ≡ to_lower u (trim_left u s)
  unfolding trim_left to_lower
  trim_left-to_lower laws [] = refl
  trim_left-to_lower laws (c ∷ s) = elim (Bool-cases (space_rune u c)) [
    | inl e ↦ ground (arith, e, laws.lower-space c, trim_left-to_lower laws s)
    | inr e ↦ ground (arith, e, laws.lower-space c)
  ]

  -- Trimming and lowering in either order.
  pub trim_space-to_lower :
      CaseLaws u → (s : Str) → trim_space u (to_lower u s) ≡ to_lower u (trim_space u s)
  unfolding trim_space
  trim_space-to_lower laws s =
      let t = trim_left u s in
      ap (λ x. reverse (trim_left u (reverse x))) (trim_left-to_lower laws s)
      ∙ ap (λ x. reverse (trim_left u x)) (reverse-to_lower t)
      ∙ ap reverse (trim_left-to_lower laws (reverse t))
      ∙ reverse-to_lower (trim_left u (reverse t))

  pub to_lower-Trimmed : CaseLaws u → (s : Str) → Trimmed s → Trimmed (to_lower u s)
  unfolding to_lower
  to_lower-Trimmed laws s (left, right) = (
    trim_left-to_lower laws s ∙ ap (to_lower u) left,
    subst (λ x. trim_left u x ≡ x) (sym (reverse-to_lower s))
        (trim_left-to_lower laws (reverse s) ∙ ap (to_lower u) right),
  )

  pub to_lower_twice : CaseLaws u → (s : Str) → to_lower u (to_lower u s) ≡ to_lower u s
  unfolding to_lower
  to_lower_twice laws [] = refl
  to_lower_twice laws (c ∷ s) = ap₂ ◌∷◌ (laws.lower_twice c) (to_lower_twice laws s)

pub ascii_laws : CaseLaws ascii
unfolding lower_rune space_rune
ascii_laws = record { lower-space = λ c. ground arith; lower_twice = λ c. ground arith }

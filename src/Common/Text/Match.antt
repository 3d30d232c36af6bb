-- ===== src/Common/Text/Match.antt =====
-- What `has_prefix`, `has_suffix` and `index` say about each position of a text.
use Prim.Native.Nat.{ℕ, zero, suc, ◌+◌, ◌-◌, ◌≤◌, ◌<◌}
use mathlib.Core.Path.{◌≡◌, refl, ap, ◌∙◌, subst}
use mathlib.Core.Logic.{◌⊎◌, inl, inr}
use mathlib.Core.Bool.{Bool, true, false}
use mathlib.Core.List.{[], ◌∷◌, ◌++◌}
use mathlib.Core.Option.{none, some}
use native.Mathlib.Omega.{arith}
use domour.Common.Tests.{Bool-cases, Option-cases}
use domour.Common.Lists.{any, length, take, drop, length-drop}
use domour.Common.Text.{Str, equal_refl, has_prefix, has_suffix, index}

pub length-le_of_has_prefix : (s p : Str) → has_prefix s p ≡ true → length p ≤ length s
unfolding has_prefix
length-le_of_has_prefix s [] h = omega arith
length-le_of_has_prefix [] (y ∷ p) h = cc
length-le_of_has_prefix (x ∷ s) (y ∷ p) h = ground (arith, length-le_of_has_prefix s p)

-- More text behind does not change a test that the text in front decides.
pub has_prefix-append : (s p r : Str) → length p ≤ length s → has_prefix (s ++ r) p ≡ has_prefix s p
unfolding has_prefix
has_prefix-append s [] r h = ground arith
has_prefix-append [] (y ∷ p) r h = absurd (omega arith)
has_prefix-append (x ∷ s) (y ∷ p) r h = ground (arith, has_prefix-append s p r (omega arith))

-- A tag that starts in `s` and is complete in `s ++ r` is complete in `s`, or `s` begins it.
pub has_prefix-append-cases :
    (s p r : Str) → has_prefix (s ++ r) p ≡ true → (has_prefix s p ≡ true) ⊎ (has_prefix p s ≡ true)
unfolding has_prefix
has_prefix-append-cases [] [] r h = inl refl
has_prefix-append-cases [] (y ∷ p) r h = inr refl
has_prefix-append-cases (x ∷ s) [] r h = inl refl
has_prefix-append-cases (x ∷ s) (y ∷ p) r h = ground (arith, has_prefix-append-cases s p r)

pub eq-take_of_has_prefix : (p u : Str) → has_prefix p u ≡ true → u ≡ take (length u) p
unfolding has_prefix
eq-take_of_has_prefix p [] h = refl
eq-take_of_has_prefix [] (y ∷ u) h = cc
eq-take_of_has_prefix (x ∷ p) (y ∷ u) h = ground (arith, eq-take_of_has_prefix p u)

-- The rest of a text, where it begins a tag, is a suffix that the loops over tag prefixes find.
pub has_suffix-drop :
    (s p : Str) (d : ℕ)
    → d ≤ length s
    → has_prefix p (drop d s) ≡ true
    → has_suffix s (take (length s - d) p) ≡ true
unfolding has_suffix
has_suffix-drop s p d h e =
    let n : length (drop d s) ≡ length s - d = length-drop d s in
    let u : drop d s ≡ take (length s - d) p =
      eq-take_of_has_prefix p (drop d s) e ∙ ap (λ k. take k p) n in
    rw (← u, n)
      (let back : length s - (length s - d) ≡ d = omega arith in
        rw (back, equal_refl (drop d s)) (ground arith))

-- `index` is the first position at which the tag stands.
pub index-eq-none :
    (s p : Str) (d : ℕ) → index s p ≡ none → d ≤ length s → has_prefix (drop d s) p ≡ false
unfolding index
index-eq-none [] p zero e h = ground arith
index-eq-none [] p (suc d) e h = absurd (omega arith)
index-eq-none (c ∷ s) p zero e h = ground arith
index-eq-none (c ∷ s) p (suc d) e h = ground (arith, index-eq-none s p d)

pub record FirstAt (s p : Str) (i : ℕ) : Type 0 where
  pub here : has_prefix (drop i s) p ≡ true
  pub fits : i + length p ≤ length s
  pub before : (d : ℕ) → d < i → has_prefix (drop d s) p ≡ false

index-FirstAt-cons :
    (c : ℕ) (s p : Str) (i : ℕ)
    → has_prefix (c ∷ s) p ≡ false
    → FirstAt s p i
    → FirstAt (c ∷ s) p (suc i)
index-FirstAt-cons c s p i no_match f = record {
  here = f.here;
  fits = omega (arith, f.fits);
  before = first;
}
  where
    first : (d : ℕ) → d < suc i → has_prefix (drop d (c ∷ s)) p ≡ false
    first zero h = no_match
    first (suc d) h = f.before d (omega arith)

FirstAt-zero : (s p : Str) → has_prefix s p ≡ true → FirstAt s p 0
FirstAt-zero s p h = record {
  here = h;
  fits = omega (arith, length-le_of_has_prefix s p h);
  before = λ d l. absurd (omega arith);
}

at_zero : (s p : Str) (i : ℕ) → has_prefix s p ≡ true → some 0 ≡ some i → FirstAt s p i
at_zero s p i h e = subst (FirstAt s p) {x = 0} (ground arith) (FirstAt-zero s p h)

pub index-FirstAt : (s p : Str) (i : ℕ) → index s p ≡ some i → FirstAt s p i
unfolding index
index-FirstAt [] p i e = elim (Bool-cases (has_prefix [] p)) [
  | inl y ↦ at_zero [] p i y (rw y at e)
  | inr n ↦ absurd (cc (rw n at e))
]
index-FirstAt (c ∷ s) p i e = elim (Bool-cases (has_prefix (c ∷ s) p)) [
  | inl y ↦ at_zero (c ∷ s) p i y (rw y at e)
  | inr n ↦ elim (Option-cases (index s p)) [
    | inl none_left ↦ absurd (ground arith)
    | inr (j, found) ↦
        subst (FirstAt (c ∷ s) p) {x = suc j} (ground arith)
          (index-FirstAt-cons c s p j n (index-FirstAt s p j found))
  ]
]

pub index-drop : (d : ℕ) (s p : Str) → index s p ≡ none → index (drop d s) p ≡ none
unfolding index
index-drop zero s p e = e
index-drop (suc d) [] p e = e
index-drop (suc d) (c ∷ s) p e = index-drop d s p (ground arith)

pub has_prefix_symm :
    (p u : Str) → has_prefix p u ≡ true → length p ≤ length u → has_prefix u p ≡ true
unfolding has_prefix
has_prefix_symm [] [] h l = refl
has_prefix_symm [] (y ∷ u) h l = refl
has_prefix_symm (x ∷ p) [] h l = absurd (omega arith)
has_prefix_symm (x ∷ p) (y ∷ u) h l = ground (arith, has_prefix_symm p u)

-- A first part at whose positions no tag stands shifts the search.
pub index-append-clear :
    (a b p : Str)
    → ((d : ℕ) → d < length a → has_prefix (drop d (a ++ b)) p ≡ false)
    → index (a ++ b) p ≡ elim (index b p) [ none ↦ none | some i ↦ some (length a + i) ]
unfolding index
index-append-clear [] b p h = elim (Option-cases (index b p)) [
  | inl e ↦ rw e
  | inr (i, e) ↦ rw e (ground arith)
]
index-append-clear (c ∷ a) b p h =
    ground (arith, h 0 (omega arith), index-append-clear a b p (λ d l. h (suc d) (omega arith)))

-- A tag that is found stays where it is when more text comes.
pub index-append_some : (s r p : Str) (i : ℕ) → index s p ≡ some i → index (s ++ r) p ≡ some i
unfolding index
index-append_some [] [] p i e = e
index-append_some [] (x ∷ r) [] i e = e
index-append_some [] (x ∷ r) (y ∷ p) i e = absurd (ground (arith, has_prefix))
index-append_some (c ∷ s) r p i e = elim (Bool-cases (has_prefix (c ∷ s) p)) [
  | inl found ↦
      let more = has_prefix-append (c ∷ s) p r (length-le_of_has_prefix (c ∷ s) p found) in
      ground arith
  | inr no_match ↦ elim (Option-cases (index s p)) [
    | inl miss ↦ absurd (ground arith)
    | inr (j, later) ↦
        let f = index-FirstAt s p j later in
        let still = has_prefix-append (c ∷ s) p r (omega (arith, f.fits)) in
        let rest = index-append_some s r p j later in ground arith
  ]
]

pub has_prefix-take : (n : ℕ) (s p : Str) → length p ≤ n → has_prefix (take n s) p ≡ has_prefix s p
unfolding has_prefix
has_prefix-take zero s [] h = ground arith
has_prefix-take zero s (y ∷ p) h = absurd (omega arith)
has_prefix-take (suc n) [] p h = refl
has_prefix-take (suc n) (x ∷ s) [] h = refl
has_prefix-take (suc n) (x ∷ s) (y ∷ p) h = ground (arith, has_prefix-take n s p (omega arith))

-- A tag that is found stays where it is when the text is cut behind it.
pub index-take :
    (s p : Str) (j n : ℕ) → index s p ≡ some j → j + length p ≤ n → index (take n s) p ≡ some j
unfolding index
index-take [] p j zero e h = e
index-take [] p j (suc n) e h = e
index-take (c ∷ s) [] j zero e h = e
index-take (c ∷ s) (y ∷ p) j zero e h = absurd (omega arith)
index-take (c ∷ s) p j (suc n) e h =
    let front = has_prefix-take (suc n) (c ∷ s) p (omega arith) in
    elim (Option-cases (index s p)) [
      | inl miss ↦ ground arith
      | inr (k, later) ↦ ground (arith, index-take s p k n later)
    ]

-- A property of some character of a tag is one of some character of a text that holds the tag.
module _ (f : ℕ → Bool) where
  any-has_prefix : (s p : Str) → has_prefix s p ≡ true → any f p ≡ true → any f s ≡ true
  unfolding has_prefix
  any-has_prefix s [] h a = absurd (cc)
  any-has_prefix [] (y ∷ p) h a = absurd (cc)
  any-has_prefix (x ∷ s) (y ∷ p) h a = ground (arith, ap f, any-has_prefix s p)

  pub any-index : (s p : Str) (i : ℕ) → index s p ≡ some i → any f p ≡ true → any f s ≡ true
  unfolding index
  any-index [] p i e a = elim (Bool-cases (has_prefix [] p)) [
    | inl h ↦ any-has_prefix [] p h a
    | inr h ↦ absurd (ground arith)
  ]
  any-index (c ∷ s) p i e a = elim (Bool-cases (has_prefix (c ∷ s) p)) [
    | inl h ↦ any-has_prefix (c ∷ s) p h a
    | inr h ↦ elim (Option-cases (index s p)) [
      | inl miss ↦ absurd (ground arith)
      | inr (j, later) ↦ let rest = any-index s p j later a in ground arith
    ]
  ]

-- ===== src/Session/Locker/Total.antt =====
-- Sums of a weight over the first `n` goroutines.
use domour.Common.{ℕ, zero, suc, ◌+◌, ◌≤◌, ◌<◌, ◌≡◌, ◌≢◌, refl, ap, arith, dec_lt}
use domour.Session.Locker.{put}

module _ {ℓ} {A : Type ℓ} (w : A → ℕ) where
  pub total : ℕ → (ℕ → A) → ℕ
  total zero f = 0
  total (suc n) f = w (f n) + total n f

  -- A change behind the range.
  total-put_ge : (n i : ℕ) (v : A) (f : ℕ → A) → n ≤ i → total n (put f i v) ≡ total n f
  unfolding total
  total-put_ge zero i v f h = refl
  total-put_ge (suc n) i v f h = ground (arith, total-put_ge n i v f)

  pub total-put :
      (n i : ℕ) (v : A) (f : ℕ → A) → i < n → total n (put f i v) + w (f i) ≡ w v + total n f
  unfolding total
  total-put zero i v f h = absurd (omega arith)
  total-put (suc n) i v f h = elim (dec_lt i n) [
    | yes inner ↦ ground (arith, total-put n i v f inner)
    | no edge ↦ ground (arith, total-put_ge n i v f)
  ]

  pub le-total : (n j : ℕ) (f : ℕ → A) → j < n → w (f j) ≤ total n f
  unfolding total
  le-total zero j f h = absurd (omega arith)
  le-total (suc n) j f h = elim (dec_lt j n) [
    | yes inner ↦ omega (arith, le-total n j f inner)
    | no edge ↦ let last : j ≡ n = omega arith in omega (arith, ap (λ t. w (f t)) last)
  ]

  pub total-zero : (n : ℕ) (f : ℕ → A) → ((i : ℕ) → w (f i) ≡ 0) → total n f ≡ 0
  unfolding total
  total-zero zero f h = refl
  total-zero (suc n) f h = omega (arith, h n, total-zero n f h)

  -- A positive sum has a positive part.
  pub total-pos : (n : ℕ) (f : ℕ → A) → 0 < total n f → (i : ℕ) × (i < n) × (0 < w (f i))
  unfolding total
  total-pos zero f h = absurd (omega arith)
  total-pos (suc n) f h = elim (dec_lt 0 (w (f n))) [
    | yes here ↦ (n, omega arith, here)
    | no zero_here ↦ let (i, inside, pos) = total-pos n f (omega arith) in (i, omega arith, pos)
  ]

  -- Two goroutines that count make the sum at least two.
  pub two-le-total :
      (n i j : ℕ) (v : A) (f : ℕ → A)
      → i < n
      → j < n
      → i ≢ j
      → w v ≡ 0
      → w (f i) + w (f j) ≤ total n f
  two-le-total n i j v f hi hj ne hv =
      ground (arith, total-put n i v f hi, le-total n j (put f i v) hj)

pub total_mono {ℓ} :
    {A : Type ℓ} (v w : A → ℕ)
    → ((x : A) → v x ≤ w x)
    → (n : ℕ) (f : ℕ → A) → total v n f ≤ total w n f
unfolding total
total_mono v w h zero f = omega arith
total_mono v w h (suc n) f = omega (arith, h (f n), total_mono v w h n f)

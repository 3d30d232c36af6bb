-- ===== src/Common/Ring.antt =====
-- A ring of cells: the window of `n` cells from a place on, and what a write past its end does.
use Prim.Native.Nat.{ℕ, zero, suc, ◌+◌, ◌-◌, ◌%◌, ◌≤◌, ◌<◌}
use mathlib.Core.Path.{◌≡◌, refl, ap, ap₂, sym, ◌∙◌}
use mathlib.Core.Logic.{◌≢◌}
use mathlib.Core.List.{List, [], ◌∷◌, ◌++◌}
use native.Mathlib.Omega.{arith}
use domour.Common.Tests.{ltb, if◌then◌else◌}
use domour.Common.Lists.{length, get_or, set, drop, get_or-set_self, get_or-set_ne}

-- The place `k` steps on, for `k` below twice the size.
abbrev pub wrap : ℕ → ℕ → ℕ
wrap cap k = if ltb k cap then k else k - cap

pub next-wrap : (cap i : ℕ) → i < cap → (i + 1) % cap ≡ wrap cap (i + 1)
next-wrap cap i h = grind (arith)

pub wrap-lt : (cap h : ℕ) → h < cap → wrap cap (h + 1) < cap
wrap-lt cap h below = ground arith

pub next-mod : (cap k : ℕ) → 0 < cap → wrap cap (k % cap + 1) ≡ (k + 1) % cap
next-mod cap k pos = grind arith

pub mod-below : (cap k : ℕ) → k < cap → (k + 0) % cap ≡ k
mod-below cap k below = grind arith

module _ {ℓ} {A : Type ℓ} (d : A) (cap : ℕ) where
  abbrev pub window : List A → ℕ → ℕ → List A
  window cells h zero = []
  window cells h (suc n) = get_or cells h d ∷ window cells (wrap cap (h + 1)) n

  pub window-nil : (cells : List A) (h n : ℕ) → n ≡ 0 → window cells h n ≡ []
  window-nil cells h zero e = refl
  window-nil cells h (suc n) e = absurd (omega arith)

  pub length-window : (cells : List A) (h n : ℕ) → length (window cells h n) ≡ n
  length-window cells h zero = refl
  length-window cells h (suc n) = ap suc (length-window cells (wrap cap (h + 1)) n)

  wrap-wrap :
      (h k : ℕ)
      → h < cap
      → h + suc k < cap + cap
      → wrap cap (wrap cap (h + 1) + k) ≡ wrap cap (h + suc k)
  wrap-wrap h k below far = ground arith

  place-zero : (h : ℕ) → h < cap → h ≡ wrap cap (h + 0)
  place-zero h below = ground arith

  other-place : (h m : ℕ) → h < cap → suc m < cap → wrap cap (h + suc m) ≢ h
  other-place h m below room = ground arith

  pub window-snoc :
      (cells : List A) (h n : ℕ)
      → h < cap
      → n < cap
      → window cells h (suc n) ≡ window cells h n ++ (get_or cells (wrap cap (h + n)) d ∷ [])
  window-snoc cells h zero below room = ap (λ x. get_or cells x d ∷ []) (place-zero h below)
  window-snoc cells h (suc n) below room = ap (◌∷◌ (get_or cells h d)) (
      window-snoc cells (wrap cap (h + 1)) n (wrap-lt cap h below) (omega arith)
      ∙ ap (λ x. window cells (wrap cap (h + 1)) n ++ (get_or cells x d ∷ []))
          (wrap-wrap h n below (omega arith)))

  -- A write to the place behind the window leaves the window.
  pub window-set :
      (cells : List A) (h n m : ℕ) (v : A)
      → h < cap
      → n ≤ m
      → m < cap
      → window (set cells (wrap cap (h + m)) v) h n ≡ window cells h n
  window-set cells h zero m v below le room = refl
  window-set cells h (suc n) zero v below le room = absurd (omega arith)
  window-set cells h (suc n) (suc m) v below le room =
      ap₂ (λ x xs. x ∷ xs) (get_or-set_ne cells v d (other-place h m below room))
        (ap (λ x. window (set cells x v) (wrap cap (h + 1)) n)
            (sym (wrap-wrap h m below (omega arith)))
          ∙ window-set cells (wrap cap (h + 1)) n m v (wrap-lt cap h below) (omega arith)
              (omega arith))

  -- A write to the place behind a window that is not the whole ring adds to the window.
  pub window-store :
      (cells : List A) (h n : ℕ) (v : A)
      → h < cap
      → n < cap
      → cap ≤ length cells
      → window (set cells (wrap cap (h + n)) v) h (suc n) ≡ window cells h n ++ (v ∷ [])
  window-store cells h n v below room size =
      window-snoc (set cells (wrap cap (h + n)) v) h n below room
      ∙ ap₂ (λ xs x. xs ++ (x ∷ [])) (window-set cells h n n v below (omega arith) room)
          (get_or-set_self cells (wrap cap (h + n)) v d (ground arith))

  pub drop-window :
      (cells : List A) (h n : ℕ)
      → 0 < n
      → drop 1 (window cells h n) ≡ window cells (wrap cap (h + 1)) (n - 1)
  drop-window cells h zero p = absurd (omega arith)
  drop-window cells h (suc n) p = ap (window cells (wrap cap (h + 1))) (omega arith)

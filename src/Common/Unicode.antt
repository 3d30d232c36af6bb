-- ===== src/Common/Unicode.antt =====
-- Case and white space of code points, as packages `strings` and `unicode` have them. The tables
-- for code points from 128 on are parameters.
use Prim.Native.Nat.{ℕ, ◌+◌}
use mathlib.Core.Path.{◌≡◌, refl}
use mathlib.Core.Bool.{Bool, false, ◌&&◌, ◌||◌}
use mathlib.Core.List.{[], ◌∷◌, map, reverse}
use native.Mathlib.Omega.{arith}
use domour.Common.Tests.{ltb, leb, ◌==◌, if◌then◌else◌}
use domour.Common.Lists.{any}
use domour.Common.Text.{Str, equal}

pub record Unicode : Type 0 where
  pub lower : ℕ → ℕ
  -- one code point for each class of `unicode.SimpleFold`
  pub fold : ℕ → ℕ
  pub is_space : ℕ → Bool

abbrev pub is_upper : ℕ → Bool
is_upper c = leb b'A' c && leb c b'Z'

abbrev ascii_lower : ℕ → ℕ
ascii_lower c = if is_upper c then c + 32 else c

abbrev ascii_space : ℕ → Bool
ascii_space c = (leb 9 c && leb c 13) || c == b' '

module _ (u : Unicode) where
  -- unicode.ToLower, unicode.IsSpace
  unfoldable pub lower_rune : ℕ → ℕ
  lower_rune c = if ltb c 128 then ascii_lower c else u.lower c

  unfoldable pub fold_rune : ℕ → ℕ
  fold_rune c = if ltb c 128 then ascii_lower c else u.fold c

  unfoldable pub space_rune : ℕ → Bool
  space_rune c = if ltb c 128 then ascii_space c else u.is_space c

  -- strings.ToLower
  unfoldable pub to_lower : Str → Str
  unfolding lower_rune
  to_lower s = map lower_rune s

  -- strings.EqualFold
  unfoldable pub equal_fold : Str → Str → Bool
  unfolding fold_rune equal
  equal_fold s t = equal (map fold_rune s) (map fold_rune t)

  unfoldable pub trim_left : Str → Str
  trim_left [] = []
  trim_left (c ∷ s) = let rest = trim_left s in if space_rune c then rest else c ∷ s

  -- strings.TrimSpace
  unfoldable pub trim_space : Str → Str
  unfolding trim_left space_rune
  trim_space s = reverse (trim_left (reverse (trim_left s)))

  pub lower_rune-not-upper :
      ((c : ℕ) → is_upper (u.lower c) ≡ false) → (c : ℕ) → is_upper (lower_rune c) ≡ false
  unfolding lower_rune
  lower_rune-not-upper h c = ground (arith, h c)

  -- No capital of ASCII is left.
  pub to_lower-not-upper :
      ((c : ℕ) → is_upper (u.lower c) ≡ false) → (s : Str) → any is_upper (to_lower s) ≡ false
  unfolding to_lower
  to_lower-not-upper h [] = refl
  to_lower-not-upper h (c ∷ s) = ground (arith, lower_rune-not-upper h c, to_lower-not-upper h s)

-- The tables of plain ASCII: every code point outside it stands for itself.
abbrev pub ascii : Unicode
ascii = record { lower = ascii_lower; fold = λ c. c; is_space = λ c. false }

pub ascii-lowers : (c : ℕ) → is_upper (ascii.lower c) ≡ false
ascii-lowers c = ground arith

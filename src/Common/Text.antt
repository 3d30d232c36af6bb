-- ===== src/Common/Text.antt =====
-- Go strings as lists of numbers, and the functions of package `strings` that the program calls.
-- A list holds bytes where a component indexes by bytes, and code points where it only compares.
pub mod Match
use Prim.Native.Nat.{ℕ, zero, suc, ◌+◌, ◌-◌, ◌≤◌, ◌<◌}
use Prim.Native.Char.{code}
use Prim.Native.String.{String}
use mathlib.Core.Path.{◌≡◌, refl, ap, sym, ◌∙◌}
use mathlib.Core.Logic.{◌↔◌, ◌⊎◌, inl, inr}
use mathlib.Core.Bool.{Bool, true, false, ◌&&◌, ◌||◌}
use mathlib.Core.List.{List, [], ◌∷◌, ◌++◌}
use mathlib.Core.Option.{Option, none, some}
use native.Mathlib.Omega.{arith}
use domour.Common.Tests.{◌==◌, ltb, leb, if◌then◌else◌, ==_iff, Bool-cases}
use domour.Common.Lists.{length, take, drop, length-append, length-drop, length-take}

abbrev pub Str : Type 0
Str = List ℕ

-- The text of a literal.
abbrev pub codes : String → Str
codes String.[] = []
codes (String.◌∷◌ c s) = code c ∷ codes s

-- `a == b`
unfoldable pub equal : Str → Str → Bool
equal [] [] = true
equal (x ∷ xs) (y ∷ ys) = x == y && equal xs ys
equal _ _ = false

pub equal_iff : (a b : Str) → (equal a b ≡ true) ↔ (a ≡ b)
unfolding equal
equal_iff (x ∷ a) (y ∷ b) = ground (arith, equal_iff a b)
equal_iff _ _ = ground arith

pub equal_refl : (a : Str) → equal a a ≡ true
equal_refl a = (equal_iff a a).1 refl

-- strings.HasPrefix(s, p)
unfoldable pub has_prefix : Str → Str → Bool
has_prefix s [] = true
has_prefix [] (y ∷ p) = false
has_prefix (x ∷ s) (y ∷ p) = x == y && has_prefix s p

-- strings.HasSuffix(s, p)
unfoldable pub has_suffix : Str → Str → Bool
unfolding equal
has_suffix s p = leb (length p) (length s) && equal (drop (length s - length p) s) p

-- strings.Index(s, p); `none` is -1.
unfoldable pub index : Str → Str → Option ℕ
unfolding has_prefix
index [] p = if has_prefix [] p then some 0 else none
index (c ∷ s) p =
    if has_prefix (c ∷ s) p
    then some 0
    else elim (index s p) [ none ↦ none | some i ↦ some (suc i) ]

-- strings.Contains(s, p)
unfoldable pub contains : Str → Str → Bool
unfolding index
contains s p = elim (index s p) [ none ↦ false | some i ↦ true ]

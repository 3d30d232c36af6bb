-- ===== src/Common/Sort.antt =====
-- The order of Go strings, package `sort` on them, and sets of strings as lists.
use mathlib.Core.Path.{◌≡◌, refl, ap, ◌∙◌}
use mathlib.Core.Bool.{Bool, true, false, not, ◌&&◌, ◌||◌}
use mathlib.Core.List.{List, [], ◌∷◌}
use native.Mathlib.Omega.{arith}
use domour.Common.Tests.{ltb, ◌==◌, if◌then◌else◌}
use domour.Common.Lists.{any, all}
use domour.Common.Text.{Str, equal, equal_iff}

-- `_, ok := set[s]`
abbrev pub has : List Str → Str → Bool
has set s = any (equal s) set

-- The order of bytes, for `<` on strings.
abbrev pub before : Str → Str → Bool
before [] [] = false
before [] (y ∷ ys) = true
before (x ∷ xs) [] = false
before (x ∷ xs) (y ∷ ys) = ltb x y || (x == y && before xs ys)

-- sort.Strings, by insertion.
abbrev pub sorted_insert : Str → List Str → List Str
sorted_insert s [] = s ∷ []
sorted_insert s (t ∷ ts) =
    let rest = sorted_insert s ts in if before t s then t ∷ rest else s ∷ t ∷ ts

abbrev pub sort_strings : List Str → List Str
sort_strings [] = []
sort_strings (s ∷ ss) = sorted_insert s (sort_strings ss)

pub before_trans : (a b c : Str) → before a b ≡ true → before b c ≡ true → before a c ≡ true
before_trans [] [] c p q = absurd (cc)
before_trans (x ∷ a) [] c p q = absurd (cc)
before_trans a (y ∷ b) [] p q = absurd (cc)
before_trans [] (y ∷ b) (z ∷ c) p q = refl
before_trans (x ∷ a) (y ∷ b) (z ∷ c) p q = ground (arith, before_trans a b c)

pub before_total : (a b : Str) → before a b ≡ false → before b a ≡ false → a ≡ b
before_total [] [] p q = refl
before_total [] (y ∷ b) p q = absurd (cc)
before_total (x ∷ a) [] p q = absurd (cc)
before_total (x ∷ a) (y ∷ b) p q = ground (arith, before_total a b)

-- The negated order is transitive too.
pub before_cotrans : (a b c : Str) → before a b ≡ false → before b c ≡ false → before a c ≡ false
before_cotrans [] [] c p q = q
before_cotrans [] (y ∷ b) c p q = absurd (cc)
before_cotrans (x ∷ a) b [] p q = refl
before_cotrans (x ∷ a) [] (z ∷ c) p q = absurd (cc)
before_cotrans (x ∷ a) (y ∷ b) (z ∷ c) p q = ground (arith, before_cotrans a b c)

pub before_irrefl : (a : Str) → before a a ≡ false
before_irrefl [] = refl
before_irrefl (x ∷ a) = ground (arith, before_irrefl a)

-- every string before all later ones
abbrev pub ascends : List Str → Bool
ascends [] = true
ascends (s ∷ ss) = all (before s) ss && ascends ss

all-before_trans :
    (s t : Str) (ss : List Str)
    → before s t ≡ true
    → all (before t) ss ≡ true
    → all (before s) ss ≡ true
all-before_trans s t [] st h = refl
all-before_trans s t (x ∷ ss) st h = ground (arith, before_trans s t x, all-before_trans s t ss)

all-sorted_insert :
    (p : Str → Bool) (s : Str) (ss : List Str) → all p (sorted_insert s ss) ≡ p s && all p ss
all-sorted_insert p s [] = ground arith
all-sorted_insert p s (t ∷ ss) = ground (arith, all-sorted_insert p s ss)

any-sorted_insert :
    (p : Str → Bool) (s : Str) (ss : List Str) → any p (sorted_insert s ss) ≡ p s || any p ss
any-sorted_insert p s [] = ground arith
any-sorted_insert p s (t ∷ ss) = ground (arith, any-sorted_insert p s ss)

-- Sorting keeps the elements.
pub any-sort_strings : (p : Str → Bool) (ss : List Str) → any p (sort_strings ss) ≡ any p ss
any-sort_strings p [] = refl
any-sort_strings p (s ∷ ss) =
    ground (arith, any-sorted_insert p s (sort_strings ss), any-sort_strings p ss)

pub all-sort_strings : (p : Str → Bool) (ss : List Str) → all p (sort_strings ss) ≡ all p ss
all-sort_strings p [] = refl
all-sort_strings p (s ∷ ss) =
    ground (arith, all-sorted_insert p s (sort_strings ss), all-sort_strings p ss)

sorted_insert-ascends :
    (s : Str) (ss : List Str)
    → has ss s ≡ false
    → ascends ss ≡ true
    → ascends (sorted_insert s ss) ≡ true
sorted_insert-ascends s [] fresh up = refl
sorted_insert-ascends s (t ∷ ss) fresh up = ground (
  arith,
  equal_iff s t,
  before_total t s,
  sorted_insert-ascends s ss,
  all-sorted_insert (before t) s ss,
  all-before_trans s t ss,
)

-- no string twice
abbrev pub differ : List Str → Bool
differ [] = true
differ (s ∷ ss) = not (has ss s) && differ ss

pub sort_strings-ascends : (ss : List Str) → differ ss ≡ true → ascends (sort_strings ss) ≡ true
sort_strings-ascends [] h = refl
sort_strings-ascends (s ∷ ss) h = ground (
  arith,
  any-sort_strings (equal s) ss,
  sort_strings-ascends ss,
  sorted_insert-ascends s (sort_strings ss),
)

sorted_insert-first :
    (s : Str) (ss : List Str) → all (before s) ss ≡ true → sorted_insert s ss ≡ s ∷ ss
sorted_insert-first s [] up = refl
sorted_insert-first s (t ∷ ss) up = ground (arith, before_trans s t s, before_irrefl s)

pub ascends-sort_strings : (ss : List Str) → ascends ss ≡ true → sort_strings ss ≡ ss
ascends-sort_strings [] up = refl
ascends-sort_strings (s ∷ ss) up =
    ap (sorted_insert s) (ascends-sort_strings ss (ground arith))
    ∙ sorted_insert-first s ss (ground arith)

ascends-fresh : (s : Str) (ss : List Str) → all (before s) ss ≡ true → has ss s ≡ false
ascends-fresh s [] up = refl
ascends-fresh s (t ∷ ss) up = ground (arith, before_irrefl s, equal_iff s t, ascends-fresh s ss)

pub ascends-differ : (ss : List Str) → ascends ss ≡ true → differ ss ≡ true
ascends-differ [] up = refl
ascends-differ (s ∷ ss) up = ground (arith, ascends-fresh s ss, ascends-differ ss)

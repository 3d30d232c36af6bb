-- ===== src/Common/Members.antt =====
-- The elements that `filter` keeps.
use mathlib.Core.Path.{◌≡◌, refl, ap, sym, ◌∙◌, subst}
use mathlib.Core.Logic.{inl, inr}
use mathlib.Core.Bool.{Bool, true}
use mathlib.Core.List.{List, [], ◌∷◌, Memᴰ}
use domour.Common.Tests.{Bool-cases}
use domour.Common.Lists.{filter}

module _ {A : Type 0} (p : A → Bool) (a : A) where
  filter-Mem_cons :
      (x : A) (xs : List A)
      → (Memᴰ a (filter p xs) → Memᴰ a xs × (p a ≡ true))
      → p x ≡ true
      → Memᴰ a (x ∷ filter p xs)
      → Memᴰ a (x ∷ xs) × (p a ≡ true)
  filter-Mem_cons x xs later h (Memᴰ.head e) = (Memᴰ.head e, ap p e ∙ h)
  filter-Mem_cons x xs later h (Memᴰ.tail m) = let (m', h') = later m in (Memᴰ.tail m', h')

  pub filter-Mem_source : (xs : List A) → Memᴰ a (filter p xs) → Memᴰ a xs × (p a ≡ true)
  filter-Mem_source (x ∷ xs) m = elim (Bool-cases (p x)) [
    | inl e ↦ filter-Mem_cons x xs (λ m'. filter-Mem_source xs m') e (subst (Memᴰ a) (rw e refl) m)
    | inr e ↦ let (m', h) = filter-Mem_source xs (subst (Memᴰ a) (rw e refl) m) in (Memᴰ.tail m', h)
  ]
  filter-Mem_source [] m = elim m [ ]

  pub filter-Mem_kept : (xs : List A) → p a ≡ true → Memᴰ a xs → Memᴰ a (filter p xs)
  filter-Mem_kept [] h m = elim m [ ]
  filter-Mem_kept (x ∷ xs) h (Memᴰ.head e) =
      subst (Memᴰ a) (rw (sym (ap p e) ∙ h) refl) (Memᴰ.head {xs = filter p xs} e)
  filter-Mem_kept (x ∷ xs) h (Memᴰ.tail m) = elim (Bool-cases (p x)) [
    | inl e ↦ subst (Memᴰ a) (rw e refl) (Memᴰ.tail {x = x} (filter-Mem_kept xs h m))
    | inr e ↦ subst (Memᴰ a) (rw e refl) (filter-Mem_kept xs h m)
  ]

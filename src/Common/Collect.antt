-- ===== src/Common/Collect.antt =====
-- Lists of strings in a normal form, without empty ones and repeats, in order.
use mathlib.Core.Path.{◌≡◌, refl, ap, sym, ◌∙◌}
use mathlib.Core.Logic.{inl, inr}
use mathlib.Core.Bool.{Bool, true, false, not, ◌&&◌, ◌||◌}
use mathlib.Core.List.{List, [], ◌∷◌, ◌++◌, append-nil, append_assoc}
use native.Mathlib.Omega.{arith}
use domour.Common.Tests.{if◌then◌else◌, Bool-cases}
use domour.Common.Lists.{any, all}
use domour.Common.Text.{Str, equal, equal_iff}
use domour.Common.Sort.{
  has, differ, sort_strings, all-sort_strings, sort_strings-ascends, ascends-sort_strings,
  ascends-differ,
}

module _ (f : Str → Str) where
  abbrev pub collect : List Str → List Str → List Str
  collect [] out = out
  collect (s ∷ ss) out =
      let t = f s in collect ss (if equal t [] || has out t then out else out ++ (t ∷ []))

  abbrev settled : Str → Bool
  settled t = equal (f t) t && not (equal t [])

  all-append : (p : Str → Bool) (xs : List Str) (x : Str) → all p (xs ++ (x ∷ [])) ≡ all p xs && p x
  all-append p [] x = ground arith
  all-append p (y ∷ xs) x = ground (arith, all-append p xs x)

  any-append : (p : Str → Bool) (xs : List Str) (x : Str) → any p (xs ++ (x ∷ [])) ≡ any p xs || p x
  any-append p [] x = ground arith
  any-append p (y ∷ xs) x = ground (arith, any-append p xs x)

  differ-append :
      (xs : List Str) (x : Str)
      → differ xs ≡ true
      → has xs x ≡ false
      → differ (xs ++ (x ∷ [])) ≡ true
  differ-append [] x h fresh = refl
  differ-append (y ∷ xs) x h fresh =
      ground (arith, equal_iff x y, equal_iff y x, any-append (equal y) xs x, differ-append xs x)

  collect-settled :
      ((s : Str) → f (f s) ≡ f s)
      → (ss out : List Str) → all settled out ≡ true
      → all settled (collect ss out) ≡ true
  collect-settled ff [] out h = h
  collect-settled ff (s ∷ ss) out h = elim (Bool-cases (equal (f s) [] || has out (f s))) [
    | inl e ↦ rw e (collect-settled ff ss out h)
    | inr e ↦ rw e (
        collect-settled ff ss (out ++ (f s ∷ []))
          (all-append settled out (f s) ∙ ground (arith, ff s, equal_iff (f (f s)) (f s))))
  ]

  collect-differ : (ss out : List Str) → differ out ≡ true → differ (collect ss out) ≡ true
  collect-differ [] out h = h
  collect-differ (s ∷ ss) out h = elim (Bool-cases (equal (f s) [] || has out (f s))) [
    | inl e ↦ rw e (collect-differ ss out h)
    | inr e ↦
        rw e (collect-differ ss (out ++ (f s ∷ [])) (differ-append out (f s) h (ground arith)))
  ]

  -- no string of the one is in the other
  abbrev apart : List Str → List Str → Bool
  apart ss out = all (λ s. not (has out s)) ss

  apart-append :
      (ss out : List Str) (s : Str)
      → apart ss out ≡ true
      → has ss s ≡ false
      → apart ss (out ++ (s ∷ [])) ≡ true
  apart-append [] out s h fresh = refl
  apart-append (t ∷ ss) out s h fresh =
      ground
        (arith, equal_iff s t, equal_iff t s, any-append (equal t) out s, apart-append ss out s)

  apart-nil : (ss : List Str) → apart ss [] ≡ true
  apart-nil [] = refl
  apart-nil (s ∷ ss) = apart-nil ss

  collect-same :
      (ss out : List Str)
      → all settled ss ≡ true
      → differ ss ≡ true
      → apart ss out ≡ true
      → collect ss out ≡ out ++ ss
  collect-same [] out h d a = sym (append-nil out)
  collect-same (s ∷ ss) out h d a =
      let same : f s ≡ s = (equal_iff (f s) s).0 (ground arith) in
      let new : (if equal (f s) [] || has out (f s) then out else out ++ (f s ∷ []))
          ≡ out ++ (s ∷ []) =
        rw same (ground arith) in
      ap (collect ss) new
      ∙ collect-same ss (out ++ (s ∷ [])) (ground arith) (ground arith)
          (apart-append ss out s (ground arith) (ground arith))
      ∙ append_assoc out (s ∷ []) ss

  pub sort-collect_twice :
      ((s : Str) → f (f s) ≡ f s)
      → (ss : List Str)
      → sort_strings (collect (sort_strings (collect ss [])) []) ≡ sort_strings (collect ss [])
  sort-collect_twice ff ss =
      let kept = collect ss [] in
      let up = sort_strings-ascends kept (collect-differ ss [] refl) in
      ap sort_strings (
        collect-same (sort_strings kept) []
          (all-sort_strings settled kept ∙ collect-settled ff ss [] refl)
          (ascends-differ (sort_strings kept) up) (apart-nil (sort_strings kept)))
      ∙ ascends-sort_strings (sort_strings kept) up

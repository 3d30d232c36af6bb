-- ===== src/Model/Registry/Order.antt =====
-- A query does not depend on the order in which the loop sees the map.
use mathlib.Core.List.{Memᴰ}
use domour.Common.{◌≡◌, ◌↔◌, refl, ap, sym, subst, ◌∙◌, Option, none, some, List, []}
use domour.Common.Text.{Str}
use domour.Common.Unicode.{Unicode}
use domour.Model.Registry.{Registration, Registry, to_set, best_loop, query_best_model}
use domour.Model.Registry.Best.{IsBest, NoCandidate, Best, best_loop-Best, better_tied}

-- A map has one entry for a key, and Register files a model under its own id.
pub record IsRegistry (m : Registry) : Type 0 where
  pub keyed : (k : Str) (reg : Registration) → Memᴰ (k, reg) m → reg.id ≡ k
  pub one : (k : Str) (a b : Registration) → Memᴰ (k, a) m → Memᴰ (k, b) m → a ≡ b

-- The same entries, in any order.
abbrev pub SameEntries : Registry → Registry → Type 0
SameEntries m n = (k : Str) (reg : Registration) → Memᴰ (k, reg) m ↔ Memᴰ (k, reg) n

module _ (u : Unicode) (required prefer exclude : List Str) (m n : Registry) (ok : IsRegistry m)
    (same : SameEntries m n) where
  none-some :
      (b : Registration)
      → NoCandidate u required prefer exclude m
      → IsBest u required prefer exclude n b
      → ◌≡◌ {A = Option Registration} none (some b)
  none-some b nothing best =
      absurd (cc (nothing best.key b ((same best.key b).1 best.there), best.fits))

  some-none :
      (b : Registration)
      → IsBest u required prefer exclude m b
      → NoCandidate u required prefer exclude n
      → ◌≡◌ {A = Option Registration} (some b) none
  some-none b best nothing =
      absurd (cc (nothing best.key b ((same best.key b).0 best.there), best.fits))

  some-some :
      (a b : Registration)
      → IsBest u required prefer exclude m a
      → IsBest u required prefer exclude n b
      → a ≡ b
  some-some a b p q =
      let b_there = (same q.key b).1 q.there in
      let tied =
        better_tied u required prefer exclude a b
          (q.unbeaten p.key a ((same p.key a).0 p.there) p.fits)
          (p.unbeaten q.key b b_there q.fits) in
      let keys : p.key ≡ q.key = sym (ok.keyed p.key a p.there) ∙ tied ∙ ok.keyed q.key b b_there in
      ok.one q.key a b (subst (λ k. Memᴰ (k, a) m) keys p.there) b_there

  Best-unique :
      (o1 o2 : Option Registration)
      → Best u required prefer exclude m o1
      → Best u required prefer exclude n o2
      → o1 ≡ o2
  Best-unique none none p q = refl
  Best-unique none (some b) p q = none-some b p q
  Best-unique (some a) none p q = some-none a p q
  Best-unique (some a) (some b) p q = ap some (some-some a b p q)

-- Go iterates over the map in no fixed order, and yet QueryBestModel returns the same provider and
-- model for any two orders of the same entries, provided that no key has two entries and every
-- model is filed under its own id.
pub query_best_model-order_free :
    (u : Unicode) (m n : Registry) (required prefer exclude : List Str)
    → IsRegistry m
    → SameEntries m n
    → query_best_model u m required prefer exclude ≡ query_best_model u n required prefer exclude
unfolding query_best_model
query_best_model-order_free u m n required prefer exclude ok same =
    let r = to_set u required in
    let p = to_set u prefer in
    let e = to_set u exclude in
    ap
      (λ o. elim o as (λ _. Str × Str) [
        | none ↦ ([], [])
        | some best ↦ (best.provider, best.model_name)
      ])
      (Best-unique u r p e m n ok same (best_loop u r p e m none) (best_loop u r p e n none)
        (best_loop-Best u r p e m) (best_loop-Best u r p e n))

-- ===== src/Memory/Cache/Lookup.antt =====
-- What a get may find after any calls, where the caches behind may lose entries.
use domour.Common.{
  ℕ, ◌≡◌, ◌≢◌, ◌⊎◌, refl, ap, sym, ◌∙◌, inl, inr, Bool-cases, Option-cases, Option, none, some,
  List, [], ◌∷◌, arith,
}
use domour.Common.Text.{Str, equal}
use domour.Common.Unicode.{Unicode, trim_space}
use domour.Memory.Cache.{
  CacheOps, Tier, long, short, ContextCache, new, key_tier, cache_of, with_cache, get, set, del,
}
use domour.Memory.Cache.Laws.{
  found, Loses, IsCache, Tier-dec, apart, Call, sets, dels, gets, waits, after, current,
}

module _ {C : Type 0} (ops : CacheOps C) (u : Unicode) where
  abbrev wait : Tier → ContextCache C → ContextCache C
  wait t cc = elim (cache_of t cc) [ none ↦ cc | some m ↦ with_cache t (ops.later m) cc ]

  unfoldable pub apply : Call → Option (ContextCache C) → Option (ContextCache C)
  apply (sets k v) cc = set ops u cc k v
  apply (dels k) cc = del ops cc k
  apply (gets k) cc = (get ops cc k).1
  apply (waits t) none = none
  apply (waits t) (some cc) = some (wait t cc)

  unfoldable pub run : List Call → Option (ContextCache C) → Option (ContextCache C)
  unfolding apply
  run [] cc = cc
  run (call ∷ calls) cc = run calls (apply call cc)

  abbrev found_in : Option C → Str → Option Str
  found_in none j = none
  found_in (some c) j = found ops c j

  get-found :
      (cc : ContextCache C) (j : Str)
      → (get ops (some cc) j).0 ≡ found_in (cache_of (key_tier j) cc) j
  unfolding get
  get-found cc j = elim (Option-cases (cache_of (key_tier j) cc)) [
    | inl e ↦ rw (get, e) refl
    | inr (m, e) ↦ elim (Option-cases (found ops m j)) [
      | inl e' ↦ rw (get, e, e') refl
      | inr (v, e') ↦ rw (get, e, e') refl
    ]
  ]

  cache_of-same : (t : Tier) (m : C) (cc : ContextCache C) → cache_of t (with_cache t m cc) ≡ some m
  cache_of-same long m cc = refl
  cache_of-same short m cc = refl

  cache_of-other :
      (t s : Tier) (m : C) (cc : ContextCache C)
      → s ≢ t
      → cache_of s (with_cache t m cc) ≡ cache_of s cc
  cache_of-other long short m cc ne = refl
  cache_of-other short long m cc ne = refl
  cache_of-other long long m cc ne = absurd (ne refl)
  cache_of-other short short m cc ne = absurd (ne refl)

  -- All that the cache can find is in `f`.
  Shown : ContextCache C → (Str → Option Str) → Type 0
  Shown cc f = (j x : Str) → found_in (cache_of (key_tier j) cc) j ≡ some x → f j ≡ some x

  changed :
      (t : Tier) (cc : ContextCache C) (m m' : C) (f f' : Str → Option Str)
      → cache_of t cc ≡ some m
      → ((j x : Str)
          → key_tier j ≡ t
          → found ops m' j ≡ some x
          → (found ops m j ≡ some x → f j ≡ some x)
          → f' j ≡ some x)
      → ((j : Str) → key_tier j ≢ t → f j ≡ f' j)
      → Shown cc f
      → Shown (with_cache t m' cc) f'
  unfolding Shown
  changed t cc m m' f f' at here there shown j x e = elim (Tier-dec (key_tier j) t) [
    | inl q ↦
        let now : cache_of (key_tier j) (with_cache t m' cc) ≡ some m' =
          ap (λ s. cache_of s (with_cache t m' cc)) q ∙ cache_of-same t m' cc in
        let before : cache_of (key_tier j) cc ≡ some m = ap (λ s. cache_of s cc) q ∙ at in
        here j x q (sym (ap (λ o. found_in o j) now) ∙ e)
          (λ h. shown j x (ap (λ o. found_in o j) before ∙ h))
    | inr ne ↦
        sym (there j ne)
        ∙ shown j x (sym (ap (λ o. found_in o j) (cache_of-other t (key_tier j) m' cc ne)) ∙ e)
  ]

  -- A call on a cache that was never made.
  unchanged :
      (t : Tier) (cc : ContextCache C) (f f' : Str → Option Str)
      → cache_of t cc ≡ none
      → ((j : Str) → key_tier j ≢ t → f j ≡ f' j)
      → Shown cc f
      → Shown cc f'
  unfolding Shown
  unchanged t cc f f' at there shown j x e = elim (Tier-dec (key_tier j) t) [
    | inl q ↦
        let h = sym (ap (λ o. found_in o j) (ap (λ s. cache_of s cc) q ∙ at)) ∙ e in
        absurd (ground arith)
    | inr ne ↦ sym (there j ne) ∙ shown j x e
  ]

  cache_of-counted :
      (t : Tier) (cc : ContextCache C) (hits misses : ℕ)
      → cache_of t (record cc { hits = hits; misses = misses }) ≡ cache_of t cc
  cache_of-counted long cc hits misses = refl
  cache_of-counted short cc hits misses = refl

  counted :
      (cc : ContextCache C) (f : Str → Option Str) (hits misses : ℕ)
      → Shown cc f
      → Shown (record cc { hits = hits; misses = misses }) f
  unfolding Shown
  counted cc f hits misses shown j x e =
      shown j x (sym (ap (λ o. found_in o j) (cache_of-counted (key_tier j) cc hits misses)) ∙ e)

  -- the state after a call, and what it can find
  IsShown : Option (ContextCache C) → (Str → Option Str) → Type 0
  IsShown o f = (cc : ContextCache C) × (o ≡ some cc) × Shown cc f

  module _ (empty : C) (laws : IsCache ops empty) (f : Str → Option Str) (cc : ContextCache C)
      (shown : Shown cc f) where
    sets-IsShown : (k v : Str) → IsShown (set ops u (some cc) k v) (after u (sets k v) f)
    unfolding set IsShown Shown
    sets-IsShown k v = elim (Bool-cases (equal (trim_space u v) [])) [
      | inl blank ↦ rw (set, blank) (cc, refl, λ j x e. ground (arith, shown j x e))
      | inr filled ↦
          let f' = after u (sets k v) f in
          let same : (j : Str) → key_tier j ≢ key_tier k → f j ≡ f' j =
            λ j ne. ground (arith, apart k j ne) in
          elim (Option-cases (cache_of (key_tier k) cc)) [
            | inl e ↦ (cc, rw (set, filled, e) refl, unchanged (key_tier k) cc f f' e same shown)
            | inr (m, e) ↦ (
              with_cache (key_tier k) (ops.set_in k v m) cc,
              rw (set, filled, e) refl,
              changed (key_tier k) cc m (ops.set_in k v m) f f' e
                  (λ j x q h old. elim (laws.stored k v m j x h) [
                    | inl (here, val) ↦ ground (arith, here, val)
                    | inr (there, before) ↦ ground (arith, there, old before)
                  ])
                  same shown,
            )
          ]
    ]

    dels-IsShown : (k : Str) → IsShown (del ops (some cc) k) (after u (dels k) f)
    unfolding del IsShown Shown
    dels-IsShown k =
        let f' = after u (dels k) f in
        let same : (j : Str) → key_tier j ≢ key_tier k → f j ≡ f' j =
          λ j ne. ground (arith, apart k j ne) in
        elim (Option-cases (cache_of (key_tier k) cc)) [
          | inl e ↦ rw (del, e) (cc, refl, unchanged (key_tier k) cc f f' e same shown)
          | inr (m, e) ↦
              rw (del, e)
                (
                  with_cache (key_tier k) (ops.delete_in k m) cc,
                  refl,
                  changed (key_tier k) cc m (ops.delete_in k m) f f' e
                      (λ j x q h old.
                        let (other, before) = laws.erased k m j x h in
                        ground (arith, other, old before))
                      same shown,
                )
        ]

    -- entries that are lost
    lost :
        (t : Tier) (m m' : C)
        → cache_of t cc ≡ some m
        → Loses ops m m'
        → Shown (with_cache t m' cc) f
    lost t m m' e loses =
        changed t cc m m' f f e (λ j x q h old. old (loses j x h)) (λ j ne. refl) shown

    gets-IsShown : (k : Str) → IsShown (get ops (some cc) k).1 f
    unfolding get IsShown Shown
    gets-IsShown k = elim (Option-cases (cache_of (key_tier k) cc)) [
      | inl e ↦ rw (get, e) (cc, refl, shown)
      | inr (m, e) ↦
          let left = lost (key_tier k) m (ops.get_in k m).1 e (laws.looked k m) in
          elim (Option-cases (found ops m k)) [
            | inl e' ↦ rw (get, e, e') (_, refl, counted _ f _ _ left)
            | inr (v, e') ↦ rw (get, e, e') (_, refl, counted _ f _ _ left)
          ]
    ]

    waits-IsShown : (t : Tier) → IsShown (some (wait t cc)) f
    unfolding IsShown
    waits-IsShown t = elim (Option-cases (cache_of t cc)) [
      | inl e ↦ rw (wait, e) (cc, refl, shown)
      | inr (m, e) ↦ rw (wait, e) (_, refl, lost t m (ops.later m) e (laws.passed m))
    ]

    apply-IsShown : (call : Call) → IsShown (apply call (some cc)) (after u call f)
    unfolding apply
    apply-IsShown (sets k v) = sets-IsShown k v
    apply-IsShown (dels k) = dels-IsShown k
    apply-IsShown (gets k) = gets-IsShown k
    apply-IsShown (waits t) = waits-IsShown t

  -- a cache that could not be made, or is empty
  abbrev pub IsEmpty : C → Option C → Type 0
  IsEmpty empty o = (o ≡ none) ⊎ (o ≡ some empty)

  empty-found :
      (empty : C) (o : Option C) (j : Str)
      → IsCache ops empty
      → IsEmpty empty o
      → found_in o j ≡ none
  empty-found empty o j laws (inl e) = ap (λ p. found_in p j) e
  empty-found empty o j laws (inr e) = ap (λ p. found_in p j) e ∙ laws.starts j

  new-IsEmpty :
      (t : Tier) (empty : C) (l s : Option C)
      → IsEmpty empty l
      → IsEmpty empty s
      → IsEmpty empty (cache_of t (new l s))
  unfolding new
  new-IsEmpty long empty l s el es = el
  new-IsEmpty short empty l s el es = es

  new-IsShown :
      (empty : C)
      → IsCache ops empty
      → (l s : Option C) → IsEmpty empty l
      → IsEmpty empty s
      → IsShown (some (new l s)) (λ k. none)
  unfolding new IsShown Shown
  new-IsShown empty laws l s el es = (
    new l s,
    refl,
    λ j x h.
        sym (
          empty-found empty (cache_of (key_tier j) (new l s)) j laws
            (new-IsEmpty (key_tier j) empty l s el es))
        ∙ h,
  )

  run-Shown :
      (empty : C)
      → IsCache ops empty
      → (calls : List Call) (f : Str → Option Str) (o : Option (ContextCache C)) → IsShown o f
      → (j x : Str) → (get ops (run calls o) j).0 ≡ some x
      → current u calls f j ≡ some x
  unfolding run IsShown Shown
  run-Shown empty laws [] f o (cc, e, shown) j x h =
      shown j x (sym (get-found cc j) ∙ sym (ap (λ p. (get ops p j).0) e) ∙ h)
  run-Shown empty laws (call ∷ calls) f o (cc, e, shown) j x h =
      run-Shown empty laws calls (after u call f) (apply call (some cc))
        (apply-IsShown empty laws f cc shown call) j x
        (ap (λ p. (get ops (run calls (apply call p)) j).0) (sym e) ∙ h)

  -- Over caches that may lose entries at any time: after any calls on a new context cache, whichever
  -- of the two caches could be made, a get finds under a key nothing but the value that was set last
  -- for exactly that key, not blank, and was not deleted since.
  pub get-run-current :
      (empty : C)
      → IsCache ops empty
      → (l s : Option C) → IsEmpty empty l
      → IsEmpty empty s
      → (calls : List Call) (j x : Str) → (get ops (run calls (some (new l s))) j).0 ≡ some x
      → current u calls (λ k. none) j ≡ some x
  get-run-current empty laws l s el es calls j x h =
      run-Shown empty laws calls (λ k. none) (some (new l s)) (new-IsShown empty laws l s el es) j x
        h

-- ===== src/Memory/Cache/Laws.antt =====
-- What the caches behind promise, and what calls of the context cache leave under each key.
use domour.Common.{
  ◌≡◌, ◌≢◌, ◌⊎◌, refl, ap, sym, inl, inr, true, false, Bool-cases, Option, none, some, List, [],
  ◌∷◌, if◌then◌else◌,
}
use domour.Common.Text.{Str, equal, equal_iff}
use domour.Common.Unicode.{Unicode, trim_space}
use domour.Memory.Cache.{CacheOps, Tier, long, short, key_tier}

module _ {C : Type 0} (ops : CacheOps C) where
  abbrev pub found : C → Str → Option Str
  found c j = (ops.get_in j c).0

  -- `d` may have lost entries of `c`, and has no others.
  abbrev pub Loses : C → C → Type 0
  Loses c d = (j x : Str) → found d j ≡ some x → found c j ≡ some x

  -- What package otter documents: a cache starts empty, may lose entries at any time, and finds under
  -- a key nothing but the value that was set for it.
  pub record IsCache (empty : C) : Type 0 where
    pub starts : (j : Str) → found empty j ≡ none
    pub looked : (k : Str) (c : C) → Loses c (ops.get_in k c).1
    pub passed : (c : C) → Loses c (ops.later c)
    pub stored :
        (k v : Str) (c : C) (j x : Str)
        → found (ops.set_in k v c) j ≡ some x
        → ((equal k j ≡ true) × (v ≡ x)) ⊎ ((equal k j ≡ false) × (found c j ≡ some x))
    pub erased :
        (k : Str) (c : C) (j x : Str)
        → found (ops.delete_in k c) j ≡ some x
        → (equal k j ≡ false) × (found c j ≡ some x)

pub Tier-dec : (s t : Tier) → (s ≡ t) ⊎ (s ≢ t)
Tier-dec long long = inl refl
Tier-dec short short = inl refl
Tier-dec long short = inr (λ e. absurd (cc e))
Tier-dec short long = inr (λ e. absurd (cc e))

-- keys of different tiers are different
pub apart : (k j : Str) → key_tier j ≢ key_tier k → equal k j ≡ false
apart k j ne = elim (Bool-cases (equal k j)) [
  | inl e ↦ absurd (ne (sym (ap key_tier ((equal_iff k j).0 e))))
  | inr other ↦ other
]

-- calls of the methods, and time that passes for a cache
pub data Call : Type 0 where
  sets : Str → Str → Call
  dels gets : Str → Call
  waits : Tier → Call

-- What each key has after a call; a set of a blank value does nothing.
abbrev pub after : Unicode → Call → (Str → Option Str) → Str → Option Str
after u (sets k v) f j =
    if equal (trim_space u v) [] then f j else if equal k j then some v else f j
after u (dels k) f j = if equal k j then none else f j
after u (gets k) f j = f j
after u (waits t) f j = f j

-- the value set last for a key and not deleted since
abbrev pub current : Unicode → List Call → (Str → Option Str) → Str → Option Str
current u [] f j = f j
current u (call ∷ calls) f j = current u calls (after u call f) j

-- ===== src/Memory/Cache/Tests.antt =====
-- Entries under three keys.
use domour.Common.{
  ◌≡◌, refl, inl, inr, false, Bool-cases, Option, none, some, List, [], ◌∷◌, if◌then◌else◌, arith,
}
use domour.Common.Text.{Str, codes, equal, equal_iff, has_prefix}
use domour.Common.Unicode.{ascii, trim_space, trim_left, space_rune}
use domour.Memory.Cache.{CacheOps, new, key_tier, get, set}
use domour.Memory.Cache.Laws.{IsCache, Call, sets, gets, current}
use domour.Memory.Cache.Lookup.{apply, run, get-run-current}
use domour.Memory.Cache.Keys.{topic_meta, built, kind, equal_keys-same_kind, topic_keys-collide}

abbrev hash : Str → Str
hash s = codes "0"

-- a cache with room for one entry, which is evicted by the next
abbrev Slot : Type 0
Slot = Option (Str × Str)

abbrev slot_get : Str → Slot → Option Str
slot_get k none = none
slot_get k (some (j, v)) = if equal j k then some v else none

abbrev slot_delete : Str → Slot → Slot
slot_delete k none = none
slot_delete k (some (j, v)) = if equal k j then none else some (j, v)

abbrev slot : CacheOps Slot
slot = record {
  get_in = λ k c. (slot_get k c, c);
  set_in = λ k v c. some (k, v);
  delete_in = slot_delete;
  later = λ c. none;
}

slot-erased :
    (k : Str) (c : Slot) (j x : Str)
    → slot_get j (slot_delete k c) ≡ some x
    → (equal k j ≡ false) × (slot_get j c ≡ some x)
slot-erased k none j x h = absurd (ground arith)
slot-erased k (some (i, v)) j x h = ground (arith, equal_iff i k, equal_iff i j, equal_iff k j)

slot-IsCache : IsCache slot none
slot-IsCache = record {
  starts = λ j. refl;
  looked = λ k c j x h. h;
  passed = λ c j x h. absurd (ground arith);
  stored = λ k v c j x h. elim (Bool-cases (equal k j)) [
    | inl e ↦ inl (e, ground arith)
    | inr e ↦ absurd (ground arith)
  ];
  erased = slot-erased;
}

-- The last key is long-lived, and the first is evicted by the second.
abbrev calls : List Call
calls =
    sets (codes "j") (codes "w")
    ∷ sets (codes "k") (codes "x")
    ∷ gets (codes "j")
    ∷ sets (codes "tier1:global") (codes "g")
    ∷ sets (codes "k") (codes " ")
    ∷ []

calls-found :
    (get slot (run slot ascii calls (some (new (some none) (some none)))) (codes "k")).0
    ≡ some (codes "x")
unfolding run apply new get set key_tier equal trim_space trim_left space_rune has_prefix
calls-found = refl

calls-evicted :
    (get slot (run slot ascii calls (some (new (some none) (some none)))) (codes "j")).0 ≡ none
unfolding run apply new get set key_tier equal trim_space trim_left space_rune has_prefix
calls-evicted = refl

get-run-current_example : current ascii calls (λ k. none) (codes "k") ≡ some (codes "x")
get-run-current_example =
    get-run-current slot ascii none slot-IsCache (some none) (some none) (inr refl) (inr refl) calls
      (codes "k") (codes "x") calls-found

equal_keys-same_kind_example :
    kind (topic_meta (codes "s:a") (codes "b")) ≡ kind (topic_meta (codes "s") (codes "a:b"))
equal_keys-same_kind_example =
    equal_keys-same_kind hash (topic_meta (codes "s:a") (codes "b"))
      (topic_meta (codes "s") (codes "a:b"))
      (topic_keys-collide hash (codes "s") (codes "a") (codes "b"))

topic_keys-collide_example :
    built hash (topic_meta (codes "s:a") (codes "b"))
    ≡ built hash (topic_meta (codes "s") (codes "a:b"))
topic_keys-collide_example = topic_keys-collide hash (codes "s") (codes "a") (codes "b")

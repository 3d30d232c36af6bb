-- ===== src/Memory/Cache.antt =====
-- internal/bionic/memory/context_cache.go: two caches under one set of keys. `hash` stands for the
-- first 12 bytes of SHA-256 in hexadecimal digits. The two caches behind it, of package otter, are a
-- parameter: they evict and expire entries on their own. A receiver that may be nil is an Option.
pub mod Entries
pub mod Laws
pub mod Lookup
pub mod Keys
mod Tests
use domour.Common.{
  ℕ, ◌+◌, Bool, true, false, ◌||◌, Option, none, some, List, [], ◌∷◌, ◌++◌, if◌then◌else◌,
}
use domour.Common.Text.{Str, codes, equal, has_prefix}
use domour.Common.Assoc.{Assoc, lookup, insert, delete}
use domour.Common.Unicode.{Unicode, trim_space}

pub data Tier : Type 0 where
  long short : Tier

-- The operations of a cache: Get, which may change what is evicted later, Set, Delete; and what
-- happens while no call is made.
pub record CacheOps (C : Type 0) : Type 0 where
  pub get_in : Str → C → Option Str × C
  pub set_in : Str → Str → C → C
  pub delete_in : Str → C → C
  pub later : C → C

-- A cache is none where its construction failed.
pub record ContextCache (C : Type 0) : Type 0 where
  pub long_cache : Option C
  pub short_cache : Option C
  pub hits : ℕ
  pub misses : ℕ

-- The end of NewContextCache, with the two caches that were made.
unfoldable pub new : {C : Type 0} → Option C → Option C → ContextCache C
new long_cache short_cache = record {
  long_cache = long_cache;
  short_cache = short_cache;
  hits = 0;
  misses = 0;
}

abbrev colon : Str
colon = codes ":"

module _ (hash : Str → Str) where
  unfoldable pub key_tier1_global : Str
  key_tier1_global = codes "tier1:global"

  unfoldable pub key_tier1_skills : Str → Str
  key_tier1_skills name = codes "tier1:skills:" ++ name

  unfoldable pub key_tier2_project : Str → Str
  key_tier2_project dir = codes "tier2:project:" ++ hash dir

  unfoldable pub key_session_meta : Str → Str
  key_session_meta session_id = codes "sess:meta:" ++ session_id

  unfoldable pub key_topic_meta : Str → Str → Str
  key_topic_meta session_id topic_id = codes "topic:meta:" ++ (session_id ++ (b':' ∷ topic_id))

  unfoldable pub key_tier3_file : Str → Str
  key_tier3_file path = codes "tier3:file:" ++ hash path

  unfoldable pub key_session_tool_result : Str → Str → Str → Str
  key_session_tool_result session_id tool arg_hash =
      codes "sess:tool:" ++ (session_id ++ (b':' ∷ (tool ++ (b':' ∷ hash arg_hash))))

  unfoldable pub key_topic_stm : Str → Str → Str
  key_topic_stm session_id topic_id = codes "topic:stm:" ++ (session_id ++ (b':' ∷ topic_id))

  unfoldable pub key_assemble : Str → Str → Str → Str → Str
  key_assemble session_id topic_id agent_id seq =
      codes "ctx:assemble:"
      ++ (session_id ++ (b':' ∷ (topic_id ++ (b':' ∷ (agent_id ++ (b':' ∷ seq))))))

  unfoldable pub key_render : Str → Str → Str → Str → Str → Str
  key_render session_id topic_id agent_id seq tag =
      codes "ctx:render:"
      ++ (session_id
          ++ (b':' ∷ (topic_id ++ (b':' ∷ (agent_id ++ (b':' ∷ (seq ++ (b':' ∷ tag))))))))

-- keyTier
unfoldable pub key_tier : Str → Tier
unfolding has_prefix
key_tier key =
    if has_prefix key (codes "tier1:")
      || has_prefix key (codes "tier2:")
      || has_prefix key (codes "sess:meta:")
      || has_prefix key (codes "conv:meta:")
    then long
    else short

module _ {C : Type 0} where
  abbrev pub cache_of : Tier → ContextCache C → Option C
  cache_of long cc = cc.long_cache
  cache_of short cc = cc.short_cache

  abbrev pub with_cache : Tier → C → ContextCache C → ContextCache C
  with_cache long m cc = record cc { long_cache = some m }
  with_cache short m cc = record cc { short_cache = some m }

module _ {C : Type 0} (ops : CacheOps C) where
  -- ContextCache.get: what is found, and the cache after.
  unfoldable pub get : Option (ContextCache C) → Str → Option Str × Option (ContextCache C)
  unfolding key_tier
  get none key = (none, none)
  get (some cc) key = elim (cache_of (key_tier key) cc) [
    | none ↦ (none, some cc)
    | some m ↦
        let (found, m') = ops.get_in key m in
        let cc' = with_cache (key_tier key) m' cc in
        elim found [
          | some val ↦ (some val, some (record cc' { hits = cc'.hits + 1 }))
          | none ↦ (none, some (record cc' { misses = cc'.misses + 1 }))
        ]
  ]

  -- ContextCache.set
  unfoldable pub set : Unicode → Option (ContextCache C) → Str → Str → Option (ContextCache C)
  unfolding key_tier
  set u none key val = none
  set u (some cc) key val =
      if equal (trim_space u val) [] then some cc else elim (cache_of (key_tier key) cc) [
        | none ↦ some cc
        | some m ↦ some (with_cache (key_tier key) (ops.set_in key val m) cc)
      ]

  -- ContextCache.del
  unfoldable pub del : Option (ContextCache C) → Str → Option (ContextCache C)
  unfolding key_tier
  del none key = none
  del (some cc) key = elim (cache_of (key_tier key) cc) [
    | none ↦ some cc
    | some m ↦ some (with_cache (key_tier key) (ops.delete_in key m) cc)
  ]

  -- InvalidateTopic
  unfoldable pub invalidate_topic :
      (Str → Str) → Option (ContextCache C) → Str → Str → Option (ContextCache C)
  unfolding del
  invalidate_topic hash cc session_id topic_id =
      del (del cc (key_topic_stm hash session_id topic_id))
        (key_topic_meta hash session_id topic_id)

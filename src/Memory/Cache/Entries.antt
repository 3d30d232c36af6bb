-- ===== src/Memory/Cache/Entries.antt =====
-- internal/bionic/memory/context_cache.go: the methods for each kind of entry, the sizes of the two
-- caches and the counters.
use domour.Common.{ℕ, ◌-◌, ◌*◌, ◌/◌, ℤ, pos, negsuc, Option, ltb, ◌==◌, if◌then◌else◌}
use domour.Common.Text.{Str}
use domour.Common.Unicode.{Unicode}
use domour.Memory.Cache.{
  CacheOps, ContextCache, get, set, del, key_tier1_global, key_tier1_skills, key_tier2_project,
  key_tier3_file, key_session_meta, key_session_tool_result, key_topic_meta, key_topic_stm,
  key_assemble, key_render,
}

-- The sizes of the long-lived and the short-lived cache in NewContextCache.
unfoldable pub budgets : ℤ → ℕ × ℕ
budgets capacity =
    let total : ℕ = elim capacity [ pos n ↦ (if n == 0 then 2048 else n) | negsuc _ ↦ 2048 ] in
    let six_tenths = total * 6 / 10 in
    let long = if ltb six_tenths 64 then 64 else six_tenths in
    let short = if ltb (total - long) 64 then 64 else total - long in (long, short)

module _ {C : Type 0} (ops : CacheOps C) (hash : Str → Str) where
  -- GetTier1Global
  unfoldable pub get_tier1_global : Option (ContextCache C) → Option Str × Option (ContextCache C)
  get_tier1_global cc = get ops cc (key_tier1_global hash)

  -- SetTier1Global
  unfoldable pub set_tier1_global :
      Unicode → Str → Option (ContextCache C) → Option (ContextCache C)
  set_tier1_global u content cc = set ops u cc (key_tier1_global hash) content

  -- InvalidateTier1Global
  unfoldable pub invalidate_tier1_global : Option (ContextCache C) → Option (ContextCache C)
  invalidate_tier1_global cc = del ops cc (key_tier1_global hash)

  -- GetTier1Skills
  unfoldable pub get_tier1_skills :
      Str → Option (ContextCache C) → Option Str × Option (ContextCache C)
  get_tier1_skills name cc = get ops cc (key_tier1_skills hash name)

  -- SetTier1Skills
  unfoldable pub set_tier1_skills :
      Unicode → Str → Str → Option (ContextCache C) → Option (ContextCache C)
  set_tier1_skills u name content cc = set ops u cc (key_tier1_skills hash name) content

  -- GetTier2Project
  unfoldable pub get_tier2_project :
      Str → Option (ContextCache C) → Option Str × Option (ContextCache C)
  get_tier2_project dir cc = get ops cc (key_tier2_project hash dir)

  -- SetTier2Project
  unfoldable pub set_tier2_project :
      Unicode → Str → Str → Option (ContextCache C) → Option (ContextCache C)
  set_tier2_project u dir content cc = set ops u cc (key_tier2_project hash dir) content

  -- InvalidateTier2Project
  unfoldable pub invalidate_tier2_project : Str → Option (ContextCache C) → Option (ContextCache C)
  invalidate_tier2_project dir cc = del ops cc (key_tier2_project hash dir)

  -- GetTier3File
  unfoldable pub get_tier3_file :
      Str → Option (ContextCache C) → Option Str × Option (ContextCache C)
  get_tier3_file abs_path cc = get ops cc (key_tier3_file hash abs_path)

  -- SetTier3File
  unfoldable pub set_tier3_file :
      Unicode → Str → Str → Option (ContextCache C) → Option (ContextCache C)
  set_tier3_file u abs_path content cc = set ops u cc (key_tier3_file hash abs_path) content

  -- InvalidateTier3File
  unfoldable pub invalidate_tier3_file : Str → Option (ContextCache C) → Option (ContextCache C)
  invalidate_tier3_file abs_path cc = del ops cc (key_tier3_file hash abs_path)

  -- GetSessionMeta
  unfoldable pub get_session_meta :
      Str → Option (ContextCache C) → Option Str × Option (ContextCache C)
  get_session_meta session_id cc = get ops cc (key_session_meta hash session_id)

  -- SetSessionMeta
  unfoldable pub set_session_meta :
      Unicode → Str → Str → Option (ContextCache C) → Option (ContextCache C)
  set_session_meta u session_id content cc = set ops u cc (key_session_meta hash session_id) content

  -- InvalidateSessionMeta
  unfoldable pub invalidate_session_meta : Str → Option (ContextCache C) → Option (ContextCache C)
  invalidate_session_meta session_id cc = del ops cc (key_session_meta hash session_id)

  -- GetSessionToolResult
  unfoldable pub get_session_tool_result :
      Str → Str → Str → Option (ContextCache C) → Option Str × Option (ContextCache C)
  get_session_tool_result session_id tool_name arg_hash cc =
      get ops cc (key_session_tool_result hash session_id tool_name arg_hash)

  -- SetSessionToolResult
  unfoldable pub set_session_tool_result :
      Unicode → Str → Str → Str → Str → Option (ContextCache C) → Option (ContextCache C)
  set_session_tool_result u session_id tool_name arg_hash content cc =
      set ops u cc (key_session_tool_result hash session_id tool_name arg_hash) content

  -- GetTopicMeta
  unfoldable pub get_topic_meta :
      Str → Str → Option (ContextCache C) → Option Str × Option (ContextCache C)
  get_topic_meta session_id topic_id cc = get ops cc (key_topic_meta hash session_id topic_id)

  -- SetTopicMeta
  unfoldable pub set_topic_meta :
      Unicode → Str → Str → Str → Option (ContextCache C) → Option (ContextCache C)
  set_topic_meta u session_id topic_id content cc =
      set ops u cc (key_topic_meta hash session_id topic_id) content

  -- GetTopicSTM
  unfoldable pub get_topic_stm :
      Str → Str → Option (ContextCache C) → Option Str × Option (ContextCache C)
  get_topic_stm session_id topic_id cc = get ops cc (key_topic_stm hash session_id topic_id)

  -- SetTopicSTM
  unfoldable pub set_topic_stm :
      Unicode → Str → Str → Str → Option (ContextCache C) → Option (ContextCache C)
  set_topic_stm u session_id topic_id content cc =
      set ops u cc (key_topic_stm hash session_id topic_id) content

  -- GetAssemble
  unfoldable pub get_assemble :
      Str → Str → Str → Str → Option (ContextCache C) → Option Str × Option (ContextCache C)
  get_assemble session_id conv_id agent_id seq cc =
      get ops cc (key_assemble hash session_id conv_id agent_id seq)

  -- SetAssemble
  unfoldable pub set_assemble :
      Unicode → Str → Str → Str → Str → Str → Option (ContextCache C) → Option (ContextCache C)
  set_assemble u session_id conv_id agent_id seq content cc =
      set ops u cc (key_assemble hash session_id conv_id agent_id seq) content

  -- GetRender
  unfoldable pub get_render :
      Str → Str → Str → Str → Str → Option (ContextCache C) → Option Str × Option (ContextCache C)
  get_render session_id conv_id agent_id seq tag cc =
      get ops cc (key_render hash session_id conv_id agent_id seq tag)

  -- SetRender
  unfoldable pub set_render :
      Unicode
      → Str
      → Str
      → Str
      → Str
      → Str
      → Str
      → Option (ContextCache C)
      → Option (ContextCache C)
  set_render u session_id conv_id agent_id seq tag content cc =
      set ops u cc (key_render hash session_id conv_id agent_id seq tag) content

-- PurgeSession leaves the entries to expire.
unfoldable pub purge_session :
    {C : Type 0} → Str → Option (ContextCache C) → Option (ContextCache C)
purge_session session_id cc = cc

-- Stats; the size is never set.
unfoldable pub stats : {C : Type 0} → ContextCache C → ℕ × ℕ
stats cc = (cc.hits, cc.misses)

-- ResetStats
unfoldable pub reset_stats : {C : Type 0} → ContextCache C → ContextCache C
reset_stats cc = record cc { hits = 0; misses = 0 }

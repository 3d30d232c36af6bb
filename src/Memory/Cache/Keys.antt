-- ===== src/Memory/Cache/Keys.antt =====
-- Keys of different kinds never meet; keys of one kind may.
use domour.Common.{
  ℕ, suc, ◌≡◌, refl, ap, sym, ◌∙◌, List, [], ◌∷◌, ◌++◌, append_assoc, if◌then◌else◌,
}
use domour.Common.Text.{Str, codes, has_prefix}
use domour.Memory.Cache.{
  short, key_tier, key_tier1_global, key_tier1_skills, key_tier2_project, key_session_meta,
  key_topic_meta, key_tier3_file, key_session_tool_result, key_topic_stm, key_assemble, key_render,
}

-- The arguments of the ten key builders.
pub data Key : Type 0 where
  tier1_global : Key
  tier1_skills tier2_project session_meta tier3_file : Str → Key
  topic_meta topic_stm : Str → Str → Key
  session_tool_result : Str → Str → Str → Key
  assemble : Str → Str → Str → Str → Key
  render : Str → Str → Str → Str → Str → Key

abbrev pub built : (Str → Str) → Key → Str
built hash tier1_global = key_tier1_global hash
built hash (tier1_skills a) = key_tier1_skills hash a
built hash (tier2_project a) = key_tier2_project hash a
built hash (session_meta a) = key_session_meta hash a
built hash (tier3_file a) = key_tier3_file hash a
built hash (topic_meta a b) = key_topic_meta hash a b
built hash (topic_stm a b) = key_topic_stm hash a b
built hash (session_tool_result a b c) = key_session_tool_result hash a b c
built hash (assemble a b c d) = key_assemble hash a b c d
built hash (render a b c d e) = key_render hash a b c d e

abbrev pub kind : Key → ℕ
kind tier1_global = 0
kind (tier1_skills a) = 1
kind (tier2_project a) = 2
kind (session_meta a) = 3
kind (tier3_file a) = 4
kind (topic_meta a b) = 5
kind (topic_stm a b) = 6
kind (session_tool_result a b c) = 7
kind (assemble a b c d) = 8
kind (render a b c d e) = 9

abbrev prefixes : List Str
prefixes =
    codes "tier1:global"
    ∷ codes "tier1:skills:"
    ∷ codes "tier2:project:"
    ∷ codes "sess:meta:"
    ∷ codes "tier3:file:"
    ∷ codes "topic:meta:"
    ∷ codes "topic:stm:"
    ∷ codes "sess:tool:"
    ∷ codes "ctx:assemble:"
    ∷ codes "ctx:render:"
    ∷ []

-- the number of the first prefix that the text has
abbrev first_prefix : List Str → Str → ℕ
first_prefix [] s = 0
first_prefix (p ∷ ps) s = if has_prefix s p then 0 else suc (first_prefix ps s)

first_prefix-kind : (hash : Str → Str) (k : Key) → first_prefix prefixes (built hash k) ≡ kind k
unfolding has_prefix key_tier1_global key_tier1_skills key_tier2_project key_session_meta
    key_tier3_file key_topic_meta key_topic_stm key_session_tool_result key_assemble key_render
first_prefix-kind hash tier1_global = refl
first_prefix-kind hash (tier1_skills a) = refl
first_prefix-kind hash (tier2_project a) = refl
first_prefix-kind hash (session_meta a) = refl
first_prefix-kind hash (tier3_file a) = refl
first_prefix-kind hash (topic_meta a b) = refl
first_prefix-kind hash (topic_stm a b) = refl
first_prefix-kind hash (session_tool_result a b c) = refl
first_prefix-kind hash (assemble a b c d) = refl
first_prefix-kind hash (render a b c d e) = refl

-- Two keys that are equal are of one kind, whatever the ids and the hash function: what is cached
-- for one purpose is never found for another.
pub equal_keys-same_kind :
    (hash : Str → Str) (a b : Key) → built hash a ≡ built hash b → kind a ≡ kind b
equal_keys-same_kind hash a b e =
    sym (first_prefix-kind hash a) ∙ ap (first_prefix prefixes) e ∙ first_prefix-kind hash b

-- The keys of two topics are equal for two different pairs of ids: a colon in an id moves the
-- border between the session and the topic.
pub topic_keys-collide :
    (hash : Str → Str) (a b c : Str)
    → built hash (topic_meta (a ++ (b':' ∷ b)) c) ≡ built hash (topic_meta a (b ++ (b':' ∷ c)))
unfolding key_topic_meta
topic_keys-collide hash a b c =
    ap (λ x. codes "topic:meta:" ++ x) (append_assoc a (b':' ∷ b) (b':' ∷ c))

-- The metadata of a topic goes to the cache of short-lived entries, for every session and topic.
pub topic_meta-short :
    (hash : Str → Str) (a b : Str) → key_tier (built hash (topic_meta a b)) ≡ short
unfolding key_tier has_prefix key_topic_meta
topic_meta-short hash a b = refl

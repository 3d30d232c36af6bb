-- ===== src/Config/Normalize.antt =====
-- internal/config/config.go: the normal form of a configuration that was read. `home` is
-- DomourHomeDir, `user_home` os.UserHomeDir, empty where that fails, and `join` filepath.Join.
mod Rebuild
mod Twice
mod Tests
use domour.Common.{
  Bool, true, false, not, ◌&&◌, ◌||◌, List, [], ◌∷◌, ◌++◌, map, if◌then◌else◌, drop,
}
use domour.Common.Text.{Str, codes, equal, has_prefix}
use domour.Common.Assoc.{Assoc, insert}
use domour.Common.Sort.{has, sort_strings}
use domour.Common.Unicode.{Unicode, to_lower, trim_space}
use domour.Config.{ProviderConfig, EntryConfig, ModeMapping, McpServerConfig, DomourConfig}
use domour.Config.Selection.{
  normalize_provider_key, normalize_entry_key, normalize_and_deduplicate_model_ids,
}

-- A new map with each key and value of `m` in its normal form. Where `skip` holds of the new key,
-- the entry is left out.
unfoldable pub rebuild {ℓ} :
    {V : Type ℓ} → (Str → Bool) → (Str → Str) → (V → V) → Assoc V → Assoc V → Assoc V
unfolding insert
rebuild skip key value [] out = out
rebuild skip key value ((k, v) ∷ m) out =
    let out' = if skip (key k) then out else insert (key k) (value v) out in
    rebuild skip key value m out'

abbrev pub is_empty : Str → Bool
is_empty s = equal s []

abbrev pub never : Str → Bool
never s = false

module _ (u : Unicode) where
  -- the loop of normalizeTags
  unfoldable pub distinct_tags : List Str → List Str → List Str
  distinct_tags [] out = out
  distinct_tags (s ∷ ss) out =
      let t = trim_space u (to_lower u s) in
      distinct_tags ss (if equal t [] || has out t then out else out ++ (t ∷ []))

  -- normalizeTags
  unfoldable pub normalize_tags : List Str → List Str
  unfolding distinct_tags
  normalize_tags tags = sort_strings (distinct_tags tags [])

  unfoldable pub normalize_provider : ProviderConfig → ProviderConfig
  normalize_provider p = record p {
    https_proxy = trim_space u p.https_proxy;
    api_key = trim_space u p.api_key;
    base_url = trim_space u p.base_url;
    model = trim_space u p.model;
    models = normalize_and_deduplicate_model_ids u p.models;
  }

  unfoldable pub normalize_entry : EntryConfig → EntryConfig
  normalize_entry e = record {
    provider = normalize_provider_key u e.provider;
    model = trim_space u e.model;
  }

  unfoldable pub normalize_mode : ModeMapping → ModeMapping
  normalize_mode mm = record {
    require = normalize_tags mm.require;
    prefer = normalize_tags mm.prefer;
    exclude = normalize_tags mm.exclude;
  }

  unfoldable pub normalize_mcp_server : McpServerConfig → McpServerConfig
  normalize_mcp_server s = record s {
    kind = to_lower u (trim_space u s.kind);
    command = trim_space u s.command;
    url = trim_space u s.url;
    app_id = trim_space u s.app_id;
  }

  module _ (home user_home : Str) (join : Str → Str → Str) where
    -- MCPDir and SkillsDir
    unfoldable pub normalize_dir : Str → Str → Str
    unfolding has_prefix
    normalize_dir name dir =
        let d = trim_space u dir in
        if equal d []
        then join home name
        else if has_prefix d (codes "~") && not (equal user_home [])
        then join user_home (drop 1 d)
        else d

    -- normalizeDomourConfig; DefaultHTTPSProxy is the empty text.
    unfoldable pub normalize_domour_config : DomourConfig → DomourConfig
    unfolding rebuild
    normalize_domour_config c = record c {
      https_proxy = trim_space u c.https_proxy;
      default_provider = normalize_provider_key u c.default_provider;
      default_model = trim_space u c.default_model;
      mcp_dir = normalize_dir (codes "mcp") c.mcp_dir;
      skills_dir = normalize_dir (codes "skills") c.skills_dir;
      providers = rebuild is_empty (normalize_provider_key u) normalize_provider c.providers [];
      entries = rebuild is_empty (normalize_entry_key u) normalize_entry c.entries [];
      mode_mappings =
          rebuild is_empty (λ k. to_lower u (trim_space u k)) normalize_mode c.mode_mappings [];
      mcp_servers = rebuild never (trim_space u) normalize_mcp_server c.mcp_servers [];
    }

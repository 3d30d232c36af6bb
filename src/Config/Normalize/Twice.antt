-- ===== src/Config/Normalize/Twice.antt =====
-- internal/config/config.go: normalising a second time changes nothing.
use domour.Common.{
  Bool, false, not, ◌&&◌, ◌≡◌, ◌≢◌, refl, ap, sym, ◌∙◌, inl, inr, arith, List, [], ◌∷◌, Bool-cases,
  drop,
}
use domour.Common.Text.{Str, codes, equal, equal_iff, has_prefix}
use domour.Common.Sort.{sort_strings}
use domour.Common.Collect.{collect, sort-collect_twice}
use domour.Common.Unicode.{Unicode, to_lower, trim_space}
use domour.Common.Trim.{CaseLaws, trim_space_twice, to_lower_twice, trim_space-to_lower}
use domour.Config.{ProviderConfig, EntryConfig, ModeMapping, McpServerConfig, DomourConfig}
use domour.Config.Selection.{
  normalize_provider_key, normalize_entry_key, distinct_models, normalize_and_deduplicate_model_ids,
}
use domour.Config.Selection.Keys.{normalize_provider_key_twice, lower-trim_twice}
use domour.Config.Normalize.{
  is_empty, never, distinct_tags, normalize_tags, normalize_provider, normalize_entry,
  normalize_mode, normalize_mcp_server, normalize_dir, normalize_domour_config,
}
use domour.Config.Normalize.Rebuild.{rebuild_twice}

module _ (u : Unicode) where
  distinct_models-collect :
      (ss out : List Str) → distinct_models u ss out ≡ collect (trim_space u) ss out
  unfolding distinct_models
  distinct_models-collect [] out = refl
  distinct_models-collect (s ∷ ss) out = distinct_models-collect ss _

  distinct_tags-collect :
      (ss out : List Str)
      → distinct_tags u ss out ≡ collect (λ s. trim_space u (to_lower u s)) ss out
  unfolding distinct_tags
  distinct_tags-collect [] out = refl
  distinct_tags-collect (s ∷ ss) out = distinct_tags-collect ss _

  models_twice :
      (ss : List Str)
      → normalize_and_deduplicate_model_ids u (normalize_and_deduplicate_model_ids u ss)
        ≡ normalize_and_deduplicate_model_ids u ss
  unfolding normalize_and_deduplicate_model_ids
  models_twice ss =
      let once = ap sort_strings (distinct_models-collect ss []) in
      ap (λ l. sort_strings (distinct_models u l [])) once
      ∙ ap sort_strings (distinct_models-collect (sort_strings (collect (trim_space u) ss [])) [])
      ∙ sort-collect_twice (trim_space u) (trim_space_twice u) ss
      ∙ sym once

  tag_twice :
      CaseLaws u
      → (s : Str)
      → trim_space u (to_lower u (trim_space u (to_lower u s))) ≡ trim_space u (to_lower u s)
  tag_twice laws s =
      ap (trim_space u) (
        ap (to_lower u) (trim_space-to_lower u laws s)
        ∙ to_lower_twice u laws (trim_space u s)
        ∙ sym (trim_space-to_lower u laws s))
      ∙ trim_space_twice u (to_lower u s)

  tags_twice :
      CaseLaws u → (ss : List Str) → normalize_tags u (normalize_tags u ss) ≡ normalize_tags u ss
  unfolding normalize_tags
  tags_twice laws ss =
      let once = ap sort_strings (distinct_tags-collect ss []) in
      ap (λ l. sort_strings (distinct_tags u l [])) once
      ∙ ap sort_strings (
          distinct_tags-collect (sort_strings (collect (λ s. trim_space u (to_lower u s)) ss []))
            [])
      ∙ sort-collect_twice (λ s. trim_space u (to_lower u s)) (tag_twice laws) ss
      ∙ sym once

  provider_twice :
      (p : ProviderConfig) → normalize_provider u (normalize_provider u p) ≡ normalize_provider u p
  unfolding normalize_provider
  provider_twice p = λ i. record p {
    https_proxy = trim_space_twice u p.https_proxy i;
    api_key = trim_space_twice u p.api_key i;
    base_url = trim_space_twice u p.base_url i;
    model = trim_space_twice u p.model i;
    models = models_twice p.models i;
  }

  entry_twice :
      CaseLaws u → (e : EntryConfig) → normalize_entry u (normalize_entry u e) ≡ normalize_entry u e
  unfolding normalize_entry
  entry_twice laws e = λ i. record {
    provider = normalize_provider_key_twice u laws e.provider i;
    model = trim_space_twice u e.model i;
  }

  mode_twice :
      CaseLaws u → (mm : ModeMapping) → normalize_mode u (normalize_mode u mm) ≡ normalize_mode u mm
  unfolding normalize_mode
  mode_twice laws mm = λ i. record {
    require = tags_twice laws mm.require i;
    prefer = tags_twice laws mm.prefer i;
    exclude = tags_twice laws mm.exclude i;
  }

  mcp_server_twice :
      CaseLaws u
      → (s : McpServerConfig)
      → normalize_mcp_server u (normalize_mcp_server u s) ≡ normalize_mcp_server u s
  unfolding normalize_mcp_server
  mcp_server_twice laws s = λ i. record s {
    kind = lower-trim_twice u laws s.kind i;
    command = trim_space_twice u s.command i;
    url = trim_space_twice u s.url i;
    app_id = trim_space_twice u s.app_id i;
  }

  -- a path that is left as it is
  abbrev pub IsSettled : Str → Type 0
  IsSettled path = (trim_space u path ≡ path) × (path ≢ []) × (has_prefix path (codes "~") ≡ false)

  module _ (home user_home : Str) (join : Str → Str → Str) where
    -- whether a path is one of the user's directory
    abbrev in_user : Str → Bool
    in_user path = has_prefix path (codes "~") && not (equal user_home [])

    normalize_dir-kept :
        (name path : Str)
        → trim_space u path ≡ path
        → equal path [] ≡ false
        → in_user path ≡ false
        → normalize_dir u home user_home join name path ≡ path
    unfolding normalize_dir
    normalize_dir-kept name path trimmed some no_user =
        rw (trimmed, some, no_user, normalize_dir) refl

    normalize_dir-settled :
        (name path : Str) → IsSettled path → normalize_dir u home user_home join name path ≡ path
    normalize_dir-settled name path (trimmed, some, no_user) =
        normalize_dir-kept name path trimmed (ground (arith, equal_iff path [])) (ground arith)

    normalize_dir_twice :
        (name dir : Str)
        → IsSettled (join home name)
        → (user_home ≢ [] → IsSettled (join user_home (drop 1 (trim_space u dir))))
        → normalize_dir u home user_home join name (normalize_dir u home user_home join name dir)
          ≡ normalize_dir u home user_home join name dir
    unfolding normalize_dir
    normalize_dir_twice name dir in_home in_user_home =
        let d = trim_space u dir in
        let normal = normalize_dir u home user_home join name in
        elim (Bool-cases (equal d [])) [
          | inl e ↦
              let is : normal dir ≡ join home name = rw (e, normalize_dir) refl in
              ap normal is ∙ normalize_dir-settled name (join home name) in_home ∙ sym is
          | inr e ↦ elim (Bool-cases (in_user d)) [
            | inl e' ↦
                let path = join user_home (drop 1 d) in
                let is : normal dir ≡ path = rw (e, e', normalize_dir) refl in
                ap normal is
                ∙ normalize_dir-settled name path
                    (in_user_home (ground (arith, e', equal_iff user_home [])))
                ∙ sym is
            | inr e' ↦
                let is : normal dir ≡ d = rw (e, e', normalize_dir) refl in
                ap normal is ∙ normalize_dir-kept name d (trim_space_twice u dir) e e' ∙ sym is
          ]
        ]

    -- Normalising a configuration that was normalised leaves it as it is, if the tables of unicode
    -- are consistent and the directories that are joined to the home directories are paths without
    -- white space at the ends, not empty and not written with a tilde.
    pub normalize_domour_config_twice :
        CaseLaws u
        → (c : DomourConfig) → IsSettled (join home (codes "mcp"))
        → IsSettled (join home (codes "skills"))
        → (user_home ≢ [] → IsSettled (join user_home (drop 1 (trim_space u c.mcp_dir))))
        → (user_home ≢ [] → IsSettled (join user_home (drop 1 (trim_space u c.skills_dir))))
        → let normal = normalize_domour_config u home user_home join in normal (normal c) ≡ normal c
    unfolding normalize_domour_config normalize_entry_key
    normalize_domour_config_twice laws c mcp skills user_mcp user_skills = λ i. record c {
      https_proxy = trim_space_twice u c.https_proxy i;
      default_provider = normalize_provider_key_twice u laws c.default_provider i;
      default_model = trim_space_twice u c.default_model i;
      mcp_dir = normalize_dir_twice (codes "mcp") c.mcp_dir mcp user_mcp i;
      skills_dir = normalize_dir_twice (codes "skills") c.skills_dir skills user_skills i;
      providers =
          rebuild_twice is_empty (normalize_provider_key u) (normalize_provider u)
            (normalize_provider_key_twice u laws) provider_twice c.providers i;
      entries =
          rebuild_twice is_empty (normalize_entry_key u) (normalize_entry u)
            (lower-trim_twice u laws) (entry_twice laws) c.entries i;
      mode_mappings =
          rebuild_twice is_empty (λ k. to_lower u (trim_space u k)) (normalize_mode u)
            (lower-trim_twice u laws) (mode_twice laws) c.mode_mappings i;
      mcp_servers =
          rebuild_twice never (trim_space u) (normalize_mcp_server u) (trim_space_twice u)
            (mcp_server_twice laws) c.mcp_servers i;
    }

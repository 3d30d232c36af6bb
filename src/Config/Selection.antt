-- ===== src/Config/Selection.antt =====
-- internal/config/config.go: which provider and model an entry uses, and the setters of that. The
-- receiver of a setter is not nil. `env` is os.Getenv.
pub mod Keys
mod Setters
pub mod Tests
use domour.Common.{
  Bool, true, false, not, ◌&&◌, ◌||◌, Option, none, some, List, [], ◌∷◌, ◌++◌, map, if◌then◌else◌,
  any,
}
use domour.Common.Text.{Str, codes, equal}
use domour.Common.Assoc.{Assoc, lookup, insert}
use domour.Common.Sort.{has, sort_strings}
use domour.Common.Unicode.{Unicode, to_lower, trim_space}
use domour.Config.{
  ProviderConfig, EntryConfig, ModeMapping, DomourConfig, no_provider, no_entry, no_service,
}

-- m[k], for a map of values with a default
abbrev pub read {ℓ} : {V : Type ℓ} → V → Str → Assoc V → V
read default k m = elim (lookup k m) [ none ↦ default | some v ↦ v ]

-- the cases of normalizeProviderKey
abbrev pub provider_aliases : Assoc Str
provider_aliases =
    (codes "deepseek", codes "deepseek")
    ∷ (codes "gemini", codes "gemini")
    ∷ (codes "gemini-cli", codes "gemini-cli")
    ∷ (codes "gemini_cli", codes "gemini-cli")
    ∷ (codes "agy-sdk", codes "agy-sdk")
    ∷ (codes "agy_sdk", codes "agy-sdk")
    ∷ (codes "antigravity-sdk", codes "agy-sdk")
    ∷ (codes "agy-cli", codes "agy-cli")
    ∷ (codes "agy_cli", codes "agy-cli")
    ∷ (codes "agy", codes "agy-cli")
    ∷ (codes "llamacpp", codes "llamacpp")
    ∷ (codes "llama.cpp", codes "llamacpp")
    ∷ (codes "llama_cpp", codes "llamacpp")
    ∷ (codes "ollama", codes "llamacpp")
    ∷ (codes "github-copilot-cli", codes "github-copilot-cli")
    ∷ (codes "copilot-cli", codes "github-copilot-cli")
    ∷ (codes "github-copilot", codes "github-copilot-cli")
    ∷ (codes "qodercli", codes "qodercli")
    ∷ (codes "qoder-cli", codes "qodercli")
    ∷ (codes "qoder", codes "qodercli")
    ∷ []

-- the cases of defaultModeMapping
abbrev pub mode_defaults : Assoc ModeMapping
mode_defaults =
    (
      codes "deep_think",
      record {
        require = codes "deep" ∷ [];
        prefer = codes "flash" ∷ codes "pro" ∷ [];
        exclude = codes "billed" ∷ [];
      },
    )
    ∷ (
      codes "performance",
      record {
        require = [];
        prefer = codes "pro" ∷ codes "flash" ∷ [];
        exclude = codes "billed" ∷ [];
      },
    )
    ∷ (
      codes "stealth",
      record {
        require = codes "local" ∷ codes "private" ∷ [];
        prefer = codes "free" ∷ [];
        exclude = codes "billed" ∷ [];
      },
    )
    ∷ (
      codes "survival",
      record {
        require = codes "local" ∷ codes "free" ∷ [];
        prefer = [];
        exclude = codes "billed" ∷ codes "remote" ∷ [];
      },
    )
    ∷ (
      codes "balanced",
      record { require = []; prefer = codes "flash" ∷ []; exclude = codes "billed" ∷ [] },
    )
    ∷ (
      codes "casual",
      record {
        require = [];
        prefer = codes "lite" ∷ codes "free" ∷ [];
        exclude = codes "billed" ∷ [];
      },
    )
    ∷ (
      codes "vigilant",
      record {
        require = codes "local" ∷ [];
        prefer = codes "flash" ∷ codes "lite" ∷ [];
        exclude = [];
      },
    )
    ∷ (codes "diagnostic", record { require = []; prefer = []; exclude = [] })
    ∷ (codes "hibernate", record { require = []; prefer = []; exclude = [] })
    ∷ []

-- the switch of normalizeProviderKey
unfoldable pub canonical : Str → Str
unfolding lookup
canonical key = read key key provider_aliases

module _ (u : Unicode) where
  -- normalizeProviderKey
  unfoldable pub normalize_provider_key : Str → Str
  unfolding canonical
  normalize_provider_key provider = canonical (to_lower u (trim_space u provider))

  -- normalizeEntryKey
  unfoldable pub normalize_entry_key : Str → Str
  normalize_entry_key entry = to_lower u (trim_space u entry)

  -- the loop of normalizeAndDeduplicateModelIDs
  unfoldable pub distinct_models : List Str → List Str → List Str
  distinct_models [] out = out
  distinct_models (s ∷ ss) out =
      let model = trim_space u s in
      distinct_models ss (if equal model [] || has out model then out else out ++ (model ∷ []))

  -- normalizeAndDeduplicateModelIDs
  unfoldable pub normalize_and_deduplicate_model_ids : List Str → List Str
  unfolding distinct_models
  normalize_and_deduplicate_model_ids models = sort_strings (distinct_models models [])

  unfoldable pub provider_config : DomourConfig → Str → ProviderConfig
  unfolding lookup
  provider_config c provider = read no_provider (normalize_provider_key provider) c.providers

  -- ProxyForProvider
  unfoldable pub proxy_for_provider : DomourConfig → Str → Str
  proxy_for_provider c provider =
      let proxy = trim_space u ((provider_config c provider).https_proxy) in
      if equal proxy [] then trim_space u c.https_proxy else proxy

  -- APIKeyForProvider
  unfoldable pub api_key_for_provider : DomourConfig → Str → Str
  api_key_for_provider c provider = trim_space u ((provider_config c provider).api_key)

  -- BaseURLForProvider
  unfoldable pub base_url_for_provider : DomourConfig → Str → Str
  base_url_for_provider c provider = trim_space u ((provider_config c provider).base_url)

  -- ProviderModel
  unfoldable pub provider_model : DomourConfig → Str → Str
  provider_model c provider = trim_space u ((provider_config c provider).model)

  -- ProviderModels
  unfoldable pub provider_models : DomourConfig → Str → List Str
  provider_models c provider = (provider_config c provider).models

  -- DefaultProviderName
  unfoldable pub default_provider_name : DomourConfig → Str
  default_provider_name c = normalize_provider_key c.default_provider

  -- DefaultModelName
  unfoldable pub default_model_name : DomourConfig → Str
  default_model_name c = trim_space u c.default_model

  -- EntryProvider
  unfoldable pub entry_provider : DomourConfig → Str → Str
  unfolding lookup
  entry_provider c name =
      normalize_provider_key ((read no_entry (normalize_entry_key name) c.entries).provider)

  -- EntryModel
  unfoldable pub entry_model : DomourConfig → Str → Str
  unfolding lookup
  entry_model c name = trim_space u ((read no_entry (normalize_entry_key name) c.entries).model)

  -- SetProviderModel
  unfoldable pub set_provider_model : DomourConfig → Str → Str → DomourConfig
  unfolding lookup insert
  set_provider_model c provider model =
      let key = normalize_provider_key provider in
      if equal key [] then c else record c {
        providers =
            insert key (record (read no_provider key c.providers) { model = trim_space u model })
              c.providers;
      }

  -- SetProviderDiscoveredModels
  unfoldable pub set_provider_discovered_models : DomourConfig → Str → List Str → DomourConfig
  unfolding lookup insert
  set_provider_discovered_models c provider models =
      let key = normalize_provider_key provider in
      if equal key [] then c else record c {
        providers =
            insert key
              (record (read no_provider key c.providers) {
                models = normalize_and_deduplicate_model_ids models;
              })
              c.providers;
      }

  -- SetDefaultSelection
  unfoldable pub set_default_selection : DomourConfig → Str → Str → DomourConfig
  set_default_selection c provider model =
      let p = normalize_provider_key provider in
      let m = trim_space u model in
      let c' : DomourConfig = record c {
        default_provider = if equal p [] then c.default_provider else p;
        default_model = m;
      } in
      if not (equal p []) && not (equal m []) then set_provider_model c' p m else c'

  -- SetEntrySelection
  unfoldable pub set_entry_selection : DomourConfig → Str → Str → Str → DomourConfig
  unfolding lookup insert
  set_entry_selection c entry provider model =
      let e = normalize_entry_key entry in
      let p = normalize_provider_key provider in
      let cfg = read no_entry e c.entries in
      let c' : DomourConfig =
        if not (equal p []) && not (equal (trim_space u model) [])
        then set_provider_model c p model
        else c in
      if equal e [] then set_default_selection c provider model else record c' {
        entries =
            insert e
              (record {
                provider = if equal p [] then cfg.provider else p;
                model = trim_space u model;
              })
              c'.entries;
      }

  -- ModeMapping, with defaultModeMapping
  unfoldable pub mode_mapping : DomourConfig → Str → ModeMapping
  unfolding lookup
  mode_mapping c mode =
      let key = to_lower u (trim_space u mode) in
      let built_in =
        read (record { require = []; prefer = []; exclude = codes "billed" ∷ [] }) key
          mode_defaults in
      read built_in key c.mode_mappings

  -- ServiceMode
  unfoldable pub service_mode : DomourConfig → Str → Str
  unfolding lookup
  service_mode c name =
      let mode =
        trim_space u ((read no_service (to_lower u (trim_space u name)) c.services).mode) in
      if equal mode [] then codes "local" else mode

  -- IsProviderInUse
  unfoldable pub is_provider_in_use : DomourConfig → Str → Bool
  unfolding lookup
  is_provider_in_use c provider =
      let p = normalize_provider_key provider in
      not (equal p [])
      && (equal (default_provider_name c) p
          || any (λ e. equal (normalize_provider_key (e.1).provider) p) c.entries
          || (read no_provider p c.providers).enabled)

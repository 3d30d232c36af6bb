-- ===== src/Config/Normalize/Tests.antt =====
-- A configuration with an alias for a provider, a mode with two preferred tags, and a directory
-- under the user's home.
use domour.Common.{◌≡◌, refl, [], ◌∷◌, ◌++◌}
use domour.Common.Text.{Str, codes, equal, has_prefix}
use domour.Common.Assoc.{lookup, insert}
use domour.Common.Unicode.{ascii, to_lower, trim_space, lower_rune, space_rune, trim_left}
use domour.Common.Trim.{ascii_laws}
use domour.Config.{DomourConfig, no_provider}
use domour.Config.Selection.{
  canonical, normalize_provider_key, normalize_and_deduplicate_model_ids, distinct_models,
}
use domour.Config.Selection.Tests.{cfg}
use domour.Config.Normalize.{
  rebuild, normalize_tags, distinct_tags, normalize_provider, normalize_mode,
  normalize_domour_config,
}
use domour.Config.Normalize.Twice.{normalize_domour_config_twice}

abbrev join : Str → Str → Str
join a b = a ++ (b'/' ∷ b)

abbrev home : Str
home = codes "/home/ann"

abbrev config : DomourConfig
config = record cfg {
  mcp_dir = codes "~mcp ";
  providers = (codes " Ollama", record no_provider { api_key = codes " key " }) ∷ [];
  mode_mappings =
      (
        codes "Balanced",
        record { require = []; prefer = codes "pro" ∷ codes "Flash" ∷ []; exclude = [] },
      )
      ∷ [];
}

abbrev normal : DomourConfig → DomourConfig
normal c = normalize_domour_config ascii home home join c

normal-providers :
    (normal config).providers
    ≡ (codes "llamacpp", record no_provider { api_key = codes "key" }) ∷ []
unfolding normalize_domour_config rebuild normalize_provider normalize_and_deduplicate_model_ids
    distinct_models canonical normalize_provider_key lookup insert equal to_lower trim_space
    lower_rune space_rune trim_left
normal-providers = refl

-- The order of the preferred tags is lost.
normal-mode_mappings :
    (normal config).mode_mappings
    ≡ (
      codes "balanced",
      record { require = []; prefer = codes "flash" ∷ codes "pro" ∷ []; exclude = [] },
    )
      ∷ []
unfolding normalize_domour_config rebuild normalize_mode normalize_tags distinct_tags insert equal
    to_lower trim_space lower_rune space_rune trim_left
normal-mode_mappings = refl

normalize_domour_config_twice_example : normal (normal config) ≡ normal config
unfolding trim_space space_rune trim_left has_prefix
normalize_domour_config_twice_example =
    normalize_domour_config_twice ascii home home join ascii_laws config (refl, (λ e. cc), refl)
      (refl, (λ e. cc), refl) (λ h. (refl, (λ e. cc), refl)) (λ h. (refl, (λ e. cc), refl))

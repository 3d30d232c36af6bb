-- ===== src/Engine/Fallback/Tests.antt =====
-- A configuration in which the requested provider cannot be built, and a local one is ready.
use domour.Common.{
  ℕ, suc, ◌≡◌, refl, true, Bool, ◌⊎◌, inl, inr, Option, none, [], ◌∷◌, ◌++◌, map, if◌then◌else◌,
}
use domour.Common.Text.{Str, codes, equal}
use domour.Common.Assoc.{lookup}
use domour.Common.Unicode.{ascii, to_lower, trim_space, lower_rune, space_rune, trim_left}
use domour.Common.Trim.{ascii_laws}
use domour.Config.{DomourConfig, no_provider}
use domour.Config.Selection.{
  canonical, normalize_provider_key, normalize_entry_key, provider_config, provider_model,
  entry_provider, entry_model, default_provider_name, default_model_name,
}
use domour.Config.Selection.Tests.{cfg}
use domour.Engine.Fallback.{
  add, fill_first, add_configured, rest_names, add_rest, fallback_candidates, resolve_loop,
  resolve_with_fallback,
}
use domour.Engine.Fallback.Extend.{firsts, wanted, of_name, others}
use domour.Engine.Fallback.Order.{fallback_candidates-order}
use domour.Engine.Fallback.Resolve.{Outcome, first_error, resolve_with_fallback-Outcome}

abbrev config : DomourConfig
config = record cfg {
  providers =
      (codes "Llamacpp", record no_provider { base_url = codes "localhost"; enabled = true })
      ∷ (codes "deepseek", record no_provider { api_key = codes "key" })
      ∷ (codes "gemini", record no_provider { model = codes "flash" })
      ∷ [];
}

-- The state counts the calls.
abbrev build : Str → Str → Str → ℕ → (Str ⊎ Str) × ℕ
build entry provider model n =
    (if equal provider (codes "llamacpp") then inr provider else inl provider, suc n)

abbrev ready : Str → ℕ → (Bool × Option Str) × ℕ
ready client n = ((true, none), suc n)

fallback_candidates-runs :
    map (λ cand. cand.provider) (fallback_candidates ascii (codes "chat") (codes "qoder") [] config)
    ≡ codes "qoder" ∷ codes "gemini" ∷ codes "llamacpp" ∷ []
unfolding fallback_candidates add fill_first add_configured rest_names add_rest provider_model
    provider_config entry_provider entry_model default_provider_name default_model_name canonical
    normalize_provider_key normalize_entry_key lookup equal to_lower trim_space lower_rune
    space_rune trim_left
fallback_candidates-runs = refl

resolve_with_fallback-runs :
    resolve_with_fallback {E = Str} build ready (codes "chat") ascii (codes "qoder") [] config 0
    ≡ (inr (codes "llamacpp"), 4)
unfolding resolve_with_fallback resolve_loop fallback_candidates add fill_first add_configured
    rest_names add_rest provider_model provider_config entry_provider entry_model
    default_provider_name default_model_name canonical normalize_provider_key normalize_entry_key
    lookup equal to_lower trim_space lower_rune space_rune trim_left
resolve_with_fallback-runs = refl

fallback_candidates-order_example :
    let chosen = firsts [] (wanted ascii (codes "chat") (codes "qoder") [] config) in
    let seen = map (λ cand. cand.provider) chosen in
    fallback_candidates ascii (codes "chat") (codes "qoder") [] config
    ≡ chosen ++ firsts seen (map (of_name ascii config) (others ascii seen config))
fallback_candidates-order_example =
    fallback_candidates-order ascii ascii_laws (codes "chat") (codes "qoder") [] config

resolve_with_fallback-Outcome_example :
    let cands = fallback_candidates ascii (codes "chat") (codes "qoder") [] config in
    Outcome {E = Str} build ready
      (codes "chat")
      0
      cands
      (first_error build ready (codes "chat") cands 0)
      0
      (resolve_with_fallback build ready (codes "chat") ascii (codes "qoder") [] config 0)
resolve_with_fallback-Outcome_example =
    resolve_with_fallback-Outcome build ready (codes "chat") ascii (codes "qoder") [] config 0

-- ===== src/Config/Selection/Tests.antt =====
-- A configuration with one provider, and a selection for the entry "chat".
use domour.Common.{◌≡◌, refl, true, false, ◌&&◌, not, [], ◌∷◌, pos, if◌then◌else◌}
use domour.Common.Text.{codes, equal}
use domour.Common.Assoc.{lookup, insert}
use domour.Common.Unicode.{ascii, to_lower, trim_space, lower_rune, space_rune, trim_left}
use domour.Common.Trim.{ascii_laws}
use domour.Config.{DomourConfig, no_provider}
use domour.Config.Selection.{
  canonical, normalize_provider_key, normalize_entry_key, provider_model, entry_provider,
  entry_model, set_provider_model, set_entry_selection, is_provider_in_use, default_provider_name,
  mode_mapping, normalize_and_deduplicate_model_ids, distinct_models,
}
use domour.Config.Selection.Setters.{set_entry_selection-selected}

abbrev pub cfg : DomourConfig
cfg = record {
  data_dir = [];
  https_proxy = [];
  log_as_json = false;
  default_provider = codes "gemini";
  default_model = [];
  providers = (codes "gemini", no_provider) ∷ [];
  entries = [];
  mode_mappings = [];
  services = [];
  dapr_grpc_address = [];
  dapr_http_address = [];
  mcp_dir = [];
  skills_dir = [];
  mcp_servers = [];
  max_active_tokens = pos 0;
  compress_trigger_tokens = pos 0;
}

set_entry_selection-runs :
    entry_provider ascii
      (set_entry_selection ascii cfg (codes " Chat") (codes "Ollama ") (codes " gemma "))
      (codes "chat")
    ≡ codes "llamacpp"
unfolding entry_provider set_entry_selection set_provider_model canonical normalize_provider_key
    normalize_entry_key lookup insert equal to_lower trim_space lower_rune space_rune trim_left
set_entry_selection-runs = refl

is_provider_in_use-runs : is_provider_in_use ascii cfg (codes "Gemini") ≡ true
unfolding is_provider_in_use default_provider_name canonical normalize_provider_key lookup equal
    to_lower trim_space lower_rune space_rune trim_left
is_provider_in_use-runs = refl

mode_mapping-runs : (mode_mapping ascii cfg (codes "Balanced")).exclude ≡ codes "billed" ∷ []
unfolding mode_mapping lookup equal to_lower trim_space lower_rune space_rune trim_left
mode_mapping-runs = refl

normalize_and_deduplicate_model_ids-runs :
    normalize_and_deduplicate_model_ids ascii (codes "b" ∷ codes " a" ∷ codes "b " ∷ [] ∷ [])
    ≡ codes "a" ∷ codes "b" ∷ []
unfolding normalize_and_deduplicate_model_ids distinct_models equal trim_space space_rune trim_left
normalize_and_deduplicate_model_ids-runs = refl

set_entry_selection-selected_example :
    let after = set_entry_selection ascii cfg (codes " Chat") (codes "Ollama ") (codes " gemma ") in
    let p = normalize_provider_key ascii (codes "Ollama ") in
    let here =
      equal
        (normalize_entry_key ascii (codes " Chat"))
        (normalize_entry_key ascii (codes "chat")) in
    (entry_provider ascii after (codes "chat")
      ≡ (if here && not (equal p []) then p else entry_provider ascii cfg (codes "chat")))
    × (entry_model ascii after (codes "chat") ≡ (
        if here then trim_space ascii (codes " gemma ") else entry_model ascii cfg (codes "chat")))
    × (provider_model ascii after (codes "llama.cpp") ≡ (
        if equal p (normalize_provider_key ascii (codes "llama.cpp"))
          && not (equal p [])
          && not (equal (trim_space ascii (codes " gemma ")) [])
        then trim_space ascii (codes " gemma ")
        else provider_model ascii cfg (codes "llama.cpp")))
unfolding normalize_entry_key to_lower trim_space lower_rune space_rune trim_left
set_entry_selection-selected_example =
    set_entry_selection-selected ascii ascii_laws cfg (codes " Chat") (codes "Ollama ")
      (codes " gemma ") (codes "chat") (codes "llama.cpp") (λ e. cc)

-- ===== src/Config/Services.antt =====
-- internal/config/config.go: settings that the environment overrides. `env` is os.Getenv, and
-- `to_upper` is strings.ToUpper.
mod Tests
use domour.Common.{Bool, true, false, ◌||◌, List, [], ◌∷◌, ◌++◌, map, ◌==◌, if◌then◌else◌}
use domour.Common.Text.{Str, codes, equal}
use domour.Common.Assoc.{lookup}
use domour.Common.Unicode.{Unicode, to_lower, trim_space}
use domour.Config.{DomourConfig, no_service}
use domour.Config.Selection.{read}

-- The first text that is not blank, trimmed, or the default.
abbrev pub first_text : Unicode → List Str → Str → Str
first_text u [] default = default
first_text u (s ∷ ss) default =
    let rest = first_text u ss default in if equal (trim_space u s) [] then rest else trim_space u s

abbrev pub is_yes : Str → Bool
is_yes value = equal value (codes "true") || equal value (codes "1") || equal value (codes "yes")

module _ (u : Unicode) (env : Str → Str) where
  -- ServiceAppID
  unfoldable pub service_app_id : (Str → Str) → DomourConfig → Str → Str
  unfolding lookup
  service_app_id to_upper c service =
      let name = to_lower u (trim_space u service) in
      let underscored = map (λ ch. if ch == b'-' then b'_' else ch) name in
      let key = codes "DOMOUR_" ++ to_upper underscored ++ codes "_APP_ID" in
      let from_env = if equal name [] then [] else env key in
      let default : Str =
        if equal name (codes "brain")
        then codes "domour-brain"
        else if equal name (codes "motor")
        then codes "domour-motor"
        else codes "domour-" ++ name in
      first_text u (from_env ∷ (read no_service name c.services).app_id ∷ []) default

  -- DaprGRPCAddress
  unfoldable pub dapr_grpc_address_of : DomourConfig → Str
  dapr_grpc_address_of c =
      first_text u (env (codes "DOMOUR_DAPR_GRPC_ADDRESS") ∷ c.dapr_grpc_address ∷ [])
        (codes "127.0.0.1:50001")

  -- DaprHTTPAddress
  unfoldable pub dapr_http_address_of : DomourConfig → Str
  dapr_http_address_of c =
      first_text u (env (codes "DOMOUR_DAPR_HTTP_ADDRESS") ∷ c.dapr_http_address ∷ [])
        (codes "127.0.0.1:3500")

  -- A switch in the environment, or else the default.
  unfoldable pub flag : Str → Bool → Bool
  flag key default =
      let value = to_lower u (trim_space u (env key)) in
      if equal value [] then default else is_yes value

  -- IsLogAsJSON
  unfoldable pub is_log_as_json : DomourConfig → Bool
  unfolding flag
  is_log_as_json c = flag (codes "DOMOUR_LOG_AS_JSON") c.log_as_json

  -- IsDebug
  unfoldable pub is_debug : Bool
  unfolding flag
  is_debug = flag (codes "DOMOUR_DEBUG") false

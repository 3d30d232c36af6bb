-- ===== src/Config/Services/Tests.antt =====
-- An environment with one address and one switch.
use domour.Common.{◌≡◌, refl, true, false, [], if◌then◌else◌}
use domour.Common.Text.{Str, codes, equal}
use domour.Common.Assoc.{lookup}
use domour.Common.Unicode.{ascii, to_lower, trim_space, lower_rune, space_rune, trim_left}
use domour.Config.Selection.Tests.{cfg}
use domour.Config.Services.{
  service_app_id, dapr_grpc_address_of, dapr_http_address_of, flag, is_log_as_json, is_debug,
}

abbrev env : Str → Str
unfolding equal
env key =
    if equal key (codes "DOMOUR_DAPR_GRPC_ADDRESS")
    then codes " host:1 "
    else if equal key (codes "DOMOUR_DEBUG")
    then codes "Yes"
    else []

service_app_id-runs : service_app_id ascii env (λ s. s) cfg (codes "Brain") ≡ codes "domour-brain"
unfolding env service_app_id lookup equal to_lower trim_space lower_rune space_rune trim_left
service_app_id-runs = refl

addresses-run :
    (dapr_grpc_address_of ascii env cfg ≡ codes "host:1")
    × (dapr_http_address_of ascii env cfg ≡ codes "127.0.0.1:3500")
unfolding env dapr_grpc_address_of dapr_http_address_of equal trim_space space_rune trim_left
addresses-run = (refl, refl)

flags-run : (is_debug ascii env ≡ true) × (is_log_as_json ascii env cfg ≡ false)
unfolding env is_debug is_log_as_json flag equal to_lower trim_space lower_rune space_rune trim_left
flags-run = (refl, refl)

-- ===== src/Gateway/Settings/Tests.antt =====
-- The checks of the secrets at concrete variables.
use intelligent_multi_camera.Prelude.{◌≡◌, refl, String, string_eq, true, none, some}
use intelligent_multi_camera.Prelude.Text.{same_name}
use intelligent_multi_camera.Shared.Secrets.{
  development_jwt_secret, development_internal_service_key, is_strong,
}
use intelligent_multi_camera.Gateway.Settings.{validate_secrets}
use intelligent_multi_camera.Gateway.Settings.Agreement.{services_agree, unset_secrets_start}
use intelligent_multi_camera.Auth.Settings as AuthSettings
use intelligent_multi_camera.Camera.Settings as CameraSettings
use intelligent_multi_camera.Analytics.Startup as AnalyticsStartup
use intelligent_multi_camera.Search.Startup as SearchStartup

program : Unit {0}
unfolding same_name is_strong validate_secrets AuthSettings.validate_secrets
    CameraSettings.validate_secrets AnalyticsStartup.validate_internal_service_key
    SearchStartup.validate_internal_service_key string_eq
program = tt

abbrev env : String
env = "production"

abbrev jwt : String
jwt = "a secret of more than thirty-two letters"

abbrev key : String
key = "a key of more than thirty-two letters"

short_refused : validate_secrets env "short" key ≡ none
unfolding program
short_refused = refl

services_agree_example :
    (AuthSettings.validate_secrets env jwt ≡ some jwt)
    × (CameraSettings.validate_secrets env key ≡ some key)
    × (AnalyticsStartup.validate_internal_service_key env key ≡ true)
    × (SearchStartup.validate_internal_service_key env key ≡ true)
unfolding program
services_agree_example = services_agree env jwt key jwt key refl refl

unset_secrets_start_example :
    (validate_secrets env "" "" ≡ some (development_jwt_secret, development_internal_service_key))
    × (AuthSettings.validate_secrets env "" ≡ some development_jwt_secret)
    × (CameraSettings.validate_secrets env "" ≡ some development_internal_service_key)
unset_secrets_start_example = unset_secrets_start env

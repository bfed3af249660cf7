-- ===== src/Camera/Settings.antt =====
-- apps/camera-service/src/config/settings.py: the check of its key. The service does not start where it raises.
use intelligent_multi_camera.Prelude.{
  String, string_eq, ◌&&◌, ◌||◌, Option, none, some, ◌==◌, ltb, if◌then◌else◌,
}
use intelligent_multi_camera.Prelude.Text.{same_name}
use intelligent_multi_camera.Shared.Secrets.{
  development_internal_service_key, placeholder_internal_key, or_default,
}
use Prim.Native.String.{count}

unfoldable pub validate_secrets : String → String → Option String
validate_secrets env internal_service_key =
    let key = or_default internal_service_key development_internal_service_key in
    if same_name env "production" && (ltb (count key) 32 || key == placeholder_internal_key)
    then none
    else some key

-- ===== src/Analytics/Startup.antt =====
-- `validate_internal_service_key` of apps/analytics-service/src/main.py, which runs before anything else: whether
-- the service starts.
use intelligent_multi_camera.Prelude.{String, string_eq, Bool, not, ◌&&◌, ◌||◌, ◌==◌, ltb}
use intelligent_multi_camera.Prelude.Text.{same_name}
use intelligent_multi_camera.Shared.Secrets.{placeholder_internal_key}
use Prim.Native.String.{count}

unfoldable pub validate_internal_service_key : String → String → Bool
validate_internal_service_key env key =
    not (same_name env "production" && (ltb (count key) 32 || key == placeholder_internal_key))

-- ===== src/Gateway/Settings.antt =====
-- apps/gateway/src/config/settings.py: the check of its secrets. The gateway does not start where it raises.
pub mod Agreement
mod Tests
use intelligent_multi_camera.Prelude.{
  ◌≡◌, refl, String, string_eq, Bool, true, false, not, ◌&&◌, ◌||◌, List, [], ◌∷◌, Option, none,
  some, ◌==◌, ltb, contains, if◌then◌else◌,
}
use intelligent_multi_camera.Prelude.Text.{same_name}
use intelligent_multi_camera.Shared.Secrets.{
  development_jwt_secret, development_internal_service_key, placeholder_jwt_secret,
  placeholder_internal_key, or_default, is_strong,
}
use Prim.Native.String.{count}

abbrev pub weak_secret_values : List String
weak_secret_values = "" ∷ placeholder_jwt_secret ∷ placeholder_internal_key ∷ []

-- The two secrets that the gateway runs with.
unfoldable pub validate_secrets : String → String → String → Option (String × String)
validate_secrets env jwt_secret_key internal_service_key =
    let jwt = or_default jwt_secret_key development_jwt_secret in
    let key = or_default internal_service_key development_internal_service_key in
    if same_name env "production"
      && not (is_strong weak_secret_values jwt && is_strong weak_secret_values key)
    then none
    else some (jwt, key)

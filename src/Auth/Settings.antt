-- ===== src/Auth/Settings.antt =====
-- apps/auth-service/src/config/settings.py: the check of its secret. The service does not start where it raises.
use intelligent_multi_camera.Prelude.{
  String, string_eq, not, ◌&&◌, List, [], ◌∷◌, Option, none, some, if◌then◌else◌,
}
use intelligent_multi_camera.Prelude.Text.{same_name}
use intelligent_multi_camera.Shared.Secrets.{
  development_jwt_secret, placeholder_jwt_secret, or_default, is_strong,
}

abbrev pub weak_secret_values : List String
weak_secret_values = "" ∷ placeholder_jwt_secret ∷ []

unfoldable pub validate_secrets : String → String → Option String
validate_secrets env jwt_secret_key =
    let jwt = or_default jwt_secret_key development_jwt_secret in
    if same_name env "production" && not (is_strong weak_secret_values jwt) then none else some jwt

-- ===== src/Gateway/Settings/Agreement.antt =====
-- The services of one deployment, started with the same variables.
use intelligent_multi_camera.Prelude.{
  ◌≡◌, refl, sym, subst, inl, inr, String, string_eq, true, false, some, arith, ◌==◌, Bool-cases,
}
use intelligent_multi_camera.Prelude.Text.{same_name, is_empty}
use intelligent_multi_camera.Shared.Secrets.{
  development_jwt_secret, development_internal_service_key, is_strong,
}
use intelligent_multi_camera.Gateway.Settings.{validate_secrets}
use intelligent_multi_camera.Auth.Settings as AuthSettings
use intelligent_multi_camera.Camera.Settings as CameraSettings
use intelligent_multi_camera.Analytics.Startup as AnalyticsStartup
use intelligent_multi_camera.Search.Startup as SearchStartup

exact_name : (env : String) → (env == "production") ≡ true → same_name env "production" ≡ true
unfolding same_name
exact_name env exact = elim (string_eq.dec env "production") [
  | yes same ↦ subst (λ e. same_name e "production" ≡ true) (sym same) refl
  | no differ ↦ absurd (ground arith)
]

-- Where the internal service key is set and the gateway starts with a JWT secret and a key, the auth service starts
-- with the same secret and the camera service with the same key, and the analytics and search services start too.
pub services_agree :
    (env jwt_secret_key internal_service_key jwt key : String)
    → validate_secrets env jwt_secret_key internal_service_key ≡ some (jwt, key)
    → is_empty internal_service_key ≡ false
    → (AuthSettings.validate_secrets env jwt_secret_key ≡ some jwt)
      × (CameraSettings.validate_secrets env internal_service_key ≡ some key)
      × (AnalyticsStartup.validate_internal_service_key env internal_service_key ≡ true)
      × (SearchStartup.validate_internal_service_key env internal_service_key ≡ true)
unfolding validate_secrets is_strong AuthSettings.validate_secrets CameraSettings.validate_secrets
    AnalyticsStartup.validate_internal_service_key SearchStartup.validate_internal_service_key
services_agree env jwt_secret_key internal_service_key jwt key started set =
    let exact = exact_name env in ground arith

-- In every environment, production included, a deployment that sets no secret starts its gateway, its auth and
-- its camera service with the development secrets that stand in the source.
pub unset_secrets_start :
    (env : String)
    → (validate_secrets env "" "" ≡ some (development_jwt_secret, development_internal_service_key))
      × (AuthSettings.validate_secrets env "" ≡ some development_jwt_secret)
      × (CameraSettings.validate_secrets env "" ≡ some development_internal_service_key)
unfolding validate_secrets is_strong AuthSettings.validate_secrets CameraSettings.validate_secrets
    string_eq
unset_secrets_start env = elim (Bool-cases (same_name env "production")) [
  | inl production ↦ rw production (refl, refl, refl)
  | inr other ↦ rw other (refl, refl, refl)
]

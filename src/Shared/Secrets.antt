-- ===== src/Shared/Secrets.antt =====
-- What the services' checks of their secrets share: the values that several of them name, and the test for a
-- strong secret.
use intelligent_multi_camera.Prelude.{
  String, string_eq, Bool, not, ◌&&◌, List, leb, contains, if◌then◌else◌,
}
use intelligent_multi_camera.Prelude.Text.{is_empty}
use Prim.Native.String.{count}

abbrev pub development_jwt_secret : String
development_jwt_secret = "local-development-only-jwt-secret-use-env-for-shared-services-32-bytes"

abbrev pub development_internal_service_key : String
development_internal_service_key = "local-development-only-internal-service-key-32-bytes"

abbrev pub placeholder_jwt_secret : String
placeholder_jwt_secret = "change_this_to_a_secure_256_bit_key_in_production_environment_12345"

abbrev pub placeholder_internal_key : String
placeholder_internal_key = "change_this_internal_key_in_production"

abbrev pub or_default : String → String → String
or_default s default = if is_empty s then default else s

-- Not one of the weak values, and 32 characters at least.
unfoldable pub is_strong : List String → String → Bool
is_strong weak s = not (contains weak s) && leb 32 (count s)

-- ===== src/Shared/Security/Tests.antt =====
-- Runs of the internal check, and its theorem at a concrete request.
use intelligent_multi_camera.Prelude.{◌≡◌, refl, String, string_eq, [], ◌∷◌}
use intelligent_multi_camera.Prelude.Text.{same_name, strip, int_of}
use intelligent_multi_camera.Shared.Http.{ok, failed, first_value}
use intelligent_multi_camera.Shared.Security.{
  admin, operator, AuthenticatedUser, parse_role, role_of, get_internal_service_key,
  require_internal_user, require_roles,
}

program : Unit {0}
unfolding same_name strip int_of first_value parse_role role_of get_internal_service_key
    require_internal_user require_roles string_eq
program = tt

default_key :
    get_internal_service_key "" "staging" ≡ "local-development-only-internal-service-key-32-bytes"
unfolding program
default_key = refl

no_key_in_production : get_internal_service_key "" "Production" ≡ ""
unfolding program
no_key_in_production = refl

admits :
    require_roles first_value "k"
      (admin ∷ [])
      (("x-internal-service-key", "k") ∷ ("x-user-id", "u") ∷ ("x-user-role", " 1") ∷ [])
    ≡ ok (record { user_id = "u"; role = admin })
unfolding program
admits = refl

refuses_operator : require_internal_user "k" (admin ∷ []) "k" "u" "2" ≡ failed 403
unfolding program
refuses_operator = refl

abbrev user : AuthenticatedUser
user = record { user_id = "u"; role = operator }

abbrev key : String
key = "k"

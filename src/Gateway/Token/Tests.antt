-- ===== src/Gateway/Token/Tests.antt =====
-- Runs of the token checks, and their theorems at concrete tokens.
use intelligent_multi_camera.Prelude.{
  ◌≡◌, refl, ◌≤◌, ◌↔◌, String, string_eq, if◌then◌else◌, [], ◌∷◌, some, ◌==◌,
}
use intelligent_multi_camera.Prelude.Int.{pos}
use intelligent_multi_camera.Prelude.Dict.{lookup}
use intelligent_multi_camera.Prelude.Text.{same_name, split, strip, int_of}
use intelligent_multi_camera.Shared.Http.{ok, failed}
use intelligent_multi_camera.Shared.Security.{role_of}
use intelligent_multi_camera.Gateway.Token.{
  Claims, Decoded, claims, expired, claim, text, integer, role_of_claim, check_payload,
  check_decoded, check_parts, verify_token, check_websocket_token, max_authorization_header_length,
}
use intelligent_multi_camera.Gateway.Token.Admission.{Bears, verify_token_accepts}
use Prim.Native.String.{count}

program : Unit {0}
unfolding lookup same_name split strip int_of role_of claim role_of_claim check_payload
    check_decoded check_parts verify_token check_websocket_token string_eq
program = tt

abbrev payload : Claims
payload = ("sub", text "u") ∷ ("type", text "access") ∷ ("role_id", integer (pos 2)) ∷ []

abbrev decode : String → Decoded
decode token = if token == "good" then claims payload else expired

accepts : verify_token decode (some "bearer  good") ≡ ok payload
unfolding program
accepts = refl

refuses_expired : verify_token decode (some "Bearer bad") ≡ failed 401
unfolding program
refuses_expired = refl

refuses_role :
    check_payload (("sub", text "u") ∷ ("type", text "access") ∷ ("role_id", integer (pos 3)) ∷ [])
    ≡ failed 403
unfolding program
refuses_role = refl

refuses_refresh :
    check_payload (("sub", text "u") ∷ ("type", text "refresh") ∷ ("role_id", integer (pos 1)) ∷ [])
    ≡ failed 401
unfolding program
refuses_refresh = refl

verify_token_accepts_example : (verify_token decode (some "Bearer good") ≡ ok payload) ↔ (
    (count "Bearer good" ≤ max_authorization_header_length)
    × Bears decode (split "Bearer good") payload)
verify_token_accepts_example = verify_token_accepts decode "Bearer good" payload

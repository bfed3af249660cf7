-- ===== src/Auth/Routes/Tests.antt =====
-- Runs of the auth service, and its theorems at concrete users.
use intelligent_multi_camera.Prelude.{
  nat_eq, ◌≡◌, refl, arith, String, string_eq, Bool, true, [], ◌∷◌, Option, none, some, ◌==◌,
  if◌then◌else◌,
}
use intelligent_multi_camera.Prelude.Dict.{lookup, insert}
use intelligent_multi_camera.Prelude.Text.{strip, split, same_name}
use intelligent_multi_camera.Shared.Http.{ok, failed}
use intelligent_multi_camera.Shared.Security.{operator, role_of}
use intelligent_multi_camera.Gateway.Token.{
  Claims, Decoded, claims, claim, is_text, check_payload, check_decoded, verify_token,
}
use intelligent_multi_camera.Auth.Tokens.{
  stamped, create_access_token, create_refresh_token, decode_and_verify_token,
}
use intelligent_multi_camera.Auth.Accounts.{User, first_user, verify_password, authenticate_user}
use intelligent_multi_camera.Auth.Routes.{
  Clock, has_between, validate_registration, user_payload, issue, login, is_verifiable,
  refresh_token, register, verify_route,
}
use intelligent_multi_camera.Auth.Routes.Lifecycle.{
  access_payload, refresh_payload_of, issued_token_accepted, tokens_kept_apart,
}
use intelligent_multi_camera.Auth.Routes.Registration.{register_login}

program : Unit {0}
unfolding lookup insert strip split same_name role_of claim check_payload check_decoded stamped
    create_access_token create_refresh_token decode_and_verify_token first_user verify_password
    authenticate_user has_between validate_registration user_payload issue login refresh_token
    register verify_route string_eq nat_eq
program = tt

-- Passwords are hashed by a letter before them.
abbrev hash_password : String → String
hash_password p = if p == "Secret12" then "hSecret12" else "h"

abbrev checkpw : String → String → Option Bool
checkpw p h = some (hash_password p == h)

abbrev ann : User
ann = record {
  id = "1";
  email = "ann@x";
  hashed_password = "hSecret12";
  full_name = "Ann";
  role_id = 2;
  is_active = true;
}

abbrev clock : Clock
clock = record { now = 100; access_time = 900; refresh_time = 604800 }

valid : validate_registration "Secret12" " Ann " ≡ some "Ann"
unfolding program
valid = refl

no_digit : validate_registration "Secretab" "Ann" ≡ none
unfolding program
no_digit = refl

registers : register hash_password true "1" "ann@x" "Secret12" "Ann" [] ≡ (ok "1", ann ∷ [])
unfolding program
registers = refl

taken : register hash_password true "2" "ann@x" "Secret12" "Ann" (ann ∷ []) ≡ (failed 409, ann ∷ [])
unfolding program
taken = refl

unknown : login (λ c. "") checkpw clock (some (ann ∷ [])) "bob@x" "Secret12" ≡ failed 401
unfolding program
unknown = refl

no_database : login (λ c. "") checkpw clock none "ann@x" "Secret12" ≡ failed 503
unfolding program
no_database = refl

register_login_example :
    login (λ c. "token") checkpw clock (some (ann ∷ [])) "ann@x" "Secret12"
    ≡ ok (issue (λ c. "token") clock ann)
unfolding program
register_login_example =
    register_login checkpw (λ c. "token") clock hash_password "1" "ann@x" "Secret12" "Ann" []
      (ann ∷ []) refl refl

-- Tokens are named by their kind.
abbrev encode : Claims → String
encode c = if is_text (claim "type" c) "access" then "a" else "r"

abbrev decode : String → Decoded
decode t = claims (if t == "a" then access_payload clock ann else refresh_payload_of clock ann)

issued_token_accepted_example :
    (verify_token decode (some "Bearer a") ≡ ok (access_payload clock ann))
    × (verify_route decode (issue encode clock ann).access_token ≡ ok (access_payload clock ann))
unfolding program
issued_token_accepted_example =
    issued_token_accepted encode decode clock ann operator "Bearer a" "Bearer" refl refl refl refl
      (omega arith) refl refl

tokens_kept_apart_example :
    (check_decoded (decode (issue encode clock ann).refresh_cookie) ≡ failed 401)
    × (verify_route decode (issue encode clock ann).refresh_cookie
        ≡ failed (if is_verifiable (issue encode clock ann).refresh_cookie then 401 else 422))
    × (refresh_token encode decode clock
          (some (ann ∷ []))
          (some (issue encode clock ann).access_token)
          none
        ≡ failed 401)
unfolding program
tokens_kept_apart_example =
    tokens_kept_apart encode decode clock ann (some (ann ∷ [])) none refl refl refl

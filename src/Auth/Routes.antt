-- ===== src/Auth/Routes.antt =====
-- apps/auth-service/src/api/auth_routes.py. The database answers its rows, or cannot be reached (`none`).
pub mod Lifecycle
pub mod Registration
mod Tests
use intelligent_multi_camera.Prelude.{
  leb, ◌&&◌, ℕ, ◌+◌, ◌*◌, String, string_eq, Bool, true, false, not, ◌&&◌, ◌||◌, List, [], ◌∷◌,
  ◌++◌, Option, none, some, ltb, leb, ◌==◌, if◌then◌else◌,
}
use intelligent_multi_camera.Prelude.Int.{pos}
use intelligent_multi_camera.Prelude.Text.{is_empty, strip}
use intelligent_multi_camera.Shared.Http.{Result, ok, failed}
use intelligent_multi_camera.Gateway.Token.{Claims, Decoded, claim, is_text, text, integer}
use intelligent_multi_camera.Auth.Tokens.{
  create_access_token, create_refresh_token, decode_and_verify_token,
}
use intelligent_multi_camera.Auth.Accounts.{
  User, first_user, Credentials, unavailable, rejected, accepted, authenticate_user,
}
use Prim.Native.String.{String as Text, count}
use Prim.Native.Char.{code}

abbrev pub max_token_length : ℕ
max_token_length = 4096

-- Whether some character of the text lies in a range: `re.search(r"[A-Z]", v)`.
unfoldable pub has_between : ℕ → ℕ → String → Bool
has_between low high Text.[] = false
has_between low high (Text.◌∷◌ c s) =
    (leb low (code c) && leb (code c) high) || has_between low high s

abbrev between : ℕ → ℕ → ℕ → Bool
between low high n = leb low n && leb n high

-- The validators of `RegisterRequest`, for a name and a password; the name is stored without blanks around it.
unfoldable pub validate_registration : String → String → Option String
validate_registration password full_name =
    if between 8 128 (count password)
      && between 1 100 (count full_name)
      && not (is_empty (strip full_name))
      && has_between 65 90 password
      && has_between 97 122 password
      && has_between 48 57 password
    then some (strip full_name)
    else none

-- The settings, and the time of a request, in seconds.
pub record Clock : Type 0 where
  pub now : ℕ
  pub access_time : ℕ
  pub refresh_time : ℕ

pub record Tokens : Type 0 where
  pub access_token : String
  pub refresh_cookie : String

unfoldable pub user_payload : User → Claims
user_payload user =
    ("sub", text user.id)
    ∷ ("email", text user.email)
    ∷ ("role_id", integer (pos user.role_id))
    ∷ ("full_name", text user.full_name)
    ∷ []

module _ (encode : Claims → String) where
  -- The two tokens that `login` and `refresh_token` issue.
  unfoldable pub issue : Clock → User → Tokens
  issue clock user = record {
    access_token = create_access_token encode clock.now clock.access_time (user_payload user);
    refresh_cookie =
        create_refresh_token encode clock.now clock.refresh_time (("sub", text user.id) ∷ []);
  }

  module _ (checkpw : String → String → Option Bool) where
    unfoldable pub login : Clock → Option (List User) → String → String → Result Tokens
    login clock users email password = elim (authenticate_user checkpw users email password) [
      | unavailable ↦ failed 503
      | rejected ↦ failed 401
      | accepted user ↦ ok (issue clock user)
    ]

  module _ (decode : String → Decoded) where
    abbrev refreshed : Clock → Option User → Result Tokens
    refreshed clock none = failed 401
    refreshed clock (some user) = ok (issue clock user)

    abbrev refresh_payload : Clock → Option (List User) → Option Claims → Result Tokens
    refresh_payload clock users none = failed 401
    refresh_payload clock none (some payload) =
        if is_text (claim "type" payload) "refresh" then failed 500 else failed 401
    refresh_payload clock (some users) (some payload) =
        let user = first_user (λ u. is_text (claim "sub" payload) u.id && u.is_active) users in
        if is_text (claim "type" payload) "refresh" then refreshed clock user else failed 401

    -- `mcpt_refresh_token or request.refresh_token`
    abbrev given_text : Option String → String
    given_text none = ""
    given_text (some token) = token

    abbrev chosen : Option String → Option String → String
    chosen cookie given =
        if is_empty (given_text cookie) then given_text given else given_text cookie

    unfoldable pub refresh_token :
        Clock → Option (List User) → Option String → Option String → Result Tokens
    refresh_token clock users cookie given =
        let token = chosen cookie given in
        if is_empty token
        then failed 401
        else if ltb max_token_length (count token)
        then failed 401
        else refresh_payload clock users (decode_and_verify_token decode token)

-- `register` of a validated request: the rows afterwards and the new user's id. `commits` says whether the
-- commit succeeds.
unfoldable pub register :
    (String → String)
    → Bool
    → String
    → String
    → String
    → String
    → List User
    → Result String × List User
register hash_password commits new_id email password full_name users =
    let new_user : User = record {
      id = new_id;
      email = email;
      hashed_password = hash_password password;
      full_name = full_name;
      role_id = 2;
      is_active = true;
    } in
    elim (first_user (λ u. u.email == email) users) [
      | some _ ↦ (failed 409, users)
      | none ↦ if commits then (ok new_id, users ++ (new_user ∷ [])) else (failed 500, users)
    ]

abbrev verified : Option Claims → Result Claims
verified none = failed 401
verified (some payload) = if is_text (claim "type" payload) "access" then ok payload else failed 401

-- `Field(..., min_length=1, max_length=MAX_TOKEN_LENGTH)`
abbrev pub is_verifiable : String → Bool
is_verifiable token = leb 1 (count token) && leb (count token) max_token_length

-- `verify_token` of the auth service, with the validation of its body.
unfoldable pub verify_route : (String → Decoded) → String → Result Claims
verify_route decode token =
    if is_verifiable token then verified (decode_and_verify_token decode token) else failed 422

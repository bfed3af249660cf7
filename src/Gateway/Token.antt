-- ===== src/Gateway/Token.antt =====
-- `verify_token` and the token check of `websocket_endpoint` in apps/gateway/src/main.py. `jwt.decode` is a
-- parameter, which answers the claims of a token or the exception it raises.
pub mod Admission
mod Tests
use intelligent_multi_camera.Prelude.{
  ℕ, String, string_eq, Bool, true, false, not, ◌&&◌, ◌||◌, List, [], ◌∷◌, Option, none, some, ltb,
  ◌==◌, if◌then◌else◌,
}
use intelligent_multi_camera.Prelude.Int.{ℤ, pos, negsuc}
use intelligent_multi_camera.Prelude.Text.{is_empty, same_name, split, int_of, str_of}
use intelligent_multi_camera.Prelude.Dict.{Dict, lookup}
use intelligent_multi_camera.Shared.Http.{Result, ok, failed}
use intelligent_multi_camera.Shared.Security.{Role, role_of}
use Prim.Native.String.{count}

-- A JSON value. A finite float is given by whether it is not zero, its `int` and its `str`, and an array or
-- an object by whether it is not empty and its `str`.
pub data Claim : Type 0 where
  null : Claim
  boolean : Bool → Claim
  integer : ℤ → Claim
  real : Bool → ℤ → String → Claim
  text : String → Claim
  container : Bool → String → Claim

abbrev pub Claims : Type 0
Claims = Dict String Claim

-- What `jwt.decode` does: `InvalidTokenError`, its subclass for an expired signature, or the claims.
pub data Decoded : Type 0 where
  invalid expired : Decoded
  claims : Claims → Decoded

abbrev pub max_authorization_header_length : ℕ
max_authorization_header_length = 8192

abbrev pub max_jwt_token_length : ℕ
max_jwt_token_length = 4096

-- `payload.get(name)`, which is `None` for a missing claim.
unfoldable pub claim : String → Claims → Claim
claim name payload = elim (lookup name payload) [ none ↦ null | some c ↦ c ]

-- `bool(c)`
abbrev pub truth : Claim → Bool
truth null = false
truth (boolean b) = b
truth (integer (pos n)) = ltb 0 n
truth (integer (negsuc n)) = true
truth (real b _ _) = b
truth (text s) = not (is_empty s)
truth (container b _) = b

-- `c == s`, for a text.
abbrev pub is_text : Claim → String → Bool
is_text (text t) s = t == s
is_text _ s = false

-- `int(c)`, and `none` for `TypeError` and `ValueError`.
abbrev pub int_of_claim : Claim → Option ℤ
int_of_claim null = none
int_of_claim (boolean b) = some (pos (if b then 1 else 0))
int_of_claim (integer n) = some n
int_of_claim (real _ n _) = some n
int_of_claim (text s) = int_of s
int_of_claim (container _ _) = none

-- `str(c)`
unfoldable pub str_of_claim : Claim → String
str_of_claim null = "None"
str_of_claim (boolean b) = if b then "True" else "False"
str_of_claim (integer n) = str_of n
str_of_claim (real _ _ s) = s
str_of_claim (text s) = s
str_of_claim (container _ s) = s

-- `Role(int(c))`
unfoldable pub role_of_claim : Claim → Option Role
role_of_claim c = elim (int_of_claim c) [ none ↦ none | some n ↦ role_of n ]

-- The checks after decoding.
unfoldable pub check_payload : Claims → Result Claims
check_payload payload =
    if not (is_text (claim "type" payload) "access")
    then failed 401
    else if not (truth (claim "sub" payload))
    then failed 401
    else elim (role_of_claim (claim "role_id" payload)) [ none ↦ failed 403 | some _ ↦ ok payload ]

unfoldable pub check_decoded : Decoded → Result Claims
check_decoded invalid = failed 401
check_decoded expired = failed 401
check_decoded (claims payload) = check_payload payload

module _ (decode : String → Decoded) where
  -- The parts of a header that is neither missing nor too large.
  unfoldable pub check_parts : List String → Result Claims
  check_parts (scheme ∷ token ∷ []) =
      if not (same_name scheme "bearer")
      then failed 401
      else if ltb max_jwt_token_length (count token)
      then failed 401
      else check_decoded (decode token)
  check_parts _ = failed 401

  unfoldable pub verify_token : Option String → Result Claims
  verify_token none = failed 401
  verify_token (some authorization_header) =
      if is_empty authorization_header
      then failed 401
      else if ltb max_authorization_header_length (count authorization_header)
      then failed 431
      else check_parts (split authorization_header)

  -- The token of a WebSocket: the closing code 4001, or the claims with which the client may connect.
  unfoldable pub check_websocket_token : Option String → Result Claims
  check_websocket_token none = failed 4001
  check_websocket_token (some token) =
      if is_empty token
      then failed 4001
      else if ltb max_jwt_token_length (count token)
      then failed 4001
      else elim (check_decoded (decode token)) [ ok payload ↦ ok payload | failed _ ↦ failed 4001 ]

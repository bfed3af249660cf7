-- ===== src/Auth/Tokens.antt =====
-- apps/auth-service/src/services/token_service.py. `jwt.encode` and `jwt.decode` are parameters; times and
-- durations are in seconds.
use intelligent_multi_camera.Prelude.{ℕ, ◌+◌, String, string_eq, Option, none, some}
use intelligent_multi_camera.Prelude.Int.{pos}
use intelligent_multi_camera.Prelude.Dict.{insert}
use intelligent_multi_camera.Gateway.Token.{
  Claims, Decoded, integer, text, invalid, expired, claims,
}

-- `to_encode.update({"exp": expire, "type": kind})`
unfoldable pub stamped : String → ℕ → Claims → Claims
stamped kind expire payload =
    insert "type" (text kind) (insert "exp" (integer (pos expire)) payload)

-- `decode_and_verify_token`, after `jwt.decode`.
abbrev pub decoded_payload : Decoded → Option Claims
decoded_payload invalid = none
decoded_payload expired = none
decoded_payload (claims payload) = some payload

module _ (encode : Claims → String) where
  -- `expires_delta`, or the setting of that kind of token.
  unfoldable pub create_access_token : ℕ → ℕ → Claims → String
  create_access_token now delta payload = encode (stamped "access" (now + delta) payload)

  unfoldable pub create_refresh_token : ℕ → ℕ → Claims → String
  create_refresh_token now delta payload = encode (stamped "refresh" (now + delta) payload)

unfoldable pub decode_and_verify_token : (String → Decoded) → String → Option Claims
decode_and_verify_token decode token = decoded_payload (decode token)

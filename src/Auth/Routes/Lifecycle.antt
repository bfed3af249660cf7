-- ===== src/Auth/Routes/Lifecycle.antt =====
-- From registration to the gateway: which tokens the auth service issues, and who takes them.
use intelligent_multi_camera.Prelude.{
  ℕ, ◌+◌, ◌≡◌, ◌≤◌, refl, ap, true, String, string_eq, false, List, [], ◌∷◌, Option, none, some,
  arith, ◌==◌, if◌then◌else◌,
}
use intelligent_multi_camera.Prelude.Int.{pos}
use intelligent_multi_camera.Prelude.Dict.{lookup, insert, lookup-insert}
use intelligent_multi_camera.Prelude.Text.{is_empty, same_name, split}
use intelligent_multi_camera.Shared.Http.{ok, failed}
use intelligent_multi_camera.Shared.Security.{Role, role_of}
use intelligent_multi_camera.Gateway.Token.{
  Claims, Decoded, claims, claim, is_text, text, integer, check_payload, check_decoded,
  verify_token, max_authorization_header_length, role_of_claim,
}
use intelligent_multi_camera.Gateway.Token.Admission.{IsAccess, verify_token_accepts}
use Prim.Native.String.{count}
use intelligent_multi_camera.Auth.Tokens.{
  stamped, create_access_token, create_refresh_token, decode_and_verify_token, decoded_payload,
}
use intelligent_multi_camera.Auth.Accounts.{User}
use intelligent_multi_camera.Auth.Routes.{
  Clock, user_payload, issue, is_verifiable, refresh_token, verify_route, refresh_payload,
}

claim-stamped :
    (kind : String) (expire : ℕ) (payload : Claims) (name : String)
    → claim name (stamped kind expire payload) ≡ (
        if name == "type"
        then text kind
        else if name == "exp"
        then integer (pos expire)
        else claim name payload)
unfolding claim stamped
claim-stamped kind expire payload name = ground (
  arith,
  lookup-insert name "type" (text kind) (insert "exp" (integer (pos expire)) payload),
  lookup-insert name "exp" (integer (pos expire)) payload,
)

-- An access token of a user whose role the services know.
issued-IsAccess :
    (user : User) (expire : ℕ) (r : Role)
    → is_empty user.id ≡ false
    → role_of (pos user.role_id) ≡ some r
    → IsAccess (stamped "access" expire (user_payload user))
unfolding user_payload claim lookup string_eq role_of_claim
issued-IsAccess user expire r named known =
    let payload = user_payload user in
    (
      rw (claim-stamped "access" expire payload "type") refl,
      rw (claim-stamped "access" expire payload "sub") (ground arith),
      (r, rw (claim-stamped "access" expire payload "role_id") known),
    )

-- A payload that is no refresh token.
wrong_kind :
    (encode : Claims → String) (decode : String → Decoded) (clock : Clock)
    (users : Option (List User)) (payload : Claims)
    → is_text (claim "type" payload) "refresh" ≡ false
    → refresh_payload encode decode clock users (some payload) ≡ failed 401
wrong_kind encode decode clock none payload wrong = ground arith
wrong_kind encode decode clock (some users) payload wrong = ground arith

-- The payloads that `issue` signs.
abbrev pub access_payload : Clock → User → Claims
access_payload clock user = stamped "access" (clock.now + clock.access_time) (user_payload user)

abbrev pub refresh_payload_of : Clock → User → Claims
refresh_payload_of clock user =
    stamped "refresh" (clock.now + clock.refresh_time) (("sub", text user.id) ∷ [])

-- What is assumed of `jwt`: a payload that was signed is read back, at a time when it has not expired.
abbrev pub ReadsBack : (Claims → String) → (String → Decoded) → Claims → Type 0
ReadsBack encode decode payload = decode (encode payload) ≡ claims payload

module _ (encode : Claims → String) (decode : String → Decoded) where
  -- The gateway and the verify route take the access token of a user with an id and a known role, while `jwt`
  -- reads it back: the token has 1 to 4096 characters, and the gateway reads it in a header of at most 8192
  -- characters that splits into the scheme "bearer", in any case, and the token.
  pub issued_token_accepted :
      (clock : Clock) (user : User) (r : Role) (header scheme : String)
      → ReadsBack encode decode (access_payload clock user)
      → is_empty user.id ≡ false
      → role_of (pos user.role_id) ≡ some r
      → is_verifiable (issue encode clock user).access_token ≡ true
      → count header ≤ max_authorization_header_length
      → split header ≡ scheme ∷ (issue encode clock user).access_token ∷ []
      → same_name scheme "bearer" ≡ true
      → let token = (issue encode clock user).access_token in
        (verify_token decode (some header) ≡ ok (access_payload clock user))
        × (verify_route decode token ≡ ok (access_payload clock user))
  unfolding issue create_access_token verify_route decode_and_verify_token
  issued_token_accepted clock user r header scheme read named known fits short parts bearer =
      let access = issued-IsAccess user (clock.now + clock.access_time) r named known in
      (
        (verify_token_accepts decode header (access_payload clock user)).1 (
          short,
          (scheme, encode (access_payload clock user), parts, bearer, ground arith, read, access),
        ),
        rw fits (rw read (rw (access.0) refl)),
      )

  -- The two kinds of token are kept apart: the gateway and the verify route refuse a refresh token, the latter
  -- already as a body where it is empty or too long, and the refresh route refuses an access token in its cookie,
  -- whatever the users' table holds, while `jwt` reads both back.
  pub tokens_kept_apart :
      (clock : Clock) (user : User) (users : Option (List User)) (given : Option String)
      → ReadsBack encode decode (access_payload clock user)
      → ReadsBack encode decode (refresh_payload_of clock user)
      → is_empty (issue encode clock user).access_token ≡ false
      → let tokens = issue encode clock user in
        (check_decoded (decode tokens.refresh_cookie) ≡ failed 401)
        × (verify_route decode tokens.refresh_cookie
            ≡ failed (if is_verifiable tokens.refresh_cookie then 401 else 422))
        × (refresh_token encode decode clock users (some tokens.access_token) given ≡ failed 401)
  unfolding issue create_access_token create_refresh_token verify_route decode_and_verify_token
      refresh_token check_decoded check_payload string_eq
  tokens_kept_apart clock user users given read_access read_refresh filled =
      let not_access : is_text (claim "type" (refresh_payload_of clock user)) "access" ≡ false =
        rw
          (claim-stamped "refresh" (clock.now + clock.refresh_time) (("sub", text user.id) ∷ [])
            "type")
          refl in
      let not_refresh : is_text (claim "type" (access_payload clock user)) "refresh" ≡ false =
        rw (claim-stamped "access" (clock.now + clock.access_time) (user_payload user) "type")
          refl in
      (
        rw read_refresh (rw not_access refl),
        rw read_refresh (rw not_access (ground arith)),
        ground (
          arith,
          wrong_kind encode decode clock users (access_payload clock user) not_refresh,
          ap decoded_payload read_access,
        ),
      )

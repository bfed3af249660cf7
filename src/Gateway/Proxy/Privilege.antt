-- ===== src/Gateway/Proxy/Privilege.antt =====
-- The role with which a service behind the gateway admits a request, against the role in its token.
use intelligent_multi_camera.Prelude.{
  zero, suc, ◌≡◌, refl, String, string_eq, true, false, List, [], ◌∷◌, Option, none, some, arith,
}
use intelligent_multi_camera.Prelude.Int.{ℤ, pos, negsuc}
use intelligent_multi_camera.Prelude.Dict.{lookup}
use intelligent_multi_camera.Prelude.Text.{is_empty, int_of, str_of, strip}
use intelligent_multi_camera.Shared.Http.{ok, Headers, ReadsFirst}
use intelligent_multi_camera.Shared.Security.{
  Role, admin, is_in, AuthenticatedUser, parse_role, role_of, require_roles, header,
  require_internal_user_admits,
}
use intelligent_multi_camera.Gateway.Token.{Claims, integer, text, claim, str_of_claim}
use intelligent_multi_camera.Gateway.Proxy.{with_identity}
use intelligent_multi_camera.Gateway.Proxy.Identity.{LowerCase, with_identity_received}

-- A role survives being printed by the gateway and parsed by the service.
parse_role-str_of : (n : ℤ) (r : Role) → role_of n ≡ some r → parse_role (str_of n) ≡ some r
unfolding parse_role role_of str_of int_of strip
parse_role-str_of (pos (suc zero)) r h = h
parse_role-str_of (pos (suc (suc zero))) r h = h
parse_role-str_of (pos zero) r h = absurd (ground arith)
parse_role-str_of (pos (suc (suc (suc _)))) r h = absurd (ground arith)
parse_role-str_of (negsuc _) r h = absurd (ground arith)

-- What is assumed of a verified request: the client's own lines are in lower case and hold no service key, and
-- the token is that of the user `user` with the role `r`, as a whole number.
abbrev pub IsVerified : String → String → Role → Claims → Headers → Headers → Type 0
IsVerified service_key user r payload lines out =
    LowerCase lines
    × (claim "sub" payload ≡ text user)
    × ((n : ℤ) × (claim "role_id" payload ≡ integer n) × (role_of n ≡ some r))
    × (with_identity service_key payload lines ≡ ok out)
    × (lookup "x-internal-service-key" lines ≡ none)
    × (is_empty service_key ≡ false)
    × (is_empty user ≡ false)

module _ (get : String → Headers → Option String) (reads : ReadsFirst get) where
  -- A verified request whose client sent no identity headers is admitted by a service that shares the gateway's
  -- key as the token's user with the token's role, if the route allows that role.
  pub admitted_as_token :
      (service_key user : String) (r : Role) (payload : Claims) (lines out : Headers)
      (allowed : List Role)
      → IsVerified service_key user r payload lines out
      → lookup "x-user-id" lines ≡ none
      → lookup "x-user-role" lines ≡ none
      → is_in r allowed ≡ true
      → require_roles get service_key allowed out ≡ ok (record { user_id = user; role = r })
  unfolding require_roles str_of_claim
  admitted_as_token service_key user r payload lines out allowed
        (low, subject, (n, role, known), sent, no_key, keyed, named) no_id no_role member =
      let (id_read, role_read, key_read) =
        with_identity_received get reads service_key user payload lines out low subject sent in
      let u : AuthenticatedUser = record { user_id = user; role = r } in
      let id_is : header get "X-User-Id" out ≡ user = ground arith in
      let key_is : header get "X-Internal-Service-Key" out ≡ service_key = ground arith in
      let role_is : header get "X-User-Role" out ≡ str_of n = ground arith in
      rw (id_is, key_is, role_is)
        ((require_internal_user_admits service_key allowed service_key user (str_of n) u).1
          (keyed, refl, named, refl, parse_role-str_of n r known, member))

  -- The client's role wins: a verified request of any role, whose client also sent `x-user-role: 1` (and no user
  -- id of its own), is admitted as an administrator.
  pub client_role_wins :
      (service_key user : String) (r : Role) (payload : Claims) (lines out : Headers)
      → IsVerified service_key user r payload lines out
      → lookup "x-user-id" lines ≡ none
      → lookup "x-user-role" lines ≡ some "1"
      → require_roles get service_key (admin ∷ []) out
        ≡ ok (record { user_id = user; role = admin })
  unfolding require_roles parse_role role_of int_of strip
  client_role_wins service_key user r payload lines out
        (low, subject, _, sent, no_key, keyed, named) no_id spoofed =
      let (id_read, role_read, key_read) =
        with_identity_received get reads service_key user payload lines out low subject sent in
      let u : AuthenticatedUser = record { user_id = user; role = admin } in
      let id_is : header get "X-User-Id" out ≡ user = ground arith in
      let key_is : header get "X-Internal-Service-Key" out ≡ service_key = ground arith in
      let role_is : header get "X-User-Role" out ≡ "1" = ground arith in
      rw (id_is, key_is, role_is)
        ((require_internal_user_admits service_key (admin ∷ []) service_key user "1" u).1
          (keyed, refl, named, refl, refl, refl))

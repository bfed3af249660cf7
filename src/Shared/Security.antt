-- ===== src/Shared/Security.antt =====
-- packages/shared/security.py: the check that every internal service makes of the headers it is given.
mod Tests
use intelligent_multi_camera.Prelude.{
  ◌≡◌, refl, ◌≢◌, ap, String, string_eq, Bool, true, false, not, ◌&&◌, ◌||◌, List, [], ◌∷◌, Option,
  none, some, Eq, ◌==◌, contains, if◌then◌else◌, ◌↔◌, arith, ℕ, zero, suc,
}
use intelligent_multi_camera.Prelude.Int.{ℤ, pos, negsuc}
use intelligent_multi_camera.Prelude.Text.{is_empty, same_name, int_of}
use intelligent_multi_camera.Shared.Http.{Result, ok, failed, Headers}

pub data Role : Type 0 where
  admin operator : Role

-- `Role(n)`, and `none` where it raises `ValueError`.
unfoldable pub role_of : ℤ → Option Role
role_of (pos (suc zero)) = some admin
role_of (pos (suc (suc zero))) = some operator
role_of _ = none

abbrev pub same_role : Role → Role → Bool
same_role admin admin = true
same_role operator operator = true
same_role _ _ = false

-- `role in allowed`
abbrev pub is_in : Role → List Role → Bool
is_in r [] = false
is_in r (s ∷ allowed) = same_role r s || is_in r allowed

pub record AuthenticatedUser : Type 0 where
  pub user_id : String
  pub role : Role

-- `key` and `env` are the variables INTERNAL_SERVICE_KEY and ENV.
unfoldable pub get_internal_service_key : String → String → String
get_internal_service_key key env =
    if is_empty key && not (same_name env "production")
    then "local-development-only-internal-service-key-32-bytes"
    else key

-- `Role(int(text))`
unfoldable pub parse_role : String → Option Role
parse_role text = elim (int_of text) [ none ↦ none | some n ↦ role_of n ]

abbrev authorised : List Role → String → Option Role → Result AuthenticatedUser
authorised allowed user_id none = failed 403
authorised allowed user_id (some role) =
    if is_in role allowed then ok (record { user_id = user_id; role = role }) else failed 403

unfoldable pub require_internal_user :
    String → List Role → String → String → String → Result AuthenticatedUser
require_internal_user expected_key allowed x_internal_service_key x_user_id x_user_role =
    if is_empty expected_key || not (x_internal_service_key == expected_key)
    then failed 403
    else if is_empty x_user_id
    then failed 401
    else authorised allowed x_user_id (parse_role x_user_role)

-- `Header(default="", alias=name)`, where FastAPI reads the header by `get`.
module _ (get : String → Headers → Option String) where
  abbrev pub header : String → Headers → String
  header name lines = elim (get name lines) [ none ↦ "" | some v ↦ v ]

  unfoldable pub require_roles : String → List Role → Headers → Result AuthenticatedUser
  require_roles expected_key allowed lines =
      require_internal_user expected_key allowed (header "X-Internal-Service-Key" lines)
        (header "X-User-Id" lines) (header "X-User-Role" lines)

-- The last check alone.
authorised_admits :
    (allowed : List Role) (user_id : String) (r : Option Role) (u : AuthenticatedUser)
    → (authorised allowed user_id r ≡ ok u)
      ↔ ((u.user_id ≡ user_id) × (r ≡ some u.role) × (is_in u.role allowed ≡ true))
authorised_admits allowed user_id none u = (λ h. ground arith, λ (same, found, _). ground arith)
authorised_admits allowed user_id (some role) u =
    (λ h. ground arith, λ (same, found, member). ground arith)

-- A request is admitted as a user exactly when the service has a key, the request carries that key and a user
-- that is not empty, and its role is one of those allowed.
pub require_internal_user_admits :
    (expected_key : String) (allowed : List Role) (key user_id user_role : String)
    (u : AuthenticatedUser)
    → (require_internal_user expected_key allowed key user_id user_role ≡ ok u) ↔ (
        (is_empty expected_key ≡ false)
        × (key ≡ expected_key)
        × (is_empty user_id ≡ false)
        × (u.user_id ≡ user_id)
        × (parse_role user_role ≡ some u.role)
        × (is_in u.role allowed ≡ true))
unfolding require_internal_user
require_internal_user_admits expected_key allowed key user_id user_role u =
    ground (arith, authorised_admits allowed user_id (parse_role user_role) u)

-- ===== src/Auth/Accounts.antt =====
-- apps/auth-service/src/services/auth_service.py over the users' table, as the list of its rows. bcrypt is a
-- parameter: `checkpw` raises where it answers `none`.
use intelligent_multi_camera.Prelude.{
  ℕ, String, string_eq, Bool, false, ◌&&◌, List, [], ◌∷◌, Option, none, some, ◌==◌, if◌then◌else◌,
}

pub record User : Type 0 where
  pub id : String
  pub email : String
  pub hashed_password : String
  pub full_name : String
  pub role_id : ℕ
  pub is_active : Bool

-- The first row with a property.
unfoldable pub first_user : (User → Bool) → List User → Option User
first_user p [] = none
first_user p (u ∷ users) = let rest = first_user p users in if p u then some u else rest

-- How a check of credentials ends.
pub data Credentials : Type 0 where
  unavailable rejected : Credentials
  accepted : User → Credentials

abbrev pub dummy_hash : String
dummy_hash = "$2b$12$L9cyqFUpysenWtJrxnlYEuyjAeBFlv1nRYRoxc1s3fXq8o1ZwsPPW"

module _ (checkpw : String → String → Option Bool) where
  unfoldable pub verify_password : String → String → Bool
  verify_password plain_password hashed_password = elim (checkpw plain_password hashed_password) [
    | none ↦ false
    | some same ↦ same
  ]

  abbrev check_user : String → Option User → Credentials
  check_user password none = elim (checkpw password dummy_hash) [
    | none ↦ unavailable
    | some _ ↦ rejected
  ]
  check_user password (some user) =
      if verify_password password user.hashed_password then accepted user else rejected

  -- `none` for a database that cannot be reached.
  unfoldable pub authenticate_user : Option (List User) → String → String → Credentials
  authenticate_user none email password = unavailable
  authenticate_user (some users) email password =
      check_user password (first_user (λ u. u.email == email && u.is_active) users)

-- ===== src/Auth/Routes/Registration.antt =====
-- From registration to login, over the users' table.
use intelligent_multi_camera.Prelude.{
  ◌≡◌, refl, ◌∙◌, subst, inl, inr, String, string_eq, Bool, true, ◌&&◌, List, [], ◌∷◌, ◌++◌, Option,
  none, some, arith, ◌==◌, Bool-cases, Option-cases, if_both, if◌then◌else◌,
}
use intelligent_multi_camera.Shared.Http.{Result, ok, failed}
use intelligent_multi_camera.Gateway.Token.{Claims}
use intelligent_multi_camera.Auth.Accounts.{
  User, first_user, accepted, authenticate_user, verify_password,
}
use intelligent_multi_camera.Auth.Routes.{Clock, issue, login, register}

first_user_holds :
    (p : User → Bool) (users : List User) (u : User) → first_user p users ≡ some u → p u ≡ true
unfolding first_user
first_user_holds p [] u h = absurd (ground arith)
first_user_holds p (v ∷ users) u h = elim (Bool-cases (p v)) [
  | inl yes_v ↦ let same : v ≡ u = ground arith in subst (λ w. p w ≡ true) same yes_v
  | inr no_v ↦ first_user_holds p users u (ground arith)
]

first_user_weaker :
    (p q : User → Bool) (users : List User)
    → ((u : User) → q u ≡ true → p u ≡ true)
    → first_user p users ≡ none
    → first_user q users ≡ none
unfolding first_user
first_user_weaker p q [] h e = refl
first_user_weaker p q (u ∷ users) h e = ground (arith, h u, first_user_weaker p q users h)

first_user-append :
    (p : User → Bool) (users : List User) (u : User)
    → first_user p users ≡ none
    → first_user p (users ++ (u ∷ [])) ≡ (if p u then some u else none)
unfolding first_user
first_user-append p [] u e = refl
first_user-append p (v ∷ users) u e = ground (arith, first_user-append p users u)

-- No email stands in two rows.
abbrev pub IsUnique : List User → Type 0
IsUnique [] = Unit
IsUnique (u ∷ users) = (first_user (λ v. v.email == u.email) users ≡ none) × IsUnique users

append-IsUnique :
    (users : List User) (u : User)
    → first_user (λ v. v.email == u.email) users ≡ none
    → IsUnique users
    → IsUnique (users ++ (u ∷ []))
unfolding first_user
append-IsUnique [] u fresh unique = (refl, tt)
append-IsUnique (v ∷ users) u fresh (here, unique) = elim (string_eq.dec v.email u.email) [
  | yes same ↦ absurd (ground arith)
  | no other ↦ (
    first_user-append (λ w. w.email == v.email) users u here ∙ ground arith,
    append-IsUnique users u (ground arith) unique,
  )
]

-- The row of a new user.
abbrev registered : String → String → String → String → User
registered new_id email hashed full_name = record {
  id = new_id;
  email = email;
  hashed_password = hashed;
  full_name = full_name;
  role_id = 2;
  is_active = true;
}

-- Registration keeps the emails of the table unique, whether or not it succeeds.
pub register-IsUnique :
    (hash_password : String → String) (commits : Bool) (new_id email password full_name : String)
    (users : List User)
    → IsUnique users
    → IsUnique (register hash_password commits new_id email password full_name users).1
unfolding register
register-IsUnique hash_password commits new_id email password full_name users unique =
    elim (Option-cases (first_user (λ u. u.email == email) users)) [
      | inl fresh ↦
          let new_user = registered new_id email (hash_password password) full_name in
          rw (fresh, register)
            (if_both (λ (r : Result String × List User). IsUnique r.1) commits
              (ok new_id, users ++ (new_user ∷ [])) (failed 500, users)
              (append-IsUnique users new_user fresh unique) unique)
      | inr (u, taken) ↦ rw (taken, register) unique
    ]

module _ (checkpw : String → String → Option Bool) where
  -- The service accepts a login only for an active row of that email whose hash bcrypt matches with the password.
  pub authenticate_user_accepts :
      (users : List User) (email password : String) (u : User)
      → authenticate_user checkpw (some users) email password ≡ accepted u
      → (u.email ≡ email) × (u.is_active ≡ true) × (checkpw password u.hashed_password ≡ some true)
  unfolding authenticate_user verify_password
  authenticate_user_accepts users email password u h =
      elim (Option-cases (first_user (λ v. v.email == email && v.is_active) users)) [
        | inl missing ↦ absurd (ground arith)
        | inr (v, found) ↦
            let same : v ≡ u = ground arith in
            let holds = first_user_holds (λ v. v.email == email && v.is_active) users v found in
            subst
              (λ w.
                (w.email ≡ email)
                × (w.is_active ≡ true)
                × (checkpw password w.hashed_password ≡ some true))
              same (ground arith)
      ]

  -- A user that has just registered can log in with the password, and gets the tokens of an operator, if bcrypt
  -- matches a password with its own hash.
  pub register_login :
      (encode : Claims → String) (clock : Clock) (hash_password : String → String)
      (new_id email password full_name : String) (users after : List User)
      → checkpw password (hash_password password) ≡ some true
      → register hash_password true new_id email password full_name users ≡ (ok new_id, after)
      → login encode checkpw clock (some after) email password
        ≡ ok (
            issue encode clock (record {
              id = new_id;
              email = email;
              hashed_password = hash_password password;
              full_name = full_name;
              role_id = 2;
              is_active = true;
            }))
  unfolding register login authenticate_user verify_password
  register_login encode clock hash_password new_id email password full_name users after matches h =
      elim (Option-cases (first_user (λ u. u.email == email) users)) [
        | inr (u, taken) ↦ absurd (ground arith)
        | inl fresh ↦
            let new_user = registered new_id email (hash_password password) full_name in
            let active : User → Bool = λ u. u.email == email && u.is_active in
            let e : after ≡ users ++ (new_user ∷ []) = ground arith in
            let missing =
              first_user_weaker (λ u. u.email == email) active users (λ u both. ground arith)
                fresh in
            let found : first_user active after ≡ some new_user =
              rw e (first_user-append active users new_user missing ∙ ground arith) in
            ground arith
      ]

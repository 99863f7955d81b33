-- ===== src/UserService.antt =====
-- Accounts and tokens (src/services/userService.js). jsonwebtoken is a parameter: `sign` makes the
-- text of a token, or throws, and `verify` reads it. The expiries are the texts of the configuration.
pub mod Accounts
use smartmeet_backend.Prelude.{
  ℕ, String, Bool, true, false, not, Option, none, some, List, find_first, is_some, ◌==◌, Action,
  Result, from_result, ok, err, pure, gets, or_throw, throw_if, ◌>>=◌, ◌>>◌,
}
use smartmeet_backend.Errors.{Failure, auth_error, conflict_error}
use smartmeet_backend.Models.{Database, User, has_email, has_username, create_user}
use smartmeet_backend.RoomService.{Bcrypt}

-- The claims that the program writes and reads. `is_refresh` is `type === 'refresh'`.
pub record Payload : Type 0 where
  pub sub : ℕ
  pub email : Option String
  pub username : Option String
  pub is_refresh : Bool

-- What `verify` answers: the payload, or the error that it throws, which is a TokenExpiredError or
-- another.
pub data Verified : Type 0 where
  verified : Payload → Verified
  expired invalid : Verified

-- the `try` around `verify`
abbrev pub read_payload : Verified → Option Payload
read_payload (verified p) = some p
read_payload expired = none
read_payload invalid = none

-- A token is the list of its code units.
pub record Jwt : Type 0 where
  pub sign : (now : ℕ) → Payload → (secret expires_in : String) → Result (List ℕ)
  pub verify : (now : ℕ) → List ℕ → (secret : String) → Verified

-- `env.jwt`
pub record JwtConfig : Type 0 where
  pub secret : String
  pub refresh_secret : String
  pub access_expiry : String
  pub refresh_expiry : String

-- `toSafeJSON`, less the two dates: the password's hash is not among the fields.
pub record SafeUser : Type 0 where
  pub id : ℕ
  pub email : String
  pub username : String
  pub avatar_url : Option String

abbrev pub safe_json : User → SafeUser
safe_json u = record {
  id = u.id;
  email = u.email;
  username = u.username;
  avatar_url = u.avatar_url;
}

pub record TokenPair : Type 0 where
  pub user : SafeUser
  pub access_token : List ℕ
  pub refresh_token : List ℕ

pub record RegisterInput : Type 0 where
  pub email : String
  pub username : String
  pub password : String

-- SALT_ROUNDS of the user service
abbrev pub user_salt_rounds : ℕ
user_salt_rounds = 10

abbrev pub access_payload : User → Payload
access_payload u = record {
  sub = u.id;
  email = some u.email;
  username = some u.username;
  is_refresh = false;
}

abbrev pub refresh_payload : User → Payload
refresh_payload u = record { sub = u.id; email = none; username = none; is_refresh = true }

-- `findOne({ where: { email } })`
unfoldable pub find_user_by_email : String → Database → Option User
find_user_by_email email db = find_first (has_email email) db.users

unfoldable pub find_user_by_username : String → Database → Option User
find_user_by_username username db = find_first (has_username username) db.users

-- `findByPk`
unfoldable pub find_user : ℕ → Database → Option User
find_user id db = find_first (λ (u : User). u.id == id) db.users

-- what the environment hands to a registration: the new row's id and the salt
pub record NewAccount : Type 0 where
  pub id : ℕ
  pub salt : ℕ

abbrev pub invalid_login : Failure
invalid_login = auth_error "Invalid email or password"

abbrev pub new_user : Bcrypt → NewAccount → RegisterInput → User
new_user bcrypt a input = record {
  id = a.id;
  email = input.email;
  username = input.username;
  password_hash = bcrypt.hash a.salt user_salt_rounds input.password;
  avatar_url = none;
}

module _ (jwt : Jwt) (config : JwtConfig) where
  unfoldable pub sign_access_token : ℕ → User → Result (List ℕ)
  sign_access_token now u = jwt.sign now (access_payload u) config.secret config.access_expiry

  unfoldable pub sign_refresh_token : ℕ → User → Result (List ℕ)
  sign_refresh_token now u =
      jwt.sign now (refresh_payload u) config.refresh_secret config.refresh_expiry

  unfoldable pub issue_token_pair : ℕ → User → Action Database TokenPair
  issue_token_pair now u = do
    access_token ← from_result (sign_access_token now u)
    refresh_token ← from_result (sign_refresh_token now u)
    pure (record { user = safe_json u; access_token = access_token; refresh_token = refresh_token })

  unfoldable pub refresh_tokens : ℕ → List ℕ → Action Database TokenPair
  unfolding find_user
  refresh_tokens now token = do
    payload ←
        or_throw (read_payload (jwt.verify now token config.refresh_secret))
          (auth_error "Invalid or expired refresh token")
    throw_if (not payload.is_refresh) (auth_error "Invalid refresh token")
    found ← gets (find_user payload.sub)
    u ← or_throw found (auth_error "User no longer exists")
    issue_token_pair now u

  module _ (bcrypt : Bcrypt) where
    -- the two queries of `registerUser`
    unfoldable pub register_check : RegisterInput → Action Database (Unit {0})
    unfolding find_user_by_email find_user_by_username
    register_check input = do
      existing ← gets (find_user_by_email input.email)
      throw_if (is_some existing) (conflict_error "An account with this email already exists")
      existing_username ← gets (find_user_by_username input.username)
      throw_if (is_some existing_username) (conflict_error "This username is already taken")

    unfoldable pub register_user : ℕ → NewAccount → RegisterInput → Action Database TokenPair
    unfolding create_user
    register_user now a input = do
      register_check input
      u ← create_user (new_user bcrypt a input)
      issue_token_pair now u

    unfoldable pub login_user : ℕ → (email password : String) → Action Database TokenPair
    unfolding find_user_by_email
    login_user now email password = do
      found ← gets (find_user_by_email email)
      u ← or_throw found invalid_login
      throw_if (not (bcrypt.compare password u.password_hash)) invalid_login
      issue_token_pair now u

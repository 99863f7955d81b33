-- ===== src/Tests/Accounts.antt =====
-- The theorems on accounts and tokens.
use smartmeet_backend.Prelude.{
  ℕ, ◌+◌, ◌-◌, ◌≡◌, ◌≢◌, refl, false, some, List, [], ◌∷◌, ok, err, arith, if◌then◌else◌,
}
use text.Mathlib.Text.{◌==◌ as str_eq}
use smartmeet_backend.Prelude.Map.{nat_key}
use smartmeet_backend.Errors.{Failure, auth_error, plain_error}
use smartmeet_backend.Models.{
  add_user, Database, Room, RoomParticipant, create_user, find_room, is_active_in, is_active_of,
  has_email, has_username,
}
use smartmeet_backend.UserService.{
  Jwt, JwtConfig, Payload, verified, invalid, access_payload, NewAccount, RegisterInput, new_user,
  TokenPair, safe_json, sign_access_token, sign_refresh_token, issue_token_pair, refresh_tokens,
  register_check, register_user, login_user, find_user_by_email, find_user_by_username,
}
use smartmeet_backend.UserService.Accounts.{register_user-login}
use smartmeet_backend.Authentication.{authenticate}
use smartmeet_backend.Authentication.Tokens.{
  has_space, bearer_header, authenticate-issued, refresh_tokens-access,
}
use smartmeet_backend.RateLimit.{rate_key}
use smartmeet_backend.Tests.Data.{plain_bcrypt, tables}

-- A toy jsonwebtoken: the text of a token is that of its user's id, 7 or 8, and an access token
-- verifies with the access secret alone.
abbrev toy_payload : ℕ → Payload
toy_payload id = record {
  sub = id;
  email = some "n@x";
  username = some "newcomer";
  is_refresh = false;
}

abbrev pub toy_jwt : Jwt
toy_jwt = record {
  sign = λ now p secret expires. ok ((48 + p.sub) ∷ []);
  verify = λ now token secret. elim token [
    | [] ↦ invalid
    | c ∷ cs ↦ if str_eq secret "a" then verified (toy_payload (c - 48)) else invalid
  ];
}

abbrev pub config : JwtConfig
config = record { secret = "a"; refresh_secret = "r"; access_expiry = "15m"; refresh_expiry = "7d" }

abbrev pub account : NewAccount
account = record { id = 9; salt = 3 }

abbrev registration : RegisterInput
registration = record { email = "n@x"; username = "newcomer"; password = "pw345678" }

abbrev newcomer : smartmeet_backend.Models.User
newcomer = new_user plain_bcrypt account registration

abbrev token : List ℕ
token = 57 ∷ []

abbrev issued : TokenPair
issued = record { user = safe_json newcomer; access_token = token; refresh_token = token }

registered :
    (register_user toy_jwt config plain_bcrypt 100 account registration tables).0 ≡ ok issued
unfolding register_user register_check find_user_by_email find_user_by_username create_user
    issue_token_pair sign_access_token sign_refresh_token
registered = refl

-- An expiry that jsonwebtoken does not take: the registration fails, and the account is there.
abbrev strict_jwt : Jwt
strict_jwt = record toy_jwt { sign = λ now p secret expires. err (plain_error "expiresIn") }

unsigned :
    register_user strict_jwt config plain_bcrypt 100 account registration tables
    ≡ (err (plain_error "expiresIn"), add_user newcomer tables)
unfolding register_user register_check find_user_by_email find_user_by_username create_user
    issue_token_pair sign_access_token
unsigned = refl

wrong_password :
    (login_user toy_jwt config plain_bcrypt 100 "h@x" "wrong" tables).0
    ≡ err (auth_error "Invalid email or password")
unfolding login_user find_user_by_email
wrong_password = refl

register_user-login_example :
    (login_user toy_jwt config plain_bcrypt 200 "n@x" "pw345678"
      (register_user toy_jwt config plain_bcrypt 100 account registration tables).1).0
    ≡ ok issued
register_user-login_example =
    register_user-login toy_jwt config plain_bcrypt 100 200 account registration tables issued token
      token registered refl (unfold sign_access_token in refl) (unfold sign_refresh_token in refl)

issued_tokens : (issue_token_pair toy_jwt config 100 newcomer tables).0 ≡ ok issued
unfolding issue_token_pair sign_access_token sign_refresh_token
issued_tokens = refl

signed_law :
    (t : List ℕ)
    → sign_access_token toy_jwt config 100 newcomer ≡ ok t
    → (has_space t ≡ false)
      × (t ≢ [])
      × (toy_jwt.verify 200 t config.secret ≡ verified (access_payload newcomer))
unfolding sign_access_token
signed_law t e = let same : token ≡ t = ground arith in rw (← same) (refl, λ empty. cc, refl)

authenticate-issued_example :
    authenticate toy_jwt config 200 (bearer_header issued.access_token)
    ≡ ok (record { id = 9; email = some "n@x"; username = some "newcomer" })
authenticate-issued_example =
    authenticate-issued toy_jwt config 100 200 newcomer tables issued signed_law issued_tokens

-- The two secrets are the same, so an access token does verify as a refresh token.
abbrev careless : JwtConfig
careless = record config { refresh_secret = "a" }

honest :
    (t : List ℕ) (p : Payload)
    → sign_access_token toy_jwt careless 100 newcomer ≡ ok t
    → toy_jwt.verify 200 t careless.refresh_secret ≡ verified p
    → p ≡ access_payload newcomer
unfolding sign_access_token
honest t p e seen =
    let same : token ≡ t = ground arith in
    let read : verified (access_payload newcomer) ≡ verified p = rw (← same) at seen in ground arith

careless_tokens : (issue_token_pair toy_jwt careless 100 newcomer tables).0 ≡ ok issued
unfolding issue_token_pair sign_access_token sign_refresh_token
careless_tokens = refl

refresh_tokens-access_example :
    (e : Failure) × (refresh_tokens toy_jwt careless 200 issued.access_token tables
      ≡ (err e, tables))
refresh_tokens-access_example =
    refresh_tokens-access toy_jwt careless 100 200 newcomer tables issued honest careless_tokens

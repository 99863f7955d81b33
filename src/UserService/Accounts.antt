-- ===== src/UserService/Accounts.antt =====
-- When a registration and a login succeed, and that no two accounts share an email or a username.
use text.Mathlib.Text.{◌==◌ as str_eq}
use text.Mathlib.TextEquality.{eq_iff}
use smartmeet_backend.Prelude.{
  ℕ, ◌≤◌, String, ◌≡◌, refl, ◌∙◌, true, false, none, some, List, [], ◌∷◌, ◌++◌, arith, count,
  count-append, any, ok, err, Option-cases, Bool-cases, inl, inr, proceed-keeps,
}
use smartmeet_backend.Errors.{Failure}
use smartmeet_backend.Models.{Database, User, has_email, has_username, create_user, add_user}
use smartmeet_backend.RoomService.{Bcrypt}
use smartmeet_backend.RoomService.Counting.{find_first_append, any_of_find_first, count_zero_of_any}
use smartmeet_backend.UserService.{
  Jwt, JwtConfig, RegisterInput, NewAccount, TokenPair, user_salt_rounds, new_user,
  find_user_by_email, find_user_by_username, sign_access_token, sign_refresh_token, safe_json,
  issue_token_pair, register_check, register_user, login_user, invalid_login,
}

-- No two accounts share an email, and no two a username.
pub record HasUniqueAccounts (db : Database) : Type 0 where
  pub emails : (email : String) → count (has_email email) db.users ≤ 1
  pub usernames : (username : String) → count (has_username username) db.users ≤ 1

module _ (key : User → String) where
  count-add_user :
      (k : String) (u : User) (us : List User)
      → any (λ v. str_eq (key v) (key u)) us ≡ false
      → count (λ v. str_eq (key v) k) us ≤ 1
      → count (λ v. str_eq (key v) k) (us ++ u ∷ []) ≤ 1
  count-add_user k u us fresh h = elim (Bool-cases (str_eq (key u) k)) [
    | inr other ↦ ground (arith, other, count-append (λ v. str_eq (key v) k) us (u ∷ []))
    | inl same ↦
        let e : key u ≡ k = (eq_iff (key u) k).0 same in
        let zero_before : count (λ v. str_eq (key v) k) us ≡ 0 =
          count_zero_of_any (λ v. str_eq (key v) k) us (rw (← e) fresh) in
        ground (arith, same, zero_before, count-append (λ v. str_eq (key v) k) us (u ∷ []))
  ]

pub create_user-HasUniqueAccounts :
    (u : User) (db : Database) → HasUniqueAccounts db → HasUniqueAccounts (create_user u db).1
unfolding create_user
create_user-HasUniqueAccounts u db h = elim (Bool-cases (any (has_email u.email) db.users)) [
  | inl old ↦ rw old h
  | inr new_email ↦ elim (Bool-cases (any (has_username u.username) db.users)) [
    | inl old ↦ rw (new_email, old) h
    | inr new_name ↦
        rw (new_email, new_name)
          (record {
            emails = λ k. count-add_user (λ v. v.email) k u db.users new_email (h.emails k);
            usernames = λ k. count-add_user (λ v. v.username) k u db.users new_name (h.usernames k);
          })
  ]
]

-- Rows are inserted whatever the queries before them saw, so this covers registrations that run at
-- the same time: each of them has made its queries, and then comes to its insert.
abbrev pub inserts : List User → Database → Database
inserts [] db = db
inserts (u ∷ us) db = inserts us (create_user u db).1

module _ (bcrypt : Bcrypt) where
  abbrev pub registrations : List (NewAccount × RegisterInput) → List User
  registrations [] = []
  registrations ((a, input) ∷ rs) = new_user bcrypt a input ∷ registrations rs

inserts-HasUniqueAccounts :
    (us : List User) (db : Database) → HasUniqueAccounts db → HasUniqueAccounts (inserts us db)
inserts-HasUniqueAccounts [] db h = h
inserts-HasUniqueAccounts (u ∷ us) db h =
    inserts-HasUniqueAccounts us (create_user u db).1 (create_user-HasUniqueAccounts u db h)

new_user_found :
    (bcrypt : Bcrypt) (a : NewAccount) (input : RegisterInput) (db : Database)
    → find_user_by_email input.email db ≡ none
    → find_user_by_email input.email (add_user (new_user bcrypt a input) db)
      ≡ some (new_user bcrypt a input)
unfolding find_user_by_email
new_user_found bcrypt a input db new_email =
    find_first_append (has_email input.email) db.users (new_user bcrypt a input ∷ []) new_email
    ∙ rw ((eq_iff input.email input.email).1 refl) refl

module _ (jwt : Jwt) (config : JwtConfig) where
  -- Tokens are made without a look at the database, and come from jsonwebtoken.
  pub issue_token_pair_same :
      (now : ℕ) (u : User) (db : Database) → (issue_token_pair jwt config now u db).1 ≡ db
  unfolding issue_token_pair
  issue_token_pair_same now u db = ground arith

  pub issue_token_pair-signed :
      (now : ℕ) (u : User) (db : Database) (pair : TokenPair)
      → (issue_token_pair jwt config now u db).0 ≡ ok pair
      → (sign_access_token jwt config now u ≡ ok pair.access_token)
        × (sign_refresh_token jwt config now u ≡ ok pair.refresh_token)
  unfolding issue_token_pair
  issue_token_pair-signed now u db pair h = ground arith

  pub issue_token_pair-run :
      (now : ℕ) (u : User) (db : Database) (access refresh : List ℕ)
      → sign_access_token jwt config now u ≡ ok access
      → sign_refresh_token jwt config now u ≡ ok refresh
      → issue_token_pair jwt config now u db
        ≡ (ok (record { user = safe_json u; access_token = access; refresh_token = refresh }), db)
  unfolding issue_token_pair
  issue_token_pair-run now u db access refresh a r = ground arith

module _ (jwt : Jwt) (config : JwtConfig) (bcrypt : Bcrypt) where
  pub register_user-HasUniqueAccounts :
      (now : ℕ) (a : NewAccount) (input : RegisterInput) (db : Database)
      → HasUniqueAccounts db
      → HasUniqueAccounts (register_user jwt config bcrypt now a input db).1
  unfolding register_user register_check
  register_user-HasUniqueAccounts now a input db h =
      elim (Option-cases (find_user_by_email input.email db)) [
        | inr (u, old) ↦ rw old h
        | inl new_email ↦ elim (Option-cases (find_user_by_username input.username db)) [
          | inr (u, old) ↦ rw (new_email, old) h
          | inl new_name ↦
              rw (new_email, new_name)
                (proceed-keeps HasUniqueAccounts (create_user (new_user bcrypt a input) db) _
                  (create_user-HasUniqueAccounts (new_user bcrypt a input) db h)
                  (λ u e.
                    rw (issue_token_pair_same jwt config now u _)
                      (create_user-HasUniqueAccounts (new_user bcrypt a input) db h)))
        ]
      ]

  pub register_user-run :
      (now : ℕ) (a : NewAccount) (input : RegisterInput) (db : Database)
      → find_user_by_email input.email db ≡ none
      → find_user_by_username input.username db ≡ none
      → register_user jwt config bcrypt now a input db
        ≡ issue_token_pair jwt config now
            (new_user bcrypt a input)
            (add_user (new_user bcrypt a input) db)
  unfolding register_user register_check find_user_by_email find_user_by_username create_user
  register_user-run now a input db new_email new_name = ground (
    arith,
    any_of_find_first (has_email input.email) db.users,
    any_of_find_first (has_username input.username) db.users,
  )

  register_user-taken :
      (now : ℕ) (a : NewAccount) (input : RegisterInput) (db : Database) {pair : TokenPair}
      → (register_user jwt config bcrypt now a input db).0 ≡ ok pair
      → (find_user_by_email input.email db ≡ none)
        × (find_user_by_username input.username db ≡ none)
  unfolding register_user register_check
  register_user-taken now a input db h = ground arith

  -- A registration whose account can be stored stores it, and what it answers is what comes of
  -- the tokens.
  pub register_user-stores :
      (now : ℕ) (a : NewAccount) (input : RegisterInput) (db : Database)
      → find_user_by_email input.email db ≡ none
      → find_user_by_username input.username db ≡ none
      → (register_user jwt config bcrypt now a input db).1 ≡ add_user (new_user bcrypt a input) db
  register_user-stores now a input db new_email new_name =
      rw (register_user-run now a input db new_email new_name)
        (issue_token_pair_same jwt config now (new_user bcrypt a input) _)

  -- Who has registered can log in with the same email and password, if bcryptjs recognises the
  -- password from its hash and jsonwebtoken signs the tokens of the login: the login gives the
  -- same user, with those tokens.
  pub register_user-login :
      (now later : ℕ) (a : NewAccount) (input : RegisterInput) (db : Database) (pair : TokenPair)
      (access refresh : List ℕ)
      → (register_user jwt config bcrypt now a input db).0 ≡ ok pair
      → bcrypt.compare input.password (bcrypt.hash a.salt user_salt_rounds input.password) ≡ true
      → sign_access_token jwt config later (new_user bcrypt a input) ≡ ok access
      → sign_refresh_token jwt config later (new_user bcrypt a input) ≡ ok refresh
      → (login_user jwt config bcrypt later input.email input.password
          (register_user jwt config bcrypt now a input db).1).0
        ≡ ok (record {
          user = safe_json (new_user bcrypt a input);
          access_token = access;
          refresh_token = refresh;
        })
  unfolding login_user
  register_user-login now later a input db pair access refresh h same signed again =
      let (new_email, new_name) = register_user-taken now a input db h in
      rw
        (
          register_user-stores now a input db new_email new_name,
          new_user_found bcrypt a input db new_email,
          same,
          issue_token_pair-run jwt config later (new_user bcrypt a input) _ access refresh signed
              again,
        )
        refl

  -- Every login that fails, fails with the same error, where the tokens can be signed: the answer
  -- does not tell an email that has no account from a wrong password.
  pub login_user_hides :
      (now : ℕ) (email password : String) (db : Database) (e : Failure)
      → ((u : User) → (pair : TokenPair) × ((issue_token_pair jwt config now u db).0 ≡ ok pair))
      → (login_user jwt config bcrypt now email password db).0 ≡ err e
      → e ≡ invalid_login
  unfolding login_user
  login_user_hides now email password db e signs h =
      elim (Option-cases (find_user_by_email email db)) [
        | inl missing ↦ ground arith
        | inr (u, there) ↦ elim (Bool-cases (bcrypt.compare password u.password_hash)) [
          | inr wrong ↦ ground arith
          | inl right ↦ ground (arith, signs u)
        ]
      ]

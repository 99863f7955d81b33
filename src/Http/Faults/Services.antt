-- ===== src/Http/Faults/Services.antt =====
-- Which failures of the services are instances of AppError.
use smartmeet_backend.Prelude.{
  ℕ, ◌<◌, ◌≡◌, refl, sym, ap, ◌∙◌, String, Bool, true, Option, none, some, arith, Result, ok, err,
  Action, is_some, proceed, Bool-cases, Option-cases, inl, inr, leb, leb→le, leb_false→lt, count,
  List, ◌==◌,
}
use smartmeet_backend.Errors.{
  Failure, validation_error, auth_error, forbidden_error, not_found_error, conflict_error,
  too_many_requests_error, plain_error, library_error, unique_constraint_error, illegal_arguments,
}
use smartmeet_backend.Constants.{is_password}
use smartmeet_backend.Models.{
  Database, User, add_user, Room, RoomParticipant, find_room, is_active_in, is_active_of,
}
use smartmeet_backend.RoomService.{
  Bcrypt, Inputs, CreateRoomInput, hash_password, create_room, check_password, join_check,
  join_rest, join_room, leave_room, get_room_by_id, get_participants, get_active_participant,
}
use smartmeet_backend.RoomService.Counting.{any_of_find_first}
use smartmeet_backend.RoomService.Creation.{store_room_lem}
use smartmeet_backend.RoomService.Invariant.{IsConsistent, join_commit_full, join_commit_admits}
use smartmeet_backend.RoomService.Join.{join_check_same, join_check_sound}
use smartmeet_backend.RoomService.Locks.{HasLocks, IsLocked, find_first-All}
use smartmeet_backend.UserService.{
  Jwt, JwtConfig, TokenPair, new_user, issue_token_pair, read_payload, find_user, NewAccount,
  RegisterInput, register_user, register_check, login_user, refresh_tokens, find_user_by_email,
  find_user_by_username,
}
use smartmeet_backend.UserService.Accounts.{register_user-run}
use smartmeet_backend.Http.Errors.{app_status}

-- an instance of AppError
abbrev pub is_told : Failure → Bool
is_told e = is_some (app_status e)

pub is_told-status : (e : Failure) (code : ℕ) → app_status e ≡ some code → code < 500
unfolding app_status
is_told-status (validation_error m) code h = ground arith
is_told-status (auth_error m) code h = ground arith
is_told-status (forbidden_error m) code h = ground arith
is_told-status (not_found_error m) code h = ground arith
is_told-status (conflict_error m) code h = ground arith
is_told-status (too_many_requests_error m) code h = ground arith
is_told-status (plain_error m) code h = ground arith
is_told-status (library_error c m) code h = ground arith
is_told-status unique_constraint_error code h = ground arith
is_told-status illegal_arguments code h = ground arith

-- A step that fails, fails with such an error.
abbrev pub Tells : {S A : Type 0} → Result A × S → Type 0
Tells step = (e : Failure) → step.0 ≡ err e → is_told e ≡ true

pub proceed-Tells :
    {S A B : Type 0} (step : Result A × S) (f : A → Action S B)
    → Tells step
    → ((a : A) → step.0 ≡ ok a → Tells (f a step.1))
    → Tells (proceed step f)
proceed-Tells (ok a, s) f h k e q = k a refl e q
proceed-Tells (err x, s) f h k e q = h e (ground arith)

-- jsonwebtoken signs what the service asks it to sign.
abbrev pub Signs : Jwt → JwtConfig → Type 0
Signs jwt config =
    (now : ℕ) (u : User) (db : Database)
    → (pair : TokenPair) × ((issue_token_pair jwt config now u db).0 ≡ ok pair)

module _ (jwt : Jwt) (config : JwtConfig) (signs : Signs jwt config) (now : ℕ) (db : Database) where
  issue_token_pair-Tells :
      (u : User) (later : Database) → Tells (issue_token_pair jwt config now u later)
  issue_token_pair-Tells u later e h = absurd (cc (sym h ∙ (signs now u later).1))

  pub register_user-Tells :
      (bcrypt : Bcrypt) (a : NewAccount) (input : RegisterInput)
      → Tells (register_user jwt config bcrypt now a input db)
  unfolding register_user register_check app_status
  register_user-Tells bcrypt a input e h = elim (Option-cases (find_user_by_email input.email db)) [
    | inr (u, old) ↦ ground arith
    | inl new_email ↦ elim (Option-cases (find_user_by_username input.username db)) [
      | inr (u, old) ↦ ground arith
      | inl new_name ↦
          let run = register_user-run jwt config bcrypt now a input db new_email new_name in
          issue_token_pair-Tells (new_user bcrypt a input) (add_user (new_user bcrypt a input) db) e
            (ap (λ x. x.0) (sym run) ∙ h)
    ]
  ]

  pub login_user-Tells :
      (bcrypt : Bcrypt) (email password : String)
      → Tells (login_user jwt config bcrypt now email password db)
  unfolding login_user app_status
  login_user-Tells bcrypt email password e h = elim (Option-cases (find_user_by_email email db)) [
    | inl missing ↦ ground arith
    | inr (u, there) ↦ elim (Bool-cases (bcrypt.compare password u.password_hash)) [
      | inr wrong ↦ ground arith
      | inl right ↦ issue_token_pair-Tells u db e (rw (there, right) at h)
    ]
  ]

  pub refresh_tokens-Tells : (token : List ℕ) → Tells (refresh_tokens jwt config now token db)
  unfolding refresh_tokens app_status
  refresh_tokens-Tells token e h =
      elim (Option-cases (read_payload (jwt.verify now token config.refresh_secret))) [
        | inl unread ↦ ground arith
        | inr (p, seen) ↦ elim (Bool-cases p.is_refresh) [
          | inr access ↦ ground arith
          | inl refreshes ↦ elim (Option-cases (find_user p.sub db)) [
            | inl missing ↦ ground arith
            | inr (u, there) ↦ issue_token_pair-Tells u db e (rw (seen, refreshes, there) at h)
          ]
        ]
      ]

-- A new room under a new id, with a password where its access type asks for one.
pub create_room-Tells :
    (bcrypt : Bcrypt) (i : Inputs) (input : CreateRoomInput) (db : Database)
    → is_some input.password ≡ is_password input.access_type
    → find_room i.room_id db ≡ none
    → IsConsistent db
    → Tells (create_room bcrypt i input db)
unfolding create_room hash_password
create_room-Tells bcrypt i input db given fresh c e h = ground (
  arith,
  Option-cases input.password,
  store_room_lem bcrypt i input none db fresh c,
  store_room_lem bcrypt i input (hash_of input.password) db fresh c,
)
  where
    hash_of : Option String → Option String
    hash_of none = none
    hash_of (some p) = some (bcrypt.hash i.salt 10 p)

module _ (bcrypt : Bcrypt) (room_id user_id : ℕ) (password : Option String) (db : Database) where
  check_password-Tells :
      (room : Room) → IsLocked room → Tells (check_password bcrypt room password db)
  unfolding check_password app_status
  check_password-Tells room lock e h = ground (arith, Option-cases room.password_hash)

  join_check-Tells : HasLocks db → Tells (join_check bcrypt room_id user_id password db)
  unfolding join_check app_status
  join_check-Tells locks e h = elim (Option-cases (find_room room_id db)) [
    | inl missing ↦ ground arith
    | inr (room, found) ↦ ground (
      arith,
      check_password-Tells room
          (find_first-All IsLocked (λ r. r.id == room_id) db.rooms room locks found) e,
    )
  ]

  join_rest-Tells :
      (i : Inputs) (room : Room)
      → Tells (join_rest i room_id user_id (room, get_active_participant room_id user_id db) db)
  unfolding join_rest get_active_participant app_status
  join_rest-Tells i room e h = elim (Option-cases (get_active_participant room_id user_id db)) [
    | inr (p, there) ↦ ground arith
    | inl out ↦
        elim (Bool-cases
          (leb room.max_participants (count (is_active_in room_id) db.participants))) [
            | inl full ↦
                ground (arith, join_commit_full i room_id user_id room db (leb→le _ _ full))
            | inr space ↦ ground (
              arith,
              join_commit_admits i room_id user_id room db (leb_false→lt _ _ space)
                  (any_of_find_first (is_active_of room_id user_id) db.participants out),
            )
          ]
  ]

  pub join_room-Tells :
      (i : Inputs) → HasLocks db → Tells (join_room bcrypt i room_id user_id password db)
  unfolding join_room
  join_room-Tells i locks =
      let same = join_check_same bcrypt i room_id user_id password db in
      proceed-Tells (join_check bcrypt room_id user_id password db) (join_rest i room_id user_id)
        (join_check-Tells locks)
        (λ read checked. rw same (
          rest i read
            (join_check_sound bcrypt i room_id user_id password read.0 read.1 db checked).3))
    where
      rest :
          (i : Inputs) (read : Room × Option RoomParticipant)
          → read.1 ≡ get_active_participant room_id user_id db
          → Tells (join_rest i room_id user_id read db)
      rest i (room, existing) same = rw same (join_rest-Tells i room)

module _ (room_id : ℕ) (db : Database) where
  pub get_room_by_id-Tells : Tells (get_room_by_id room_id db)
  unfolding get_room_by_id app_status
  get_room_by_id-Tells e h = ground arith

  pub get_participants-Tells : Tells (get_participants room_id db)
  unfolding get_participants get_room_by_id app_status
  get_participants-Tells e h = ground arith

  pub leave_room-Tells : (now user_id : ℕ) → Tells (leave_room now room_id user_id db)
  unfolding leave_room app_status
  leave_room-Tells now user_id e h = ground arith

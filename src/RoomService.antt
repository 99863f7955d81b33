-- ===== src/RoomService.antt =====
-- The room operations on the database (src/services/roomService.js). The cache of the room list
-- is RoomService/Cache; the invalidation of the room details, which nothing caches, is left out.
-- bcryptjs is a parameter.
pub mod Counting
pub mod Invariant
pub mod Creation
pub mod Schedule
pub mod Passwords
pub mod Join
pub mod RoundTrip
pub mod Departure
pub mod Moderation
pub mod Atomicity
pub mod Consistency
pub mod Users
pub mod Locks
pub mod Writes
pub mod Memory
pub mod Roster
pub mod Listing
pub mod Cache
use smartmeet_backend.Prelude.{
  ℕ, String, ◌≡◌, Bool, true, false, not, ◌&&◌, Option, none, some, List, [], ◌∷◌, ◌==◌, leb,
  is_none, is_some, find_first, select, count, if◌then◌else◌, Action, Result, ok, err, pure, throw,
  gets, or_throw, transaction, ◌>>=◌, ◌>>◌, throw_if, modify,
}
use smartmeet_backend.Errors.{
  Failure, auth_error, forbidden_error, not_found_error, conflict_error, illegal_arguments,
}
use smartmeet_backend.Constants.{
  RoomRole, host, participant, RoomAccessType, is_password, can_moderate,
}
use smartmeet_backend.Models.{
  Database, Room, RoomParticipant, is_active_in, is_active_of, is_of, find_room, new_participant,
  create_participant, add_room, save_participant,
}

-- the two calls of bcryptjs
pub record Bcrypt : Type 0 where
  pub hash : (salt : ℕ) → (rounds : ℕ) → String → String
  pub compare : String → String → Bool

abbrev pub salt_rounds : ℕ
salt_rounds = 10

pub record CreateRoomInput : Type 0 where
  pub name : String
  pub access_type : RoomAccessType
  pub password : Option String
  pub max_participants : ℕ
  pub host_id : ℕ

-- what the environment hands to an operation: the clock, fresh ids and a salt
pub record Inputs : Type 0 where
  pub now : ℕ
  pub room_id : ℕ
  pub participant_id : ℕ
  pub salt : ℕ

unfoldable pub get_room_by_id : ℕ → Action Database Room
get_room_by_id room_id = do
  room ← gets (find_room room_id)
  or_throw room (not_found_error "Room not found")

unfoldable pub get_active_participant : ℕ → ℕ → Database → Option RoomParticipant
get_active_participant room_id user_id db =
    find_first (is_active_of room_id user_id) db.participants

unfoldable pub has_ever_participated : ℕ → ℕ → Database → Bool
has_ever_participated room_id user_id db =
    is_some (find_first (is_of room_id user_id) db.participants)

-- The order of joinedAt is that of insertion: rows are never inserted with an earlier time. The user
-- that the query joins to each row is looked up by `broadcast_participants`, its only reader here.
unfoldable pub get_participants : ℕ → Action Database (List RoomParticipant)
unfolding get_room_by_id
get_participants room_id = do
  get_room_by_id room_id
  gets (λ db. select (is_active_in room_id) db.participants)

-- `!password`: an empty password counts as none
unfoldable pub non_empty : Option String → Option String
non_empty none = none
non_empty (some s) = if Prim.Native.String.len s == 0 then none else some s

module _ (bcrypt : Bcrypt) where
  unfoldable pub hash_password : Inputs → CreateRoomInput → Action Database (Option String)
  hash_password i input =
      if is_password input.access_type
      then (do
        password ← or_throw input.password illegal_arguments
        pure (some (bcrypt.hash i.salt salt_rounds password)))
      else pure none

  abbrev pub new_room : Inputs → CreateRoomInput → Option String → Room
  new_room i input hashed = record {
    id = i.room_id;
    name = input.name;
    host_id = input.host_id;
    is_active = true;
    access_type = input.access_type;
    password_hash = hashed;
    max_participants = input.max_participants;
    created_at = i.now;
    ended_at = none;
  }

  -- the transaction of `createRoom`
  unfoldable pub store_room : Inputs → CreateRoomInput → Option String → Action Database Room
  unfolding create_participant
  store_room i input hashed = transaction (do
    modify (add_room (new_room i input hashed))
    create_participant (new_participant i.participant_id i.now i.room_id input.host_id host)
    pure (new_room i input hashed))

  unfoldable pub create_room : Inputs → CreateRoomInput → Action Database Room
  unfolding hash_password store_room
  create_room i input = do hashed ← hash_password i input; store_room i input hashed

  -- the password test of `joinRoom`
  unfoldable pub check_password : Room → Option String → Action Database (Unit {0})
  check_password room password =
      if is_password room.access_type
      then (do
        given ←
            or_throw (non_empty password) (auth_error "A password is required to join this room")
        hashed ← or_throw room.password_hash illegal_arguments
        throw_if (not (bcrypt.compare given hashed)) (auth_error "Incorrect room password"))
      else pure tt

  -- `joinRoom` up to its transaction: the room, and the participation that is there already
  unfoldable pub join_check :
      ℕ → ℕ → Option String → Action Database (Room × Option RoomParticipant)
  unfolding get_room_by_id get_active_participant
  join_check room_id user_id password = do
    room ← get_room_by_id room_id
    throw_if (not room.is_active) (forbidden_error "This room has ended")
    check_password room password
    existing ← gets (get_active_participant room_id user_id)
    pure (room, existing)

-- the transaction of `joinRoom`, which the lock on the room's row makes one step
unfoldable pub join_commit : Inputs → ℕ → ℕ → Room → Action Database RoomParticipant
unfolding create_participant
join_commit i room_id user_id room = transaction (do
  active_count ← gets (λ db. count (is_active_in room_id) db.participants)
  throw_if (leb room.max_participants active_count)
      (conflict_error "Room has reached its maximum number of participants")
  let role = if room.host_id == user_id then host else participant
  create_participant (new_participant i.participant_id i.now room_id user_id role))

-- the branch between the two
unfoldable pub join_rest :
    Inputs → ℕ → ℕ → Room × Option RoomParticipant → Action Database RoomParticipant
join_rest i room_id user_id (room, some existing) = pure existing
join_rest i room_id user_id (room, none) = join_commit i room_id user_id room

unfoldable pub join_room : Bcrypt → Inputs → ℕ → ℕ → Option String → Action Database RoomParticipant
unfolding join_rest
join_room bcrypt i room_id user_id password = do
  found ← join_check bcrypt room_id user_id password
  join_rest i room_id user_id found

abbrev pub mark_left : ℕ → RoomParticipant → RoomParticipant
mark_left now p = record p { left_at = some now }

unfoldable pub leave_room : ℕ → ℕ → ℕ → Action Database RoomParticipant
unfolding get_active_participant
leave_room now room_id user_id = do
  found ← gets (get_active_participant room_id user_id)
  p ← or_throw found (not_found_error "Active room participation not found")
  modify (save_participant p.id (mark_left now))
  pure (mark_left now p)

-- the fields that the client provided
abbrev pub set_presence : Option Bool → Option Bool → RoomParticipant → RoomParticipant
set_presence is_muted is_camera_on p = record p {
  is_muted = elim is_muted [ none ↦ p.is_muted | some b ↦ b ];
  is_camera_on = elim is_camera_on [ none ↦ p.is_camera_on | some b ↦ b ];
}

pub update_participant_presence :
    ℕ → ℕ → Option Bool → Option Bool → Action Database RoomParticipant
unfolding get_active_participant
update_participant_presence room_id user_id is_muted is_camera_on = do
  found ← gets (get_active_participant room_id user_id)
  p ← or_throw found (not_found_error "Active room participation not found")
  modify (save_participant p.id (set_presence is_muted is_camera_on))
  pure (set_presence is_muted is_camera_on p)

abbrev pub allows_moderation : Option RoomParticipant → Bool
allows_moderation none = false
allows_moderation (some p) = can_moderate p.role

assert_can_moderate : Option RoomParticipant → Action Database (Unit {0})
assert_can_moderate acting =
    throw_if (not (allows_moderation acting))
      (forbidden_error "Only the host or a moderator can do this")

abbrev pub set_muted : Bool → RoomParticipant → RoomParticipant
set_muted is_muted p = record p { is_muted = is_muted }

unfoldable pub host_set_participant_muted : ℕ → ℕ → ℕ → Bool → Action Database RoomParticipant
unfolding get_active_participant assert_can_moderate
host_set_participant_muted room_id acting_user_id target_user_id is_muted = do
  acting ← gets (get_active_participant room_id acting_user_id)
  assert_can_moderate acting
  found ← gets (get_active_participant room_id target_user_id)
  target ← or_throw found (not_found_error "That participant is no longer in the room")
  modify (save_participant target.id (set_muted is_muted))
  pure (set_muted is_muted target)

unfoldable pub host_kick_participant : ℕ → ℕ → ℕ → ℕ → Action Database RoomParticipant
unfolding get_room_by_id get_active_participant
host_kick_participant now room_id acting_user_id target_user_id = do
  room ← get_room_by_id room_id
  throw_if (not (room.host_id == acting_user_id))
      (forbidden_error "Only the host can remove a participant")
  throw_if (target_user_id == acting_user_id) (forbidden_error "The host cannot kick themselves")
  found ← gets (get_active_participant room_id target_user_id)
  target ← or_throw found (not_found_error "That participant is no longer in the room")
  modify (save_participant target.id (mark_left now))
  pure (mark_left now target)

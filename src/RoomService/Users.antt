-- ===== src/RoomService/Users.antt =====
-- The room operations leave the users alone, and all but the creation the rooms.
use smartmeet_backend.Prelude.{ℕ, String, ◌≡◌, refl, Bool, Option, none, some, arith, proceed-keeps}
use smartmeet_backend.Models.{Database, Room, RoomParticipant}
use smartmeet_backend.RoomService.{
  Bcrypt, Inputs, CreateRoomInput, hash_password, store_room, create_room, join_check, join_commit,
  join_rest, join_room, leave_room, host_kick_participant, host_set_participant_muted,
  update_participant_presence, assert_can_moderate,
}
use smartmeet_backend.RoomService.Join.{join_check_same}
use smartmeet_backend.RoomService.Atomicity.{get_room_by_id_same}

abbrev pub SameFrame : Database → Database → Type 0
SameFrame db later = (later.users ≡ db.users) × (later.rooms ≡ db.rooms)

module _ (bcrypt : Bcrypt) (i : Inputs) (db : Database) where
  pub create_room-users :
      (input : CreateRoomInput) → (create_room bcrypt i input db).1.users ≡ db.users
  unfolding create_room hash_password store_room
  create_room-users input = ground arith

  join_rest-frame :
      (r u : ℕ) (room : Room) (existing : Option RoomParticipant)
      → SameFrame db (join_rest i r u (room, existing) db).1
  unfolding join_rest join_commit
  join_rest-frame r u room (some p) = (refl, refl)
  join_rest-frame r u room none = ground arith

  pub join_room-frame :
      (r u : ℕ) (password : Option String) → SameFrame db (join_room bcrypt i r u password db).1
  unfolding join_room
  join_room-frame r u password =
      let same = join_check_same bcrypt i r u password db in
      proceed-keeps (SameFrame db) (join_check bcrypt r u password db) (join_rest i r u)
        (rw same (refl, refl)) (λ read e. rw same (join_rest-frame r u read.0 read.1))

module _ (r u : ℕ) (db : Database) where
  pub leave_room-frame : (now : ℕ) → SameFrame db (leave_room now r u db).1
  unfolding leave_room
  leave_room-frame now = ground arith

  pub host_kick_participant-frame :
      (now target : ℕ) → SameFrame db (host_kick_participant now r u target db).1
  unfolding host_kick_participant
  host_kick_participant-frame now target = ground (arith, get_room_by_id_same r db)

  pub host_set_participant_muted-frame :
      (target : ℕ) (b : Bool) → SameFrame db (host_set_participant_muted r u target b db).1
  unfolding host_set_participant_muted assert_can_moderate
  host_set_participant_muted-frame target b = ground arith

  pub update_participant_presence-frame :
      (m k : Option Bool) → SameFrame db (update_participant_presence r u m k db).1
  unfolding update_participant_presence
  update_participant_presence-frame m k = ground arith

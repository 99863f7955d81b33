-- ===== src/RoomService/Consistency.antt =====
-- Every room operation, run on its own, keeps the invariant of the room tables.
use smartmeet_backend.Prelude.{ℕ, String, ◌≡◌, Bool, Option, none, some, ok, arith, proceed-keeps}
use smartmeet_backend.Models.{Database, Room, RoomParticipant, find_room}
use smartmeet_backend.RoomService.{
  Bcrypt, Inputs, join_check, join_rest, join_room, leave_room, host_kick_participant,
  host_set_participant_muted, update_participant_presence,
}
use smartmeet_backend.RoomService.Join.{join_check_same}
use smartmeet_backend.RoomService.Invariant.{
  IsConsistent, join_commit-IsConsistent, save-mark_left-IsConsistent, save-set_muted-IsConsistent,
  save-set_presence-IsConsistent,
}
use smartmeet_backend.Models.{save_participant}
use smartmeet_backend.RoomService.Writes.{
  Change, left, muted, present, change_row, leave_room-keeps, update_participant_presence-keeps,
  host_set_participant_muted-keeps, host_kick_participant-keeps,
}

module _ (bcrypt : Bcrypt) (i : Inputs) (room_id user_id : ℕ) (password : Option String)
    (db : Database) where
  join_check-found :
      (room : Room) (existing : Option RoomParticipant)
      → (join_check bcrypt room_id user_id password db).0 ≡ ok (room, existing)
      → find_room room_id db ≡ some room
  unfolding join_check
  join_check-found room existing h = ground arith

  join_rest-IsConsistent :
      (room : Room) (existing : Option RoomParticipant)
      → find_room room_id db ≡ some room
      → IsConsistent db
      → IsConsistent (join_rest i room_id user_id (room, existing) db).1
  unfolding join_rest
  join_rest-IsConsistent room (some p) found c = c
  join_rest-IsConsistent room none found c =
      join_commit-IsConsistent i room_id user_id room db found c

  pub join_room-IsConsistent :
      IsConsistent db → IsConsistent (join_room bcrypt i room_id user_id password db).1
  unfolding join_room
  join_room-IsConsistent c =
      let same = join_check_same bcrypt i room_id user_id password db in
      proceed-keeps IsConsistent (join_check bcrypt room_id user_id password db)
        (join_rest i room_id user_id) (rw same c)
        (λ read e.
          rw same (join_rest-IsConsistent read.0 read.1 (join_check-found read.0 read.1 e) c))

module _ (room_id user_id : ℕ) (db : Database) (c : IsConsistent db) where
  saved : (id : ℕ) (change : Change) → IsConsistent (save_participant id (change_row change) db)
  saved id (left now) = save-mark_left-IsConsistent id now db c
  saved id (muted b) = save-set_muted-IsConsistent id db c b
  saved id (present m k) = save-set_presence-IsConsistent id db c m k

  pub leave_room-IsConsistent : (now : ℕ) → IsConsistent (leave_room now room_id user_id db).1
  leave_room-IsConsistent = leave_room-keeps IsConsistent db c saved room_id user_id

  pub update_participant_presence-IsConsistent :
      (m k : Option Bool) → IsConsistent (update_participant_presence room_id user_id m k db).1
  update_participant_presence-IsConsistent =
      update_participant_presence-keeps IsConsistent db c saved room_id user_id

  pub host_set_participant_muted-IsConsistent :
      (target : ℕ) (b : Bool)
      → IsConsistent (host_set_participant_muted room_id user_id target b db).1
  host_set_participant_muted-IsConsistent =
      host_set_participant_muted-keeps IsConsistent db c saved room_id user_id

  pub host_kick_participant-IsConsistent :
      (now target : ℕ) → IsConsistent (host_kick_participant now room_id user_id target db).1
  host_kick_participant-IsConsistent =
      host_kick_participant-keeps IsConsistent db c saved room_id user_id

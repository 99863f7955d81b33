-- ===== src/RoomService/Atomicity.antt =====
-- The room operations that fail write nothing, and the queries never write.
use smartmeet_backend.Prelude.{ℕ, ◌≡◌, err, arith}
use smartmeet_backend.Errors.{Failure}
use smartmeet_backend.Models.{Database}
use smartmeet_backend.RoomService.{
  Bcrypt, Inputs, CreateRoomInput, hash_password, store_room, create_room, get_room_by_id,
  leave_room, get_participants,
}

pub create_room_fails_same :
    (bcrypt : Bcrypt) (i : Inputs) (input : CreateRoomInput) (db : Database) (e : Failure)
    → (create_room bcrypt i input db).0 ≡ err e
    → (create_room bcrypt i input db).1 ≡ db
unfolding create_room hash_password store_room
create_room_fails_same bcrypt i input db e h = ground arith

pub leave_room_fails_same :
    (now room_id user_id : ℕ) (db : Database) (e : Failure)
    → (leave_room now room_id user_id db).0 ≡ err e
    → (leave_room now room_id user_id db).1 ≡ db
unfolding leave_room
leave_room_fails_same now room_id user_id db e h = ground arith

pub get_room_by_id_same : (room_id : ℕ) (db : Database) → (get_room_by_id room_id db).1 ≡ db
unfolding get_room_by_id
get_room_by_id_same room_id db = ground arith

pub get_participants_same : (room_id : ℕ) (db : Database) → (get_participants room_id db).1 ≡ db
unfolding get_participants
get_participants_same room_id db = ground (arith, get_room_by_id_same room_id db)

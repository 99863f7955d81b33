-- ===== src/Sockets/Passwords.antt =====
-- What the event room:join (src/sockets/roomEvents.js) does with a room that has a password.
use smartmeet_backend.Prelude.{ℕ, ◌≡◌, refl, true, none, some, err}
use smartmeet_backend.Errors.{auth_error}
use smartmeet_backend.Constants.{is_password}
use smartmeet_backend.Models.{Database, Room, find_room}
use smartmeet_backend.RoomService.{
  Bcrypt, Inputs, get_room_by_id, check_password, non_empty, join_check, join_room,
}
use smartmeet_backend.Sockets.State.{Client, Server, on_db}
use smartmeet_backend.Sockets.RoomEvents.{on_room_join}

join_room-without_password :
    (bcrypt : Bcrypt) (i : Inputs) (room_id user_id : ℕ) (db : Database) (room : Room)
    → find_room room_id db ≡ some room
    → room.is_active ≡ true
    → is_password room.access_type ≡ true
    → join_room bcrypt i room_id user_id none db
      ≡ (err (auth_error "A password is required to join this room"), db)
unfolding join_room join_check get_room_by_id check_password non_empty
join_room-without_password bcrypt i room_id user_id db room there active locked =
    rw (there, active, locked) refl

-- The event room:join on a room that is active and has a password fails for every user, with the
-- message that a password is required, and changes nothing: not for the host, and not for a user
-- whom `joinRoom` has already let in with the right password.
pub on_room_join-locked :
    (bcrypt : Bcrypt) (i : Inputs) (me : Client) (room_id : ℕ) (s : Server) (room : Room)
    → find_room room_id s.db ≡ some room
    → room.is_active ≡ true
    → is_password room.access_type ≡ true
    → on_room_join bcrypt i me (some room_id) s
      ≡ (err (auth_error "A password is required to join this room"), s)
unfolding on_room_join on_db
on_room_join-locked bcrypt i me room_id s room there active locked =
    rw (join_room-without_password bcrypt i room_id me.user_id s.db room there active locked) refl

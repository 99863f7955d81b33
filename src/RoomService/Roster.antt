-- ===== src/RoomService/Roster.antt =====
-- The contract of the room service: who sits in which room, in which role and with which devices,
-- as the operations of src/services/roomService.js promise it. It knows no rows of
-- participations, their ids or times, and no order of them.
pub mod View
pub mod Seen
pub mod Joining
pub mod Changing
pub mod Opening
pub mod Runs
use smartmeet_backend.Prelude.{
  ℕ, suc, ◌-◌, String, Bool, true, false, not, ◌&&◌, Option, none, some, ◌==◌, if◌then◌else◌, leb,
}
use smartmeet_backend.Constants.{RoomRole, host, participant, is_password, can_moderate}
use smartmeet_backend.Models.{Room}
use smartmeet_backend.RoomService.{Bcrypt, Inputs, CreateRoomInput, salt_rounds, new_room}

pub record Seat : Type 0 where
  pub role : RoomRole
  pub is_muted : Bool
  pub is_camera_on : Bool

pub record Roster : Type 0 where
  pub room : ℕ → Option Room
  pub seat : ℕ → ℕ → Option Seat
  pub taken : ℕ → ℕ

-- What a client may ask.
pub data Request : Type 0 where
  create : (i : Inputs) (input : CreateRoomInput) → Request
  join : (i : Inputs) (room_id user_id : ℕ) (password : Option String) → Request
  leave : (now room_id user_id : ℕ) → Request
  kick : (now room_id acting_user_id target_user_id : ℕ) → Request
  mute : (room_id acting_user_id target_user_id : ℕ) (b : Bool) → Request
  presence : (room_id user_id : ℕ) (is_muted is_camera_on : Option Bool) → Request

-- What a request is answered with: the seat, or the room that it opened.
pub data Reply : Type 0 where
  refused : Reply
  seated : Seat → Reply
  opened : Room → Reply

-- The reply, and the roster after it.
abbrev pub Answer : Type 0
Answer = Reply × Roster

abbrev pub put_seat : ℕ → ℕ → Option Seat → (ℕ → ℕ → Option Seat) → ℕ → ℕ → Option Seat
put_seat room_id user_id s seats r u = if r == room_id && u == user_id then s else seats r u

abbrev pub put_count : ℕ → ℕ → (ℕ → ℕ) → ℕ → ℕ
put_count room_id n counts r = if r == room_id then n else counts r

abbrev pub enter : ℕ → ℕ → Seat → Roster → Roster
enter room_id user_id s ro = record ro {
  seat = put_seat room_id user_id (some s) ro.seat;
  taken = put_count room_id (suc (ro.taken room_id)) ro.taken;
}

abbrev pub put_room : Room → (ℕ → Option Room) → ℕ → Option Room
put_room room rooms r = if room.id == r then some room else rooms r

abbrev pub open_room : Room → Roster → Roster
open_room room ro = record ro { room = put_room room ro.room }

abbrev pub vacate : ℕ → ℕ → Roster → Roster
vacate room_id user_id ro = record ro {
  seat = put_seat room_id user_id none ro.seat;
  taken = put_count room_id (ro.taken room_id - 1) ro.taken;
}

abbrev pub reseat : ℕ → ℕ → Seat → Roster → Roster
reseat room_id user_id s ro = record ro { seat = put_seat room_id user_id (some s) ro.seat }

-- The password that opens a room: the one that was hashed, and not an empty one.
abbrev matches : Bcrypt → Option String → String → Bool
matches bcrypt none given = false
matches bcrypt (some hashed) given =
    not (Prim.Native.String.len given == 0) && bcrypt.compare given hashed

abbrev given_matches : Bcrypt → Option String → Option String → Bool
given_matches bcrypt hashed none = false
given_matches bcrypt hashed (some given) = matches bcrypt hashed given

unfoldable pub opens : Bcrypt → Room → Option String → Bool
opens bcrypt room password =
    if is_password room.access_type then given_matches bcrypt room.password_hash password else true

abbrev pub new_seat : Room → ℕ → Seat
new_seat room user_id = record {
  role = if room.host_id == user_id then host else participant;
  is_muted = false;
  is_camera_on = true;
}

-- The room that a client asks for: one with a password keeps its hash, and needs one.
abbrev hash_given : Bcrypt → Inputs → Option String → Option (Option String)
hash_given bcrypt i none = none
hash_given bcrypt i (some given) = some (some (bcrypt.hash i.salt salt_rounds given))

unfoldable pub asked_hash : Bcrypt → Inputs → CreateRoomInput → Option (Option String)
asked_hash bcrypt i input =
    if is_password input.access_type then hash_given bcrypt i input.password else some none

-- The host takes the first seat.
abbrev pub host_seat : Seat
host_seat = record { role = host; is_muted = false; is_camera_on = true }

abbrev pub ask_create : Bcrypt → Inputs → CreateRoomInput → Option (Option String) → Roster → Answer
ask_create bcrypt i input none ro = (refused, ro)
ask_create bcrypt i input (some hashed) ro =
    let room = new_room bcrypt i input hashed in
    (opened room, enter i.room_id input.host_id host_seat (open_room room ro))

-- Who sits already keeps the seat, also in a full room.
abbrev pub sit : Option Seat → Room → ℕ → ℕ → Roster → Answer
sit (some s) room room_id user_id ro = (seated s, ro)
sit none room room_id user_id ro =
    if leb room.max_participants (ro.taken room_id)
    then (refused, ro)
    else (seated (new_seat room user_id), enter room_id user_id (new_seat room user_id) ro)

abbrev pub ask_join : Bcrypt → Option Room → ℕ → ℕ → Option String → Roster → Answer
ask_join bcrypt none room_id user_id password ro = (refused, ro)
ask_join bcrypt (some room) room_id user_id password ro =
    if room.is_active && opens bcrypt room password
    then sit (ro.seat room_id user_id) room room_id user_id ro
    else (refused, ro)

-- Who has no seat has none to give up, and none to change.
abbrev pub give_up : Option Seat → ℕ → ℕ → Roster → Answer
give_up none room_id user_id ro = (refused, ro)
give_up (some s) room_id user_id ro = (seated s, vacate room_id user_id ro)

abbrev pub change_seat : (Seat → Seat) → Option Seat → ℕ → ℕ → Roster → Answer
change_seat f none room_id user_id ro = (refused, ro)
change_seat f (some s) room_id user_id ro = (seated (f s), reseat room_id user_id (f s) ro)

-- The host of the room, and of nobody but another.
abbrev may_kick : Option Room → ℕ → ℕ → Bool
may_kick none acting target = false
may_kick (some room) acting target = room.host_id == acting && not (target == acting)

abbrev may_mute : Option Seat → Bool
may_mute none = false
may_mute (some s) = can_moderate s.role

abbrev chosen : Option Bool → Bool → Bool
chosen none old = old
chosen (some b) old = b

abbrev pub choose : Option Bool → Option Bool → Seat → Seat
choose m k s = record s { is_muted = chosen m s.is_muted; is_camera_on = chosen k s.is_camera_on }

unfoldable pub rule : Bcrypt → Request → Roster → Answer
rule bcrypt (create i input) ro = ask_create bcrypt i input (asked_hash bcrypt i input) ro
rule bcrypt (join i room_id user_id password) ro =
    ask_join bcrypt (ro.room room_id) room_id user_id password ro
rule bcrypt (leave now room_id user_id) ro = give_up (ro.seat room_id user_id) room_id user_id ro
rule bcrypt (kick now room_id acting target) ro =
    if may_kick (ro.room room_id) acting target
    then give_up (ro.seat room_id target) room_id target ro
    else (refused, ro)
rule bcrypt (mute room_id acting target b) ro =
    if may_mute (ro.seat room_id acting)
    then change_seat (λ s. record s { is_muted = b }) (ro.seat room_id target) room_id target ro
    else (refused, ro)
rule bcrypt (presence room_id user_id m k) ro =
    change_seat (choose m k) (ro.seat room_id user_id) room_id user_id ro

-- ===== src/Tests/Data.antt =====
-- A room with a password, its host, and one guest.
use Prim.Native.Nat.{Ordering}
use smartmeet_backend.Prelude.{ℕ, true, false, none, some, [], ◌∷◌, arith}
use smartmeet_backend.Constants.{RoomRole, host, participant, password_access, good}
use smartmeet_backend.Models.{Database, Room, RoomParticipant, Message}
use smartmeet_backend.RoomService.{Bcrypt, Inputs}
use smartmeet_backend.RoomService.Invariant.{IsConsistent}
use smartmeet_backend.RoomService.Departure.{HasDistinctIds}

-- a toy bcryptjs, whose hash is the password
abbrev pub plain_bcrypt : Bcrypt
plain_bcrypt = record {
  hash = λ salt rounds p. p;
  compare = λ a b. elim (Prim.Native.String.compare a b) [ Ordering.eq ↦ true | _ ↦ false ];
}

abbrev pub inputs : Inputs
inputs = record { now = 100; room_id = 2; participant_id = 12; salt = 5 }

abbrev pub lobby : Room
lobby = record {
  id = 1;
  name = "Lobby";
  host_id = 7;
  is_active = true;
  access_type = password_access;
  password_hash = some "secret";
  max_participants = 3;
  created_at = 0;
  ended_at = none;
}

abbrev pub row : ℕ → ℕ → RoomRole → RoomParticipant
row id user_id role = record {
  id = id;
  room_id = 1;
  user_id = user_id;
  role = role;
  joined_at = 0;
  left_at = none;
  is_muted = false;
  is_camera_on = true;
  connection_quality = good;
}

abbrev pub message : ℕ → Message
message id = record { id = id; room_id = 1; user_id = 7; body = 104 ∷ []; created_at = id }

abbrev pub tables : Database
tables = record {
  users =
      record { id = 7; email = "h@x"; username = "host"; password_hash = "p"; avatar_url = none }
      ∷ [];
  rooms = lobby ∷ [];
  participants = row 10 7 host ∷ row 11 8 participant ∷ [];
  messages = message 1 ∷ message 2 ∷ message 3 ∷ [];
  connection_metrics = [];
  recordings = [];
}

pub tables-IsConsistent : IsConsistent tables
tables-IsConsistent = record { capacity = λ r. ground arith; unique = λ r u. ground arith }

pub tables-HasDistinctIds : HasDistinctIds tables.participants
tables-HasDistinctIds id = ground arith

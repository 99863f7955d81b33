-- ===== src/Models.antt =====
-- The rows of the tables (src/models/*.js) and the database that the services read and write.
-- Ids are UUIDs that the program only compares, so they are numbers; a fresh id and the current
-- time are arguments of the operations that take one. The partial unique index on active
-- participations is that of src/migrations/001_initial_schema.sql. The columns created_at and
-- updated_at are kept where the program reads them.
use smartmeet_backend.Prelude.{
  ℕ, String, Bool, true, false, ◌&&◌, Option, none, List, [], ◌∷◌, ◌++◌, ◌==◌, is_none, find_first,
  any, Action, if◌then◌else◌, ok, err,
}
use text.Mathlib.Text.{◌==◌ as str_eq}
use mathlib.Core.Bool.{◌||◌}
use smartmeet_backend.Errors.{unique_constraint_error}
use smartmeet_backend.Constants.{RoomRole, RoomAccessType, ConnectionQuality, good}

pub record User : Type 0 where
  pub id : ℕ
  pub email : String
  pub username : String
  pub password_hash : String
  pub avatar_url : Option String

pub record Room : Type 0 where
  pub id : ℕ
  pub name : String
  pub host_id : ℕ
  pub is_active : Bool
  pub access_type : RoomAccessType
  pub password_hash : Option String
  pub max_participants : ℕ
  pub created_at : ℕ
  pub ended_at : Option ℕ

pub record RoomParticipant : Type 0 where
  pub id : ℕ
  pub room_id : ℕ
  pub user_id : ℕ
  pub role : RoomRole
  pub joined_at : ℕ
  pub left_at : Option ℕ
  pub is_muted : Bool
  pub is_camera_on : Bool
  pub connection_quality : ConnectionQuality

-- The body is the list of its UTF-16 code units.
pub record Message : Type 0 where
  pub id : ℕ
  pub room_id : ℕ
  pub user_id : ℕ
  pub body : List ℕ
  pub created_at : ℕ

pub record ConnectionMetric : Type 0 where
  pub id : ℕ
  pub room_id : ℕ
  pub participant_id : ℕ
  pub bandwidth_in : ℕ
  pub bandwidth_out : ℕ
  pub latency : ℕ
  pub packet_loss : ℕ
  pub recorded_at : ℕ

-- The path of the stored file and its URL are texts: lists of code units.
pub record Recording : Type 0 where
  pub id : ℕ
  pub room_id : ℕ
  pub file_path : List ℕ
  pub file_size : ℕ
  pub storage_url : List ℕ
  pub duration : ℕ
  pub created_at : ℕ

-- Rows in the order of their insertion. PostgreSQL answers every query; the inserts that the program
-- lets fail have an argument that says so. The foreign keys, to rows that the program never deletes,
-- are left out.
pub record Database : Type 0 where
  pub users : List User
  pub rooms : List Room
  pub participants : List RoomParticipant
  pub messages : List Message
  pub connection_metrics : List ConnectionMetric
  pub recordings : List Recording

-- `where: { roomId, leftAt: null }`
abbrev pub is_active_in : ℕ → RoomParticipant → Bool
is_active_in room_id p = p.room_id == room_id && is_none p.left_at

-- `where: { roomId, userId, leftAt: null }`
abbrev pub is_active_of : ℕ → ℕ → RoomParticipant → Bool
is_active_of room_id user_id p = p.room_id == room_id && (p.user_id == user_id && is_none p.left_at)

-- `where: { roomId, userId }`
abbrev pub is_of : ℕ → ℕ → RoomParticipant → Bool
is_of room_id user_id p = p.room_id == room_id && p.user_id == user_id

-- `Room.findByPk`
abbrev pub find_room : ℕ → Database → Option Room
find_room room_id db = find_first (λ r. r.id == room_id) db.rooms

-- A new row of `RoomParticipant.create({ roomId, userId, role })`, with the model's defaults.
abbrev pub new_participant : ℕ → ℕ → ℕ → ℕ → RoomRole → RoomParticipant
new_participant new_id now room_id user_id role = record {
  id = new_id;
  room_id = room_id;
  user_id = user_id;
  role = role;
  joined_at = now;
  left_at = none;
  is_muted = false;
  is_camera_on = true;
  connection_quality = good;
}

abbrev pub add_participant : RoomParticipant → Database → Database
add_participant p db = record db { participants = db.participants ++ p ∷ [] }

-- `RoomParticipant.create`: the index uq_room_participants_active refuses a second active row of
-- the same user in the same room.
unfoldable pub create_participant : RoomParticipant → Action Database RoomParticipant
create_participant p db =
    if any (is_active_of p.room_id p.user_id) db.participants
    then (err unique_constraint_error, db)
    else (ok p, add_participant p db)

abbrev pub add_room : Room → Database → Database
add_room r db = record db { rooms = db.rooms ++ r ∷ [] }

-- `row.save()`: UPDATE … WHERE id, of the columns that changed.
abbrev pub update_rows :
    ℕ → (RoomParticipant → RoomParticipant) → List RoomParticipant → List RoomParticipant
update_rows id change [] = []
update_rows id change (p ∷ ps) = (if p.id == id then change p else p) ∷ update_rows id change ps

abbrev pub save_participant : ℕ → (RoomParticipant → RoomParticipant) → Database → Database
save_participant id change db = record db { participants = update_rows id change db.participants }

abbrev pub add_user : User → Database → Database
add_user u db = record db { users = db.users ++ u ∷ [] }

-- `where: { email }` and `where: { username }`
abbrev pub has_email : String → User → Bool
has_email email u = str_eq u.email email

abbrev pub has_username : String → User → Bool
has_username username u = str_eq u.username username

-- `User.create`: the columns email and username are unique.
unfoldable pub create_user : User → Action Database User
create_user u db =
    if any (has_email u.email) db.users || any (has_username u.username) db.users
    then (err unique_constraint_error, db)
    else (ok u, add_user u db)

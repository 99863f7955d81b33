-- ===== src/RoomService/Listing.antt =====
-- The paginated queries, `listRooms` without its cache and `getMessages` (src/services/
-- roomService.js). A query orders by createdAt, newest first, and leaves the order of rows of the
-- same time to PostgreSQL: how a query orders its rows is an argument. The page and the limit
-- are at least 1, which `paginationQuery` (src/utils/validators.js) sees to.
pub mod Pages
use smartmeet_backend.Prelude.{
  ℕ, String, ◌+◌, ◌-◌, ◌*◌, ◌/◌, Bool, Option, none, some, List, [], ◌∷◌, map, ◌==◌, if◌then◌else◌,
  length, select, take, drop, find_first,
}
use mathlib.Core.List.{reverse}
use smartmeet_backend.Constants.{RoomAccessType}
use smartmeet_backend.Models.{Database, Room, User, Message}

pub record Pagination : Type 0 where
  pub page : ℕ
  pub limit : ℕ
  pub total : ℕ
  pub total_pages : ℕ

-- `{ id, username }` of the host
pub record HostJson : Type 0 where
  pub id : ℕ
  pub username : String

-- `toPublicJSON` and the host: the password's hash is not among the fields.
pub record RoomJson : Type 0 where
  pub id : ℕ
  pub name : String
  pub host_id : ℕ
  pub is_active : Bool
  pub access_type : RoomAccessType
  pub max_participants : ℕ
  pub created_at : ℕ
  pub ended_at : Option ℕ
  pub host : Option HostJson

pub record RoomList : Type 0 where
  pub rooms : List RoomJson
  pub pagination : Pagination

abbrev host_json : Option User → Option HostJson
host_json none = none
host_json (some u) = some (record { id = u.id; username = u.username })

unfoldable pub room_json : Database → Room → RoomJson
room_json db r = record {
  id = r.id;
  name = r.name;
  host_id = r.host_id;
  is_active = r.is_active;
  access_type = r.access_type;
  max_participants = r.max_participants;
  created_at = r.created_at;
  ended_at = r.ended_at;
  host = host_json (find_first (λ u. u.id == r.host_id) db.users);
}

-- `Math.ceil(count / limit)`
pub total_pages : ℕ → ℕ → ℕ
total_pages count limit = (count + limit - 1) / limit

abbrev pub pagination_of : ℕ → ℕ → ℕ → Pagination
pagination_of page limit total = record {
  page = page;
  limit = limit;
  total = total;
  total_pages = total_pages total limit;
}

-- `limit` and `offset` of a query
abbrev pub page_of {ℓ} : {A : Type ℓ} → ℕ → ℕ → List A → List A
page_of page limit rows = let offset = (page - 1) * limit in take limit (drop offset rows)

-- `where: { isActive: true }`
abbrev pub active_rooms : Database → List Room
active_rooms db = select (λ r. r.is_active) db.rooms

pub query_rooms : (order : List Room → List Room) → ℕ → ℕ → Database → RoomList
unfolding room_json
query_rooms order page limit db = record {
  rooms = map (room_json db) (page_of page limit (order (active_rooms db)));
  pagination = pagination_of page limit (length (active_rooms db));
}

-- The author's name and avatar, which the query joins to each message, are left out.
pub record MessageList : Type 0 where
  pub messages : List Message
  pub pagination : Pagination

abbrev pub room_messages : ℕ → Database → List Message
room_messages room_id db = select (λ m. m.room_id == room_id) db.messages

pub get_messages : (order : List Message → List Message) → ℕ → ℕ → ℕ → Database → MessageList
get_messages order room_id page limit db = record {
  messages = reverse (page_of page limit (order (room_messages room_id db)));
  pagination = pagination_of page limit (length (room_messages room_id db));
}

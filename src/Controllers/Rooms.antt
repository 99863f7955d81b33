-- ===== src/Controllers/Rooms.antt =====
-- The requests about rooms (src/controllers/roomController.js), with what the services do to the
-- cache of the room list. The parameters have passed the routes' validation.
pub mod Ghosts
use smartmeet_backend.Prelude.{
  ℕ, String, Bool, not, Option, none, some, List, map, ◌==◌, if◌then◌else◌, find_first, Action, ok,
  pure, gets, modify, throw_if, ◌>>=◌, ◌>>◌,
}
use smartmeet_backend.Errors.{forbidden_error}
use smartmeet_backend.Constants.{RoomRole, RoomAccessType, ConnectionQuality}
use smartmeet_backend.Models.{Room, RoomParticipant, Message, User}
use smartmeet_backend.RoomService.{
  Bcrypt, Inputs, CreateRoomInput, create_room, get_room_by_id, join_room, leave_room,
  get_participants, has_ever_participated,
}
use smartmeet_backend.RoomService.Cache.{invalidate_room_list_cache, list_rooms}
use smartmeet_backend.RoomService.Listing.{RoomJson, RoomList, MessageList, room_json, get_messages}
use smartmeet_backend.Sockets.State.{broadcast_participants}
use smartmeet_backend.Sockets.PresenceEvents.{quietly}
use smartmeet_backend.Authentication.{AuthUser}
use smartmeet_backend.Controllers.{App, on_database}

-- `toPublicJSON` of Room: the password's hash is not among the fields.
pub record PublicRoom : Type 0 where
  pub id : ℕ
  pub name : String
  pub host_id : ℕ
  pub is_active : Bool
  pub access_type : RoomAccessType
  pub max_participants : ℕ
  pub created_at : ℕ
  pub ended_at : Option ℕ

abbrev pub public_json : Room → PublicRoom
public_json r = record {
  id = r.id;
  name = r.name;
  host_id = r.host_id;
  is_active = r.is_active;
  access_type = r.access_type;
  max_participants = r.max_participants;
  created_at = r.created_at;
  ended_at = r.ended_at;
}

pub record UserJson : Type 0 where
  pub id : ℕ
  pub username : String
  pub avatar_url : Option String

pub record ParticipantJson : Type 0 where
  pub id : ℕ
  pub room_id : ℕ
  pub user_id : ℕ
  pub role : RoomRole
  pub joined_at : ℕ
  pub is_muted : Bool
  pub is_camera_on : Bool
  pub connection_quality : ConnectionQuality
  pub user : Option UserJson

abbrev user_json : Option User → Option UserJson
user_json none = none
user_json (some u) = some (record { id = u.id; username = u.username; avatar_url = u.avatar_url })

abbrev participant_json : List User → RoomParticipant → ParticipantJson
participant_json users p = record {
  id = p.id;
  room_id = p.room_id;
  user_id = p.user_id;
  role = p.role;
  joined_at = p.joined_at;
  is_muted = p.is_muted;
  is_camera_on = p.is_camera_on;
  connection_quality = p.connection_quality;
  user = user_json (find_first (λ u. u.id == p.user_id) users);
}

-- `await broadcastParticipants(io, roomId).catch(() => null)`, where `io` is there
unfoldable pub broadcast_roster_change : ℕ → ℕ → App → App
broadcast_roster_change now room_id s =
    if s.has_io
    then record s { server = quietly (broadcast_participants now room_id) s.server }
    else s

abbrev invalidate : App → App
invalidate s = record s { redis = invalidate_room_list_cache s.redis }

-- The body of the request, with the host set from the token.
unfoldable pub create : Bcrypt → Inputs → AuthUser → CreateRoomInput → Action App PublicRoom
unfolding on_database
create bcrypt i me body = do
  room ← on_database (create_room bcrypt i (record body { host_id = me.id }))
  modify invalidate
  pure (public_json room)

unfoldable pub list : (order : List Room → List Room) → (now page limit : ℕ) → Action App RoomList
list order now page limit s =
    let (result, redis) = list_rooms order now page limit s.server.db s.redis in
    (ok result, record s { redis = redis })

unfoldable pub get_by_id : ℕ → Action App RoomJson
unfolding on_database
get_by_id room_id = do
  room ← on_database (get_room_by_id room_id)
  gets (λ s. room_json s.server.db room)

unfoldable pub join : Bcrypt → Inputs → AuthUser → ℕ → Option String → Action App RoomParticipant
unfolding on_database broadcast_roster_change
join bcrypt i me room_id password = do
  participant ← on_database (join_room bcrypt i room_id me.id password)
  modify (broadcast_roster_change i.now room_id)
  pure participant

unfoldable pub leave : ℕ → AuthUser → ℕ → Action App RoomParticipant
unfolding on_database broadcast_roster_change
leave now me room_id = do
  participant ← on_database (leave_room now room_id me.id)
  modify (broadcast_roster_change now room_id)
  pure participant

unfoldable pub participants : ℕ → Action App (List ParticipantJson)
unfolding on_database
participants room_id = do
  rows ← on_database (get_participants room_id)
  gets (λ s. map (participant_json s.server.db.users) rows)

unfoldable pub messages :
    (order : List Message → List Message)
    → AuthUser
    → (room_id page limit : ℕ) → Action App MessageList
unfolding on_database
messages order me room_id page limit = do
  has_participated ← gets (λ s. has_ever_participated room_id me.id s.server.db)
  throw_if (not has_participated)
      (forbidden_error "You must have joined this room to view its chat history")
  gets (λ s. get_messages order room_id page limit s.server.db)

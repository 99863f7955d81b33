-- ===== src/Sockets/State.antt =====
-- What the event handlers of src/sockets read and write: the services' state, and what Socket.io
-- keeps for them. Of Socket.io the model has what its documentation says: `io.to(room).emit`
-- reaches the sockets in the room, `socket.to(room).emit` those but the sender, `io.to(id).emit`
-- the socket with that id, and `join` and `leave` change one socket's rooms. A room's name
-- `room:<id>` stands for the room's id. Each emission is kept, latest first, with the sockets that
-- it reaches.
use smartmeet_backend.Prelude.{
  ℕ, String, Bool, not, ◌&&◌, Option, none, some, List, [], ◌∷◌, ◌++◌, map, ◌==◌, if◌then◌else◌,
  any, select, Action, ◌>>=◌, gets, modify, find_first,
}
use smartmeet_backend.Prelude.Map.{nat_key, Map, get, set, delete}
use smartmeet_backend.Constants.{RoomRole, ConnectionQuality, DisconnectReason}
use smartmeet_backend.Models.{Database, RoomParticipant, User}
use smartmeet_backend.RoomService.{get_participants}
use smartmeet_backend.WebrtcService.{Signaling, get_socket_ids_by_user_id}
use smartmeet_backend.RateLimit.{RateLimitState}
use smartmeet_backend.SfuService.{Sfu, MediaKind}
use smartmeet_backend.Metrics.{Metrics, SocketEvent, record_socket_event}

-- a socket, with the user that its token named
pub record Client : Type 0 where
  pub socket_id : ℕ
  pub user_id : ℕ
  pub username : String

pub data Status : Type 0 where
  joined left kicked disconnected : Status

pub record RosterEntry : Type 0 where
  pub id : ℕ
  pub user_id : ℕ
  pub socket_id : Option ℕ
  pub role : RoomRole
  pub is_muted : Bool
  pub is_camera_on : Bool
  pub connection_quality : ConnectionQuality
  pub username : Option String

-- The events that the server emits, with their data. An optional field is `none` where it is missing.
pub data Event : Type 0 where
  update_participants : (room_id : ℕ) → List RosterEntry → Event
  participant_presence :
      (room_id user_id : ℕ) (username : Option String)
      → Status
      → (reason : Option DisconnectReason) → (socket_id : Option ℕ) → Event
  -- the presence event with the status `updated`
  presence_update :
      (room_id user_id : ℕ) (username : String)
      (is_muted is_camera_on is_speaking is_hand_raised : Option Bool) (socket_id : ℕ)
      → Event
  chat_message :
      (id : Option ℕ) (room_id user_id : ℕ) (username : String) (message : List ℕ) (created_at : ℕ)
      → Event
  room_reaction : (room_id user_id : ℕ) (username : String) (emoji : ℕ) → Event
  force_muted : (room_id by_user_id : ℕ) (by_username : String) → Event
  room_kicked : (room_id : ℕ) → DisconnectReason → (by_user_id : ℕ) (by_username : String) → Event
  disconnect_reason : DisconnectReason → Event
  reconnect_required : (room_id affected_user_id : ℕ) → Event
  webrtc_offer webrtc_answer webrtc_ice_candidate :
      (room_id from_socket_id from_user_id payload : ℕ) → Event
  webrtc_connection_quality :
      (room_id user_id socket_id : ℕ) → ConnectionQuality → (latency packet_loss : ℕ) → Event
  sfu_new_producer : (producer_id socket_id user_id : ℕ) → MediaKind → Event
  sfu_producer_closed : (producer_id socket_id : ℕ) → Event

-- the envelope, and the sockets that it reaches
pub record Emission : Type 0 where
  pub recipients : List ℕ
  pub event : Event
  pub timestamp : ℕ

pub record Membership : Type 0 where
  pub room_id : ℕ
  pub socket_id : ℕ

pub record Server : Type 0 where
  pub db : Database
  pub signaling : Signaling
  pub rate_limits : RateLimitState
  pub sfu : Sfu
  pub metrics : Metrics
  -- `io.sockets.sockets`
  pub connected : Map ℕ Client
  -- `socket.data.roomId`, for the sockets where it is set
  pub data_room_id : Map ℕ ℕ
  pub memberships : List Membership
  pub emitted : List Emission

-- a service's call
unfoldable pub on_db : {A : Type 0} → Action Database A → Action Server A
on_db m s = let (r, db) = m s.db in (r, record s { db = db })

unfoldable pub on_sfu : {A : Type 0} → Action Sfu A → Action Server A
on_sfu m s = let (r, sfu) = m s.sfu in (r, record s { sfu = sfu })

unfoldable pub change_signaling : (Signaling → Signaling) → Server → Server
change_signaling f s = record s { signaling = f s.signaling }

unfoldable pub record_event : SocketEvent → Server → Server
record_event e s = record s { metrics = record_socket_event e s.metrics }

abbrev pub is_member : ℕ → ℕ → Membership → Bool
is_member room_id socket_id m = m.room_id == room_id && m.socket_id == socket_id

-- `socket.join`
unfoldable pub join_channel : ℕ → ℕ → Server → Server
join_channel room_id socket_id s =
    if any (is_member room_id socket_id) s.memberships then s else record s {
      memberships = s.memberships ++ record { room_id = room_id; socket_id = socket_id } ∷ [];
    }

-- `socket.leave`
unfoldable pub leave_channel : ℕ → ℕ → Server → Server
leave_channel room_id socket_id s = record s {
  memberships = select (λ m. not (is_member room_id socket_id m)) s.memberships;
}

unfoldable pub set_room : ℕ → ℕ → Server → Server
set_room socket_id room_id s = record s { data_room_id = set s.data_room_id socket_id room_id }

unfoldable pub clear_room : ℕ → Server → Server
clear_room socket_id s = record s { data_room_id = delete s.data_room_id socket_id }

abbrev pub room_of : ℕ → Server → Option ℕ
room_of socket_id s = get s.data_room_id socket_id

-- the sockets in a room
abbrev pub members : ℕ → List Membership → List ℕ
members room_id [] = []
members room_id (m ∷ ms) =
    let rest = members room_id ms in if m.room_id == room_id then m.socket_id ∷ rest else rest

abbrev pub push : ℕ → List ℕ → Event → Server → Server
push now recipients event s = record s {
  emitted = record { recipients = recipients; event = event; timestamp = now } ∷ s.emitted;
}

-- `io.to(socketRoomName(roomId)).emit(…)`
unfoldable pub emit_room : ℕ → ℕ → Event → Server → Server
emit_room now room_id event s = push now (members room_id s.memberships) event s

-- `socket.to(socketRoomName(roomId)).emit(…)`
unfoldable pub emit_others : ℕ → ℕ → ℕ → Event → Server → Server
emit_others now socket_id room_id event s =
    push now (select (λ k. not (k == socket_id)) (members room_id s.memberships)) event s

-- `io.to(socketId).emit(…)`, to a socket that is connected
unfoldable pub emit_socket : ℕ → ℕ → Event → Server → Server
emit_socket now socket_id event s =
    push now (elim (get s.connected socket_id) [ none ↦ [] | some _ ↦ socket_id ∷ [] ]) event s

-- `roomId || socket.data.roomId`
abbrev pub target_room : Option ℕ → ℕ → Server → Option ℕ
target_room (some room_id) socket_id s = some room_id
target_room none socket_id s = room_of socket_id s

username_of : ℕ → List User → Option String
username_of user_id users = elim (find_first (λ u. u.id == user_id) users) [
  | none ↦ none
  | some u ↦ some u.username
]

roster_entry : Map ℕ ℕ → List User → RoomParticipant → RosterEntry
unfolding username_of
roster_entry sockets users p = record {
  id = p.id;
  user_id = p.user_id;
  socket_id = get sockets p.user_id;
  role = p.role;
  is_muted = p.is_muted;
  is_camera_on = p.is_camera_on;
  connection_quality = p.connection_quality;
  username = username_of p.user_id users;
}

-- `broadcastParticipants` of src/sockets/roomEvents.js
unfoldable pub broadcast_participants : ℕ → ℕ → Action Server (Unit {0})
unfolding roster_entry on_db emit_room
broadcast_participants now room_id = do
  participants ← on_db (get_participants room_id)
  entry ← gets (λ s. roster_entry (get_socket_ids_by_user_id room_id s.signaling) s.db.users)
  modify (emit_room now room_id (update_participants room_id (map entry participants)))

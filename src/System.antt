-- ===== src/System.antt =====
-- The whole backend as one transition system: requests and socket events, one after the other, on
-- the state that they share. Each event runs to its end; what happens between the two halves of a
-- join is in RoomService/Schedule.
pub mod Effects
pub mod Bystanders
pub mod Upkeep
pub mod Requests
pub mod Accounts
pub mod Health
pub mod Faults
pub mod Seats
pub mod Answers
pub mod Channels
pub mod Audience
use smartmeet_backend.Prelude.{ℕ, Bool, Option, List, [], ◌∷◌, Result, Action}
use smartmeet_backend.Prelude.Map.{nat_key, set}
use smartmeet_backend.Metrics.{SocketEvent}
use smartmeet_backend.RoomService.{Inputs}
use smartmeet_backend.SfuService.{Direction, MediaKind}
use smartmeet_backend.Authentication.{AuthUser}
use smartmeet_backend.Sockets.State.{Client, Server, record_event}
use smartmeet_backend.Sockets.RoomEvents.{
  on_room_join, on_room_leave, on_chat_message, on_room_reaction, on_host_mute_participant,
  on_host_kick_participant,
}
use smartmeet_backend.Sockets.PresenceEvents.{
  SocketReason, on_participant_presence, lose_socket, quietly,
}
use smartmeet_backend.Sockets.SignalingEvents.{
  Report, on_webrtc_offer, on_webrtc_answer, on_webrtc_ice_candidate, on_connection_quality,
}
use smartmeet_backend.Sockets.SfuEvents.{
  on_get_rtp_capabilities, on_create_transport, on_connect_transport, on_produce, on_consume,
  on_resume_consumer,
}
use smartmeet_backend.Controllers.{App}
use smartmeet_backend.Http.Requests.{Deployment, Request}
use smartmeet_backend.Http.Routes.{handle}

-- What a client sends over its socket, with the answers that the environment gives to the handler.
pub data SocketMessage : Type 0 where
  room_join : (i : Inputs) (room_id : Option ℕ) → SocketMessage
  room_leave : (room_id : Option ℕ) → SocketMessage
  chat_message : (saved : Option ℕ) (room_id : Option ℕ) (message : List ℕ) → SocketMessage
  room_reaction : (room_id emoji : Option ℕ) → SocketMessage
  host_mute_participant : (room_id target_user_id : Option ℕ) → SocketMessage
  host_kick_participant : (room_id target_user_id : Option ℕ) → SocketMessage
  participant_presence :
      (room_id : Option ℕ) (is_muted is_camera_on is_speaking is_hand_raised : Option Bool)
      → SocketMessage
  webrtc_offer webrtc_answer webrtc_ice_candidate :
      (room_id to_socket_id payload : Option ℕ) → SocketMessage
  connection_quality : (saved room_id : Option ℕ) (report : Report) → SocketMessage
  sfu_get_rtp_capabilities : (router : Result ℕ) → SocketMessage
  sfu_create_transport : (transport : Result ℕ) (direction : Option Direction) → SocketMessage
  sfu_connect_transport : (connected : Result (Unit {0})) (transport_id : Option ℕ) → SocketMessage
  sfu_produce :
      (produced : Result ℕ) (transport_id : Option ℕ) (kind : Option MediaKind) → SocketMessage
  sfu_consume :
      (can_consume : ℕ → ℕ → Bool) (consumed : Result ℕ) (producer_id : Option ℕ) → SocketMessage
  sfu_resume_consumer : (resumed : Result (Unit {0})) (consumer_id : Option ℕ) → SocketMessage

pub data SystemEvent : Type 0 where
  request : Request → SystemEvent
  -- a socket whose token the handshake has accepted
  connection : Client → SystemEvent
  message : (now : ℕ) (from : Client) → SocketMessage → SystemEvent
  disconnect : (now : ℕ) (from : Client) → SocketReason → SystemEvent

-- the handler `connection` of src/sockets/index.js, after Socket.io has the socket
unfoldable pub on_connection : Client → Server → Server
unfolding record_event
on_connection me s =
    record_event SocketEvent.connections (record s { connected = set s.connected me.socket_id me })

module _ (d : Deployment) where
  -- the handlers that the four `register…Events` functions attach to a socket
  unfoldable pub on_message : ℕ → Client → SocketMessage → Server → Server
  on_message now me (room_join i room_id) = quietly (on_room_join d.bcrypt i me room_id)
  on_message now me (room_leave room_id) = quietly (on_room_leave now me room_id)
  on_message now me (chat_message saved room_id text) = on_chat_message saved now me room_id text
  on_message now me (room_reaction room_id emoji) = on_room_reaction now me room_id emoji
  on_message now me (host_mute_participant room_id target) =
      quietly (on_host_mute_participant now me room_id target)
  on_message now me (host_kick_participant room_id target) =
      quietly (on_host_kick_participant now me room_id target)
  on_message now me (participant_presence room_id muted camera speaking hand) =
      on_participant_presence now me room_id muted camera speaking hand
  on_message now me (webrtc_offer room_id to sdp) = on_webrtc_offer now me room_id to sdp
  on_message now me (webrtc_answer room_id to sdp) = on_webrtc_answer now me room_id to sdp
  on_message now me (webrtc_ice_candidate room_id to candidate) =
      on_webrtc_ice_candidate now me room_id to candidate
  on_message now me (connection_quality saved room_id report) =
      on_connection_quality saved now me room_id report
  on_message now me (sfu_get_rtp_capabilities router) = quietly (on_get_rtp_capabilities me router)
  on_message now me (sfu_create_transport transport direction) =
      quietly (on_create_transport me transport direction)
  on_message now me (sfu_connect_transport connected transport_id) =
      quietly (on_connect_transport me connected transport_id)
  on_message now me (sfu_produce produced transport_id kind) =
      quietly (on_produce now me produced transport_id kind)
  on_message now me (sfu_consume can_consume consumed producer_id) =
      quietly (on_consume me can_consume consumed producer_id)
  on_message now me (sfu_resume_consumer resumed consumer_id) =
      quietly (on_resume_consumer me resumed consumer_id)

  unfoldable pub occur : SystemEvent → App → App
  unfolding on_message on_connection
  occur (request r) s = (handle d r s).1
  occur (connection me) s = record s { server = on_connection me s.server }
  occur (message now me m) s = record s { server = on_message now me m s.server }
  occur (disconnect now me reason) s = record s { server = lose_socket now me reason s.server }

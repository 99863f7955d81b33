-- ===== src/Sockets/PresenceEvents.antt =====
-- The presence events (src/sockets/presenceEvents.js). A handler that catches what its body throws
-- only logs it, so the result of the body says whether it was caught.
use smartmeet_backend.Prelude.{
  ℕ, Bool, true, false, ◌||◌, Option, none, some, ◌==◌, is_some, if◌then◌else◌, Action, ◌>>◌, pure,
  modify, select, not,
}
use smartmeet_backend.Prelude.Map.{nat_key, delete}
use smartmeet_backend.Constants.{DisconnectReason, client_left, transport_close, server_shutdown}
use smartmeet_backend.RoomService.{update_participant_presence, leave_room}
use smartmeet_backend.WebrtcService.{remove_peer_from_room}
use smartmeet_backend.RateLimit.{clear_rate_limit_state}
use smartmeet_backend.Metrics.{SocketEvent}
use smartmeet_backend.Sockets.State.{
  Client, Server, Status, on_db, change_signaling, record_event, room_of, emit_room, emit_others,
  emit_socket, target_room, participant_presence, presence_update, disconnect_reason,
  reconnect_required, broadcast_participants,
}
use smartmeet_backend.Sockets.SfuEvents.{cleanup_sfu_peer}

-- Socket.io's reasons for a disconnect that the source names, and the rest
pub data SocketReason : Type 0 where
  client_namespace_disconnect server_namespace_disconnect : SocketReason
  ping_timeout socket_transport_close transport_error other_reason : SocketReason

unfoldable pub map_disconnect_reason : SocketReason → DisconnectReason
map_disconnect_reason client_namespace_disconnect = client_left
map_disconnect_reason server_namespace_disconnect = server_shutdown
map_disconnect_reason _ = transport_close

abbrev pub is_transport_close : DisconnectReason → Bool
is_transport_close transport_close = true
is_transport_close _ = false

-- the durable part of an update, where it has one
unfoldable pub update_presence : ℕ → ℕ → Option Bool → Option Bool → Action Server (Unit {0})
unfolding on_db
update_presence room_id user_id is_muted is_camera_on =
    if is_some is_muted || is_some is_camera_on
    then (on_db (update_participant_presence room_id user_id is_muted is_camera_on) >> pure tt)
    else pure tt

-- the `try` block
unfoldable pub update_presence_in :
    ℕ
    → Client
    → ℕ
    → (is_muted is_camera_on is_speaking is_hand_raised : Option Bool) → Action Server (Unit {0})
unfolding update_presence record_event emit_others
update_presence_in now me room_id is_muted is_camera_on is_speaking is_hand_raised = do
  modify (record_event SocketEvent.messages_received)
  update_presence room_id me.user_id is_muted is_camera_on
  modify (
      emit_others now me.socket_id room_id (
        presence_update room_id me.user_id me.username is_muted is_camera_on is_speaking
          is_hand_raised me.socket_id))
  modify (record_event SocketEvent.messages_sent)

-- the handler, from the room that the event is for
unfoldable pub presence_for :
    ℕ
    → Client
    → Option ℕ
    → (is_muted is_camera_on is_speaking is_hand_raised : Option Bool) → Server
    → Server
unfolding update_presence_in
presence_for now me none is_muted is_camera_on is_speaking is_hand_raised s = s
presence_for now me (some room_id) is_muted is_camera_on is_speaking is_hand_raised s =
    (update_presence_in now me room_id is_muted is_camera_on is_speaking is_hand_raised s).1

unfoldable pub on_participant_presence :
    ℕ
    → Client
    → Option ℕ
    → (is_muted is_camera_on is_speaking is_hand_raised : Option Bool) → Server
    → Server
unfolding presence_for
on_participant_presence now me given_room is_muted is_camera_on is_speaking is_hand_raised s =
    presence_for now me (target_room given_room me.socket_id s) is_muted is_camera_on is_speaking
      is_hand_raised s

-- Socket.io's part of a disconnect, before the handler runs: the socket is gone, from its rooms too
abbrev pub drop_socket : ℕ → Server → Server
drop_socket socket_id s = record s {
  connected = delete s.connected socket_id;
  memberships = select (λ m. not (m.socket_id == socket_id)) s.memberships;
}

-- the emission to the peers of a socket that was lost
unfoldable pub ask_reconnect : ℕ → ℕ → ℕ → DisconnectReason → Server → Server
unfolding emit_room
ask_reconnect now room_id user_id reason s =
    if is_transport_close reason
    then emit_room now room_id (reconnect_required room_id user_id) s
    else s

-- `.catch(() => null)`: a call whose result and failure are ignored
abbrev pub quietly : {A : Type 0} → Action Server A → Server → Server
quietly m s = (m s).1

-- the `try` block, for a socket that had joined a room
unfoldable pub leave_on_disconnect : ℕ → Client → ℕ → DisconnectReason → Action Server (Unit {0})
unfolding on_db change_signaling emit_room ask_reconnect
leave_on_disconnect now me room_id reason = do
  modify (change_signaling (remove_peer_from_room room_id me.socket_id))
  modify (cleanup_sfu_peer now me.socket_id)
  modify (quietly (on_db (leave_room now room_id me.user_id)))
  modify (
      emit_room now room_id (
        participant_presence room_id me.user_id (some me.username) Status.disconnected (some reason)
          (some me.socket_id)))
  broadcast_participants now room_id
  modify (ask_reconnect now room_id me.user_id reason)

unfoldable pub leave_joined : ℕ → Client → Option ℕ → DisconnectReason → Server → Server
leave_joined now me none reason s = s
leave_joined now me (some room_id) reason s = (leave_on_disconnect now me room_id reason s).1

-- the handler up to its test of the room
unfoldable pub note_disconnect : ℕ → Client → DisconnectReason → Server → Server
unfolding record_event emit_socket
note_disconnect now me mapped s =
    let s1 = record_event SocketEvent.disconnections s in
    emit_socket now me.socket_id (disconnect_reason mapped)
      (record s1 { rate_limits = clear_rate_limit_state me.socket_id s1.rate_limits })

unfoldable pub on_disconnect : ℕ → Client → SocketReason → Server → Server
unfolding note_disconnect leave_joined
on_disconnect now me reason s =
    let mapped = map_disconnect_reason reason in
    leave_joined now me (room_of me.socket_id s) mapped (note_disconnect now me mapped s)

-- a disconnect: Socket.io's part, then the handler's
unfoldable pub lose_socket : ℕ → Client → SocketReason → Server → Server
lose_socket now me reason s = on_disconnect now me reason (drop_socket me.socket_id s)

-- ===== src/Sockets/Eviction.antt =====
-- What a kick (room:host-kick-participant of src/sockets/roomEvents.js) leaves of the kicked
-- participant.
use smartmeet_backend.Prelude.{ℕ, ◌≡◌, refl, ap, ◌∙◌, none, some, ok, proceed-keeps}
use smartmeet_backend.Prelude.Map.{nat_key, get, delete, get-delete_self}
use smartmeet_backend.Models.{Database, RoomParticipant}
use smartmeet_backend.RoomService.{host_kick_participant, get_participants}
use smartmeet_backend.Sockets.State.{
  Client, Server, on_db, change_signaling, record_event, room_of, emit_room, emit_others,
  emit_socket, leave_channel, clear_room, broadcast_participants,
}
use smartmeet_backend.Sockets.SfuEvents.{call_id_for, cleanup_in, cleanup_sfu_peer}
use smartmeet_backend.Sockets.RoomEvents.{target_socket, evict, on_host_kick_participant}
use smartmeet_backend.Sockets.PresenceEvents.{
  SocketReason, on_disconnect, leave_joined, lose_socket,
}

broadcast_participants-keeps :
    (now room_id : ℕ) (s : Server)
    → ((broadcast_participants now room_id s).1.sfu ≡ s.sfu)
      × ((broadcast_participants now room_id s).1.data_room_id ≡ s.data_room_id)
unfolding broadcast_participants on_db emit_room
broadcast_participants-keeps now room_id s =
    proceed-keeps (λ t. (t.sfu ≡ s.sfu) × (t.data_room_id ≡ s.data_room_id))
      (on_db (get_participants room_id) s) _ (refl, refl) (λ a h. (refl, refl))

target_socket-db :
    (room_id user_id : ℕ) (s : Server) (db : Database)
    → target_socket room_id user_id (record s { db = db }) ≡ target_socket room_id user_id s
unfolding target_socket
target_socket-db room_id user_id s db = refl

-- The parts of the state after a kick that succeeds, with the target's socket known.
kick-keeps :
    (now : ℕ) (me : Client) (room_id target_id k : ℕ) (s : Server) (p : RoomParticipant)
    → (host_kick_participant now room_id me.user_id target_id s.db).0 ≡ ok p
    → target_socket room_id target_id s ≡ some k
    → ((on_host_kick_participant now me (some room_id) (some target_id) s).1.sfu ≡ s.sfu)
      × ((on_host_kick_participant now me (some room_id) (some target_id) s).1.data_room_id
          ≡ delete s.data_room_id k)
unfolding on_host_kick_participant on_db evict emit_others emit_socket change_signaling
    leave_channel clear_room
kick-keeps now me room_id target_id k s p kicked seated =
    rw
      (
        kicked,
        target_socket-db room_id target_id s
            (host_kick_participant now room_id me.user_id target_id s.db).1,
        seated,
      )
      (broadcast_participants-keeps now room_id _)

lose_socket-unjoined :
    (now : ℕ) (me : Client) (reason : SocketReason) (s : Server)
    → room_of me.socket_id s ≡ none
    → (lose_socket now me reason s).sfu ≡ s.sfu
unfolding lose_socket on_disconnect leave_joined record_event emit_socket
lose_socket-unjoined now me reason s unjoined = rw unjoined refl

-- A kick that succeeds, of a user with a connected socket in the room, closes nothing of the SFU:
-- its whole state stays. As the kick forgets which room that socket had joined, the later cleanup
-- of the socket, and its disconnect, close nothing either.
pub on_host_kick_participant-strands :
    (now : ℕ) (me target : Client) (room_id : ℕ) (s : Server) (p : RoomParticipant)
    → (host_kick_participant now room_id me.user_id target.user_id s.db).0 ≡ ok p
    → target_socket room_id target.user_id s ≡ some target.socket_id
    → (later : ℕ) (reason : SocketReason)
    → let s' = (on_host_kick_participant now me (some room_id) (some target.user_id) s).1 in
      (s'.sfu ≡ s.sfu)
      × (cleanup_sfu_peer later target.socket_id s' ≡ s')
      × ((lose_socket later target reason s').sfu ≡ s.sfu)
unfolding cleanup_sfu_peer cleanup_in call_id_for
on_host_kick_participant-strands now me target room_id s p kicked seated later reason =
    let s' = (on_host_kick_participant now me (some room_id) (some target.user_id) s).1 in
    let (same, forgotten) =
      kick-keeps now me room_id target.user_id target.socket_id s p kicked seated in
    let gone =
      ap (λ m. get m target.socket_id) forgotten
      ∙ get-delete_self s.data_room_id target.socket_id in
    (same, rw gone refl, lose_socket-unjoined later target reason s' gone ∙ same)

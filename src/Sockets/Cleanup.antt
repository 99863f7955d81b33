-- ===== src/Sockets/Cleanup.antt =====
-- What a disconnect (src/sockets/presenceEvents.js) leaves of a socket that had joined a room.
use smartmeet_backend.Prelude.{
  ℕ, ◌≡◌, refl, ap, ◌∙◌, Option, none, some, List, [], ◌∷◌, arith, proceed-keeps, ◌==◌,
  if◌then◌else◌, ◌&&◌,
}
use smartmeet_backend.Prelude.Map.{nat_key, get, delete, get-delete}
use smartmeet_backend.Constants.{DisconnectReason}
use smartmeet_backend.RoomService.{get_participants, leave_room}
use smartmeet_backend.SfuService.{list_own_producer_ids, remove_peer}
use smartmeet_backend.WebrtcService.{Signaling, remove_peer_from_room}
use smartmeet_backend.WebrtcService.Peers.{user_of, user_of-remove_peer_from_room}
use smartmeet_backend.RateLimit.{
  chat, reaction, RateKey, rate_key, RateLimitState, clear_rate_limit_state,
}
use smartmeet_backend.Sockets.State.{
  Client, Server, Status, participant_presence, on_db, change_signaling, record_event, room_of,
  emit_room, emit_others, emit_socket, broadcast_participants,
}
use smartmeet_backend.Sockets.SfuEvents.{
  announce_closed, cleanup_call, cleanup_in, cleanup_sfu_peer, call_id_for,
}
use smartmeet_backend.Sockets.PresenceEvents.{
  SocketReason, ask_reconnect, leave_on_disconnect, note_disconnect, quietly, leave_joined,
  map_disconnect_reason, on_disconnect, drop_socket, lose_socket,
}

-- the two parts of the state that the rest of the cleanup leaves alone
abbrev HasParts : Signaling → RateLimitState → Server → Type 0
HasParts g l s = (s.signaling ≡ g) × (s.rate_limits ≡ l)

module _ (g : Signaling) (l : RateLimitState) (now : ℕ) where
  announce_closed-HasParts :
      (socket_id room_id : ℕ) (ps : List ℕ) (s : Server)
      → HasParts g l s
      → HasParts g l (announce_closed now socket_id room_id ps s)
  unfolding emit_others
  announce_closed-HasParts k r [] s h = h
  announce_closed-HasParts k r (p ∷ ps) s h = announce_closed-HasParts k r ps _ h

  cleanup_in-HasParts :
      (socket_id : ℕ) (call_id : Option ℕ) (s : Server)
      → HasParts g l s
      → HasParts g l (cleanup_in now socket_id call_id s)
  unfolding cleanup_in cleanup_call
  cleanup_in-HasParts k none s h = h
  cleanup_in-HasParts k (some c) s h =
      announce_closed-HasParts k c (list_own_producer_ids c k s.sfu)
        (record s { sfu = remove_peer c k s.sfu }) h

  cleanup_sfu_peer-HasParts :
      (socket_id : ℕ) (s : Server)
      → HasParts g l s
      → HasParts g l (cleanup_sfu_peer now socket_id s)
  unfolding cleanup_sfu_peer
  cleanup_sfu_peer-HasParts k s h = cleanup_in-HasParts k (call_id_for k s) s h

  broadcast_participants-HasParts :
      (room_id : ℕ) (s : Server)
      → HasParts g l s
      → HasParts g l (broadcast_participants now room_id s).1
  unfolding broadcast_participants on_db emit_room
  broadcast_participants-HasParts room_id s h =
      proceed-keeps (HasParts g l) (on_db (get_participants room_id) s) _ h (λ a e. h)

  ask_reconnect-HasParts :
      (room_id user_id : ℕ) (reason : DisconnectReason) (s : Server)
      → HasParts g l s
      → HasParts g l (ask_reconnect now room_id user_id reason s)
  unfolding ask_reconnect emit_room
  ask_reconnect-HasParts r u reason s h = ground (arith, h)

  leave_on_disconnect-HasParts :
      (me : Client) (room_id : ℕ) (reason : DisconnectReason) (s : Server)
      → HasParts g l (change_signaling (remove_peer_from_room room_id me.socket_id) s)
      → HasParts g l (leave_on_disconnect now me room_id reason s).1
  unfolding leave_on_disconnect emit_room on_db
  leave_on_disconnect-HasParts me r reason s h =
      let cleaned =
        cleanup_sfu_peer now me.socket_id
          (change_signaling (remove_peer_from_room r me.socket_id) s) in
      let kept = cleanup_sfu_peer-HasParts me.socket_id _ h in
      proceed-keeps (HasParts g l)
        (broadcast_participants now r (
          emit_room now r
            (participant_presence r me.user_id (some me.username) Status.disconnected (some reason)
              (some me.socket_id))
            (quietly (on_db (leave_room now r me.user_id)) cleaned)))
        _ (broadcast_participants-HasParts r _ kept)
        (λ a e.
          ask_reconnect-HasParts r me.user_id reason _ (broadcast_participants-HasParts r _ kept))

clear_rate_limit_state-get :
    (socket_id : ℕ) (l : RateLimitState) (key : RateKey)
    → get (clear_rate_limit_state socket_id l) key
      ≡ (if socket_id == key.socket_id then none else get l key)
unfolding clear_rate_limit_state
clear_rate_limit_state-get k l key =
    elim key.kind
      as (λ kind.
        get
          (delete (delete l (record { socket_id = k; kind = chat }))
            (record { socket_id = k; kind = reaction }))
          (record { socket_id = key.socket_id; kind = kind })
        ≡ (if k == key.socket_id
            then none
            else get l (record { socket_id = key.socket_id; kind = kind }))) [
              | chat ↦
                  rw
                    (
                      get-delete (delete l (record { socket_id = k; kind = chat }))
                          (record { socket_id = k; kind = reaction })
                          (record { socket_id = key.socket_id; kind = chat }),
                      get-delete l (record { socket_id = k; kind = chat })
                          (record { socket_id = key.socket_id; kind = chat }),
                    )
                    (ground arith)
              | reaction ↦
                  rw
                    (
                      get-delete (delete l (record { socket_id = k; kind = chat }))
                          (record { socket_id = k; kind = reaction })
                          (record { socket_id = key.socket_id; kind = reaction }),
                      get-delete l (record { socket_id = k; kind = chat })
                          (record { socket_id = key.socket_id; kind = reaction }),
                    )
                    (ground arith)
            ]

-- The disconnect of a socket that had joined a room takes it out of that room, where it speaks for
-- nobody any more, and drops its windows of the limiter. What the signaling state says of other
-- sockets and other rooms, and the windows of other sockets, stay as they were.
pub lose_socket-cleans :
    (now : ℕ) (me : Client) (reason : SocketReason) (s : Server) (room_id : ℕ)
    → room_of me.socket_id s ≡ some room_id
    → let s' = lose_socket now me reason s in
      ((r k : ℕ)
        → user_of s'.signaling r k
          ≡ (if room_id == r && me.socket_id == k then none else user_of s.signaling r k))
      × ((key : RateKey)
          → get s'.rate_limits key
            ≡ (if me.socket_id == key.socket_id then none else get s.rate_limits key))
unfolding lose_socket on_disconnect leave_joined note_disconnect record_event emit_socket
    change_signaling
lose_socket-cleans now me reason s room_id joined =
    let mapped = map_disconnect_reason reason in
    let (spoken, windows) =
      leave_on_disconnect-HasParts (remove_peer_from_room room_id me.socket_id s.signaling)
        (clear_rate_limit_state me.socket_id s.rate_limits) now me room_id mapped
        (note_disconnect now me mapped (drop_socket me.socket_id s)) (refl, refl) in
    rw joined (
      (λ r k.
          ap (λ g. user_of g r k) spoken
          ∙ user_of-remove_peer_from_room room_id me.socket_id r k s.signaling),
      (λ key.
          ap (λ (l : RateLimitState). get l key) windows
          ∙ clear_rate_limit_state-get me.socket_id s.rate_limits key),
    )

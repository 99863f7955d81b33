-- ===== src/Sockets/Relay.antt =====
-- Who can reach whom by the signaling events (src/sockets/signalingEvents.js), and how a report of
-- the connection's quality is classified.
use smartmeet_backend.Prelude.{
  ℕ, ◌≤◌, ◌≡◌, refl, inl, inr, Bool, ◌&&◌, none, some, [], ◌∷◌, arith, Bool-cases, is_some,
  if◌then◌else◌,
}
use smartmeet_backend.Prelude.Map.{nat_key, get}
use smartmeet_backend.Constants.{ConnectionQuality, excellent, good, fair, poor}
use smartmeet_backend.WebrtcService.Peers.{user_of}
use smartmeet_backend.WebrtcService.Roster.{get_peers_in_room-any}
use smartmeet_backend.Sockets.State.{
  Client, Server, Event, record_event, emit_socket, webrtc_offer, webrtc_answer,
  webrtc_ice_candidate,
}
use smartmeet_backend.Sockets.SignalingEvents.{
  can_relay_within_room, relay, on_webrtc_offer, on_webrtc_answer, on_webrtc_ice_candidate,
  classify_quality,
}

-- Two sockets are peers in the room.
abbrev pub are_peers : Server → ℕ → ℕ → ℕ → Bool
are_peers s room_id a b =
    is_some (user_of s.signaling room_id a) && is_some (user_of s.signaling room_id b)

-- An event passed on: to the addressed socket alone, if it is connected, when both sockets are
-- peers in the room, and to nobody otherwise.
abbrev pub Passes : ℕ → Client → ℕ → ℕ → Event → Server → Server → Type 0
Passes now me room_id to_socket_id event s after = after.emitted ≡ (
    if are_peers s room_id me.socket_id to_socket_id
    then record {
      recipients = elim (get s.connected to_socket_id) [ none ↦ [] | some _ ↦ to_socket_id ∷ [] ];
      event = event;
      timestamp = now;
    }
      ∷ s.emitted
    else s.emitted)

relay_lem :
    (now : ℕ) (me : Client) (room_id to_socket_id : ℕ) (event : Event) (s : Server)
    → Passes now me room_id to_socket_id event s (relay now me room_id to_socket_id event s)
unfolding relay can_relay_within_room record_event emit_socket
relay_lem now me room_id to_socket_id event s =
    rw
      (
        get_peers_in_room-any room_id me.socket_id s.signaling,
        get_peers_in_room-any room_id to_socket_id s.signaling,
      )
      (elim (Bool-cases (are_peers s room_id me.socket_id to_socket_id)) [
        | inl both ↦ rw both refl
        | inr apart ↦ rw apart refl
      ])

-- An offer, an answer and an ICE candidate, with all their fields, are passed on exactly when the
-- sender and the addressed socket are both peers in the room, to no socket but that one, and name
-- the sender truthfully.
pub signaling-confined :
    (now : ℕ) (me : Client) (room_id to_socket_id payload : ℕ) (s : Server)
    → Passes now me room_id to_socket_id
        (webrtc_offer room_id me.socket_id me.user_id payload)
        s
        (on_webrtc_offer now me (some room_id) (some to_socket_id) (some payload) s)
      × Passes now me room_id to_socket_id
          (webrtc_answer room_id me.socket_id me.user_id payload)
          s
          (on_webrtc_answer now me (some room_id) (some to_socket_id) (some payload) s)
      × Passes now me room_id to_socket_id
          (webrtc_ice_candidate room_id me.socket_id me.user_id payload)
          s
          (on_webrtc_ice_candidate now me (some room_id) (some to_socket_id) (some payload) s)
unfolding on_webrtc_offer on_webrtc_answer on_webrtc_ice_candidate
signaling-confined now me room_id k payload s = (
  relay_lem now me room_id k (webrtc_offer room_id me.socket_id me.user_id payload) s,
  relay_lem now me room_id k (webrtc_answer room_id me.socket_id me.user_id payload) s,
  relay_lem now me room_id k (webrtc_ice_candidate room_id me.socket_id me.user_id payload) s,
)

-- the order of the qualities
abbrev pub rank : ConnectionQuality → ℕ
rank poor = 0
rank fair = 1
rank good = 2
rank excellent = 3

-- A connection with no more latency and no more packet loss than another is never classified as
-- worse.
pub classify_quality-monotone :
    (latency latency' packet_loss packet_loss' : ℕ)
    → latency ≤ latency'
    → packet_loss ≤ packet_loss'
    → rank (classify_quality latency' packet_loss') ≤ rank (classify_quality latency packet_loss)
unfolding classify_quality
classify_quality-monotone latency latency' packet_loss packet_loss' h k = ground arith

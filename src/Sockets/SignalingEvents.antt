-- ===== src/Sockets/SignalingEvents.antt =====
-- The signaling events (src/sockets/signalingEvents.js). SDP and ICE payloads are opaque numbers,
-- and a field that is missing is `none`. Latencies, losses and bandwidths are natural numbers.
use smartmeet_backend.Prelude.{
  ℕ, Bool, ◌&&◌, Option, none, some, [], ◌∷◌, ◌++◌, any, ◌==◌, ltb, if◌then◌else◌,
}
use smartmeet_backend.Constants.{ConnectionQuality, excellent, good, fair, poor}
use smartmeet_backend.Models.{Database}
use smartmeet_backend.WebrtcService.{Signaling, get_peers_in_room, record_connection_quality}
use smartmeet_backend.Metrics.{SocketEvent}
use smartmeet_backend.Sockets.State.{
  Client, Server, Event, change_signaling, record_event, emit_socket, emit_others, webrtc_offer,
  webrtc_answer, webrtc_ice_candidate, webrtc_connection_quality,
}

unfoldable pub can_relay_within_room : ℕ → ℕ → ℕ → Signaling → Bool
can_relay_within_room room_id socket_id to_socket_id s =
    let peers = get_peers_in_room room_id s in
    any (λ j. j == socket_id) peers && any (λ j. j == to_socket_id) peers

-- what the three handlers do with an event whose fields are all there
unfoldable pub relay : ℕ → Client → ℕ → ℕ → Event → Server → Server
unfolding record_event emit_socket
relay now me room_id to_socket_id event s =
    if can_relay_within_room room_id me.socket_id to_socket_id s.signaling
    then record_event SocketEvent.messages_sent
        (emit_socket now to_socket_id event (record_event SocketEvent.messages_received s))
    else s

unfoldable pub on_webrtc_offer : ℕ → Client → Option ℕ → Option ℕ → Option ℕ → Server → Server
on_webrtc_offer now me (some room_id) (some to_socket_id) (some sdp) s =
    relay now me room_id to_socket_id (webrtc_offer room_id me.socket_id me.user_id sdp) s
on_webrtc_offer _ _ _ _ _ s = s

unfoldable pub on_webrtc_answer : ℕ → Client → Option ℕ → Option ℕ → Option ℕ → Server → Server
on_webrtc_answer now me (some room_id) (some to_socket_id) (some sdp) s =
    relay now me room_id to_socket_id (webrtc_answer room_id me.socket_id me.user_id sdp) s
on_webrtc_answer _ _ _ _ _ s = s

unfoldable pub on_webrtc_ice_candidate :
    ℕ → Client → Option ℕ → Option ℕ → Option ℕ → Server → Server
on_webrtc_ice_candidate now me (some room_id) (some to_socket_id) (some candidate) s =
    relay now me room_id to_socket_id
      (webrtc_ice_candidate room_id me.socket_id me.user_id candidate) s
on_webrtc_ice_candidate _ _ _ _ _ s = s

unfoldable pub classify_quality : ℕ → ℕ → ConnectionQuality
classify_quality latency packet_loss =
    if ltb latency 100 && ltb packet_loss 1
    then excellent
    else if ltb latency 250 && ltb packet_loss 3
    then good
    else if ltb latency 500 && ltb packet_loss 8
    then fair
    else poor

-- the numbers of a report, 0 where the client gave none
pub record Report : Type 0 where
  pub bandwidth_in : ℕ
  pub bandwidth_out : ℕ
  pub latency : ℕ
  pub packet_loss : ℕ

-- `recordConnectionMetric` of src/services/analyticsService.js: the new row's id, or `none` where
-- the insert fails, which is caught
unfoldable pub record_connection_metric : Option ℕ → ℕ → ℕ → ℕ → Report → Database → Database
record_connection_metric none now room_id participant_id r db = db
record_connection_metric (some id) now room_id participant_id r db = record db {
  connection_metrics =
      db.connection_metrics
      ++ record {
        id = id;
        room_id = room_id;
        participant_id = participant_id;
        bandwidth_in = r.bandwidth_in;
        bandwidth_out = r.bandwidth_out;
        latency = r.latency;
        packet_loss = r.packet_loss;
        recorded_at = now;
      }
        ∷ [];
}

unfoldable pub on_connection_quality : Option ℕ → ℕ → Client → Option ℕ → Report → Server → Server
unfolding record_event change_signaling record_connection_metric emit_others
on_connection_quality saved now me none r s = s
on_connection_quality saved now me (some room_id) r s =
    let quality = classify_quality r.latency r.packet_loss in
    let s1 =
      change_signaling (record_connection_quality now room_id me.socket_id quality)
        (record_event SocketEvent.messages_received s) in
    let s2 = record s1 { db = record_connection_metric saved now room_id me.user_id r s1.db } in
    record_event SocketEvent.messages_sent (
      emit_others now me.socket_id room_id
        (webrtc_connection_quality room_id me.user_id me.socket_id quality r.latency r.packet_loss)
        s2)

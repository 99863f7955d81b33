-- ===== src/Sockets/SfuEvents.antt =====
-- The SFU events (src/sockets/sfuEvents.js). A handler answers through its `ack`: its result here.
-- A payload's field that must be there is `none` where it is missing. mediasoup's answers are
-- arguments, as in SfuService.
use smartmeet_backend.Prelude.{
  ℕ, String, Bool, Option, none, some, List, [], ◌∷◌, Action, Result, ◌>>=◌, ◌>>◌, pure, gets,
  modify, or_throw,
}
use smartmeet_backend.Errors.{plain_error}
use smartmeet_backend.SfuService.{
  Direction, MediaKind, Transport, Consumer, ProducerInfo, get_rtp_capabilities, create_transport,
  connect_transport, produce, consume, resume_consumer, list_own_producer_ids, list_other_producers,
  remove_peer,
}
use smartmeet_backend.Metrics.{SocketEvent}
use smartmeet_backend.Sockets.State.{
  Client, Server, on_sfu, record_event, emit_others, room_of, sfu_new_producer, sfu_producer_closed,
}

-- `callIdFor`: the room that the socket has joined
unfoldable pub call_id_for : ℕ → Server → Option ℕ
call_id_for socket_id s = room_of socket_id s

unfoldable pub on_get_rtp_capabilities : Client → Result ℕ → Action Server (ℕ × List ProducerInfo)
unfolding call_id_for on_sfu
on_get_rtp_capabilities me created = do
  found ← gets (call_id_for me.socket_id)
  call_id ← or_throw found (plain_error "Join a room before starting SFU signaling")
  modify (record_event SocketEvent.messages_received)
  router ← on_sfu (get_rtp_capabilities created call_id me.socket_id me.user_id)
  other_producers ← gets (λ s. list_other_producers call_id me.socket_id s.sfu)
  modify (record_event SocketEvent.messages_sent)
  pure (router, other_producers)

-- A direction other than the two is `none`.
unfoldable pub on_create_transport : Client → Result ℕ → Option Direction → Action Server Transport
unfolding call_id_for on_sfu
on_create_transport me created direction = do
  found ← gets (call_id_for me.socket_id)
  call_id ← or_throw found (plain_error "Join a room before starting SFU signaling")
  d ← or_throw direction (plain_error "direction must be \"send\" or \"recv\"")
  modify (record_event SocketEvent.messages_received)
  transport ← on_sfu (create_transport created call_id me.socket_id d)
  modify (record_event SocketEvent.messages_sent)
  pure transport

unfoldable pub on_connect_transport :
    Client → Result (Unit {0}) → Option ℕ → Action Server (Unit {0})
unfolding call_id_for on_sfu
on_connect_transport me connected transport_id = do
  found ← gets (call_id_for me.socket_id)
  call_id ← or_throw found (plain_error "transportId and dtlsParameters are required")
  t ← or_throw transport_id (plain_error "transportId and dtlsParameters are required")
  modify (record_event SocketEvent.messages_received)
  on_sfu (connect_transport connected call_id me.socket_id t)
  modify (record_event SocketEvent.messages_sent)

abbrev missing_produce : String
missing_produce = "transportId, kind, and rtpParameters are required"

unfoldable pub on_produce : ℕ → Client → Result ℕ → Option ℕ → Option MediaKind → Action Server ℕ
unfolding call_id_for on_sfu
on_produce now me produced transport_id kind = do
  found ← gets (call_id_for me.socket_id)
  call_id ← or_throw found (plain_error missing_produce)
  t ← or_throw transport_id (plain_error missing_produce)
  k ← or_throw kind (plain_error missing_produce)
  modify (record_event SocketEvent.messages_received)
  producer_id ← on_sfu (produce produced call_id me.socket_id t k)
  modify (
      emit_others now me.socket_id call_id (sfu_new_producer producer_id me.socket_id me.user_id k))
  modify (record_event SocketEvent.messages_sent)
  pure producer_id

unfoldable pub on_consume : Client → (ℕ → ℕ → Bool) → Result ℕ → Option ℕ → Action Server Consumer
unfolding call_id_for on_sfu
on_consume me can_consume consumed producer_id = do
  found ← gets (call_id_for me.socket_id)
  call_id ← or_throw found (plain_error "producerId and rtpCapabilities are required")
  p ← or_throw producer_id (plain_error "producerId and rtpCapabilities are required")
  modify (record_event SocketEvent.messages_received)
  consumer ← on_sfu (consume can_consume consumed call_id me.socket_id p)
  modify (record_event SocketEvent.messages_sent)
  pure consumer

unfoldable pub on_resume_consumer : Client → Result (Unit {0}) → Option ℕ → Action Server (Unit {0})
unfolding call_id_for on_sfu
on_resume_consumer me resumed consumer_id = do
  found ← gets (call_id_for me.socket_id)
  call_id ← or_throw found (plain_error "consumerId is required")
  c ← or_throw consumer_id (plain_error "consumerId is required")
  modify (record_event SocketEvent.messages_received)
  on_sfu (resume_consumer resumed call_id me.socket_id c)
  modify (record_event SocketEvent.messages_sent)

-- the loop over the producers that vanish
abbrev pub announce_closed : ℕ → ℕ → ℕ → List ℕ → Server → Server
announce_closed now socket_id room_id [] s = s
announce_closed now socket_id room_id (p ∷ ps) s =
    announce_closed now socket_id room_id ps
      (emit_others now socket_id room_id (sfu_producer_closed p socket_id) s)

unfoldable pub cleanup_call : ℕ → ℕ → ℕ → Server → Server
cleanup_call now socket_id call_id s =
    let producer_ids = list_own_producer_ids call_id socket_id s.sfu in
    announce_closed now socket_id call_id producer_ids
      (record s { sfu = remove_peer call_id socket_id s.sfu })

unfoldable pub cleanup_in : ℕ → ℕ → Option ℕ → Server → Server
unfolding cleanup_call
cleanup_in now socket_id none s = s
cleanup_in now socket_id (some call_id) s = cleanup_call now socket_id call_id s

unfoldable pub cleanup_sfu_peer : ℕ → ℕ → Server → Server
unfolding call_id_for cleanup_in
cleanup_sfu_peer now socket_id s = cleanup_in now socket_id (call_id_for socket_id s) s

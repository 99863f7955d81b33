-- ===== src/Sockets/SfuGuard.antt =====
-- What the SFU events (src/sockets/sfuEvents.js) do for a socket that has not joined a room, and
-- whom a new producer is announced to.
use smartmeet_backend.Prelude.{
  ℕ, Bool, Option, none, some, ◌≡◌, refl, err, ok, Result, List, ◌∷◌, select, not, ◌==◌, proceed,
  modify, pure, ◌>>◌,
}
use smartmeet_backend.Errors.{Failure, plain_error}
use smartmeet_backend.SfuService.{Sfu, Direction, MediaKind, produce}
use smartmeet_backend.Metrics.{SocketEvent}
use smartmeet_backend.Sockets.State.{
  Client, Server, Emission, room_of, on_sfu, record_event, emit_others, members, sfu_new_producer,
}
use smartmeet_backend.Sockets.SfuEvents.{
  call_id_for, on_get_rtp_capabilities, on_create_transport, on_connect_transport, on_produce,
  on_consume, on_resume_consumer,
}

-- The result is a failure, and the state is as before.
abbrev pub Refused : {A : Type 0} → Result A × Server → Server → Type 0
Refused answer s = (e : Failure) × (answer ≡ (err e, s))

-- A socket that has not joined a room is refused every SFU event, with nothing changed, whatever
-- fields the event has and whatever mediasoup would answer.
pub sfu_events-Refused :
    (me : Client) (s : Server)
    → room_of me.socket_id s ≡ none
    → ((created : Result ℕ) → Refused (on_get_rtp_capabilities me created s) s)
      × ((created : Result ℕ) (d : Option Direction)
          → Refused (on_create_transport me created d s) s)
      × ((connected : Result (Unit {0})) (t : Option ℕ)
          → Refused (on_connect_transport me connected t s) s)
      × ((now : ℕ) (produced : Result ℕ) (t : Option ℕ) (kind : Option MediaKind)
          → Refused (on_produce now me produced t kind s) s)
      × ((can_consume : ℕ → ℕ → Bool) (consumed : Result ℕ) (p : Option ℕ)
          → Refused (on_consume me can_consume consumed p s) s)
      × ((resumed : Result (Unit {0})) (c : Option ℕ)
          → Refused (on_resume_consumer me resumed c s) s)
unfolding on_get_rtp_capabilities on_create_transport on_connect_transport on_produce on_consume
    on_resume_consumer call_id_for
sfu_events-Refused me s unjoined = (
  (λ created. (plain_error "Join a room before starting SFU signaling", rw unjoined refl)),
  (λ created d. (plain_error "Join a room before starting SFU signaling", rw unjoined refl)),
  (λ connected t. (plain_error "transportId and dtlsParameters are required", rw unjoined refl)),
  (λ now produced t kind.
      (plain_error "transportId, kind, and rtpParameters are required", rw unjoined refl)),
  (λ can_consume consumed p.
      (plain_error "producerId and rtpCapabilities are required", rw unjoined refl)),
  (λ resumed c. (plain_error "consumerId is required", rw unjoined refl)),
)

-- the emissions once mediasoup has answered
abbrev pub announced : ℕ → Client → MediaKind → ℕ → Server → Result ℕ → List Emission
announced now me kind room_id s (ok id) =
    record {
      recipients = select (λ k. not (k == me.socket_id)) (members room_id s.memberships);
      event = sfu_new_producer id me.socket_id me.user_id kind;
      timestamp = now;
    }
    ∷ s.emitted
announced now me kind room_id s (err e) = s.emitted

announced_lem :
    (now : ℕ) (me : Client) (kind : MediaKind) (room_id : ℕ) (s : Server) (r : Result ℕ) (sfu : Sfu)
    → (proceed
        (r, record (record_event SocketEvent.messages_received s) { sfu = sfu })
        (λ id.
          modify (
            emit_others now me.socket_id room_id (sfu_new_producer id me.socket_id me.user_id kind))
          >> (modify (record_event SocketEvent.messages_sent) >> pure id))).1.emitted
      ≡ announced now me kind room_id s r
unfolding record_event emit_others
announced_lem now me kind room_id s (ok id) sfu = refl
announced_lem now me kind room_id s (err e) sfu = refl

-- A producer that a socket in a room starts is announced once, with its id and kind, to the other
-- sockets in that room, and to nobody else; one that fails is not announced.
pub on_produce-announces :
    (now : ℕ) (me : Client) (produced : Result ℕ) (t : ℕ) (kind : MediaKind) (s : Server)
    (room_id : ℕ)
    → room_of me.socket_id s ≡ some room_id
    → (on_produce now me produced (some t) (some kind) s).1.emitted
      ≡ announced now me kind room_id s (produce produced room_id me.socket_id t kind s.sfu).0
unfolding on_produce call_id_for on_sfu record_event
on_produce-announces now me produced t kind s room_id joined = rw joined (
    announced_lem now me kind room_id s (produce produced room_id me.socket_id t kind s.sfu).0
      (produce produced room_id me.socket_id t kind s.sfu).1)

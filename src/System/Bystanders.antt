-- ===== src/System/Bystanders.antt =====
-- The socket events that leave users, rooms and participations alone.
use smartmeet_backend.Prelude.{
  ℕ, ◌≡◌, refl, Bool, Option, none, some, List, [], ◌∷◌, Result, arith, inl, inr, Option-cases,
  Bool-cases,
}
use smartmeet_backend.Models.{Database}
use smartmeet_backend.SfuService.{Direction, MediaKind}
use smartmeet_backend.RateLimit.{chat, is_rate_limited, chat_rate_limit_max, rate_limit_window_ms}
use smartmeet_backend.Sockets.State.{
  Client, Server, Event, on_sfu, record_event, target_room, emit_room, emit_others, emit_socket,
  emit_room, emit_others, target_room, change_signaling, record_event,
}
use smartmeet_backend.Sockets.RoomEvents.{
  save_message, relay_chat, chat_to, chat_with, reaction_to, is_joined_to, is_empty_body, body_of,
  on_chat_message, on_room_reaction,
}
use smartmeet_backend.Sockets.SignalingEvents.{
  Report, record_connection_metric, on_webrtc_offer, on_webrtc_answer, on_webrtc_ice_candidate,
  on_connection_quality, relay,
}
use smartmeet_backend.Sockets.SfuEvents.{
  on_get_rtp_capabilities, on_create_transport, on_connect_transport, on_produce, on_consume,
  on_resume_consumer,
}

-- The other events leave users, rooms and participations alone.
abbrev pub SameTables : Database → Database → Type 0
SameTables db later =
    (later.users ≡ db.users) × (later.rooms ≡ db.rooms) × (later.participants ≡ db.participants)

pub relay_chat-SameTables :
    (saved : Option ℕ) (now : ℕ) (me : Client) (r : ℕ) (body : List ℕ) (s : Server)
    → SameTables s.db (relay_chat saved now me r body s).db
unfolding relay_chat save_message record_event emit_room
relay_chat-SameTables saved now me r [] s = (refl, refl, refl)
relay_chat-SameTables none now me r (c ∷ cs) s = (refl, refl, refl)
relay_chat-SameTables (some id) now me r (c ∷ cs) s = (refl, refl, refl)

pub on_chat_message-SameTables :
    (saved : Option ℕ) (now : ℕ) (me : Client) (given : Option ℕ) (message : List ℕ) (s : Server)
    → SameTables s.db (on_chat_message saved now me given message s).db
unfolding on_chat_message chat_with chat_to
on_chat_message-SameTables saved now me given message s =
    elim (Option-cases (target_room given me.socket_id s)) [
      | inl nowhere ↦ rw nowhere (refl, refl, refl)
      | inr (r, found) ↦
          let limiter =
            is_rate_limited now (record { socket_id = me.socket_id; kind = chat })
              chat_rate_limit_max rate_limit_window_ms s.rate_limits in
          elim (Bool-cases (is_empty_body message)) [
            | inl silent ↦ rw (found, silent) (refl, refl, refl)
            | inr speaks ↦ elim (Bool-cases (is_joined_to r me.socket_id s)) [
              | inr away ↦ rw (found, speaks, away) (refl, refl, refl)
              | inl joined ↦ elim (Bool-cases limiter.0) [
                | inl flooding ↦ rw (found, speaks, joined, flooding) (refl, refl, refl)
                | inr calm ↦
                    rw (found, speaks, joined, calm)
                      (relay_chat-SameTables saved now me r (body_of message)
                        (record s { rate_limits = limiter.1 }))
              ]
            ]
          ]
    ]

pub on_connection_quality-SameTables :
    (saved : Option ℕ) (now : ℕ) (me : Client) (given : Option ℕ) (report : Report) (s : Server)
    → SameTables s.db (on_connection_quality saved now me given report s).db
unfolding on_connection_quality record_connection_metric record_event change_signaling emit_others
on_connection_quality-SameTables saved now me none report s = (refl, refl, refl)
on_connection_quality-SameTables none now me (some r) report s = (refl, refl, refl)
on_connection_quality-SameTables (some id) now me (some r) report s = (refl, refl, refl)

pub on_room_reaction-db :
    (now : ℕ) (me : Client) (given emoji : Option ℕ) (s : Server)
    → (on_room_reaction now me given emoji s).db ≡ s.db
unfolding on_room_reaction reaction_to record_event emit_room
on_room_reaction-db now me given emoji s = ground arith

pub relay-db :
    (now : ℕ) (me : Client) (r to : ℕ) (event : Event) (s : Server)
    → (relay now me r to event s).db ≡ s.db
unfolding relay record_event emit_socket
relay-db now me r to event s = ground arith

-- A payload that misses a field is dropped.
pub on_webrtc_offer-db :
    (now : ℕ) (me : Client) (r to payload : Option ℕ) (s : Server)
    → (on_webrtc_offer now me r to payload s).db ≡ s.db
unfolding on_webrtc_offer
on_webrtc_offer-db now me (some r) (some to) (some p) s = relay-db now me r to _ s
on_webrtc_offer-db now me none to p s = refl
on_webrtc_offer-db now me (some r) none p s = refl
on_webrtc_offer-db now me (some r) (some to) none s = refl

pub on_webrtc_answer-db :
    (now : ℕ) (me : Client) (r to payload : Option ℕ) (s : Server)
    → (on_webrtc_answer now me r to payload s).db ≡ s.db
unfolding on_webrtc_answer
on_webrtc_answer-db now me (some r) (some to) (some p) s = relay-db now me r to _ s
on_webrtc_answer-db now me none to p s = refl
on_webrtc_answer-db now me (some r) none p s = refl
on_webrtc_answer-db now me (some r) (some to) none s = refl

pub on_webrtc_ice_candidate-db :
    (now : ℕ) (me : Client) (r to payload : Option ℕ) (s : Server)
    → (on_webrtc_ice_candidate now me r to payload s).db ≡ s.db
unfolding on_webrtc_ice_candidate
on_webrtc_ice_candidate-db now me (some r) (some to) (some p) s = relay-db now me r to _ s
on_webrtc_ice_candidate-db now me none to p s = refl
on_webrtc_ice_candidate-db now me (some r) none p s = refl
on_webrtc_ice_candidate-db now me (some r) (some to) none s = refl

-- The SFU events answer from a state of their own.
module _ (me : Client) (s : Server) where
  pub on_get_rtp_capabilities-db :
      (created : Result ℕ) → (on_get_rtp_capabilities me created s).1.db ≡ s.db
  unfolding on_get_rtp_capabilities on_sfu record_event
  on_get_rtp_capabilities-db created = ground arith

  pub on_create_transport-db :
      (created : Result ℕ) (d : Option Direction) → (on_create_transport me created d s).1.db ≡ s.db
  unfolding on_create_transport on_sfu record_event
  on_create_transport-db created d = ground arith

  pub on_connect_transport-db :
      (connected : Result (Unit {0})) (t : Option ℕ)
      → (on_connect_transport me connected t s).1.db ≡ s.db
  unfolding on_connect_transport on_sfu record_event
  on_connect_transport-db connected t = ground arith

  pub on_produce-db :
      (now : ℕ) (produced : Result ℕ) (t : Option ℕ) (kind : Option MediaKind)
      → (on_produce now me produced t kind s).1.db ≡ s.db
  unfolding on_produce on_sfu record_event emit_others
  on_produce-db now produced t kind = ground arith

  pub on_consume-db :
      (can_consume : ℕ → ℕ → Bool) (consumed : Result ℕ) (p : Option ℕ)
      → (on_consume me can_consume consumed p s).1.db ≡ s.db
  unfolding on_consume on_sfu record_event
  on_consume-db can_consume consumed p = ground arith

  pub on_resume_consumer-db :
      (resumed : Result (Unit {0})) (c : Option ℕ) → (on_resume_consumer me resumed c s).1.db ≡ s.db
  unfolding on_resume_consumer on_sfu record_event
  on_resume_consumer-db resumed c = ground arith

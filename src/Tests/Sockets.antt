-- ===== src/Tests/Sockets.antt =====
-- The theorems on the socket handlers, and runs of the handlers.
use smartmeet_backend.Prelude.{
  ℕ, ◌≡◌, refl, Bool, true, false, Option, none, some, Result, ok, List, [], ◌∷◌, arith, err, take,
  if◌then◌else◌, ◌==◌, ◌&&◌,
}
use smartmeet_backend.Errors.{auth_error}
use smartmeet_backend.Prelude.Map.{nat_key, get, set}
use smartmeet_backend.Constants.{participant}
use smartmeet_backend.RoomService.{mark_left}
use smartmeet_backend.WebrtcService.{get_socket_ids_by_user_id, collect_sockets}
use smartmeet_backend.RateLimit.{is_rate_limited}
use smartmeet_backend.SfuService.{Sfu, send, audio, Direction, MediaKind, produce}
use smartmeet_backend.Sockets.State.{
  Client, Server, chat_message, webrtc_offer, webrtc_answer, webrtc_ice_candidate,
}
use smartmeet_backend.Sockets.SfuEvents.{
  cleanup_sfu_peer, on_get_rtp_capabilities, on_create_transport, on_connect_transport, on_produce,
  on_consume, on_resume_consumer,
}
use smartmeet_backend.Sockets.RoomEvents.{
  is_space, trim_start, trim_end, body_of, body_limit, save_message, target_socket, on_room_join,
  on_chat_message, on_host_kick_participant,
}
use smartmeet_backend.Sockets.SignalingEvents.{
  on_webrtc_offer, on_webrtc_answer, on_webrtc_ice_candidate,
}
use smartmeet_backend.Sockets.PresenceEvents.{ping_timeout, lose_socket}
use smartmeet_backend.Sockets.Trimming.{IsTrimOf, body_of-IsTrimOf}
use smartmeet_backend.Sockets.Chat.{IsAccepted, on_chat_message-relays, on_chat_message-refuses}
use smartmeet_backend.Sockets.Relay.{Passes, signaling-confined}
use smartmeet_backend.Sockets.Passwords.{on_room_join-locked}
use smartmeet_backend.RateLimit.{RateKey, rate_key}
use smartmeet_backend.WebrtcService.Peers.{user_of}
use smartmeet_backend.Sockets.Cleanup.{lose_socket-cleans}
use smartmeet_backend.Sockets.SfuGuard.{
  Refused, announced, sfu_events-Refused, on_produce-announces,
}
use smartmeet_backend.Sockets.Eviction.{on_host_kick_participant-strands}
use smartmeet_backend.Tests.Data.{plain_bcrypt, inputs, lobby, row, tables}
use smartmeet_backend.Tests.Rooms.{kicks_guest}

abbrev pub host_client : Client
host_client = record { socket_id = 70; user_id = 7; username = "host" }

abbrev pub guest_client : Client
guest_client = record { socket_id = 80; user_id = 8; username = "guest" }

-- The guest has a transport and a producer in the room's call.
abbrev open_sfu : Sfu
open_sfu = record {
  is_installed = true;
  workers = 1 ∷ [];
  next_worker_index = 0;
  calls =
      (
        1,
        record {
          router = 5;
          peers =
              (
                80,
                record {
                  socket_id = 80;
                  user_id = 8;
                  transports = (20, record { id = 20; direction = send }) ∷ [];
                  producers = (30, record { id = 30; transport_id = 20; kind = audio }) ∷ [];
                  consumers = [];
                },
              )
              ∷ [];
        },
      )
      ∷ [];
  effects = [];
}

-- Both sockets are in room 1.
abbrev pub server : Server
server = record {
  db = tables;
  signaling = record {
    in_memory_room_peers = (1, (70, 7) ∷ (80, 8) ∷ []) ∷ [];
    redis = record { is_up = false; room_peers = []; room_quality = [] };
  };
  rate_limits = [];
  sfu = open_sfu;
  metrics = record {
    is_enabled = true;
    routes = [];
    sockets = record {
      connections = 2;
      disconnections = 0;
      messages_sent = 0;
      messages_received = 0;
    };
  };
  connected = (70, host_client) ∷ (80, guest_client) ∷ [];
  data_room_id = (70, 1) ∷ (80, 1) ∷ [];
  memberships =
      record { room_id = 1; socket_id = 70 } ∷ record { room_id = 1; socket_id = 80 } ∷ [];
  emitted = [];
}

-- " hi "
abbrev pub greeting : List ℕ
greeting = 32 ∷ 104 ∷ 105 ∷ 32 ∷ []

trims : body_of greeting ≡ 104 ∷ 105 ∷ []
unfolding body_of trim_start trim_end is_space
trims = refl

body_of-IsTrimOf_example : IsTrimOf (take body_limit greeting) (body_of greeting)
body_of-IsTrimOf_example = body_of-IsTrimOf greeting

pub greeting-IsAccepted : IsAccepted 100 guest_client none greeting server 1
unfolding get is_rate_limited body_of trim_start trim_end is_space
greeting-IsAccepted = record { target = refl; joined = refl; calm = refl; speaks = refl }

on_chat_message-relays_example :
    ((on_chat_message (some 9) 100 guest_client none greeting server).emitted
      ≡ record {
        recipients = 70 ∷ 80 ∷ [];
        event = chat_message (some 9) 1 8 "guest" (body_of greeting) 100;
        timestamp = 100;
      }
        ∷ [])
    × ((on_chat_message (some 9) 100 guest_client none greeting server).db
        ≡ save_message (some 9) 100 1 8 (body_of greeting) tables)
on_chat_message-relays_example =
    on_chat_message-relays (some 9) 100 guest_client none greeting server 1 greeting-IsAccepted

-- The guest is not in room 2.
elsewhere-refused : (room_id : ℕ) → ¬ IsAccepted 100 guest_client (some 2) greeting server room_id
elsewhere-refused room_id a =
    let here : get server.data_room_id 80 ≡ some 1 = unfold get in refl in
    ground (arith, a.target, a.joined, here)

on_chat_message-refuses_example :
    ((on_chat_message (some 9) 100 guest_client (some 2) greeting server).emitted ≡ [])
    × ((on_chat_message (some 9) 100 guest_client (some 2) greeting server).db ≡ tables)
on_chat_message-refuses_example =
    on_chat_message-refuses (some 9) 100 guest_client (some 2) greeting server elsewhere-refused

signaling-confined_example :
    Passes 100 guest_client 1 70
      (webrtc_offer 1 80 8 5)
      server
      (on_webrtc_offer 100 guest_client (some 1) (some 70) (some 5) server)
    × Passes 100 guest_client 1 70
        (webrtc_answer 1 80 8 5)
        server
        (on_webrtc_answer 100 guest_client (some 1) (some 70) (some 5) server)
    × Passes 100 guest_client 1 70
        (webrtc_ice_candidate 1 80 8 5)
        server
        (on_webrtc_ice_candidate 100 guest_client (some 1) (some 70) (some 5) server)
signaling-confined_example = signaling-confined 100 guest_client 1 70 5 server

on_room_join-locked_example :
    on_room_join plain_bcrypt inputs host_client (some 1) server
    ≡ (err (auth_error "A password is required to join this room"), server)
on_room_join-locked_example =
    on_room_join-locked plain_bcrypt inputs host_client 1 server lobby refl refl refl

guest_seated : target_socket 1 8 server ≡ some 80
unfolding target_socket get_socket_ids_by_user_id collect_sockets get set
guest_seated = refl

on_host_kick_participant-strands_example :
    let s' = (on_host_kick_participant 100 host_client (some 1) (some 8) server).1 in
    (s'.sfu ≡ open_sfu)
    × (cleanup_sfu_peer 110 80 s' ≡ s')
    × ((lose_socket 110 guest_client ping_timeout s').sfu ≡ open_sfu)
on_host_kick_participant-strands_example =
    on_host_kick_participant-strands 100 host_client guest_client 1 server
      (mark_left 100 (row 11 8 participant)) kicks_guest guest_seated 110 ping_timeout

lose_socket-cleans_example :
    let s' = lose_socket 110 guest_client ping_timeout server in
    ((r k : ℕ)
      → user_of s'.signaling r k
        ≡ (if 1 == r && 80 == k then none else user_of server.signaling r k))
    × ((key : RateKey)
        → get s'.rate_limits key
          ≡ (if 80 == key.socket_id then none else get server.rate_limits key))
lose_socket-cleans_example =
    lose_socket-cleans 110 guest_client ping_timeout server 1 (unfold get in refl)

-- A third socket, in no room.
abbrev late_client : Client
late_client = record { socket_id = 90; user_id = 9; username = "late" }

sfu_events-Refused_example :
    ((created : Result ℕ) → Refused (on_get_rtp_capabilities late_client created server) server)
    × ((created : Result ℕ) (d : Option Direction)
        → Refused (on_create_transport late_client created d server) server)
    × ((connected : Result (Unit {0})) (t : Option ℕ)
        → Refused (on_connect_transport late_client connected t server) server)
    × ((now : ℕ) (produced : Result ℕ) (t : Option ℕ) (kind : Option MediaKind)
        → Refused (on_produce now late_client produced t kind server) server)
    × ((can_consume : ℕ → ℕ → Bool) (consumed : Result ℕ) (p : Option ℕ)
        → Refused (on_consume late_client can_consume consumed p server) server)
    × ((resumed : Result (Unit {0})) (c : Option ℕ)
        → Refused (on_resume_consumer late_client resumed c server) server)
sfu_events-Refused_example = sfu_events-Refused late_client server (unfold get in refl)

on_produce-announces_example :
    (on_produce 100 guest_client (ok 31) (some 20) (some audio) server).1.emitted
    ≡ announced 100 guest_client audio 1 server (produce (ok 31) 1 80 20 audio open_sfu).0
on_produce-announces_example =
    on_produce-announces 100 guest_client (ok 31) 20 audio server 1 (unfold get in refl)

-- ===== src/Sockets/Names.antt =====
-- The events that sockets and the server name to one another (SOCKET_EVENTS of
-- src/config/constants.js).
use smartmeet_backend.Prelude.{
  ◌≡◌, refl, sym, ◌∙◌, ap, String, Option, none, some, List, [], ◌∷◌, if◌then◌else◌,
}
use package.text.Mathlib.Text.{◌==◌ as str_eq}

pub data SocketEventName : Type 0 where
  room_join room_leave room_update_participants room_participant_presence webrtc_offer webrtc_answer
        webrtc_ice_candidate webrtc_connection_quality chat_message error_disconnect_reason
        system_reconnect_required room_host_mute_participant room_host_kick_participant room_kicked
        room_force_muted room_reaction sfu_get_rtp_capabilities sfu_create_transport
        sfu_connect_transport sfu_produce sfu_consume sfu_resume_consumer sfu_new_producer
        sfu_producer_closed :
      SocketEventName

unfoldable pub wire_name : SocketEventName → String
wire_name room_join = "room:join"
wire_name room_leave = "room:leave"
wire_name room_update_participants = "room:update-participants"
wire_name room_participant_presence = "room:participant-presence"
wire_name webrtc_offer = "webrtc:offer"
wire_name webrtc_answer = "webrtc:answer"
wire_name webrtc_ice_candidate = "webrtc:ice-candidate"
wire_name webrtc_connection_quality = "webrtc:connection-quality"
wire_name chat_message = "chat:message"
wire_name error_disconnect_reason = "error:disconnect-reason"
wire_name system_reconnect_required = "system:reconnect-required"
wire_name room_host_mute_participant = "room:host-mute-participant"
wire_name room_host_kick_participant = "room:host-kick-participant"
wire_name room_kicked = "room:kicked"
wire_name room_force_muted = "room:force-muted"
wire_name room_reaction = "room:reaction"
wire_name sfu_get_rtp_capabilities = "sfu:get-rtp-capabilities"
wire_name sfu_create_transport = "sfu:create-transport"
wire_name sfu_connect_transport = "sfu:connect-transport"
wire_name sfu_produce = "sfu:produce"
wire_name sfu_consume = "sfu:consume"
wire_name sfu_resume_consumer = "sfu:resume-consumer"
wire_name sfu_new_producer = "sfu:new-producer"
wire_name sfu_producer_closed = "sfu:producer-closed"

-- the names in the order of the source
all_names : List SocketEventName
all_names =
    room_join ∷ room_leave ∷ room_update_participants ∷ room_participant_presence ∷ webrtc_offer
    ∷ webrtc_answer ∷ webrtc_ice_candidate ∷ webrtc_connection_quality ∷ chat_message
    ∷ error_disconnect_reason ∷ system_reconnect_required ∷ room_host_mute_participant
    ∷ room_host_kick_participant ∷ room_kicked ∷ room_force_muted ∷ room_reaction
    ∷ sfu_get_rtp_capabilities ∷ sfu_create_transport ∷ sfu_connect_transport ∷ sfu_produce
    ∷ sfu_consume ∷ sfu_resume_consumer ∷ sfu_new_producer ∷ sfu_producer_closed ∷ []

-- the event of a name, as Socket.io finds the handlers of a packet
lookup_name : String → List SocketEventName → Option SocketEventName
unfolding wire_name
lookup_name s [] = none
lookup_name s (n ∷ ns) = if str_eq (wire_name n) s then some n else lookup_name s ns

lookup_name-wire_name : (n : SocketEventName) → lookup_name (wire_name n) all_names ≡ some n
unfolding lookup_name wire_name all_names
lookup_name-wire_name room_join = refl
lookup_name-wire_name room_leave = refl
lookup_name-wire_name room_update_participants = refl
lookup_name-wire_name room_participant_presence = refl
lookup_name-wire_name webrtc_offer = refl
lookup_name-wire_name webrtc_answer = refl
lookup_name-wire_name webrtc_ice_candidate = refl
lookup_name-wire_name webrtc_connection_quality = refl
lookup_name-wire_name chat_message = refl
lookup_name-wire_name error_disconnect_reason = refl
lookup_name-wire_name system_reconnect_required = refl
lookup_name-wire_name room_host_mute_participant = refl
lookup_name-wire_name room_host_kick_participant = refl
lookup_name-wire_name room_kicked = refl
lookup_name-wire_name room_force_muted = refl
lookup_name-wire_name room_reaction = refl
lookup_name-wire_name sfu_get_rtp_capabilities = refl
lookup_name-wire_name sfu_create_transport = refl
lookup_name-wire_name sfu_connect_transport = refl
lookup_name-wire_name sfu_produce = refl
lookup_name-wire_name sfu_consume = refl
lookup_name-wire_name sfu_resume_consumer = refl
lookup_name-wire_name sfu_new_producer = refl
lookup_name-wire_name sfu_producer_closed = refl

some_injective : {a b : SocketEventName} → some a ≡ some b → a ≡ b
some_injective e = cc

-- No two events go by the same name: a packet of one is never handled as another.
pub wire_name_injective : (m n : SocketEventName) → wire_name m ≡ wire_name n → m ≡ n
wire_name_injective m n same = some_injective (
    sym (lookup_name-wire_name m)
    ∙ (ap (λ s. lookup_name s all_names) same ∙ lookup_name-wire_name n))

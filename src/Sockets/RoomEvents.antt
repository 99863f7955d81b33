-- ===== src/Sockets/RoomEvents.antt =====
-- The room events (src/sockets/roomEvents.js). A handler with an `ack` answers through it: its
-- result here, and what was written before a throw stays written. The others return nothing. A
-- room id or a user id that is missing or empty is `none`; the clock is the field `now` of the
-- inputs, or an argument.
use smartmeet_backend.Prelude.{
  ℕ, String, Bool, true, false, ◌&&◌, ◌||◌, Option, none, some, List, [], ◌∷◌, ◌++◌, take, any,
  ◌==◌, leb, if◌then◌else◌, Action, ◌>>=◌, ◌>>◌, pure, gets, modify, or_throw,
}
use smartmeet_backend.Prelude.Map.{nat_key, get}
use smartmeet_backend.Errors.{plain_error}
use smartmeet_backend.Constants.{DisconnectReason}
use smartmeet_backend.Models.{Database, RoomParticipant}
use smartmeet_backend.RoomService.{
  Bcrypt, Inputs, join_room, leave_room, host_set_participant_muted, host_kick_participant,
}
use smartmeet_backend.WebrtcService.{
  add_peer_to_room, remove_peer_from_room, get_socket_ids_by_user_id,
}
use smartmeet_backend.RateLimit.{
  chat, reaction, is_rate_limited, chat_rate_limit_max, reaction_rate_limit_max,
  rate_limit_window_ms,
}
use smartmeet_backend.Metrics.{SocketEvent}
use smartmeet_backend.Sockets.State.{
  Client, Server, Status, on_db, change_signaling, record_event, join_channel, leave_channel,
  set_room, clear_room, room_of, emit_room, emit_others, emit_socket, target_room,
  participant_presence, chat_message, room_reaction, force_muted, room_kicked,
  broadcast_participants,
}
use smartmeet_backend.Sockets.SfuEvents.{cleanup_sfu_peer}

unfoldable pub on_room_join : Bcrypt → Inputs → Client → Option ℕ → Action Server (Unit {0})
unfolding on_db join_channel set_room change_signaling record_event emit_others
on_room_join bcrypt i me given_room = do
  room_id ← or_throw given_room (plain_error "roomId is required")
  on_db (join_room bcrypt i room_id me.user_id none)
  modify (join_channel room_id me.socket_id)
  modify (set_room me.socket_id room_id)
  modify (change_signaling (add_peer_to_room room_id me.socket_id me.user_id))
  modify (record_event SocketEvent.messages_received)
  modify (
      emit_others i.now me.socket_id room_id (
        participant_presence room_id me.user_id (some me.username) Status.joined none
          (some me.socket_id)))
  broadcast_participants i.now room_id

unfoldable pub on_room_leave : ℕ → Client → Option ℕ → Action Server (Unit {0})
unfolding on_db change_signaling leave_channel emit_others clear_room
on_room_leave now me given_room = do
  found ← gets (target_room given_room me.socket_id)
  room_id ← or_throw found (plain_error "roomId is required")
  on_db (leave_room now room_id me.user_id)
  modify (change_signaling (remove_peer_from_room room_id me.socket_id))
  modify (cleanup_sfu_peer now me.socket_id)
  modify (leave_channel room_id me.socket_id)
  modify (
      emit_others now me.socket_id room_id (
        participant_presence room_id me.user_id (some me.username) Status.left none
          (some me.socket_id)))
  broadcast_participants now room_id
  modify (clear_room me.socket_id)

-- `socket.data.roomId !== targetRoomId`, negated
abbrev pub is_joined_to : ℕ → ℕ → Server → Bool
is_joined_to room_id socket_id s = elim (room_of socket_id s) [
  | none ↦ false
  | some r ↦ r == room_id
]

-- the code units that `trim` removes: white space and line terminators
unfoldable pub is_space : ℕ → Bool
is_space c =
    any (λ w. w == c)
      (9 ∷ 10 ∷ 11 ∷ 12 ∷ 13 ∷ 32 ∷ 160 ∷ 5760 ∷ 8232 ∷ 8233 ∷ 8239 ∷ 8287 ∷ 12288 ∷ 65279 ∷ [])
    || (leb 8192 c && leb c 8202)

abbrev pub is_empty_body : List ℕ → Bool
is_empty_body [] = true
is_empty_body (_ ∷ _) = false

unfoldable pub trim_start : List ℕ → List ℕ
trim_start [] = []
trim_start (c ∷ cs) = if is_space c then trim_start cs else c ∷ cs

unfoldable pub trim_end : List ℕ → List ℕ
trim_end [] = []
trim_end (c ∷ cs) =
    let rest = trim_end cs in if is_space c && is_empty_body rest then [] else c ∷ rest

abbrev pub body_limit : ℕ
body_limit = 2000

-- `String(message).slice(0, 2000).trim()`
unfoldable pub body_of : List ℕ → List ℕ
unfolding trim_start trim_end
body_of message = trim_end (trim_start (take body_limit message))

-- `Message.create`: the new row's id, or `none` where the insert fails, which is caught
unfoldable pub save_message : Option ℕ → ℕ → ℕ → ℕ → List ℕ → Database → Database
save_message none now room_id user_id body db = db
save_message (some id) now room_id user_id body db = record db {
  messages =
      db.messages
      ++ record { id = id; room_id = room_id; user_id = user_id; body = body; created_at = now }
        ∷ [];
}

-- what follows the rate limiter in the handler of a message, with the body
unfoldable pub relay_chat : Option ℕ → ℕ → Client → ℕ → List ℕ → Server → Server
unfolding record_event emit_room
relay_chat saved now me room_id [] s = record_event SocketEvent.messages_received s
relay_chat saved now me room_id (c ∷ cs) s =
    let s1 = record_event SocketEvent.messages_received s in
    let s2 = record s1 { db = save_message saved now room_id me.user_id (c ∷ cs) s1.db } in
    record_event SocketEvent.messages_sent
      (emit_room now room_id (chat_message saved room_id me.user_id me.username (c ∷ cs) now) s2)

-- a message to a room, where both are given
unfoldable pub chat_to : Option ℕ → ℕ → Client → ℕ → List ℕ → Server → Server
chat_to saved now me room_id message s =
    if is_joined_to room_id me.socket_id s
    then (let (limited, windows) =
          is_rate_limited now (record { socket_id = me.socket_id; kind = chat }) chat_rate_limit_max
            rate_limit_window_ms s.rate_limits in
        let s1 = record s { rate_limits = windows } in
        if limited then s1 else relay_chat saved now me room_id (body_of message) s1)
    else s

unfoldable pub chat_with : Option ℕ → ℕ → Client → Option ℕ → List ℕ → Server → Server
chat_with saved now me none message s = s
chat_with saved now me (some room_id) message s =
    if is_empty_body message then s else chat_to saved now me room_id message s

-- A message that is missing or empty is `[]`.
unfoldable pub on_chat_message : Option ℕ → ℕ → Client → Option ℕ → List ℕ → Server → Server
unfolding chat_with
on_chat_message saved now me given_room message s =
    chat_with saved now me (target_room given_room me.socket_id s) message s

-- ALLOWED_REACTIONS of src/config/constants.js, numbered in its order; other emojis have other
-- numbers
abbrev pub allowed_reactions : List ℕ
allowed_reactions = 0 ∷ 1 ∷ 2 ∷ 3 ∷ 4 ∷ 5 ∷ []

unfoldable pub reaction_to : ℕ → Client → ℕ → ℕ → Server → Server
unfolding record_event emit_room
reaction_to now me room_id emoji s =
    if is_joined_to room_id me.socket_id s && any (λ e. e == emoji) allowed_reactions
    then (let (limited, windows) =
          is_rate_limited now (record { socket_id = me.socket_id; kind = reaction })
            reaction_rate_limit_max rate_limit_window_ms s.rate_limits in
        let s1 = record s { rate_limits = windows } in
        if limited
        then s1
        else record_event SocketEvent.messages_sent (
            emit_room now room_id (room_reaction room_id me.user_id me.username emoji)
              (record_event SocketEvent.messages_received s1)))
    else s

unfoldable pub on_room_reaction : ℕ → Client → Option ℕ → Option ℕ → Server → Server
on_room_reaction now me given_room given_emoji s = elim (target_room given_room me.socket_id s) [
  | none ↦ s
  | some room_id ↦ elim given_emoji [ none ↦ s | some emoji ↦ reaction_to now me room_id emoji s ]
]

-- the emission to the target's socket, where it has one
unfoldable pub tell_muted : ℕ → Client → ℕ → Option ℕ → Server → Server
unfolding emit_socket
tell_muted now me room_id none s = s
tell_muted now me room_id (some socket_id) s =
    emit_socket now socket_id (force_muted room_id me.user_id me.username) s

abbrev missing_target : String
missing_target = "roomId and targetUserId are required"

unfoldable pub on_host_mute_participant :
    ℕ → Client → Option ℕ → Option ℕ → Action Server RoomParticipant
unfolding on_db tell_muted
on_host_mute_participant now me given_room target_user_id = do
  found ← gets (target_room given_room me.socket_id)
  room_id ← or_throw found (plain_error missing_target)
  target_id ← or_throw target_user_id (plain_error missing_target)
  target ← on_db (host_set_participant_muted room_id me.user_id target_id true)
  target_socket_id ← gets (λ s. get (get_socket_ids_by_user_id room_id s.signaling) target_id)
  modify (tell_muted now me room_id target_socket_id)
  broadcast_participants now room_id
  pure target

-- `io.sockets.sockets.get(targetSocketId)`, for a user that has a socket in the room
unfoldable pub target_socket : ℕ → ℕ → Server → Option ℕ
target_socket room_id user_id s =
    elim (get (get_socket_ids_by_user_id room_id s.signaling) user_id) [
      | none ↦ none
      | some k ↦ elim (get s.connected k) [ none ↦ none | some _ ↦ some k ]
    ]

-- what a kick does to the target's socket
unfoldable pub evict : ℕ → Client → ℕ → Option ℕ → Server → Server
unfolding emit_socket change_signaling leave_channel clear_room
evict now me room_id none s = s
evict now me room_id (some k) s = clear_room k (
    leave_channel room_id k (
      change_signaling (remove_peer_from_room room_id k)
        (emit_socket now k (room_kicked room_id DisconnectReason.kicked me.user_id me.username) s)))

unfoldable pub on_host_kick_participant :
    ℕ → Client → Option ℕ → Option ℕ → Action Server (Unit {0})
unfolding on_db target_socket evict emit_others
on_host_kick_participant now me given_room target_user_id = do
  found ← gets (target_room given_room me.socket_id)
  room_id ← or_throw found (plain_error missing_target)
  target_id ← or_throw target_user_id (plain_error missing_target)
  on_db (host_kick_participant now room_id me.user_id target_id)
  target ← gets (target_socket room_id target_id)
  modify (evict now me room_id target)
  modify (
      emit_others now me.socket_id room_id
        (participant_presence room_id target_id none Status.kicked none none))
  broadcast_participants now room_id

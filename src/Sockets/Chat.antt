-- ===== src/Sockets/Chat.antt =====
-- Which chat messages are stored and passed on (the handler of chat:message in
-- src/sockets/roomEvents.js).
use smartmeet_backend.Prelude.{
  ℕ, ◌≡◌, refl, Bool, true, false, Option, some, List, [], ◌∷◌, arith, Bool-cases, Option-cases,
  inl, inr,
}
use smartmeet_backend.Prelude.Map.{nat_key}
use smartmeet_backend.RateLimit.{
  RateLimitState, chat, is_rate_limited, chat_rate_limit_max, rate_limit_window_ms,
}
use smartmeet_backend.Sockets.State.{
  Client, Server, chat_message, record_event, emit_room, target_room, room_of, members,
}
use smartmeet_backend.Sockets.RoomEvents.{
  is_joined_to, is_empty_body, trim_start, trim_end, body_of, save_message, relay_chat, chat_to,
  chat_with, on_chat_message,
}

-- whether the limiter refuses a message of the socket at `now`
abbrev pub is_flooding : ℕ → Client → Server → Bool
is_flooding now me s =
    (is_rate_limited now (record { socket_id = me.socket_id; kind = chat }) chat_rate_limit_max
      rate_limit_window_ms s.rate_limits).0

abbrev windows_after : ℕ → Client → Server → RateLimitState
windows_after now me s =
    (is_rate_limited now (record { socket_id = me.socket_id; kind = chat }) chat_rate_limit_max
      rate_limit_window_ms s.rate_limits).1

-- The message is for the room that the socket has joined, within the socket's budget, and its first
-- 2000 code units are more than white space.
pub record IsAccepted (now : ℕ) (me : Client) (given_room : Option ℕ) (message : List ℕ)
    (s : Server) (room_id : ℕ) : Type 0 where
  pub target : target_room given_room me.socket_id s ≡ some room_id
  pub joined : room_of me.socket_id s ≡ some room_id
  pub calm : is_flooding now me s ≡ false
  pub speaks : is_empty_body (body_of message) ≡ false

is_joined_to-room_of :
    (room_id socket_id : ℕ) (s : Server)
    → is_joined_to room_id socket_id s ≡ true
    → room_of socket_id s ≡ some room_id
is_joined_to-room_of room_id socket_id s h = elim (Option-cases (room_of socket_id s)) [
  | inl missing ↦ ground (arith, missing, h)
  | inr (r, there) ↦ ground (arith, there, h)
]

room_of-is_joined_to :
    (room_id socket_id : ℕ) (s : Server)
    → room_of socket_id s ≡ some room_id
    → is_joined_to room_id socket_id s ≡ true
room_of-is_joined_to room_id socket_id s h = ground (arith, h)

module _ (saved : Option ℕ) (now : ℕ) (me : Client) where
  relay_chat-relays :
      (room_id : ℕ) (body : List ℕ) (s : Server)
      → is_empty_body body ≡ false
      → ((relay_chat saved now me room_id body s).emitted
          ≡ record {
            recipients = members room_id s.memberships;
            event = chat_message saved room_id me.user_id me.username body now;
            timestamp = now;
          }
            ∷ s.emitted)
        × ((relay_chat saved now me room_id body s).db
            ≡ save_message saved now room_id me.user_id body s.db)
  unfolding relay_chat record_event emit_room
  relay_chat-relays room_id [] s speaks = ground (arith, speaks)
  relay_chat-relays room_id (c ∷ cs) s speaks = (refl, refl)

  relay_chat-refuses :
      (room_id : ℕ) (body : List ℕ) (s : Server)
      → is_empty_body body ≡ true
      → ((relay_chat saved now me room_id body s).emitted ≡ s.emitted)
        × ((relay_chat saved now me room_id body s).db ≡ s.db)
  unfolding relay_chat record_event emit_room
  relay_chat-refuses room_id [] s silent = (refl, refl)
  relay_chat-refuses room_id (c ∷ cs) s silent = ground (arith, silent)

  -- A text with a body is no empty text.
  speaks-text :
      (message : List ℕ) → is_empty_body (body_of message) ≡ false → is_empty_body message ≡ false
  unfolding body_of trim_start trim_end
  speaks-text [] h = h
  speaks-text (c ∷ cs) h = refl

  -- A chat message that is for the room that the socket has joined, within the socket's budget, and
  -- whose first 2000 code units are more than white space, is emitted once to the sockets in that
  -- room, its body being these code units less the white space at either end, and is stored with
  -- that body, unless the insert fails.
  pub on_chat_message-relays :
      (given_room : Option ℕ) (message : List ℕ) (s : Server) (room_id : ℕ)
      → IsAccepted now me given_room message s room_id
      → ((on_chat_message saved now me given_room message s).emitted
          ≡ record {
            recipients = members room_id s.memberships;
            event = chat_message saved room_id me.user_id me.username (body_of message) now;
            timestamp = now;
          }
            ∷ s.emitted)
        × ((on_chat_message saved now me given_room message s).db
            ≡ save_message saved now room_id me.user_id (body_of message) s.db)
  unfolding on_chat_message chat_with chat_to
  on_chat_message-relays given_room message s room_id a =
      rw
        (
          a.target,
          speaks-text message a.speaks,
          room_of-is_joined_to room_id me.socket_id s a.joined,
          a.calm,
        )
        (relay_chat-relays room_id (body_of message)
          (record s { rate_limits = windows_after now me s }) a.speaks)

  chat_to-refuses :
      (given_room : Option ℕ) (message : List ℕ) (s : Server) (room_id : ℕ)
      → target_room given_room me.socket_id s ≡ some room_id
      → ¬ IsAccepted now me given_room message s room_id
      → ((chat_to saved now me room_id message s).emitted ≡ s.emitted)
        × ((chat_to saved now me room_id message s).db ≡ s.db)
  unfolding chat_to
  chat_to-refuses given_room message s room_id target refused =
      elim (Bool-cases (is_joined_to room_id me.socket_id s)) [
        | inr apart ↦ rw apart (refl, refl)
        | inl joined ↦ rw joined (elim (Bool-cases (is_flooding now me s)) [
          | inl flood ↦ rw flood (refl, refl)
          | inr calm ↦ rw calm (elim (Bool-cases (is_empty_body (body_of message))) [
            | inl silent ↦
                relay_chat-refuses room_id (body_of message)
                  (record s { rate_limits = windows_after now me s }) silent
            | inr speaks ↦ absurd (
                refused (record {
                  target = target;
                  joined = is_joined_to-room_of room_id me.socket_id s joined;
                  calm = calm;
                  speaks = speaks;
                }))
          ])
        ])
      ]

  -- A chat message that is not for the room that the socket has joined, or is over the socket's
  -- budget, or whose first 2000 code units are no more than white space, is neither emitted nor
  -- stored, whatever room the client names.
  pub on_chat_message-refuses :
      (given_room : Option ℕ) (message : List ℕ) (s : Server)
      → ((room_id : ℕ) → ¬ IsAccepted now me given_room message s room_id)
      → ((on_chat_message saved now me given_room message s).emitted ≡ s.emitted)
        × ((on_chat_message saved now me given_room message s).db ≡ s.db)
  unfolding on_chat_message chat_with
  on_chat_message-refuses given_room message s refused =
      elim (Option-cases (target_room given_room me.socket_id s)) [
        | inl missing ↦ rw missing (refl, refl)
        | inr (room_id, target) ↦ rw target (elim (Bool-cases (is_empty_body message)) [
          | inl empty ↦ rw empty (refl, refl)
          | inr text ↦
              rw text (chat_to-refuses given_room message s room_id target (refused room_id))
        ])
      ]

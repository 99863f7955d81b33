-- ===== src/Controllers/Rooms/Ghosts.antt =====
-- What a leave over HTTP does to the sockets of the user who leaves: nothing.
use smartmeet_backend.Prelude.{
  ℕ, ◌≡◌, refl, ◌∙◌, Option, none, some, List, ◌∷◌, inl, inr, Bool-cases, proceed-keeps,
}
use smartmeet_backend.RoomService.{get_active_participant, get_participants}
use smartmeet_backend.RoomService
use smartmeet_backend.RoomService.Invariant.{IsConsistent}
use smartmeet_backend.RoomService.Departure.{leave_room_twice}
use smartmeet_backend.RateLimit.{is_rate_limited}
use smartmeet_backend.Authentication.{AuthUser}
use smartmeet_backend.Sockets.State.{
  Client, Server, chat_message, members, on_db, broadcast_participants, emit_room, target_room,
}
use smartmeet_backend.Sockets.RoomEvents.{on_chat_message, body_of}
use smartmeet_backend.Sockets.Chat.{IsAccepted, on_chat_message-relays}
use smartmeet_backend.System.Effects.{broadcast_participants-db}
use smartmeet_backend.Controllers.{App, on_database}
use smartmeet_backend.Controllers.Rooms.{leave, broadcast_roster_change}

-- The parts of the state that say where the sockets are.
abbrev SamePlaces : Server → Server → Type 0
SamePlaces s t =
    (t.data_room_id ≡ s.data_room_id)
    × (t.memberships ≡ s.memberships)
    × (t.rate_limits ≡ s.rate_limits)

broadcast_participants-SamePlaces :
    (now r : ℕ) (s t : Server) → SamePlaces s t → SamePlaces s (broadcast_participants now r t).1
unfolding broadcast_participants on_db emit_room
broadcast_participants-SamePlaces now r s t h =
    proceed-keeps (SamePlaces s) (on_db (get_participants r) t) _ h (λ ps e. h)

broadcast_roster_change-SamePlaces :
    (now r : ℕ) (s : Server) (t : App)
    → SamePlaces s t.server
    → SamePlaces s (broadcast_roster_change now r t).server
unfolding broadcast_roster_change
broadcast_roster_change-SamePlaces now r s t h = elim (Bool-cases t.has_io) [
  | inl ready ↦ rw ready (broadcast_participants-SamePlaces now r s t.server h)
  | inr booting ↦ rw booting h
]

leave-SamePlaces :
    (now : ℕ) (me : AuthUser) (r : ℕ) (s : App) → SamePlaces s.server (leave now me r s).1.server
unfolding leave on_database
leave-SamePlaces now me r s =
    proceed-keeps (λ (t : App). SamePlaces s.server t.server)
      (on_database (RoomService.leave_room now r me.id) s) _ (refl, refl, refl)
      (λ p e. broadcast_roster_change-SamePlaces now r s.server _ (refl, refl, refl))

pub broadcast_roster_change-db :
    (now r : ℕ) (s : App) → (broadcast_roster_change now r s).server.db ≡ s.server.db
unfolding broadcast_roster_change
broadcast_roster_change-db now r s = elim (Bool-cases s.has_io) [
  | inl ready ↦ rw ready (broadcast_participants-db now r s.server)
  | inr booting ↦ rw booting refl
]

leave-db :
    (now : ℕ) (me : AuthUser) (r : ℕ) (s : App)
    → (leave now me r s).1.server.db ≡ (RoomService.leave_room now r me.id s.server.db).1
unfolding leave on_database
leave-db now me r s =
    proceed-keeps (λ (t : App). t.server.db ≡ (RoomService.leave_room now r me.id s.server.db).1)
      (on_database (RoomService.leave_room now r me.id) s) _ refl
      (λ p e. broadcast_roster_change-db now r _)

target_room-same :
    (given : Option ℕ) (socket_id : ℕ) (s t : Server)
    → t.data_room_id ≡ s.data_room_id
    → target_room given socket_id t ≡ target_room given socket_id s
target_room-same none socket_id s t same = rw same refl
target_room-same (some r) socket_id s t same = refl

module _ (now later : ℕ) (me : AuthUser) (r : ℕ) (s : App) where
  abbrev pub departed : Server
  departed = (leave now me r s).1.server

  -- After a user has left a room over HTTP, in consistent tables, the user has no active
  -- participation in it. But a chat message that a socket, be it the user's own, could send into
  -- that room before the leave is relayed after it too, to all the sockets that were in the room.
  pub leave-chat :
      (saved given : Option ℕ) (client : Client) (message : List ℕ)
      → IsConsistent s.server.db
      → IsAccepted later client given message s.server r
      → (get_active_participant r me.id departed.db ≡ none)
        × ((on_chat_message saved later client given message departed).emitted
            ≡ record {
              recipients = members r s.server.memberships;
              event = chat_message saved r client.user_id client.username (body_of message) later;
              timestamp = later;
            }
              ∷ departed.emitted)
  unfolding is_rate_limited
  leave-chat saved given client message c a =
      let (rooms, places, windows) = leave-SamePlaces now me r s in
      let still : IsAccepted later client given message departed r = record {
        target = target_room-same given client.socket_id s.server departed rooms ∙ a.target;
        joined = rw rooms a.joined;
        calm = rw windows a.calm;
        speaks = a.speaks;
      } in
      (
        rw (leave-db now me r s) (leave_room_twice now later r me.id s.server.db c).0,
        rw places at (on_chat_message-relays saved later client given message departed r still).0,
      )

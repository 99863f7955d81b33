-- ===== src/System/Audience.antt =====
-- What is emitted to a room reaches only those who have been admitted to it.
use smartmeet_backend.Prelude.{
  ok, ==_iff, ℕ, ◌≡◌, true, none, some, List, [], ◌∷◌, All, any, arith, not, select, ◌==◌,
  Bool-cases, inl, inr,
}
use smartmeet_backend.Prelude.Map.{nat_key, get, get-set, get-delete}
use smartmeet_backend.RoomService.{Bcrypt, has_ever_participated}
use smartmeet_backend.RoomService.Memory.{
  create_room-Has, join_room-Has, leave_room-Has, host_kick_participant-Has,
  host_set_participant_muted-Has, update_participant_presence-Has,
}
use smartmeet_backend.Sockets.State.{Client, Server, Membership, members, record_event}
use smartmeet_backend.Sockets.PresenceEvents.{drop_socket}
use smartmeet_backend.Controllers.{App}
use smartmeet_backend.Http.Requests.{Deployment}
use smartmeet_backend.System.{
  SocketMessage, room_join, room_leave, chat_message, room_reaction, host_mute_participant,
  host_kick_participant, participant_presence, webrtc_offer, webrtc_answer, webrtc_ice_candidate,
  connection_quality, sfu_get_rtp_capabilities, sfu_create_transport, sfu_connect_transport,
  sfu_produce, sfu_consume, sfu_resume_consumer, SystemEvent, request, connection, message,
  disconnect, on_connection, on_message, occur,
}
use smartmeet_backend.System.Accounts.{register_user-rooms}
use smartmeet_backend.System.Answers.{handle-Quiet}
use smartmeet_backend.System.Channels.{
  HasSeat, IsSeated, Remembers, Narrows-IsSeated, on_room_join-IsSeated, lose_socket-Quiet, All-map,
}
use smartmeet_backend.System.Health.{Admissible, occur-kept}
use smartmeet_backend.System.Seats.{
  Narrows, Quiet, Quiet-Narrows, on_room_leave-Narrows, on_host_mute_participant-Narrows,
  on_host_kick_participant-Narrows, on_chat_message-Quiet, on_room_reaction-Quiet, on_produce-Quiet,
  on_sfu-Quiet, on_webrtc-Quiet, on_connection_quality-Quiet, on_participant_presence-Quiet,
}
use smartmeet_backend.System.Upkeep.{IsKept}

Has-IsKept : (bcrypt : Bcrypt) (r u : ℕ) → IsKept bcrypt (λ db. has_ever_participated r u db ≡ true)
unfolding has_ever_participated
Has-IsKept bcrypt r u = record {
  create = λ i input db fresh space h. create_room-Has r u bcrypt i db h input;
  join = λ i room v password db h. join_room-Has r u bcrypt i db h room v password;
  leave = λ now room v db h. leave_room-Has r u room v db h now;
  kick = λ now room v target db h. host_kick_participant-Has r u room v db h now target;
  mute = λ room v target b db h. host_set_participant_muted-Has r u room v db h target b;
  presence = λ room v m k db h. update_participant_presence-Has r u room v db h m k;
  register = λ jwt config now a input db h.
      rw ((register_user-rooms jwt config bcrypt now a input db).1) h;
  rows = λ db later users rooms participants h. rw participants h;
}

-- Socket.io: a new socket has an id that no socket has, and what comes from a socket comes from the
-- user that its handshake named.
abbrev pub IsGenuine : SystemEvent → App → Type 0
IsGenuine (request r) s = Unit
IsGenuine (connection me) s = get s.server.connected me.socket_id ≡ none
IsGenuine (message now me m) s = get s.server.connected me.socket_id ≡ some me
IsGenuine (disconnect now me reason) s = get s.server.connected me.socket_id ≡ some me

-- A new socket, which no room has.
on_connection-IsSeated :
    (me : Client) (s : Server)
    → get s.connected me.socket_id ≡ none
    → IsSeated s
    → IsSeated (on_connection me s)
unfolding on_connection record_event
on_connection-IsSeated me s fresh h =
    All-map (HasSeat s) (HasSeat (on_connection me s)) s.memberships
      (λ m seat. record {
        client = seat.client;
        here = ground (
          arith,
          get-set s.connected me.socket_id m.socket_id me,
          fresh,
          seat.here,
          ==_iff me.socket_id m.socket_id,
        );
        admitted = seat.admitted;
      })
      h

-- A socket that is lost leaves its rooms, and the others stay.
drop_socket-IsSeated : (id : ℕ) (s : Server) → IsSeated s → IsSeated (drop_socket id s)
drop_socket-IsSeated id s h = go s.memberships h
  where
    t : Server
    t = drop_socket id s

    go :
        (ms : List Membership)
        → All (HasSeat s) ms
        → All (HasSeat (drop_socket id s)) (select (λ m. not (m.socket_id == id)) ms)
    go [] h = tt
    go (m ∷ ms) h = elim (Bool-cases (m.socket_id == id)) [
      | inl lost ↦ rw lost (go ms h.1)
      | inr kept ↦ rw kept (
        record {
          client = h.0.client;
          here =
              ground (
                arith,
                get-delete s.connected id m.socket_id,
                h.0.here,
                kept,
                ==_iff id m.socket_id,
              );
          admitted = h.0.admitted;
        },
        go ms h.1,
      )
    ]

module _ (s : Server) (h : IsSeated s) where
  narrowed : (t : Server) → Remembers s.db t.db → Narrows s t → IsSeated t
  narrowed t later n = Narrows-IsSeated s t n later h

  quiet : (t : Server) → Remembers s.db t.db → Quiet s t → IsSeated t
  quiet t later q = narrowed t later (Quiet-Narrows s t q)

module _ (d : Deployment) (now : ℕ) (me : Client) (s : Server) (h : IsSeated s) where
  on_message-IsSeated :
      (m : SocketMessage)
      → get s.connected me.socket_id ≡ some me
      → Remembers s.db (on_message d now me m s).db
      → IsSeated (on_message d now me m s)
  unfolding on_message
  on_message-IsSeated (room_join i id) here later =
      on_room_join-IsSeated d.bcrypt i me id s here later h
  on_message-IsSeated (room_leave id) here later =
      narrowed s h _ later (on_room_leave-Narrows now me s id)
  on_message-IsSeated (chat_message saved id text) here later =
      quiet s h _ later (on_chat_message-Quiet now me s saved id text)
  on_message-IsSeated (room_reaction id emoji) here later =
      quiet s h _ later (on_room_reaction-Quiet now me s id emoji)
  on_message-IsSeated (host_mute_participant id target) here later =
      narrowed s h _ later (on_host_mute_participant-Narrows now me s id target)
  on_message-IsSeated (host_kick_participant id target) here later =
      narrowed s h _ later (on_host_kick_participant-Narrows now me s id target)
  on_message-IsSeated (participant_presence id muted camera speaking hand) here later =
      quiet s h _ later (on_participant_presence-Quiet now me s id muted camera speaking hand)
  on_message-IsSeated (webrtc_offer id to sdp) here later =
      quiet s h _ later (on_webrtc-Quiet now me s id to sdp).0
  on_message-IsSeated (webrtc_answer id to sdp) here later =
      quiet s h _ later (on_webrtc-Quiet now me s id to sdp).1
  on_message-IsSeated (webrtc_ice_candidate id to candidate) here later =
      quiet s h _ later (on_webrtc-Quiet now me s id to candidate).2
  on_message-IsSeated (connection_quality saved id report) here later =
      quiet s h _ later (on_connection_quality-Quiet now me s saved id report)
  on_message-IsSeated (sfu_get_rtp_capabilities router) here later =
      quiet s h _ later (on_sfu-Quiet now me s router none (ok tt) none (λ a b. true)).0
  on_message-IsSeated (sfu_create_transport transport direction) here later =
      quiet s h _ later (on_sfu-Quiet now me s transport direction (ok tt) none (λ a b. true)).1
  on_message-IsSeated (sfu_connect_transport connected id) here later =
      quiet s h _ later (on_sfu-Quiet now me s (ok 0) none connected id (λ a b. true)).2
  on_message-IsSeated (sfu_produce produced id kind) here later =
      quiet s h _ later (on_produce-Quiet now me s produced id kind)
  on_message-IsSeated (sfu_consume can_consume consumed id) here later =
      quiet s h _ later (on_sfu-Quiet now me s consumed none (ok tt) id can_consume).3
  on_message-IsSeated (sfu_resume_consumer resumed id) here later =
      quiet s h _ later (on_sfu-Quiet now me s (ok 0) none resumed id (λ a b. true)).4

module _ (d : Deployment) where
  occur-IsSeated :
      (e : SystemEvent) (s : App)
      → Admissible e s
      → IsGenuine e s
      → IsSeated s.server
      → IsSeated (occur d e s).server
  unfolding occur
  occur-IsSeated e s possible genuine h =
      step e genuine (λ r u. occur-kept d (Has-IsKept d.bcrypt r u) e s possible)
    where
      step :
          (e : SystemEvent)
          → IsGenuine e s
          → Remembers s.server.db (occur d e s).server.db
          → IsSeated (occur d e s).server
      step (request r) g later = quiet s.server h _ later (handle-Quiet d r s)
      step (connection me) g later = on_connection-IsSeated me s.server g h
      step (message now me m) g later = on_message-IsSeated d now me s.server h m g later
      step (disconnect now me reason) g later =
          quiet (drop_socket me.socket_id s.server) (drop_socket-IsSeated me.socket_id s.server h) _
            later (lose_socket-Quiet now me reason s.server)

-- The states that a run comes to in which sockets are what they say.
pub data History (d : Deployment) (s : App) : App → Type 0 where
  begun : History d s s
  next :
      {t : App}
      → History d s t
      → (e : SystemEvent) → Admissible e t
      → IsGenuine e t
      → History d s (occur d e t)

History-IsSeated :
    {d : Deployment} {s t : App} → History d s t → IsSeated s.server → IsSeated t.server
History-IsSeated begun h = h
History-IsSeated {d} (next {t} r e possible genuine) h =
    occur-IsSeated d e t possible genuine (History-IsSeated r h)

seat_of :
    (s : Server) (r k : ℕ) (ms : List Membership)
    → All (HasSeat s) ms
    → any (λ j. j == k) (members r ms) ≡ true
    → (c : Client) × (get s.connected k ≡ some c) × (has_ever_participated r c.user_id s.db ≡ true)
seat_of s r k [] h e = absurd (cc e)
seat_of s r k (m ∷ ms) h e = elim (Bool-cases (m.room_id == r)) [
  | inr other ↦ seat_of s r k ms h.1 (rw other at e)
  | inl this ↦ elim (Bool-cases (m.socket_id == k)) [
    | inr away ↦ seat_of s r k ms h.1 (rw (this, away) at e)
    | inl found ↦
        let same_room : m.room_id ≡ r = ground arith in
        let same_socket : m.socket_id ≡ k = ground arith in
        (h.0.client, rw (← same_socket) h.0.here, rw (← same_room) h.0.admitted)
  ]
]

-- From a state whose seats are all taken by right, such as one without sockets, and whatever comes:
-- every socket that a room's emissions reach is connected, and its user has or has had a
-- participation in that room. It is asked that a new room's id is new and that it has a place, that
-- a new socket's id is new, and that a message comes from the user of its socket.
pub room_audience :
    {d : Deployment} {s t : App} (r k : ℕ)
    → IsSeated s.server
    → History d s t
    → any (λ j. j == k) (members r t.server.memberships) ≡ true
    → (c : Client) × (get t.server.connected k ≡ some c)
      × (has_ever_participated r c.user_id t.server.db ≡ true)
room_audience {t = t} r k h history reached =
    seat_of t.server r k t.server.memberships (History-IsSeated history h) reached

-- ===== src/System/Channels.antt =====
-- Who is in a room's channel, and so gets what is emitted to the room.
use smartmeet_backend.Prelude.{
  ℕ, ◌≡◌, refl, subst, ◌∙◌, Bool, true, Option, none, some, List, [], ◌∷◌, ◌++◌, arith, any, All,
  proceed-keeps, proceed, modify, Option-cases, Bool-cases, inl, inr, is_some, find_first,
}
use smartmeet_backend.Prelude.Map.{nat_key, get}
use smartmeet_backend.Constants.{DisconnectReason}
use smartmeet_backend.Models.{Database, RoomParticipant, is_of, is_active_of}
use smartmeet_backend.RoomService.{
  Bcrypt, Inputs, join_room, has_ever_participated, get_active_participant,
}
use smartmeet_backend.RoomService.Join.{join_room_enters}
use smartmeet_backend.RoomService.Locks.{All-append}
use smartmeet_backend.WebrtcService.{remove_peer_from_room}
use smartmeet_backend.Sockets.State.{
  Client, Server, Membership, on_db, broadcast_participants, emit_room, emit_others, emit_socket,
  change_signaling, record_event, room_of, join_channel, set_room, is_member,
}
use smartmeet_backend.Sockets.RoomEvents.{on_room_join}
use smartmeet_backend.Sockets.PresenceEvents.{
  SocketReason, map_disconnect_reason, leave_on_disconnect, ask_reconnect, lose_socket,
  on_disconnect, leave_joined, note_disconnect, drop_socket,
}
use smartmeet_backend.System.Effects.{on_room_join-db, broadcast_participants-db}
use smartmeet_backend.System.Seats.{Narrows, Quiet, Quiet-Narrows, broadcast-Quiet, cleanup-Quiet}

Quiet-trans : (s t u : Server) → Quiet s t → Quiet t u → Quiet s u
Quiet-trans s t u q q' = (q'.0 ∙ q.0, q'.1 ∙ q.1)

-- Socket.io has dropped the socket when the handler of its disconnect runs, which takes no more.
module _ (now : ℕ) (me : Client) where
  ask_reconnect-Quiet :
      (r u : ℕ) (reason : DisconnectReason) (s : Server) → Quiet s (ask_reconnect now r u reason s)
  unfolding ask_reconnect emit_room
  ask_reconnect-Quiet r u reason s = ground arith

  then_told :
      (r : ℕ) (reason : DisconnectReason) (s t : Server)
      → Quiet s t
      → Quiet s
          (proceed
            (broadcast_participants now r t)
            (λ _. modify (ask_reconnect now r me.user_id reason))).1
  then_told r reason s t q =
      let t' = (broadcast_participants now r t).1 in
      let told = Quiet-trans s t t' q (broadcast-Quiet now r t) in
      proceed-keeps (Quiet s) (broadcast_participants now r t) _ told (λ a e.
        Quiet-trans s t' (ask_reconnect now r me.user_id reason t') told
          (ask_reconnect-Quiet r me.user_id reason t'))

  leave_on_disconnect-Quiet :
      (r : ℕ) (reason : DisconnectReason) (s : Server)
      → Quiet s (leave_on_disconnect now me r reason s).1
  unfolding leave_on_disconnect on_db change_signaling emit_room
  leave_on_disconnect-Quiet r reason s =
      then_told r reason s _
        (cleanup-Quiet now me.socket_id (change_signaling (remove_peer_from_room r me.socket_id) s))

  pub lose_socket-Quiet :
      (reason : SocketReason) (s : Server)
      → Quiet (drop_socket me.socket_id s) (lose_socket now me reason s)
  unfolding lose_socket on_disconnect leave_joined note_disconnect record_event emit_socket
  lose_socket-Quiet reason s = elim (Option-cases (room_of me.socket_id s)) [
    | inl nowhere ↦ rw nowhere (refl, refl)
    | inr (r, found) ↦ rw found (leave_on_disconnect-Quiet r (map_disconnect_reason reason) _)
  ]

-- A socket in a room's channel is connected, and its user has had a participation in the room.
pub record HasSeat (s : Server) (m : Membership) : Type 0 where
  pub client : Client
  pub here : get s.connected m.socket_id ≡ some client
  pub admitted : has_ever_participated m.room_id client.user_id s.db ≡ true

abbrev pub IsSeated : Server → Type 0
IsSeated s = All (HasSeat s) s.memberships

-- What has been once stays: no operation deletes a participation.
abbrev pub Remembers : Database → Database → Type 0
Remembers db later =
    (r u : ℕ) → has_ever_participated r u db ≡ true → has_ever_participated r u later ≡ true

pub HasSeat-later :
    (s t : Server) (m : Membership)
    → t.connected ≡ s.connected
    → Remembers s.db t.db
    → HasSeat s m
    → HasSeat t m
HasSeat-later s t m same later h = record {
  client = h.client;
  here = rw same h.here;
  admitted = later m.room_id h.client.user_id h.admitted;
}

pub All-map {ℓ κ μ} :
    {A : Type ℓ} (P : A → Type κ) (Q : A → Type μ) (xs : List A)
    → ((a : A) → P a → Q a)
    → All P xs
    → All Q xs
All-map P Q [] f h = tt
All-map P Q (x ∷ xs) f h = (f x h.0, All-map P Q xs f h.1)

pub Narrows-IsSeated : (s t : Server) → Narrows s t → Remembers s.db t.db → IsSeated s → IsSeated t
Narrows-IsSeated s t n later h =
    n.seats (HasSeat t)
      (All-map (HasSeat s) (HasSeat t) s.memberships (λ m. HasSeat-later s t m n.connected later) h)

-- A join that succeeds: the user has a participation, and the socket a seat.
join_channel-IsSeated :
    (r : ℕ) (me : Client) (s : Server)
    → get s.connected me.socket_id ≡ some me
    → has_ever_participated r me.user_id s.db ≡ true
    → IsSeated s
    → IsSeated (join_channel r me.socket_id s)
unfolding join_channel
join_channel-IsSeated r me s here admitted h =
    elim (Bool-cases (any (is_member r me.socket_id) s.memberships)) [
      | inl old ↦ rw old h
      | inr new ↦
          let m : Membership = record { room_id = r; socket_id = me.socket_id } in
          let t : Server = record s { memberships = s.memberships ++ m ∷ [] } in
          rw new (
            All-append (HasSeat t) s.memberships (m ∷ [])
              (All-map (HasSeat s) (HasSeat t) s.memberships
                (λ n. HasSeat-later s t n refl (λ r u k. k)) h)
              (record { client = me; here = here; admitted = admitted }, tt))
    ]

found_more {ℓ} :
    {A : Type ℓ} (p q : A → Bool) (xs : List A) (a : A)
    → ((x : A) → p x ≡ true → q x ≡ true)
    → find_first p xs ≡ some a
    → is_some (find_first q xs) ≡ true
found_more p q [] a more e = absurd (cc e)
found_more p q (x ∷ xs) a more e = elim (Bool-cases (p x)) [
  | inl this ↦ rw (more x this) refl
  | inr other ↦ elim (Bool-cases (q x)) [
    | inl too ↦ rw too refl
    | inr neither ↦ rw neither (found_more p q xs a more (rw other at e))
  ]
]

entered_once :
    (r u : ℕ) (db : Database) (p : RoomParticipant)
    → get_active_participant r u db ≡ some p
    → has_ever_participated r u db ≡ true
unfolding get_active_participant has_ever_participated
entered_once r u db p e =
    found_more (is_active_of r u) (is_of r u) db.participants p (λ x h. ground arith) e

-- The rest of a join, after the service's call.
pub on_room_join-IsSeated :
    (bcrypt : Bcrypt) (i : Inputs) (me : Client) (given : Option ℕ) (s : Server)
    → get s.connected me.socket_id ≡ some me
    → Remembers s.db (on_room_join bcrypt i me given s).1.db
    → IsSeated s
    → IsSeated (on_room_join bcrypt i me given s).1
unfolding on_room_join on_db set_room change_signaling record_event emit_others
on_room_join-IsSeated bcrypt i me none s here later h = h
on_room_join-IsSeated bcrypt i me (some r) s here later h =
    let db = (join_room bcrypt i r me.user_id none s.db).1 in
    let s1 : Server = record s { db = db } in
    let seated : IsSeated s1 =
      All-map (HasSeat s) (HasSeat s1) s.memberships
        (λ m.
          HasSeat-later s s1 m refl
            (subst (Remembers s.db) (on_room_join-db bcrypt i me r s) later))
        h in
    proceed-keeps IsSeated (on_db (join_room bcrypt i r me.user_id none) s) _ seated (λ p e.
      let entered =
        entered_once r me.user_id db p (join_room_enters bcrypt i r me.user_id none s.db p e) in
      Narrows-IsSeated (join_channel r me.socket_id s1) _
        (Quiet-Narrows (join_channel r me.socket_id s1) _ (broadcast-Quiet i.now r _))
        (λ q u k. rw (broadcast_participants-db i.now r _) k)
        (join_channel-IsSeated r me s1 here entered seated))

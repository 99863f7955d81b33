-- ===== src/System/Upkeep.antt =====
-- What each operation on the database keeps, every event keeps.
use smartmeet_backend.Prelude.{
  ℕ, String, ◌≤◌, ◌≡◌, sym, subst, Bool, true, Option, none, some, inl, inr, Option-cases,
  Bool-cases, proceed-keeps, is_some, ◌||◌,
}
use smartmeet_backend.Models.{Database, find_room}
use smartmeet_backend.RoomService.{
  Bcrypt, Inputs, CreateRoomInput, create_room, join_room, leave_room, host_kick_participant,
  host_set_participant_muted, update_participant_presence,
}
use smartmeet_backend.System.Effects.{
  on_room_leave-db, on_room_join-db, on_host_mute_participant-db, on_host_kick_participant-db,
  leave_on_disconnect-db,
}
use smartmeet_backend.UserService.{Jwt, JwtConfig, NewAccount, RegisterInput, register_user}
use smartmeet_backend.Metrics.{SocketEvent}
use smartmeet_backend.System.Bystanders.{SameTables}
use smartmeet_backend.Sockets.State.{
  Client, Server, on_db, record_event, target_room, room_of, emit_others, emit_socket, emit_others,
  target_room, record_event,
}
use smartmeet_backend.Sockets.RoomEvents.{
  on_room_join, on_room_leave, on_host_mute_participant, on_host_kick_participant,
}
use smartmeet_backend.Sockets.PresenceEvents.{
  SocketReason, map_disconnect_reason, on_disconnect, leave_joined, note_disconnect,
  update_presence, update_presence_in, presence_for, on_participant_presence, lose_socket,
}

-- The operations that write, each on its own, keep `P`. A new room's id is new, and it has a place.
pub record IsKept (bcrypt : Bcrypt) (P : Database → Type 0) : Type 0 where
  pub create :
      (i : Inputs) (input : CreateRoomInput) (db : Database)
      → find_room i.room_id db ≡ none
      → 1 ≤ input.max_participants
      → P db
      → P (create_room bcrypt i input db).1
  pub join :
      (i : Inputs) (room_id user_id : ℕ) (password : Option String) (db : Database)
      → P db
      → P (join_room bcrypt i room_id user_id password db).1
  pub leave :
      (now room_id user_id : ℕ) (db : Database) → P db → P (leave_room now room_id user_id db).1
  pub kick :
      (now room_id acting target : ℕ) (db : Database)
      → P db
      → P (host_kick_participant now room_id acting target db).1
  pub mute :
      (room_id acting target : ℕ) (b : Bool) (db : Database)
      → P db
      → P (host_set_participant_muted room_id acting target b db).1
  pub presence :
      (room_id user_id : ℕ) (m k : Option Bool) (db : Database)
      → P db
      → P (update_participant_presence room_id user_id m k db).1
  pub register :
      (jwt : Jwt) (config : JwtConfig) (now : ℕ) (a : NewAccount) (input : RegisterInput)
      (db : Database)
      → P db
      → P (register_user jwt config bcrypt now a input db).1
  -- rows of the tables that the others do not read
  pub rows :
      (db later : Database)
      → later.users ≡ db.users
      → later.rooms ≡ db.rooms
      → later.participants ≡ db.participants
      → P db
      → P later

module _ {bcrypt : Bcrypt} {P : Database → Type 0} (k : IsKept bcrypt P) (now : ℕ)
    (me : Client) where
  pub on_room_join-kept :
      (i : Inputs) (given : Option ℕ) (s : Server)
      → P s.db
      → P (on_room_join bcrypt i me given s).1.db
  unfolding on_room_join
  on_room_join-kept i none s h = h
  on_room_join-kept i (some r) s h =
      subst P (sym (on_room_join-db bcrypt i me r s)) (k.join i r me.user_id none s.db h)

  pub on_room_leave-kept :
      (given : Option ℕ) (s : Server) → P s.db → P (on_room_leave now me given s).1.db
  unfolding on_room_leave
  on_room_leave-kept given s h = elim (Option-cases (target_room given me.socket_id s)) [
    | inl nowhere ↦ rw nowhere h
    | inr (r, found) ↦
        subst P (sym (on_room_leave-db now me given r s found)) (k.leave now r me.user_id s.db h)
  ]

  pub on_host_mute_participant-kept :
      (given target : Option ℕ) (s : Server)
      → P s.db
      → P (on_host_mute_participant now me given target s).1.db
  unfolding on_host_mute_participant
  on_host_mute_participant-kept given target s h =
      elim (Option-cases (target_room given me.socket_id s)) [
        | inl nowhere ↦ rw nowhere h
        | inr (r, found) ↦ elim (Option-cases target) [
          | inl nobody ↦ rw (found, nobody) h
          | inr (t, given_target) ↦ rw given_target (
              subst P (sym (on_host_mute_participant-db now me given r t s found))
                (k.mute r me.user_id t true s.db h))
        ]
      ]

  pub on_host_kick_participant-kept :
      (given target : Option ℕ) (s : Server)
      → P s.db
      → P (on_host_kick_participant now me given target s).1.db
  unfolding on_host_kick_participant
  on_host_kick_participant-kept given target s h =
      elim (Option-cases (target_room given me.socket_id s)) [
        | inl nowhere ↦ rw nowhere h
        | inr (r, found) ↦ elim (Option-cases target) [
          | inl nobody ↦ rw (found, nobody) h
          | inr (t, given_target) ↦ rw given_target (
              subst P (sym (on_host_kick_participant-db now me given r t s found))
                (k.kick now r me.user_id t s.db h))
        ]
      ]

  update_presence-kept :
      (r : ℕ) (m c : Option Bool) (s : Server)
      → P s.db
      → P (update_presence r me.user_id m c s).1.db
  unfolding update_presence on_db
  update_presence-kept r m c s h = elim (Bool-cases (is_some m || is_some c)) [
    | inl durable ↦ rw durable (
        proceed-keeps (λ (t : Server). P t.db)
          (on_db (update_participant_presence r me.user_id m c) s) _
          (k.presence r me.user_id m c s.db h) (λ p e. k.presence r me.user_id m c s.db h))
    | inr fleeting ↦ rw fleeting h
  ]

  pub on_participant_presence-kept :
      (given : Option ℕ) (m c speaking hand : Option Bool) (s : Server)
      → P s.db
      → P (on_participant_presence now me given m c speaking hand s).db
  unfolding on_participant_presence presence_for update_presence_in record_event emit_others
  on_participant_presence-kept given m c speaking hand s h =
      elim (Option-cases (target_room given me.socket_id s)) [
        | inl nowhere ↦ rw nowhere h
        | inr (r, found) ↦
            let kept =
              update_presence-kept r m c (record_event SocketEvent.messages_received s) h in
            rw found (
              proceed-keeps (λ (t : Server). P t.db)
                (update_presence r me.user_id m c (record_event SocketEvent.messages_received s)) _
                kept (λ p e. kept))
      ]

  pub lose_socket-kept :
      (reason : SocketReason) (s : Server) → P s.db → P (lose_socket now me reason s).db
  unfolding lose_socket on_disconnect leave_joined note_disconnect record_event emit_socket
  lose_socket-kept reason s h = elim (Option-cases (room_of me.socket_id s)) [
    | inl nowhere ↦ rw nowhere h
    | inr (r, found) ↦ rw found (
        subst P (sym (leave_on_disconnect-db now me r (map_disconnect_reason reason) _))
          (k.leave now r me.user_id s.db h))
  ]

  pub unchanged : (db later : Database) → later ≡ db → P db → P later
  unchanged db later same h = subst P (sym same) h

  pub unread : (db later : Database) → SameTables db later → P db → P later
  unread db later same h = k.rows db later same.0 same.1 same.2 h

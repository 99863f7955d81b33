-- ===== src/System/Effects.antt =====
-- What the socket events that write through the room service leave in the database: what the
-- service leaves.
use smartmeet_backend.Prelude.{
  ℕ, ◌≡◌, refl, ap, ◌∙◌, true, Option, none, some, List, [], ◌∷◌, arith, proceed-keeps,
}
use smartmeet_backend.RoomService.{
  Bcrypt, Inputs, join_room, leave_room, host_kick_participant, host_set_participant_muted,
  get_participants,
}
use smartmeet_backend.RoomService.Atomicity.{get_participants_same}
use smartmeet_backend.Constants.{DisconnectReason}
use smartmeet_backend.WebrtcService.{remove_peer_from_room}
use smartmeet_backend.SfuService.{list_own_producer_ids, remove_peer}
use smartmeet_backend.Sockets.State.{
  Client, Server, on_db, broadcast_participants, emit_room, emit_others, target_room, join_channel,
  set_room, change_signaling, record_event, leave_channel, clear_room, emit_socket,
}
use smartmeet_backend.Sockets.RoomEvents.{
  on_room_join, on_room_leave, on_host_mute_participant, on_host_kick_participant, tell_muted,
  evict,
}
use smartmeet_backend.Sockets.PresenceEvents.{ask_reconnect, leave_on_disconnect}
use smartmeet_backend.Sockets.SfuEvents.{
  announce_closed, cleanup_call, cleanup_in, cleanup_sfu_peer, call_id_for,
}

-- Broadcasts and the SFU leave the database alone.
module _ (now : ℕ) where
  pub broadcast_participants-db :
      (room_id : ℕ) (s : Server) → (broadcast_participants now room_id s).1.db ≡ s.db
  unfolding broadcast_participants on_db emit_room
  broadcast_participants-db room_id s =
      proceed-keeps (λ (t : Server). t.db ≡ s.db) (on_db (get_participants room_id) s) _
        (get_participants_same room_id s.db) (λ a e. get_participants_same room_id s.db)

  pub announce_closed-db :
      (socket_id room_id : ℕ) (ps : List ℕ) (s : Server)
      → (announce_closed now socket_id room_id ps s).db ≡ s.db
  unfolding emit_others
  announce_closed-db id r [] s = refl
  announce_closed-db id r (p ∷ ps) s = announce_closed-db id r ps _

  pub cleanup_in-db :
      (socket_id : ℕ) (call_id : Option ℕ) (s : Server)
      → (cleanup_in now socket_id call_id s).db ≡ s.db
  unfolding cleanup_in cleanup_call
  cleanup_in-db id none s = refl
  cleanup_in-db id (some c) s =
      announce_closed-db id c (list_own_producer_ids c id s.sfu)
        (record s { sfu = remove_peer c id s.sfu })

  pub cleanup_sfu_peer-db :
      (socket_id : ℕ) (s : Server) → (cleanup_sfu_peer now socket_id s).db ≡ s.db
  unfolding cleanup_sfu_peer
  cleanup_sfu_peer-db id s = cleanup_in-db id (call_id_for id s) s

  -- the events that write through the room service: what they leave is what the service leaves
  module _ (me : Client) where
    pub on_room_leave-db :
        (given : Option ℕ) (r : ℕ) (s : Server)
        → target_room given me.socket_id s ≡ some r
        → (on_room_leave now me given s).1.db ≡ (leave_room now r me.user_id s.db).1
    unfolding on_room_leave on_db emit_others
    on_room_leave-db given r s found =
        let P : Server → Type 0 = λ t. t.db ≡ (leave_room now r me.user_id s.db).1 in
        rw found (
          proceed-keeps P (on_db (leave_room now r me.user_id) s) _ refl (λ p e.
            proceed-keeps P (broadcast_participants now r _) _
              (broadcast_participants-db r _ ∙ cleanup_sfu_peer-db me.socket_id _)
              (λ a k. broadcast_participants-db r _ ∙ cleanup_sfu_peer-db me.socket_id _)))

pub join_channel-db :
    (room_id socket_id : ℕ) (s : Server) → (join_channel room_id socket_id s).db ≡ s.db
unfolding join_channel
join_channel-db room_id socket_id s = ground arith

pub on_room_join-db :
    (bcrypt : Bcrypt) (i : Inputs) (me : Client) (r : ℕ) (s : Server)
    → (on_room_join bcrypt i me (some r) s).1.db ≡ (join_room bcrypt i r me.user_id none s.db).1
unfolding on_room_join on_db set_room change_signaling record_event emit_others
on_room_join-db bcrypt i me r s =
    proceed-keeps (λ (t : Server). t.db ≡ (join_room bcrypt i r me.user_id none s.db).1)
      (on_db (join_room bcrypt i r me.user_id none) s) _ refl
      (λ p e. broadcast_participants-db i.now r _ ∙ join_channel-db r me.socket_id _)

tell_muted-db :
    (now : ℕ) (me : Client) (r : ℕ) (socket_id : Option ℕ) (s : Server)
    → (tell_muted now me r socket_id s).db ≡ s.db
unfolding tell_muted emit_socket
tell_muted-db now me r none s = refl
tell_muted-db now me r (some id) s = refl

pub on_host_mute_participant-db :
    (now : ℕ) (me : Client) (given : Option ℕ) (r target : ℕ) (s : Server)
    → target_room given me.socket_id s ≡ some r
    → (on_host_mute_participant now me given (some target) s).1.db
      ≡ (host_set_participant_muted r me.user_id target true s.db).1
unfolding on_host_mute_participant on_db
on_host_mute_participant-db now me given r target s found =
    let P : Server → Type 0 =
      λ t. t.db ≡ (host_set_participant_muted r me.user_id target true s.db).1 in
    rw found (
      proceed-keeps P (on_db (host_set_participant_muted r me.user_id target true) s) _ refl (λ p e.
        proceed-keeps P (broadcast_participants now r _) _
          (broadcast_participants-db now r _ ∙ tell_muted-db now me r _ _)
          (λ a k. broadcast_participants-db now r _ ∙ tell_muted-db now me r _ _)))

evict-db :
    (now : ℕ) (me : Client) (r : ℕ) (socket_id : Option ℕ) (s : Server)
    → (evict now me r socket_id s).db ≡ s.db
unfolding evict emit_socket change_signaling leave_channel clear_room
evict-db now me r none s = refl
evict-db now me r (some id) s = refl

pub on_host_kick_participant-db :
    (now : ℕ) (me : Client) (given : Option ℕ) (r target : ℕ) (s : Server)
    → target_room given me.socket_id s ≡ some r
    → (on_host_kick_participant now me given (some target) s).1.db
      ≡ (host_kick_participant now r me.user_id target s.db).1
unfolding on_host_kick_participant on_db emit_others
on_host_kick_participant-db now me given r target s found = rw found (
    proceed-keeps (λ (t : Server). t.db ≡ (host_kick_participant now r me.user_id target s.db).1)
      (on_db (host_kick_participant now r me.user_id target) s) _ refl
      (λ p e. broadcast_participants-db now r _ ∙ evict-db now me r _ _))

ask_reconnect-db :
    (now r user_id : ℕ) (reason : DisconnectReason) (s : Server)
    → (ask_reconnect now r user_id reason s).db ≡ s.db
unfolding ask_reconnect emit_room
ask_reconnect-db now r user_id reason s = ground arith

pub leave_on_disconnect-db :
    (now : ℕ) (me : Client) (r : ℕ) (reason : DisconnectReason) (s : Server)
    → (leave_on_disconnect now me r reason s).1.db ≡ (leave_room now r me.user_id s.db).1
unfolding leave_on_disconnect on_db change_signaling emit_room
leave_on_disconnect-db now me r reason s =
    let cleaned =
      cleanup_sfu_peer-db now me.socket_id
        (change_signaling (remove_peer_from_room r me.socket_id) s) in
    let left = ap (λ db. (leave_room now r me.user_id db).1) cleaned in
    proceed-keeps (λ (t : Server). t.db ≡ (leave_room now r me.user_id s.db).1)
      (broadcast_participants now r _) _ (broadcast_participants-db now r _ ∙ left)
      (λ a e.
        ask_reconnect-db now r me.user_id reason _ ∙ (broadcast_participants-db now r _ ∙ left))

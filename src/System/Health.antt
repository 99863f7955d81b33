-- ===== src/System/Health.antt =====
-- The tables stay consistent, whatever requests and socket events come.
use smartmeet_backend.Prelude.{ℕ, String, ◌≤◌, ◌≡◌, some, count}
use smartmeet_backend.Models.{
  Database, Room, find_room, is_active_in, is_active_of, has_email, has_username,
}
use smartmeet_backend.RoomService.{Bcrypt}
use smartmeet_backend.RoomService.Creation.{create_room-IsConsistent}
use smartmeet_backend.RoomService.Consistency.{
  join_room-IsConsistent, leave_room-IsConsistent, host_kick_participant-IsConsistent,
  host_set_participant_muted-IsConsistent, update_participant_presence-IsConsistent,
}
use smartmeet_backend.RoomService.Invariant.{IsConsistent}
use smartmeet_backend.UserService.Accounts.{HasUniqueAccounts, register_user-HasUniqueAccounts}
use smartmeet_backend.RoomService.Users.{
  create_room-users, join_room-frame, leave_room-frame, host_kick_participant-frame,
  host_set_participant_muted-frame, update_participant_presence-frame,
}
use smartmeet_backend.System.Accounts.{
  HasUniqueAccounts-users, IsConsistent-rooms, register_user-rooms,
}
use smartmeet_backend.System.Upkeep.{
  IsKept, on_room_join-kept, on_room_leave-kept, on_host_mute_participant-kept,
  on_host_kick_participant-kept, on_participant_presence-kept, lose_socket-kept, unchanged, unread,
}
use smartmeet_backend.System.Bystanders.{
  on_chat_message-SameTables, on_connection_quality-SameTables, on_room_reaction-db,
  on_get_rtp_capabilities-db, on_create_transport-db, on_connect_transport-db, on_produce-db,
  on_consume-db, on_resume_consumer-db, on_webrtc_offer-db, on_webrtc_answer-db,
  on_webrtc_ice_candidate-db,
}
use smartmeet_backend.System.Requests.{NewRoom, handle-Kept}
use smartmeet_backend.Controllers.{App}
use smartmeet_backend.Http.Requests.{Deployment}
use smartmeet_backend.Sockets.State.{Client, Server, record_event}
use smartmeet_backend.System.{
  SocketMessage, room_join, room_leave, chat_message, room_reaction, host_mute_participant,
  host_kick_participant, participant_presence, webrtc_offer, webrtc_answer, webrtc_ice_candidate,
  connection_quality, sfu_get_rtp_capabilities, sfu_create_transport, sfu_connect_transport,
  sfu_produce, sfu_consume, sfu_resume_consumer, SystemEvent, request, connection, message,
  disconnect, on_connection, on_message, occur,
}

pub record Healthy (db : Database) : Type 0 where
  pub rooms : IsConsistent db
  pub accounts : HasUniqueAccounts db

pub Healthy-IsKept : (bcrypt : Bcrypt) → IsKept bcrypt Healthy
Healthy-IsKept bcrypt = record {
  create = λ i input db fresh space h. record {
    rooms = create_room-IsConsistent bcrypt i input db fresh space h.rooms;
    accounts = HasUniqueAccounts-users db _ (create_room-users bcrypt i db input) h.accounts;
  };
  join = λ i r u password db h. record {
    rooms = join_room-IsConsistent bcrypt i r u password db h.rooms;
    accounts = HasUniqueAccounts-users db _ (join_room-frame bcrypt i db r u password).0 h.accounts;
  };
  leave = λ now r u db h. record {
    rooms = leave_room-IsConsistent r u db h.rooms now;
    accounts = HasUniqueAccounts-users db _ (leave_room-frame r u db now).0 h.accounts;
  };
  kick = λ now r u target db h. record {
    rooms = host_kick_participant-IsConsistent r u db h.rooms now target;
    accounts =
        HasUniqueAccounts-users db _ (host_kick_participant-frame r u db now target).0 h.accounts;
  };
  mute = λ r u target b db h. record {
    rooms = host_set_participant_muted-IsConsistent r u db h.rooms target b;
    accounts =
        HasUniqueAccounts-users db _ (host_set_participant_muted-frame r u db target b).0
          h.accounts;
  };
  presence = λ r u m k db h. record {
    rooms = update_participant_presence-IsConsistent r u db h.rooms m k;
    accounts =
        HasUniqueAccounts-users db _ (update_participant_presence-frame r u db m k).0 h.accounts;
  };
  register = λ jwt config now a input db h. record {
    rooms =
        let (rooms, participants) = register_user-rooms jwt config bcrypt now a input db in
        IsConsistent-rooms db _ rooms participants h.rooms;
    accounts = register_user-HasUniqueAccounts jwt config bcrypt now a input db h.accounts;
  };
  rows = λ db later users rooms participants h. record {
    rooms = IsConsistent-rooms db later rooms participants h.rooms;
    accounts = HasUniqueAccounts-users db later users h.accounts;
  };
}

-- What is asked of an event, on the state that it meets.
abbrev pub Admissible : SystemEvent → App → Type 0
Admissible (request r) s = NewRoom r s.server.db
Admissible _ s = Unit

module _ {P : Database → Type 0} (d : Deployment) (k : IsKept d.bcrypt P) where
  on_message-kept :
      (now : ℕ) (me : Client) (m : SocketMessage) (s : Server)
      → P s.db
      → P (on_message d now me m s).db
  unfolding on_message
  on_message-kept now me (room_join i id) s h = on_room_join-kept k now me i id s h
  on_message-kept now me (room_leave id) s h = on_room_leave-kept k now me id s h
  on_message-kept now me (chat_message saved id text) s h =
      unread k now me s.db _ (on_chat_message-SameTables saved now me id text s) h
  on_message-kept now me (room_reaction id emoji) s h =
      unchanged k now me s.db _ (on_room_reaction-db now me id emoji s) h
  on_message-kept now me (host_mute_participant id target) s h =
      on_host_mute_participant-kept k now me id target s h
  on_message-kept now me (host_kick_participant id target) s h =
      on_host_kick_participant-kept k now me id target s h
  on_message-kept now me (participant_presence id muted camera speaking hand) s h =
      on_participant_presence-kept k now me id muted camera speaking hand s h
  on_message-kept now me (webrtc_offer id to sdp) s h =
      unchanged k now me s.db _ (on_webrtc_offer-db now me id to sdp s) h
  on_message-kept now me (webrtc_answer id to sdp) s h =
      unchanged k now me s.db _ (on_webrtc_answer-db now me id to sdp s) h
  on_message-kept now me (webrtc_ice_candidate id to candidate) s h =
      unchanged k now me s.db _ (on_webrtc_ice_candidate-db now me id to candidate s) h
  on_message-kept now me (connection_quality saved id report) s h =
      unread k now me s.db _ (on_connection_quality-SameTables saved now me id report s) h
  on_message-kept now me (sfu_get_rtp_capabilities router) s h =
      unchanged k now me s.db _ (on_get_rtp_capabilities-db me s router) h
  on_message-kept now me (sfu_create_transport transport direction) s h =
      unchanged k now me s.db _ (on_create_transport-db me s transport direction) h
  on_message-kept now me (sfu_connect_transport connected id) s h =
      unchanged k now me s.db _ (on_connect_transport-db me s connected id) h
  on_message-kept now me (sfu_produce produced id kind) s h =
      unchanged k now me s.db _ (on_produce-db me s now produced id kind) h
  on_message-kept now me (sfu_consume can_consume consumed id) s h =
      unchanged k now me s.db _ (on_consume-db me s can_consume consumed id) h
  on_message-kept now me (sfu_resume_consumer resumed id) s h =
      unchanged k now me s.db _ (on_resume_consumer-db me s resumed id) h

  pub occur-kept :
      (e : SystemEvent) (s : App) → Admissible e s → P s.server.db → P (occur d e s).server.db
  unfolding occur on_connection record_event
  occur-kept (request r) s new h = handle-Kept d k r s new h
  occur-kept (connection me) s new h = h
  occur-kept (message now me m) s new h = on_message-kept now me m s.server h
  occur-kept (disconnect now me reason) s new h = lose_socket-kept k now me reason s.server h

-- The states that a run of the system comes to.
pub data Reach (d : Deployment) (s : App) : App → Type 0 where
  here : Reach d s s
  next : {t : App} → Reach d s t → (e : SystemEvent) → Admissible e t → Reach d s (occur d e t)

-- What each write keeps, every run keeps.
pub Reach-kept :
    {d : Deployment} {P : Database → Type 0} {s t : App}
    → IsKept d.bcrypt P
    → Reach d s t
    → P s.server.db
    → P t.server.db
Reach-kept k here h = h
Reach-kept {d} k (next {t} r e new) h = occur-kept d k e t new (Reach-kept k r h)

-- Whatever HTTP requests, socket events and disconnects come, in whatever order, from consistent
-- tables: no room holds more active participations than it may, no user has two in one room, and
-- no two accounts share an email or a username. It is asked of a request that creates a room that
-- the new room's id is new and that it allows a participant at least.
pub system_stays-Healthy :
    {d : Deployment} {s t : App}
    → Healthy s.server.db
    → Reach d s t
    → ((r : ℕ) (room : Room)
        → find_room r t.server.db ≡ some room
        → count (is_active_in r) t.server.db.participants ≤ room.max_participants)
      × ((r u : ℕ) → count (is_active_of r u) t.server.db.participants ≤ 1)
      × ((email : String) → count (has_email email) t.server.db.users ≤ 1)
      × ((username : String) → count (has_username username) t.server.db.users ≤ 1)
system_stays-Healthy {d} h reach =
    let healthy = Reach-kept (Healthy-IsKept d.bcrypt) reach h in
    (
      λ r room found. rw found at (healthy.rooms.capacity r),
      λ r u. healthy.rooms.unique r u,
      λ email. healthy.accounts.emails email,
      λ username. healthy.accounts.usernames username,
    )

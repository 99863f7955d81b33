-- ===== src/Tests/Requests.antt =====
-- The theorems on the limiter, the configuration, recordings, requests and the whole system.
use smartmeet_backend.Prelude.{
  List, map, select, ◌⊎◌, ◌==◌, ℕ, String, ◌≤◌, ◌≡◌, refl, true, false, none, some, [], ◌∷◌, ok,
  err, arith, count,
}
use smartmeet_backend.Prelude.Map.{nat_key, get}
use smartmeet_backend.Errors.{Failure, auth_error}
use smartmeet_backend.Prelude.Ordering.{
  Shuffle, newest_first, newest_first-Orders, pick, nil, here as at_head, there,
}
use smartmeet_backend.Models.{
  Message, Recording, is_of, Database, Room, RoomParticipant, create_user, find_room, is_active_in,
  is_active_of, has_email, has_username,
}
use smartmeet_backend.RoomService.{get_active_participant, has_ever_participated}
use smartmeet_backend.UserService.{login_user, find_user_by_email}
use smartmeet_backend.UserService.Accounts.{HasUniqueAccounts}
use smartmeet_backend.Authentication.{AuthUser, authenticate, split_space}
use smartmeet_backend.StorageService.{Storage}
use smartmeet_backend.RateLimit.{chat, rate_key}
use smartmeet_backend.RateLimit.Windows.{admit}
use smartmeet_backend.RateLimit.Recovery.{states_after, admit_again}
use smartmeet_backend.Controllers.{App, on_database, on_server}
use smartmeet_backend.Controllers.Accounts
use smartmeet_backend.Controllers.Recordings.{
  RecordingRow, recording_row, bytes, download, find_recording, list,
}
use smartmeet_backend.Controllers.Recordings.Access.{created, create-download}
use smartmeet_backend.Controllers.Recordings.Complete.{listed, is_visible, row_time, list_complete}
use smartmeet_backend.Http.Errors.{ErrorAnswer, error_handler, app_status, message_of}
use smartmeet_backend.Http.Requests.{Deployment, Request, Route, failure}
use smartmeet_backend.Http.Routes.{handle, finish, respond, dispatch}
use smartmeet_backend.Http.Access.{handle-unauthenticated}
use smartmeet_backend.Http.Failures.{IsUnsigned, handle-failure}
use smartmeet_backend.Config.{codes}
use smartmeet_backend.Sockets.State.{on_db, chat_message}
use smartmeet_backend.Sockets.RoomEvents.{on_chat_message, body_of}
use smartmeet_backend.Controllers.Rooms.Ghosts.{departed, leave-chat}
use smartmeet_backend.Sockets.PresenceEvents.{ping_timeout}
use smartmeet_backend.System.{request, room_join, connection, message, disconnect, occur}
use smartmeet_backend.System.Health.{Admissible, Reach, here, next, system_stays-Healthy}
use smartmeet_backend.Tests.Data.{plain_bcrypt, inputs, tables, tables-IsConsistent}
use smartmeet_backend.Tests.Sockets.{server, guest_client, greeting, greeting-IsAccepted}
use smartmeet_backend.Tests.Accounts.{toy_jwt, config, account}

admit_again_example :
    (admit
      (record { key = record { socket_id = 80; kind = chat }; now = 5020 })
      (states_after
        (record { key = record { socket_id = 80; kind = chat }; now = 10 }
          ∷ record { key = record { socket_id = 80; kind = chat }; now = 20 }
          ∷ [])
        [])).0
    ≡ false
admit_again_example =
    admit_again (record { socket_id = 80; kind = chat }) 5020 20
      (record { key = record { socket_id = 80; kind = chat }; now = 10 }
        ∷ record { key = record { socket_id = 80; kind = chat }; now = 20 }
        ∷ [])
      [] (unfold get in refl) (omega arith, (omega arith, tt)) (omega arith)

abbrev storage : Storage
storage = record { use_s3 = false; local_storage_dir = codes "/srv"; disk = []; bucket = [] }

abbrev pub app : App
app = record {
  server = server;
  redis = record { is_up = true; entries = [] };
  storage = storage;
  has_io = true;
}

abbrev host_user : AuthUser
host_user = record { id = 7; email = some "h@x"; username = some "host" }

abbrev guest_user : AuthUser
guest_user = record { id = 8; email = none; username = some "guest" }

-- The host uploads three bytes, which the guest, too, can download.
create-download_example :
    (r : smartmeet_backend.Models.Recording) × ((created
        (λ path seconds. path)
        (codes "1")
        (codes "f")
        []
        100
        1
        4
        60
        1
        (2 ∷ 3 ∷ [])
        host_user
        app).0
      ≡ ok r)
    × (r.room_id ≡ 1)
    × ((you : AuthUser)
        → has_ever_participated 1 you.id tables ≡ true
        → download
            (λ path seconds. path)
            you
            r.id
            (created
              (λ path seconds. path)
              (codes "1")
              (codes "f")
              []
              100
              1
              4
              60
              1
              (2 ∷ 3 ∷ [])
              host_user
              app).1
          ≡ (
            ok (bytes (1 ∷ 2 ∷ 3 ∷ [])),
            (created
                (λ path seconds. path)
                (codes "1")
                (codes "f")
                []
                100
                1
                4
                60
                1
                (2 ∷ 3 ∷ [])
                host_user
                app).1,
          ))
create-download_example =
    create-download (λ path seconds. path) (codes "1") (codes "f") [] 100 1 4 60 1 (2 ∷ 3 ∷ [])
      host_user app (unfold get_active_participant in refl) (unfold find_recording in refl) refl

-- two recordings of the guest's room
abbrev recording : ℕ → ℕ → Recording
recording id time = record {
  id = id;
  room_id = 1;
  file_path = [];
  file_size = 0;
  storage_url = [];
  duration = 60;
  created_at = time;
}

abbrev recorded : Database
recorded = record tables { recordings = recording 4 90 ∷ recording 5 95 ∷ [] }

recorded_once : (r : ℕ) → count (is_of r 8) recorded.participants ≤ 1
recorded_once r = ground arith

recorded_distinct : (id : ℕ) → count (λ (r : Recording). r.id == id) recorded.recordings ≤ 1
recorded_distinct id = ground arith

abbrev by_time : List RecordingRow → List RecordingRow
by_time = newest_first row_time

abbrev newest : List Recording
newest = recording 5 95 ∷ recording 4 90 ∷ []

newest-Shuffle : Shuffle newest (select (is_visible 8 recorded) recorded.recordings)
unfolding has_ever_participated
newest-Shuffle = pick _ (pick _ nil (at_head [])) (there _ (at_head []))

list_complete_example :
    listed
      (λ k. by_time)
      (list by_time guest_user 1 1 recorded).pagination.total_pages
      1
      guest_user
      recorded
    ≡ map (recording_row recorded) newest
list_complete_example =
    list_complete guest_user recorded recorded_once recorded_distinct newest newest-Shuffle
      ((omega arith, tt), (tt, tt)) by_time (λ k. by_time) 1 1 (newest_first-Orders row_time)
      (λ k. newest_first-Orders row_time)

abbrev pub deployment : Deployment
deployment = record {
  bcrypt = plain_bcrypt;
  jwt = toy_jwt;
  config = config;
  sign = λ path seconds. path;
  id_text = λ id. id ∷ [];
  is_production = true;
}

-- a request without a token
abbrev pub anonymous : Route → Request
anonymous route = record {
  route = route;
  authorization = [];
  over_api_limit = false;
  over_auth_limit = false;
  inputs = inputs;
  account = account;
  upload = record { now = 100; file = codes "f"; written = ok []; recording_id = some 4 };
  orders = record {
    rooms = newest_first (λ (r : Room). r.created_at);
    messages = newest_first (λ (m : Message). m.created_at);
    recordings = by_time;
  };
  route_key = 3;
  duration = 12;
}

abbrev no_token : Failure
no_token = auth_error "Missing or malformed Authorization header"

anonymous_refused : authenticate toy_jwt config 100 [] ≡ err no_token
unfolding authenticate split_space
anonymous_refused = refl

handle-unauthenticated_example :
    (answer : ErrorAnswer) × (answer.status_code ≡ 401)
    × (handle deployment (anonymous (Route.leave_room (some 1))) app ≡ (
      failure answer,
      finish deployment (anonymous (Route.leave_room (some 1))) (failure answer) app,
    ))
handle-unauthenticated_example =
    handle-unauthenticated deployment (anonymous (Route.leave_room (some 1))) no_token app refl refl
      anonymous_refused

-- A login that fails: the tables stay.
abbrev wrong_login : Request
wrong_login = anonymous (Route.login (some ("h@x", "wrong")))

abbrev unauthorized : ErrorAnswer
unauthorized = record {
  status_code = 401;
  message = "Invalid email or password";
  has_stack = false;
}

login_refused : (handle deployment wrong_login app).0 ≡ failure unauthorized
unfolding handle respond dispatch Accounts.login on_database on_server on_db login_user
    find_user_by_email error_handler app_status message_of
login_refused = refl

handle-failure_example :
    let later = (handle deployment wrong_login app).1.server.db in
    (later ≡ tables)
    ⊎ ((e : Failure) × (unauthorized ≡ error_handler true e)
        × IsUnsigned deployment wrong_login wrong_login.route e tables later)
handle-failure_example = handle-failure deployment wrong_login app unauthorized login_refused

-- A socket connects, joins the locked room in vain, and is lost; a request fails.
abbrev newcomer_client : smartmeet_backend.Sockets.State.Client
newcomer_client = record { socket_id = 90; user_id = 9; username = "newcomer" }

abbrev three_events : App
three_events = occur deployment (disconnect 120 newcomer_client ping_timeout) (
    occur deployment (message 110 newcomer_client (room_join inputs (some 1)))
      (occur deployment (connection newcomer_client) app))

abbrev four_events : App
four_events = occur deployment (request wrong_login) three_events

no_new_room : (s : App) → Admissible (request wrong_login) s
no_new_room s body e = cc

four_events-Reach : Reach deployment app four_events
four_events-Reach =
    next
      (next
        (next (next here (connection newcomer_client) tt)
          (message 110 newcomer_client (room_join inputs (some 1))) tt)
        (disconnect 120 newcomer_client ping_timeout) tt)
      (request wrong_login) (no_new_room three_events)

pub tables-HasUniqueAccounts : HasUniqueAccounts tables
tables-HasUniqueAccounts = record {
  emails = λ email. ground arith;
  usernames = λ name. ground arith;
}

system_stays-Healthy_example :
    ((r : ℕ) (room : Room)
      → find_room r four_events.server.db ≡ some room
      → count (is_active_in r) four_events.server.db.participants ≤ room.max_participants)
    × ((r u : ℕ) → count (is_active_of r u) four_events.server.db.participants ≤ 1)
    × ((email : String) → count (has_email email) four_events.server.db.users ≤ 1)
    × ((username : String) → count (has_username username) four_events.server.db.users ≤ 1)
system_stays-Healthy_example =
    system_stays-Healthy
      (record { rooms = tables-IsConsistent; accounts = tables-HasUniqueAccounts })
      four_events-Reach

-- The guest leaves over HTTP, and is still heard.
leave-chat_example :
    (get_active_participant 1 8 (departed 90 100 guest_user 1 app).db ≡ none)
    × ((on_chat_message
          (some 9)
          100
          guest_client
          none
          greeting
          (departed 90 100 guest_user 1 app)).emitted
        ≡ record {
          recipients = 70 ∷ 80 ∷ [];
          event = chat_message (some 9) 1 8 "guest" (body_of greeting) 100;
          timestamp = 100;
        }
          ∷ (departed 90 100 guest_user 1 app).emitted)
leave-chat_example =
    leave-chat 90 100 guest_user 1 app (some 9) none guest_client greeting tables-IsConsistent
      greeting-IsAccepted

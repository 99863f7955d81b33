-- ===== src/Tests/Systems.antt =====
-- The theorems on payloads, on the whole system and on the process.
use smartmeet_backend.Prelude.{
  ℕ, ◌≤◌, ◌≡◌, refl, true, false, none, some, [], ◌∷◌, ok, err, if◌then◌else◌, is_some, ◌⊎◌, subst,
  Bool-cases, inl, inr, All,
}
use smartmeet_backend.Prelude.Map.{nat_key, get}
use smartmeet_backend.Errors.{plain_error}
use smartmeet_backend.RoomService.{has_ever_participated, CreateRoomInput}
use smartmeet_backend.Config.{pos, load_env, Env}
use smartmeet_backend.Validators.{Value, text, whole, Payload, Schema}
use smartmeet_backend.Validators
use smartmeet_backend.Validators.Meaning.{Formats, Joi, IsJoi, meets_all, text_length}
use smartmeet_backend.Controllers.{App}
use smartmeet_backend.Authentication.{authenticate, split_space}
use smartmeet_backend.Http.Errors.{ErrorAnswer, error_handler, app_status, message_of}
use smartmeet_backend.Http.Requests.{Request, failure}
use smartmeet_backend.Http.Payloads.{Sent, receive, read_create_room}
use smartmeet_backend.Http.Payloads
use smartmeet_backend.Http.Payloads.Accepted.{IsSoundInput, read_create_room-IsSoundInput}
use smartmeet_backend.Http.Routes.{handle, respond, dispatch}
use smartmeet_backend.System.{connection, on_connection, occur}
use smartmeet_backend.System.Health.{here}
use smartmeet_backend.System.Channels.{IsSeated}
use smartmeet_backend.System.Audience.{History, begun, next, room_audience}
use smartmeet_backend.Sockets.State.{Client}
use smartmeet_backend.Tests.Sockets.{host_client, guest_client}
use smartmeet_backend.Tests.Services.{stopped_sfu}
use smartmeet_backend.Lifecycle.{Process, Surroundings, signal, tick, drained, run, on_event}
use smartmeet_backend.Lifecycle.Phases.{IsEarly, shutdown_ends}
use smartmeet_backend.Tests.Requests.{app, deployment, anonymous}

-- a Joi that takes what meets the schema, without conversions, and defaults as they are sent
abbrev formats : Formats
formats = record { is_email = λ s. true; is_guid = λ s. true }

abbrev strict_joi : Joi
strict_joi = record {
  validate = λ schema given. if meets_all formats given schema then some given else none;
  formats = formats;
}

strict_joi-IsJoi : IsJoi strict_joi
strict_joi-IsJoi = record {
  sound = λ schema given accepted e.
      kept schema given accepted (Bool-cases (meets_all formats given schema)) e;
}
  where
    kept :
        (schema : Schema) (given accepted : Payload)
        → (meets_all formats given schema ≡ true) ⊎ (meets_all formats given schema ≡ false)
        → strict_joi.validate schema given ≡ some accepted
        → meets_all formats accepted schema ≡ true
    kept schema given accepted (inl meets) e =
        let same : some given ≡ some accepted = rw meets at e in
        subst (λ b. meets_all formats b schema ≡ true) (cc) meets
    kept schema given accepted (inr fails) e = absurd (cc (rw fails at e))

abbrev new_room_body : Payload
new_room_body =
    ("name", text "Standup")
    ∷ ("accessType", text "password")
    ∷ ("password", text "secret")
    ∷ ("maxParticipants", whole (pos 5))
    ∷ []

new_room_body_accepted :
    strict_joi.validate Validators.create_room new_room_body ≡ some new_room_body
unfolding text_length
new_room_body_accepted = refl

read_create_room-IsSoundInput_example :
    (input : CreateRoomInput) × (read_create_room strict_joi new_room_body ≡ some input)
    × IsSoundInput input
read_create_room-IsSoundInput_example =
    read_create_room-IsSoundInput strict_joi strict_joi-IsJoi new_room_body new_room_body
      new_room_body_accepted

-- A request for a new room without a token.
abbrev creation : Request
creation = anonymous (receive strict_joi (λ s. 0) (Payloads.create_room new_room_body))

abbrev no_token : ErrorAnswer
no_token = record {
  status_code = 401;
  message = "Missing or malformed Authorization header";
  has_stack = false;
}

creation_refused : (handle deployment creation app).0 ≡ failure no_token
unfolding handle respond dispatch receive authenticate split_space error_handler app_status
    message_of
creation_refused = refl

abbrev visitor : Client
visitor = record { socket_id = 95; user_id = 5; username = "visitor" }

abbrev visited : App
visited = occur deployment (connection visitor) app

visited-History : History deployment app visited
visited-History = next begun (connection visitor) tt (unfold get in refl)

app-IsSeated : IsSeated app.server
unfolding has_ever_participated get
app-IsSeated = (
  record { client = host_client; here = refl; admitted = refl },
  (record { client = guest_client; here = refl; admitted = refl }, tt),
)

room_audience_example :
    (c : Client) × (get visited.server.connected 80 ≡ some c)
    × (has_ever_participated 1 c.user_id visited.server.db ≡ true)
room_audience_example =
    room_audience 1 80 app-IsSeated visited-History (unfold occur on_connection in refl)

-- No environment variable is set.
abbrev default_env : Env
default_env = load_env 2 (λ v. none)

abbrev begun_process : Process
begun_process = record {
  is_redis_connected = false;
  sfu = stopped_sfu;
  has_io = false;
  listening = none;
  is_closing = false;
  deadlines = [];
  exit_code = none;
}

-- No worker starts, and Redis answers; PostgreSQL does as well, or does not.
abbrev surroundings : Surroundings
surroundings = record {
  database = ok tt;
  redis = ok tt;
  worker = λ i. err (plain_error "no worker");
}

shutdown_ends_example :
    ((now : ℕ)
      → 10050 ≤ now
      → is_some
          (on_event
            (tick now)
            (run (tick 60 ∷ signal 70 ∷ []) (on_event (signal 50) begun_process))).exit_code
        ≡ true)
    × (All (IsEarly 50) (tick 60 ∷ signal 70 ∷ [])
        → (on_event drained
            (run (tick 60 ∷ signal 70 ∷ []) (on_event (signal 50) begun_process))).exit_code
          ≡ some 0)
shutdown_ends_example = shutdown_ends 50 begun_process (tick 60 ∷ signal 70 ∷ []) refl refl

-- ===== src/Http/Routes.antt =====
-- The routes (src/routes/*.js) with their middleware, in the order of src/app.js: the metrics, the
-- rate limiter of the API, then the route's own chain, and the error handler last.
use smartmeet_backend.Prelude.{
  if◌then◌else◌, ◌&&◌, ℕ, String, Bool, Option, List, Action, Result, ok, err, from_result, pure,
  gets, throw_if, or_throw, ◌>>=◌, ◌>>◌,
}
use smartmeet_backend.Errors.{validation_error, too_many_requests_error}
use smartmeet_backend.RoomService.{CreateRoomInput}
use smartmeet_backend.UserService.{RegisterInput}
use smartmeet_backend.Authentication.{AuthUser, authenticate}
use smartmeet_backend.Metrics.{record_request}
use smartmeet_backend.Analytics.{get_metrics_report}
use smartmeet_backend.Controllers.{App}
use smartmeet_backend.Controllers.Accounts
use smartmeet_backend.Controllers.Rooms.{PublicRoom, ParticipantJson}
use smartmeet_backend.Controllers.Rooms
use smartmeet_backend.Controllers.Recordings.{
  RecordingList, RecordingAnswer, Download, redirect, bytes, UploadInputs,
}
use smartmeet_backend.Controllers.Recordings
use smartmeet_backend.Http.Errors.{error_handler}
use smartmeet_backend.Http.Requests.{
  Deployment, PageQuery, Route, Request, Body, Answer, register, login, refresh, create_room,
  list_rooms, get_room, join_room, leave_room, get_participants, get_messages, create_recording,
  list_recordings, get_recording, download_recording, health, metrics, unknown, route_not_found,
  HealthReport, health_report, metrics_report, tokens, room, room_list, room_details, participation,
  roster, chat_history, new_recording, recording_list, recording_details, file, success, failure,
}

-- `validate`
abbrev pub validated : {A : Type 0} → Option A → Action App A
validated verdict = or_throw verdict (validation_error "Invalid request data")

abbrev pub answering : {A : Type 0} → ℕ → (A → Body) → Action App A → Action App (ℕ × Body)
answering status_code body m = m >>= λ a. pure (status_code, body a)

abbrev pub limited : Bool → Action App (Unit {0})
limited over =
    throw_if over
      (too_many_requests_error "Too many authentication attempts, please try again later")

module _ (d : Deployment) (r : Request) where
  -- the routes of accounts
  abbrev pub register_route : Option RegisterInput → Action App (ℕ × Body)
  register_route verdict = do
    limited r.over_auth_limit
    body ← validated verdict
    answering 201 tokens (Accounts.register d.jwt d.config d.bcrypt r.inputs.now r.account body)

  abbrev pub login_route : Option (String × String) → Action App (ℕ × Body)
  login_route verdict = do
    limited r.over_auth_limit
    body ← validated verdict
    answering 200 tokens (Accounts.login d.jwt d.config d.bcrypt r.inputs.now body.0 body.1)

  abbrev pub refresh_route : Option (List ℕ) → Action App (ℕ × Body)
  refresh_route verdict = do
    limited r.over_auth_limit
    token ← validated verdict
    answering 200 tokens (Accounts.refresh d.jwt d.config r.inputs.now token)

  -- the routes of rooms, for the user of the token
  abbrev pub create_room_route : AuthUser → Option CreateRoomInput → Action App (ℕ × Body)
  create_room_route me verdict = do
    body ← validated verdict
    answering 201 room (Rooms.create d.bcrypt r.inputs me body)

  abbrev pub list_rooms_route : Option PageQuery → Action App (ℕ × Body)
  list_rooms_route verdict = do
    query ← validated verdict
    answering 200 room_list (Rooms.list r.orders.rooms r.inputs.now query.page query.limit)

  abbrev pub get_room_route : Option ℕ → Action App (ℕ × Body)
  get_room_route verdict = do
    room_id ← validated verdict
    answering 200 room_details (Rooms.get_by_id room_id)

  abbrev pub join_room_route : AuthUser → Option ℕ → Option (Option String) → Action App (ℕ × Body)
  join_room_route me params verdict = do
    room_id ← validated params
    password ← validated verdict
    answering 200 participation (Rooms.join d.bcrypt r.inputs me room_id password)

  abbrev pub leave_room_route : AuthUser → Option ℕ → Action App (ℕ × Body)
  leave_room_route me verdict = do
    room_id ← validated verdict
    answering 200 participation (Rooms.leave r.inputs.now me room_id)

  abbrev pub get_participants_route : Option ℕ → Action App (ℕ × Body)
  get_participants_route verdict = do
    room_id ← validated verdict
    answering 200 roster (Rooms.participants room_id)

  abbrev pub get_messages_route : AuthUser → Option ℕ → Option PageQuery → Action App (ℕ × Body)
  get_messages_route me params verdict = do
    room_id ← validated params
    query ← validated verdict
    answering 200 chat_history (Rooms.messages r.orders.messages me room_id query.page query.limit)

  abbrev pub create_recording_route :
      AuthUser → Option ℕ → Option (List ℕ) → ℕ → Action App (ℕ × Body)
  create_recording_route me verdict body duration = do
    room_id ← validated verdict
    answering 201 new_recording
        (Recordings.create (d.id_text room_id) r.upload me room_id body duration)

  -- the routes of recordings
  abbrev pub list_recordings_route : AuthUser → Option PageQuery → Action App (ℕ × Body)
  list_recordings_route me verdict = do
    query ← validated verdict
    answering 200 recording_list
        (gets (λ s. Recordings.list r.orders.recordings me query.page query.limit s.server.db))

  abbrev pub get_recording_route : AuthUser → Option ℕ → Action App (ℕ × Body)
  get_recording_route me verdict = do
    recording_id ← validated verdict
    answering 200 recording_details (Recordings.get_by_id d.sign me recording_id)

  -- A redirection has the status code 302.
  abbrev pub download_recording_route : AuthUser → Option ℕ → Action App (ℕ × Body)
  download_recording_route me verdict = do
    recording_id ← validated verdict
    found ← Recordings.download d.sign me recording_id
    pure (elim found [ redirect _ ↦ 302 | bytes _ ↦ 200 ], file found)

  -- the two routes of src/routes/health.js
  abbrev pub health_of : Bool → Bool → HealthReport
  health_of postgres redis = record {
    is_ok = postgres && redis;
    is_postgres_up = postgres;
    is_redis_up = redis;
    timestamp = r.inputs.now;
  }

  abbrev pub health_route : Bool → Action App (ℕ × Body)
  health_route postgres s =
      let report = health_of postgres s.redis.is_up in
      (ok (if report.is_ok then 200 else 503, health_report report), s)

  abbrev pub metrics_route : Bool → Action App (ℕ × Body)
  metrics_route is_query_ok s =
      let report = get_metrics_report is_query_ok r.inputs.now s.server.metrics s.server.db in
      (ok (200, metrics_report report), s)

  -- after all routes: an answer that no error is handed on for
  abbrev pub not_found_handler : String → Action App (ℕ × Body)
  not_found_handler line = pure (404, route_not_found line)

  -- `router.use(authenticate)`
  abbrev pub authenticated : (AuthUser → Action App (ℕ × Body)) → Action App (ℕ × Body)
  authenticated handler = do
    me ← from_result (authenticate d.jwt d.config r.inputs.now r.authorization)
    handler me

  unfoldable pub dispatch : Route → Action App (ℕ × Body)
  dispatch (register body) = register_route body
  dispatch (login body) = login_route body
  dispatch (refresh body) = refresh_route body
  dispatch (create_room body) = authenticated (λ me. create_room_route me body)
  dispatch (list_rooms query) = authenticated (λ me. list_rooms_route query)
  dispatch (get_room room_id) = authenticated (λ me. get_room_route room_id)
  dispatch (join_room room_id password) = authenticated (λ me. join_room_route me room_id password)
  dispatch (leave_room room_id) = authenticated (λ me. leave_room_route me room_id)
  dispatch (get_participants room_id) = authenticated (λ me. get_participants_route room_id)
  dispatch (get_messages room_id query) = authenticated (λ me. get_messages_route me room_id query)
  dispatch (create_recording room_id body duration) =
      authenticated (λ me. create_recording_route me room_id body duration)
  dispatch (list_recordings query) = authenticated (λ me. list_recordings_route me query)
  dispatch (get_recording recording_id) = authenticated (λ me. get_recording_route me recording_id)
  dispatch (download_recording recording_id) =
      authenticated (λ me. download_recording_route me recording_id)
  dispatch (health postgres) = health_route postgres
  dispatch (metrics is_query_ok) = metrics_route is_query_ok
  dispatch (unknown is_guarded line) =
      if is_guarded then authenticated (λ me. not_found_handler line) else not_found_handler line

  -- the rate limiter of the API, before every route
  unfoldable pub respond : Action App (ℕ × Body)
  unfolding dispatch
  respond = do
    throw_if r.over_api_limit (too_many_requests_error "Too many requests, please try again later")
    dispatch r.route

  abbrev pub answer_of : Result (ℕ × Body) → Answer
  answer_of (ok (status_code, body)) = success status_code body
  answer_of (err e) = failure (error_handler d.is_production e)

  abbrev pub status_of : Answer → ℕ
  status_of (success status_code body) = status_code
  status_of (failure answer) = answer.status_code

  -- the metrics, on the `finish` of the response
  abbrev pub finish : Answer → App → App
  finish answer s = record s {
    server = record s.server {
      metrics = record_request r.route_key r.duration (status_of answer) s.server.metrics;
    };
  }

  unfoldable pub handle : App → Answer × App
  unfolding respond
  handle s =
      let (result, s') = respond s in let answer = answer_of result in (answer, finish answer s')

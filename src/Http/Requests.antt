-- ===== src/Http/Requests.antt =====
-- Requests and answers: what a route is given, and what it sends. A verdict of Joi or of
-- express-rate-limit comes with the request: a validated value is `none` where Joi refuses it.
use smartmeet_backend.Prelude.{ℕ, String, Bool, Option, List}
use smartmeet_backend.Models.{Room, RoomParticipant, Message, Recording}
use smartmeet_backend.RoomService.{Bcrypt, Inputs, CreateRoomInput}
use smartmeet_backend.RoomService.Listing.{RoomJson, RoomList, MessageList}
use smartmeet_backend.UserService.{Jwt, JwtConfig, NewAccount, RegisterInput, TokenPair}
use smartmeet_backend.Controllers.Rooms.{PublicRoom, ParticipantJson}
use smartmeet_backend.Controllers.Recordings.{
  RecordingRow, RecordingList, RecordingAnswer, Download, UploadInputs,
}
use smartmeet_backend.Analytics.{MetricsReport}
use smartmeet_backend.Http.Errors.{ErrorAnswer}

-- the libraries and the configuration
pub record Deployment : Type 0 where
  pub bcrypt : Bcrypt
  pub jwt : Jwt
  pub config : JwtConfig
  -- S3's signature of a path, with the seconds that it lasts
  pub sign : List ℕ → ℕ → List ℕ
  -- the text of an id
  pub id_text : ℕ → List ℕ
  pub is_production : Bool

-- How PostgreSQL orders the rows of the request's query: newest first, and those of the same time
-- in any order.
pub record QueryOrders : Type 0 where
  pub rooms : List Room → List Room
  pub messages : List Message → List Message
  pub recordings : List RecordingRow → List RecordingRow

-- `paginationQuery`
pub record PageQuery : Type 0 where
  pub page : ℕ
  pub limit : ℕ

pub data Route : Type 0 where
  register : (body : Option RegisterInput) → Route
  login : (body : Option (String × String)) → Route
  refresh : (body : Option (List ℕ)) → Route
  create_room : (body : Option CreateRoomInput) → Route
  list_rooms : (query : Option PageQuery) → Route
  get_room : (room_id : Option ℕ) → Route
  join_room : (room_id : Option ℕ) (password : Option (Option String)) → Route
  leave_room : (room_id : Option ℕ) → Route
  get_participants : (room_id : Option ℕ) → Route
  get_messages : (room_id : Option ℕ) (query : Option PageQuery) → Route
  create_recording : (room_id : Option ℕ) (body : Option (List ℕ)) (duration : ℕ) → Route
  list_recordings : (query : Option PageQuery) → Route
  get_recording : (recording_id : Option ℕ) → Route
  download_recording : (recording_id : Option ℕ) → Route
  -- whether PostgreSQL answers `sequelize.authenticate`, and whether the query of the report succeeds
  health : (is_postgres_up : Bool) → Route
  metrics : (is_query_ok : Bool) → Route
  -- a path or a method that no route has, below `/rooms` or `/recordings` or elsewhere, with the
  -- request line
  unknown : (is_guarded : Bool) (line : String) → Route

pub record Request : Type 0 where
  pub route : Route
  -- the Authorization header
  pub authorization : List ℕ
  -- the verdicts of `apiRateLimiter` and of `authRateLimiter`
  pub over_api_limit : Bool
  pub over_auth_limit : Bool
  -- what the environment hands to the handlers
  pub inputs : Inputs
  pub account : NewAccount
  pub upload : UploadInputs
  pub orders : QueryOrders
  -- what the metrics record of it
  pub route_key : ℕ
  pub duration : ℕ

-- The services that the health check found up. The status is `ok` where both are.
pub record HealthReport : Type 0 where
  pub is_ok : Bool
  pub is_postgres_up : Bool
  pub is_redis_up : Bool
  pub timestamp : ℕ

pub data Body : Type 0 where
  tokens : TokenPair → Body
  room : PublicRoom → Body
  room_list : RoomList → Body
  room_details : RoomJson → Body
  participation : RoomParticipant → Body
  roster : List ParticipantJson → Body
  chat_history : MessageList → Body
  new_recording : Recording → Body
  recording_list : RecordingList → Body
  recording_details : RecordingAnswer → Body
  file : Download → Body
  health_report : HealthReport → Body
  metrics_report : MetricsReport → Body
  route_not_found : (line : String) → Body

pub data Answer : Type 0 where
  success : (status_code : ℕ) → Body → Answer
  failure : ErrorAnswer → Answer

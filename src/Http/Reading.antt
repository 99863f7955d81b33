-- ===== src/Http/Reading.antt =====
-- The requests that write nothing to the database, whatever they answer.
use smartmeet_backend.Prelude.{ℕ, String, List, ◌≡◌, refl, Option, none, some, Action, arith}
use smartmeet_backend.Models.{Database}
use smartmeet_backend.RoomService.{Bcrypt}
use smartmeet_backend.RoomService.Atomicity.{get_room_by_id_same, get_participants_same}
use smartmeet_backend.UserService.{Jwt, JwtConfig, login_user, issue_token_pair, refresh_tokens}
use smartmeet_backend.Authentication.{AuthUser}
use smartmeet_backend.Controllers.{App}
use smartmeet_backend.Controllers.Accounts
use smartmeet_backend.Controllers.Rooms
use smartmeet_backend.Controllers.Recordings.{accessible_recording}
use smartmeet_backend.Controllers.Recordings
use smartmeet_backend.Http.Requests.{Deployment, PageQuery, Request, Body}
use smartmeet_backend.Http.Routes.{
  login_route, refresh_route, list_rooms_route, get_room_route, get_participants_route,
  get_messages_route, list_recordings_route, get_recording_route, download_recording_route,
}

module _ (jwt : Jwt) (config : JwtConfig) where
  login_user_same :
      (bcrypt : Bcrypt) (now : ℕ) (email password : String) (db : Database)
      → (login_user jwt config bcrypt now email password db).1 ≡ db
  unfolding login_user issue_token_pair
  login_user_same bcrypt now email password db = ground arith

  refresh_tokens_same :
      (now : ℕ) (token : List ℕ) (db : Database) → (refresh_tokens jwt config now token db).1 ≡ db
  unfolding refresh_tokens issue_token_pair
  refresh_tokens_same now token db = ground arith

module _ (d : Deployment) (r : Request) where
  abbrev pub Same : Action App (ℕ × Body) → App → Type 0
  Same m s = (m s).1.server.db ≡ s.server.db

  pub login_route-Same : (body : Option (String × String)) (s : App) → Same (login_route d r body) s
  unfolding Accounts.login
  login_route-Same none s = ground arith
  login_route-Same (some body) s =
      ground (arith, login_user_same d.jwt d.config d.bcrypt r.inputs.now body.0 body.1 s.server.db)

  pub refresh_route-Same : (body : Option (List ℕ)) (s : App) → Same (refresh_route d r body) s
  unfolding Accounts.refresh
  refresh_route-Same none s = ground arith
  refresh_route-Same (some token) s =
      ground (arith, refresh_tokens_same d.jwt d.config r.inputs.now token s.server.db)

  pub get_room_route-Same : (params : Option ℕ) (s : App) → Same (get_room_route d r params) s
  unfolding Rooms.get_by_id
  get_room_route-Same none s = ground arith
  get_room_route-Same (some room_id) s = ground (arith, get_room_by_id_same room_id s.server.db)

  pub get_participants_route-Same :
      (params : Option ℕ) (s : App) → Same (get_participants_route d r params) s
  unfolding Rooms.participants
  get_participants_route-Same none s = ground arith
  get_participants_route-Same (some room_id) s =
      ground (arith, get_participants_same room_id s.server.db)

  pub list_rooms_route-Same :
      (query : Option PageQuery) (s : App) → Same (list_rooms_route d r query) s
  unfolding Rooms.list
  list_rooms_route-Same none s = refl
  list_rooms_route-Same (some query) s = refl

  module _ (me : AuthUser) where
    pub get_messages_route-Same :
        (params : Option ℕ) (query : Option PageQuery) (s : App)
        → Same (get_messages_route d r me params query) s
    unfolding Rooms.messages
    get_messages_route-Same params query s = ground arith

    pub get_recording_route-Same :
        (params : Option ℕ) (s : App) → Same (get_recording_route d r me params) s
    unfolding Recordings.get_by_id accessible_recording
    get_recording_route-Same params s = ground arith

    pub download_recording_route-Same :
        (params : Option ℕ) (s : App) → Same (download_recording_route d r me params) s
    unfolding Recordings.download accessible_recording
    download_recording_route-Same params s = ground arith

    pub list_recordings_route-Same :
        (query : Option PageQuery) (s : App) → Same (list_recordings_route d r me query) s
    list_recordings_route-Same query s = ground arith

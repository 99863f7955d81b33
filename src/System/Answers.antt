-- ===== src/System/Answers.antt =====
-- Requests over HTTP leave the connections and the sockets' rooms alone.
use smartmeet_backend.Prelude.{
  true, false, ℕ, refl, String, Option, none, some, List, Action, arith, proceed-keeps, Bool-cases,
  inl, inr,
}
use smartmeet_backend.RoomService.{CreateRoomInput, join_room, leave_room}
use smartmeet_backend.UserService.{RegisterInput}
use smartmeet_backend.Authentication.{AuthUser, authenticate}
use smartmeet_backend.Controllers.{App}
use smartmeet_backend.Controllers.Accounts
use smartmeet_backend.Controllers.Rooms.{broadcast_roster_change}
use smartmeet_backend.Controllers.Rooms
use smartmeet_backend.Controllers.Recordings.{accessible_recording}
use smartmeet_backend.Controllers.Recordings
use smartmeet_backend.Http.Requests.{Deployment, PageQuery, Request, Route, Body}
use smartmeet_backend.Http.Routes.{
  register_route, login_route, refresh_route, create_room_route, list_rooms_route, get_room_route,
  join_room_route, leave_room_route, get_participants_route, get_messages_route,
  create_recording_route, list_recordings_route, get_recording_route, download_recording_route,
  authenticated, dispatch, respond, handle,
}
use smartmeet_backend.System.Seats.{Quiet, broadcast-Quiet}

module _ (d : Deployment) (r : Request) (s : App) where
  abbrev Still : Action App (ℕ × Body) → Type 0
  Still m = Quiet s.server (m s).1.server

  accounts-Still :
      (body : Option RegisterInput) (credentials : Option (String × String))
      (token : Option (List ℕ))
      → Still (register_route d r body)
        × Still (login_route d r credentials)
        × Still (refresh_route d r token)
  unfolding Accounts.register Accounts.login Accounts.refresh
  accounts-Still body credentials token = (ground arith, ground arith, ground arith)

  broadcast_roster_change-Quiet :
      (now id : ℕ) (t : App) → Quiet t.server (broadcast_roster_change now id t).server
  unfolding broadcast_roster_change
  broadcast_roster_change-Quiet now id t = elim (Bool-cases t.has_io) [
    | inl io ↦ rw io (broadcast-Quiet now id t.server)
    | inr none_yet ↦ rw none_yet (refl, refl)
  ]

  module _ (me : AuthUser) where
    create_room-Still : (body : Option CreateRoomInput) → Still (create_room_route d r me body)
    unfolding Rooms.create
    create_room-Still body = ground arith

    join_room-Still :
        (params : Option ℕ) (body : Option (Option String))
        → Still (join_room_route d r me params body)
    unfolding Rooms.join
    join_room-Still none body = (refl, refl)
    join_room-Still (some id) none = (refl, refl)
    join_room-Still (some id) (some password) = ground (
      arith,
      broadcast_roster_change-Quiet r.inputs.now id (record s {
        server = record s.server {
          db = (join_room d.bcrypt r.inputs id me.id password s.server.db).1;
        };
      }),
    )

    leave_room-Still : (params : Option ℕ) → Still (leave_room_route d r me params)
    unfolding Rooms.leave
    leave_room-Still none = (refl, refl)
    leave_room-Still (some id) = ground (
      arith,
      broadcast_roster_change-Quiet r.inputs.now id (record s {
        server = record s.server { db = (leave_room r.inputs.now id me.id s.server.db).1 };
      }),
    )

    create_recording-Still :
        (params : Option ℕ) (body : Option (List ℕ)) (duration : ℕ)
        → Still (create_recording_route d r me params body duration)
    unfolding Recordings.create
    create_recording-Still params body duration = ground arith

    reading-Still :
        (params : Option ℕ) (query : Option PageQuery)
        → Still (list_rooms_route d r query)
          × Still (get_room_route d r params)
          × Still (get_participants_route d r params)
          × Still (get_messages_route d r me params query)
          × Still (list_recordings_route d r me query)
          × Still (get_recording_route d r me params)
          × Still (download_recording_route d r me params)
    unfolding Rooms.list Rooms.get_by_id Rooms.participants Rooms.messages Recordings.get_by_id
        Recordings.download accessible_recording
    reading-Still params query = (
      ground arith,
      ground arith,
      ground arith,
      ground arith,
      ground arith,
      ground arith,
      ground arith,
    )

  authenticated-Still :
      (handler : AuthUser → Action App (ℕ × Body))
      → ((me : AuthUser) → Still (handler me))
      → Still (authenticated d r handler)
  authenticated-Still handler h =
      proceed-keeps (λ (t : App). Quiet s.server t.server)
        (authenticate d.jwt d.config r.inputs.now r.authorization, s) handler (refl, refl)
        (λ me e. h me)

  dispatch-Still : (route : Route) → Still (dispatch d r route)
  unfolding dispatch
  dispatch-Still (Route.register body) = (accounts-Still body none none).0
  dispatch-Still (Route.login body) = (accounts-Still none body none).1
  dispatch-Still (Route.refresh token) = (accounts-Still none none token).2
  dispatch-Still (Route.create_room body) = authenticated-Still _ (λ me. create_room-Still me body)
  dispatch-Still (Route.list_rooms q) = authenticated-Still _ (λ me. (reading-Still me none q).0)
  dispatch-Still (Route.get_room id) = authenticated-Still _ (λ me. (reading-Still me id none).1)
  dispatch-Still (Route.get_participants id) =
      authenticated-Still _ (λ me. (reading-Still me id none).2)
  dispatch-Still (Route.get_messages id q) = authenticated-Still _ (λ me. (reading-Still me id q).3)
  dispatch-Still (Route.list_recordings q) =
      authenticated-Still _ (λ me. (reading-Still me none q).4)
  dispatch-Still (Route.get_recording id) =
      authenticated-Still _ (λ me. (reading-Still me id none).5)
  dispatch-Still (Route.download_recording id) =
      authenticated-Still _ (λ me. (reading-Still me id none).6)
  dispatch-Still (Route.join_room id body) =
      authenticated-Still _ (λ me. join_room-Still me id body)
  dispatch-Still (Route.leave_room id) = authenticated-Still _ (λ me. leave_room-Still me id)
  dispatch-Still (Route.create_recording id body duration) =
      authenticated-Still _ (λ me. create_recording-Still me id body duration)
  dispatch-Still (Route.health up) = (refl, refl)
  dispatch-Still (Route.metrics up) = (refl, refl)
  dispatch-Still (Route.unknown true line) = authenticated-Still _ (λ me. (refl, refl))
  dispatch-Still (Route.unknown false line) = (refl, refl)

  pub handle-Quiet : Quiet s.server (handle d r s).1.server
  unfolding handle respond
  handle-Quiet = elim (Bool-cases r.over_api_limit) [
    | inl over ↦ rw over (refl, refl)
    | inr under ↦ rw under (dispatch-Still r.route)
  ]

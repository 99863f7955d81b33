-- ===== src/System/Requests.antt =====
-- What each operation on the database keeps, every HTTP request keeps.
use smartmeet_backend.Prelude.{
  true, false, ℕ, String, ◌≤◌, ◌≡◌, refl, ap, sym, subst, Option, none, some, List, Action, arith,
  inl, inr, Option-cases, Bool-cases, proceed-keeps,
}
use smartmeet_backend.Models.{Database, find_room}
use smartmeet_backend.RoomService.{CreateRoomInput}
use smartmeet_backend.RoomService
use smartmeet_backend.UserService.{RegisterInput, register_user}
use smartmeet_backend.Authentication.{AuthUser, authenticate}
use smartmeet_backend.Controllers.{App, on_database}
use smartmeet_backend.Controllers.Accounts
use smartmeet_backend.Controllers.Rooms.Ghosts.{broadcast_roster_change-db}
use smartmeet_backend.Controllers.Rooms
use smartmeet_backend.Controllers.Recordings
use smartmeet_backend.Http.Requests.{Deployment, Request, Route, Body}
use smartmeet_backend.Http.Routes.{
  register_route, create_room_route, join_room_route, leave_room_route, create_recording_route,
  authenticated, dispatch, respond, handle,
}
use smartmeet_backend.Http.Reading.{
  login_route-Same, refresh_route-Same, get_messages_route-Same, get_recording_route-Same,
  download_recording_route-Same, list_recordings_route-Same, get_room_route-Same,
  get_participants_route-Same, list_rooms_route-Same,
}
use smartmeet_backend.System.Upkeep.{IsKept}

-- What the validation and the environment see to: a new room has an id that no room has, and a
-- place at least.
abbrev pub NewRoom : Request → Database → Type 0
NewRoom r db =
    (body : CreateRoomInput)
    → r.route ≡ Route.create_room (some body)
    → (find_room r.inputs.room_id db ≡ none) × (1 ≤ body.max_participants)

module _ {P : Database → Type 0} (d : Deployment) (k : IsKept d.bcrypt P) (r : Request) where
  abbrev Kept : App → Type 0
  Kept s = P s.server.db

  register-Kept :
      (verdict : Option RegisterInput) (s : App) → Kept s → Kept (register_route d r verdict s).1
  unfolding Accounts.register on_database
  register-Kept verdict s h = elim (Bool-cases r.over_auth_limit) [
    | inl over ↦ rw over h
    | inr under ↦ elim (Option-cases verdict) [
      | inl invalid ↦ rw (under, invalid) h
      | inr (body, valid) ↦
          let kept = k.register d.jwt d.config r.inputs.now r.account body s.server.db h in
          rw (under, valid)
            (proceed-keeps Kept
              (on_database (register_user d.jwt d.config d.bcrypt r.inputs.now r.account body) s) _
              kept (λ p e. kept))
    ]
  ]

  module _ (me : AuthUser) where
    create_room-Kept :
        (verdict : Option CreateRoomInput) (s : App)
        → ((body : CreateRoomInput)
            → verdict ≡ some body
            → (find_room r.inputs.room_id s.server.db ≡ none) × (1 ≤ body.max_participants))
        → Kept s
        → Kept (create_room_route d r me verdict s).1
    unfolding Rooms.create on_database
    create_room-Kept none s new h = h
    create_room-Kept (some body) s new h =
        let (fresh, space) = new body refl in
        let kept = k.create r.inputs (record body { host_id = me.id }) s.server.db fresh space h in
        proceed-keeps Kept (Rooms.create d.bcrypt r.inputs me body s) _
          (proceed-keeps Kept
            (on_database
              (RoomService.create_room d.bcrypt r.inputs (record body { host_id = me.id })) s)
            _ kept (λ room e. kept))
          (λ room e.
            proceed-keeps Kept
              (on_database
                (RoomService.create_room d.bcrypt r.inputs (record body { host_id = me.id })) s)
              _ kept (λ q c. kept))

    join_room-Kept :
        (params : Option ℕ) (verdict : Option (Option String)) (s : App)
        → Kept s
        → Kept (join_room_route d r me params verdict s).1
    unfolding Rooms.join on_database
    join_room-Kept none verdict s h = h
    join_room-Kept (some id) none s h = h
    join_room-Kept (some id) (some password) s h =
        let kept = k.join r.inputs id me.id password s.server.db h in
        let joined : Kept (Rooms.join d.bcrypt r.inputs me id password s).1 =
          proceed-keeps Kept
            (on_database (RoomService.join_room d.bcrypt r.inputs id me.id password) s) _ kept
            (λ p e. subst P (sym (broadcast_roster_change-db r.inputs.now id _)) kept) in
        proceed-keeps Kept (Rooms.join d.bcrypt r.inputs me id password s) _ joined (λ p e. joined)

    leave_room-Kept :
        (params : Option ℕ) (s : App) → Kept s → Kept (leave_room_route d r me params s).1
    unfolding Rooms.leave on_database
    leave_room-Kept none s h = h
    leave_room-Kept (some id) s h =
        let kept = k.leave r.inputs.now id me.id s.server.db h in
        let left : Kept (Rooms.leave r.inputs.now me id s).1 =
          proceed-keeps Kept (on_database (RoomService.leave_room r.inputs.now id me.id) s) _ kept
            (λ p e. subst P (sym (broadcast_roster_change-db r.inputs.now id _)) kept) in
        proceed-keeps Kept (Rooms.leave r.inputs.now me id s) _ left (λ p e. left)

    create_recording-Kept :
        (params : Option ℕ) (body : Option (List ℕ)) (duration : ℕ) (s : App)
        → Kept s
        → Kept (create_recording_route d r me params body duration s).1
    unfolding Recordings.create
    create_recording-Kept params body duration s h =
        let (users, rooms, participants) = tables in k.rows s.server.db _ users rooms participants h
      where
        tables :
            ((create_recording_route d r me params body duration s).1.server.db.users
              ≡ s.server.db.users)
            × ((create_recording_route d r me params body duration s).1.server.db.rooms
                ≡ s.server.db.rooms)
            × ((create_recording_route d r me params body duration s).1.server.db.participants
                ≡ s.server.db.participants)
        tables = ground arith

  authenticated-Kept :
      (handler : AuthUser → Action App (ℕ × Body)) (s : App)
      → ((me : AuthUser) → Kept (handler me s).1)
      → Kept s
      → Kept (authenticated d r handler s).1
  authenticated-Kept handler s h old =
      proceed-keeps Kept (authenticate d.jwt d.config r.inputs.now r.authorization, s) handler old
        (λ me e. h me)

  dispatch-Kept :
      (route : Route) (s : App)
      → ((body : CreateRoomInput)
          → route ≡ Route.create_room (some body)
          → (find_room r.inputs.room_id s.server.db ≡ none) × (1 ≤ body.max_participants))
      → Kept s
      → Kept (dispatch d r route s).1
  unfolding dispatch
  dispatch-Kept (Route.register body) s new h = register-Kept body s h
  dispatch-Kept (Route.login body) s new h = subst P (sym (login_route-Same d r body s)) h
  dispatch-Kept (Route.refresh token) s new h = subst P (sym (refresh_route-Same d r token s)) h
  dispatch-Kept (Route.create_room verdict) s new h =
      authenticated-Kept _ s
        (λ me.
          create_room-Kept me verdict s (λ body e. new body (ap (λ v. Route.create_room v) e)) h)
        h
  dispatch-Kept (Route.list_rooms query) s new h =
      authenticated-Kept _ s (λ me. subst P (sym (list_rooms_route-Same d r query s)) h) h
  dispatch-Kept (Route.get_room id) s new h =
      authenticated-Kept _ s (λ me. subst P (sym (get_room_route-Same d r id s)) h) h
  dispatch-Kept (Route.join_room id password) s new h =
      authenticated-Kept _ s (λ me. join_room-Kept me id password s h) h
  dispatch-Kept (Route.leave_room id) s new h =
      authenticated-Kept _ s (λ me. leave_room-Kept me id s h) h
  dispatch-Kept (Route.get_participants id) s new h =
      authenticated-Kept _ s (λ me. subst P (sym (get_participants_route-Same d r id s)) h) h
  dispatch-Kept (Route.get_messages id query) s new h =
      authenticated-Kept _ s (λ me. subst P (sym (get_messages_route-Same d r me id query s)) h) h
  dispatch-Kept (Route.create_recording id body duration) s new h =
      authenticated-Kept _ s (λ me. create_recording-Kept me id body duration s h) h
  dispatch-Kept (Route.list_recordings query) s new h =
      authenticated-Kept _ s (λ me. subst P (sym (list_recordings_route-Same d r me query s)) h) h
  dispatch-Kept (Route.get_recording id) s new h =
      authenticated-Kept _ s (λ me. subst P (sym (get_recording_route-Same d r me id s)) h) h
  dispatch-Kept (Route.download_recording id) s new h =
      authenticated-Kept _ s (λ me. subst P (sym (download_recording_route-Same d r me id s)) h) h
  dispatch-Kept (Route.health up) s new h = h
  dispatch-Kept (Route.metrics up) s new h = h
  dispatch-Kept (Route.unknown true line) s new h = authenticated-Kept _ s (λ me. h) h
  dispatch-Kept (Route.unknown false line) s new h = h

  pub handle-Kept : (s : App) → NewRoom r s.server.db → Kept s → Kept (handle d r s).1
  unfolding handle respond
  handle-Kept s new h = elim (Bool-cases r.over_api_limit) [
    | inl over ↦ rw over h
    | inr under ↦ rw under (dispatch-Kept r.route s new h)
  ]

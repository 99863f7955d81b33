-- ===== src/Http/Faults/Requests.antt =====
-- The answers to requests about accounts, rooms and the details of recordings, whatever their
-- payloads are.
use smartmeet_backend.Prelude.{
  ℕ, ◌<◌, ◌≡◌, refl, sym, ◌∙◌, subst, String, Bool, true, false, Option, none, some, List, arith,
  Result, ok, err, Action, Bool-cases, Option-cases, inl, inr,
}
use smartmeet_backend.Errors.{Failure, auth_error}
use smartmeet_backend.Models.{find_room}
use smartmeet_backend.RoomService.{CreateRoomInput}
use smartmeet_backend.RoomService.Invariant.{IsConsistent}
use smartmeet_backend.RoomService.Locks.{HasLocks}
use smartmeet_backend.UserService.{RegisterInput}
use smartmeet_backend.Authentication.{AuthUser, authenticate}
use smartmeet_backend.Controllers.{App}
use smartmeet_backend.Controllers.Accounts
use smartmeet_backend.Controllers.Rooms
use smartmeet_backend.Controllers.Recordings.{accessible_recording}
use smartmeet_backend.Controllers.Recordings
use smartmeet_backend.Validators.{Payload}
use smartmeet_backend.Validators
use smartmeet_backend.Validators.Meaning.{Joi, IsJoi}
use smartmeet_backend.Http.Errors.{ErrorAnswer, app_status, error_handler}
use smartmeet_backend.Http.Requests.{Deployment, Request, PageQuery, Body, failure}
use smartmeet_backend.Http.Payloads.{
  Sent, receive, read_create_room, register, login, refresh, create_room, list_rooms,
  list_recordings, get_room, leave_room, get_participants, get_recording, download_recording,
  join_room, get_messages, create_recording, health, metrics, unknown,
}
use smartmeet_backend.Http.Payloads.Accepted.{IsSoundInput, read_create_room-IsSoundInput}
use smartmeet_backend.Http.Access.{authenticate-err}
use smartmeet_backend.Http.Routes.{
  register_route, login_route, refresh_route, create_room_route, join_room_route, leave_room_route,
  get_room_route, get_participants_route, get_messages_route, list_rooms_route,
  list_recordings_route, get_recording_route, authenticated, dispatch, respond, handle, answer_of,
  status_of,
}
use smartmeet_backend.Http.Faults.Codes.{is_health, respond-IsCalm}
use smartmeet_backend.Http.Faults.Services.{
  is_told, is_told-status, Tells, Signs, proceed-Tells, register_user-Tells, login_user-Tells,
  refresh_tokens-Tells, create_room-Tells, join_room-Tells, get_room_by_id-Tells,
  get_participants-Tells, leave_room-Tells,
}

below :
    (production : Bool) (e : Failure) (answer : ErrorAnswer)
    → is_told e ≡ true
    → failure (error_handler production e) ≡ failure answer
    → answer.status_code < 500
unfolding error_handler
below production e answer told same = elim (Option-cases (app_status e)) [
  | inl internal ↦ ground arith
  | inr (code, status) ↦ ground (arith, is_told-status e code status)
]

module _ (d : Deployment) (signs : Signs d.jwt d.config) (r : Request) (s : App) where
  register_route-Tells : (body : Option RegisterInput) → Tells (register_route d r body s)
  unfolding Accounts.register app_status
  register_route-Tells none e h = ground arith
  register_route-Tells (some body) e h = ground (
    arith,
    register_user-Tells d.jwt d.config signs r.inputs.now s.server.db d.bcrypt r.account body e,
  )

  login_route-Tells : (body : Option (String × String)) → Tells (login_route d r body s)
  unfolding Accounts.login app_status
  login_route-Tells none e h = ground arith
  login_route-Tells (some body) e h = ground (
    arith,
    login_user-Tells d.jwt d.config signs r.inputs.now s.server.db d.bcrypt body.0 body.1 e,
  )

  refresh_route-Tells : (body : Option (List ℕ)) → Tells (refresh_route d r body s)
  unfolding Accounts.refresh app_status
  refresh_route-Tells none e h = ground arith
  refresh_route-Tells (some token) e h =
      ground (arith, refresh_tokens-Tells d.jwt d.config signs r.inputs.now s.server.db token e)

  get_room_route-Tells : (params : Option ℕ) → Tells (get_room_route d r params s)
  unfolding Rooms.get_by_id app_status
  get_room_route-Tells none e h = ground arith
  get_room_route-Tells (some id) e h = ground (arith, get_room_by_id-Tells id s.server.db e)

  get_participants_route-Tells : (params : Option ℕ) → Tells (get_participants_route d r params s)
  unfolding Rooms.participants app_status
  get_participants_route-Tells none e h = ground arith
  get_participants_route-Tells (some id) e h =
      ground (arith, get_participants-Tells id s.server.db e)

  list_rooms_route-Tells : (query : Option PageQuery) → Tells (list_rooms_route d r query s)
  unfolding Rooms.list app_status
  list_rooms_route-Tells none e h = ground arith
  list_rooms_route-Tells (some query) e h = ground arith

  module _ (me : AuthUser) where
    create_room_route-Tells :
        (body : Option CreateRoomInput)
        → ((input : CreateRoomInput) → body ≡ some input → IsSoundInput input)
        → find_room r.inputs.room_id s.server.db ≡ none
        → IsConsistent s.server.db
        → Tells (create_room_route d r me body s)
    unfolding Rooms.create app_status
    create_room_route-Tells none sound fresh c e h = ground arith
    create_room_route-Tells (some body) sound fresh c e h = ground (
      arith,
      create_room-Tells d.bcrypt r.inputs (record body { host_id = me.id }) s.server.db
          (sound body refl).locked fresh c e,
    )

    join_room_route-Tells :
        (params : Option ℕ) (body : Option (Option String))
        → HasLocks s.server.db
        → Tells (join_room_route d r me params body s)
    unfolding Rooms.join app_status
    join_room_route-Tells none body locks e h = ground arith
    join_room_route-Tells (some id) none locks e h = ground arith
    join_room_route-Tells (some id) (some password) locks e h =
        ground (arith, join_room-Tells d.bcrypt id me.id password s.server.db r.inputs locks e)

    leave_room_route-Tells : (params : Option ℕ) → Tells (leave_room_route d r me params s)
    unfolding Rooms.leave app_status
    leave_room_route-Tells none e h = ground arith
    leave_room_route-Tells (some id) e h =
        ground (arith, leave_room-Tells id s.server.db r.inputs.now me.id e)

    get_messages_route-Tells :
        (params : Option ℕ) (query : Option PageQuery)
        → Tells (get_messages_route d r me params query s)
    unfolding Rooms.messages app_status
    get_messages_route-Tells params query e h = ground arith

    list_recordings_route-Tells :
        (query : Option PageQuery) → Tells (list_recordings_route d r me query s)
    unfolding app_status
    list_recordings_route-Tells query e h = ground arith

    get_recording_route-Tells : (params : Option ℕ) → Tells (get_recording_route d r me params s)
    unfolding Recordings.get_by_id accessible_recording app_status
    get_recording_route-Tells params e h = ground arith

  authenticated-Tells :
      (handler : AuthUser → Action App (ℕ × Body))
      → ((me : AuthUser) → Tells (handler me s))
      → Tells (authenticated d r handler s)
  unfolding app_status
  authenticated-Tells handler h =
      proceed-Tells (authenticate d.jwt d.config r.inputs.now r.authorization, s) handler
        (λ e q.
          let (m, is_auth) = authenticate-err d.jwt d.config r.inputs.now r.authorization e q in
          rw is_auth (told m))
        (λ me e. h me)
    where
      told : (m : String) → is_told (auth_error m) ≡ true
      told m = refl

-- the requests that write or send a file
abbrev pub moves_file : Sent → Bool
moves_file (create_recording params body duration) = true
moves_file (download_recording params) = true
moves_file _ = false

module _ (joi : Joi) (laws : IsJoi joi) (id_of : String → ℕ) (d : Deployment)
    (signs : Signs d.jwt d.config) (r : Request) (s : App)
    (fresh : find_room r.inputs.room_id s.server.db ≡ none) (c : IsConsistent s.server.db)
    (locks : HasLocks s.server.db) where
  -- What the handler of a new room is given is sound, whatever was sent.
  read-IsSoundInput :
      (body : Payload) (input : CreateRoomInput)
      → read_create_room joi body ≡ some input
      → IsSoundInput input
  read-IsSoundInput body input e = elim (Option-cases (joi.validate Validators.create_room body)) [
    | inl refused ↦ absurd (cc (rw refused at e))
    | inr (accepted, valid) ↦
        let (input', read, sound) = read_create_room-IsSoundInput joi laws body accepted valid in
        let same : some input' ≡ some input = sym read ∙ e in
        subst IsSoundInput (ground arith) sound
  ]

  dispatch-Tells :
      (sent : Sent) → moves_file sent ≡ false → Tells (dispatch d r (receive joi id_of sent) s)
  unfolding dispatch receive
  dispatch-Tells (register body) m = register_route-Tells d signs r s _
  dispatch-Tells (login body) m = login_route-Tells d signs r s _
  dispatch-Tells (refresh body) m = refresh_route-Tells d signs r s _
  dispatch-Tells (create_room body) m = authenticated-Tells d signs r s _ (λ me.
      create_room_route-Tells d signs r s me (read_create_room joi body) (read-IsSoundInput body)
        fresh c)
  dispatch-Tells (list_rooms query) m =
      authenticated-Tells d signs r s _ (λ me. list_rooms_route-Tells d signs r s _)
  dispatch-Tells (list_recordings query) m =
      authenticated-Tells d signs r s _ (λ me. list_recordings_route-Tells d signs r s me _)
  dispatch-Tells (get_room params) m =
      authenticated-Tells d signs r s _ (λ me. get_room_route-Tells d signs r s _)
  dispatch-Tells (leave_room params) m =
      authenticated-Tells d signs r s _ (λ me. leave_room_route-Tells d signs r s me _)
  dispatch-Tells (get_participants params) m =
      authenticated-Tells d signs r s _ (λ me. get_participants_route-Tells d signs r s _)
  dispatch-Tells (get_recording params) m =
      authenticated-Tells d signs r s _ (λ me. get_recording_route-Tells d signs r s me _)
  dispatch-Tells (join_room params body) m =
      authenticated-Tells d signs r s _ (λ me. join_room_route-Tells d signs r s me _ _ locks)
  dispatch-Tells (get_messages params query) m =
      authenticated-Tells d signs r s _ (λ me. get_messages_route-Tells d signs r s me _ _)
  dispatch-Tells (create_recording params body duration) m = absurd (cc m)
  dispatch-Tells (download_recording params) m = absurd (cc m)
  dispatch-Tells (health up) m = λ e h. absurd (cc h)
  dispatch-Tells (metrics up) m = λ e h. absurd (cc h)
  dispatch-Tells (unknown true line) m = authenticated-Tells d signs r s _ (λ me e h. absurd (cc h))
  dispatch-Tells (unknown false line) m = λ e h. absurd (cc h)

  respond-Tells :
      (sent : Sent)
      → r.route ≡ receive joi id_of sent
      → moves_file sent ≡ false
      → Tells (respond d r s)
  unfolding respond app_status
  respond-Tells sent route m e h = elim (Bool-cases r.over_api_limit) [
    | inl over ↦ ground (arith, over)
    | inr under ↦ dispatch-Tells sent m e (rw (under, route) at h)
  ]

  pub handle-below_500 :
      (sent : Sent)
      → r.route ≡ receive joi id_of sent
      → moves_file sent ≡ false
      → is_health r.route ≡ false
      → status_of d r (handle d r s).0 < 500
  unfolding handle
  handle-below_500 sent route m n =
      go (respond d r s).0 (respond-Tells sent route m) (respond-IsCalm d r s n)
    where
      go :
          (end : Result (ℕ × Body))
          → ((e : Failure) → end ≡ err e → is_told e ≡ true)
          → ((code : ℕ) (body : Body) → end ≡ ok (code, body) → code < 500)
          → status_of d r (answer_of d r end) < 500
      go (ok (code, body)) tells calm = calm code body refl
      go (err e) tells calm = below d.is_production e _ (tells e refl) refl

-- ===== src/Http/Failures.antt =====
-- What a request that fails leaves behind.
use smartmeet_backend.Prelude.{
  ℕ, String, List, ◌≡◌, refl, ap, subst, false, sym, ◌∙◌, Option-cases, Option, none, some, Result,
  ok, err, Action, proceed, arith, inl, inr, ◌⊎◌, Bool-cases,
}
use smartmeet_backend.Errors.{Failure}
use smartmeet_backend.Models.{Database, User, add_user}
use smartmeet_backend.RoomService.{Bcrypt, CreateRoomInput}
use smartmeet_backend.RoomService.Join.{join_room_fails_same}
use smartmeet_backend.RoomService.Atomicity.{create_room_fails_same, leave_room_fails_same}
use smartmeet_backend.UserService.{
  Jwt, JwtConfig, NewAccount, RegisterInput, register_check, register_user, TokenPair, new_user,
  issue_token_pair, find_user_by_email, find_user_by_username,
}
use smartmeet_backend.UserService.Accounts.{register_user-run, register_user-stores}
use smartmeet_backend.Authentication.{AuthUser, authenticate}
use smartmeet_backend.RoomService.Roster.Seen.{Result-cases}
use smartmeet_backend.Controllers.{App}
use smartmeet_backend.Controllers.Accounts
use smartmeet_backend.Controllers.Rooms
use smartmeet_backend.Controllers.Recordings.{accessible_recording}
use smartmeet_backend.Controllers.Recordings
use smartmeet_backend.Http.Reading.{
  login_route-Same, refresh_route-Same, get_messages_route-Same, get_recording_route-Same,
  download_recording_route-Same, list_recordings_route-Same, get_room_route-Same,
  get_participants_route-Same, list_rooms_route-Same,
}
use smartmeet_backend.Http.Errors.{ErrorAnswer, error_handler}
use smartmeet_backend.Http.Requests.{
  Deployment, Request, Route, Body, failure, register, login, refresh, create_room, list_rooms,
  get_room, join_room, leave_room, get_participants, get_messages, create_recording,
  list_recordings, get_recording, download_recording, health, metrics, unknown,
}
use smartmeet_backend.Http.Routes.{
  register_route, create_room_route, join_room_route, leave_room_route, create_recording_route,
  authenticated, dispatch, respond, handle, answer_of,
}

-- A registration whose account is stored, and whose tokens jsonwebtoken then does not sign.
pub record IsUnsigned (d : Deployment) (r : Request) (route : Route) (e : Failure)
    (db later : Database) : Type 0 where
  pub body : RegisterInput
  pub registers : route ≡ register (some body)
  pub unsigned :
      (issue_token_pair d.jwt d.config r.inputs.now (new_user d.bcrypt r.account body) db).0 ≡ err e
  pub stored : later ≡ add_user (new_user d.bcrypt r.account body) db

module _ (jwt : Jwt) (config : JwtConfig) (bcrypt : Bcrypt) (now : ℕ) (a : NewAccount)
    (input : RegisterInput) (db : Database) where
  abbrev made : Result TokenPair × Database
  made = register_user jwt config bcrypt now a input db

  issue_error :
      (u : User) (later : Database) (e : Failure)
      → (issue_token_pair jwt config now u later).0 ≡ err e
      → (issue_token_pair jwt config now u db).0 ≡ err e
  unfolding issue_token_pair
  issue_error u later e h = ground arith

  register_user_fails :
      (e : Failure)
      → made.0 ≡ err e
      → (made.1 ≡ db)
        ⊎ (((issue_token_pair jwt config now (new_user bcrypt a input) db).0 ≡ err e)
            × (made.1 ≡ add_user (new_user bcrypt a input) db))
  unfolding register_user register_check
  register_user_fails e h = elim (Option-cases (find_user_by_email input.email db)) [
    | inr (u, old) ↦ inl (rw old refl)
    | inl new_email ↦ elim (Option-cases (find_user_by_username input.username db)) [
      | inr (u, old) ↦ inl (rw (new_email, old) refl)
      | inl new_name ↦
          let run = register_user-run jwt config bcrypt now a input db new_email new_name in
          inr (
            issue_error (new_user bcrypt a input) (add_user (new_user bcrypt a input) db) e
                (ap (λ x. x.0) (sym run) ∙ h),
            register_user-stores jwt config bcrypt now a input db new_email new_name,
          )
    ]
  ]

-- A call that fails and then leaves its state has either succeeded, or failed and left it.
ended :
    {S A : Type 0} (step : Result A × S) (s : S)
    → ((e : Failure) → step.0 ≡ err e → step.1 ≡ s)
    → ((a : A) × (step.0 ≡ ok a)) ⊎ ((e : Failure) × (step ≡ (err e, s)))
ended (ok a, t) s h = inl (a, refl)
ended (err e, t) s h = inr (e, ap (λ u. (err e, u)) (h e refl))

module _ (d : Deployment) (r : Request) where
  abbrev Undone : Action App (ℕ × Body) → App → Type 0
  Undone m s = (e : Failure) → (m s).0 ≡ err e → (m s).1.server.db ≡ s.server.db

  -- What a route that fails leaves: every table as it was, or the account of such a registration.
  abbrev Ended : Route → Action App (ℕ × Body) → App → Type 0
  Ended route m s =
      (e : Failure)
      → (m s).0 ≡ err e
      → ((m s).1.server.db ≡ s.server.db) ⊎ IsUnsigned d r route e s.server.db (m s).1.server.db

  kept :
      (route : Route) (s : App) → Undone (dispatch d r route) s → Ended route (dispatch d r route) s
  kept route s undone e h = inl (undone e h)

  register-Ended :
      (body : Option RegisterInput) (s : App) → Ended (register body) (register_route d r body) s
  unfolding Accounts.register
  register-Ended none s e h = inl (ground arith)
  register-Ended (some body) s e h = elim (Bool-cases r.over_auth_limit) [
    | inl over ↦ inl (ground (arith, over))
    | inr under ↦
        elim (Result-cases
          (made d.jwt d.config d.bcrypt r.inputs.now r.account body s.server.db).0) [
            | inl (pair, done) ↦ absurd (ground (arith, under, done))
            | inr (x, failed) ↦
                let same : x ≡ e = ground (arith, under, failed) in
                let end : (register_route d r (some body) s).1.server.db
                    ≡ (made d.jwt d.config d.bcrypt r.inputs.now r.account body s.server.db).1 =
                  ground (arith, under, failed) in
                rw end
                  (elim (register_user_fails d.jwt d.config d.bcrypt r.inputs.now r.account body
                    s.server.db e (failed ∙ ap (λ y. err y) same)) [
                      | inl kept_db ↦ inl kept_db
                      | inr (unsigned, stored) ↦ inr (record {
                        body = body;
                        registers = refl;
                        unsigned = unsigned;
                        stored = stored;
                      })
                    ])
          ]
  ]

  module _ (me : AuthUser) where
    create_room-Undone :
        (body : Option CreateRoomInput) (s : App) → Undone (create_room_route d r me body) s
    unfolding Rooms.create
    create_room-Undone none s e h = ground arith
    create_room-Undone (some body) s e h =
        elim (ended _ s.server.db (
          create_room_fails_same d.bcrypt r.inputs (record body { host_id = me.id }) s.server.db)) [
            | inl (a, done) ↦ ground (arith, done)
            | inr (x, failed) ↦ ground (arith, failed)
          ]

    join_room-Undone :
        (params : Option ℕ) (body : Option (Option String)) (s : App)
        → Undone (join_room_route d r me params body) s
    unfolding Rooms.join
    join_room-Undone none body s e h = ground arith
    join_room-Undone (some room_id) none s e h = ground arith
    join_room-Undone (some room_id) (some password) s e h =
        elim (ended _ s.server.db
          (join_room_fails_same d.bcrypt r.inputs room_id me.id password s.server.db)) [
            | inl (a, done) ↦ ground (arith, done)
            | inr (x, failed) ↦ ground (arith, failed)
          ]

    leave_room-Undone : (params : Option ℕ) (s : App) → Undone (leave_room_route d r me params) s
    unfolding Rooms.leave
    leave_room-Undone none s e h = ground arith
    leave_room-Undone (some room_id) s e h =
        elim (ended _ s.server.db (leave_room_fails_same r.inputs.now room_id me.id s.server.db)) [
          | inl (a, done) ↦ ground (arith, done)
          | inr (x, failed) ↦ ground (arith, failed)
        ]

    create_recording-Undone :
        (params : Option ℕ) (body : Option (List ℕ)) (duration : ℕ) (s : App)
        → Undone (create_recording_route d r me params body duration) s
    unfolding Recordings.create
    create_recording-Undone none body duration s e h = ground arith
    create_recording-Undone (some room_id) body duration s e h = ground arith

  authenticated-Undone :
      (handler : AuthUser → Action App (ℕ × Body)) (s : App)
      → ((me : AuthUser) → Undone (handler me) s)
      → Undone (authenticated d r handler) s
  authenticated-Undone handler s h e failed =
      go (authenticate d.jwt d.config r.inputs.now r.authorization) failed
    where
      go :
          (found : Result AuthUser)
          → (proceed (found, s) handler).0 ≡ err e
          → (proceed (found, s) handler).1.server.db ≡ s.server.db
      go (ok me) k = h me e k
      go (err x) k = refl

  dispatch-Ended : (route : Route) (s : App) → Ended route (dispatch d r route) s
  unfolding dispatch
  dispatch-Ended (register body) s = register-Ended body s
  dispatch-Ended (login body) s = kept (login body) s (λ e h. login_route-Same d r body s)
  dispatch-Ended (refresh token) s = kept (refresh token) s (λ e h. refresh_route-Same d r token s)
  dispatch-Ended (create_room body) s =
      kept (create_room body) s (authenticated-Undone _ s (λ me. create_room-Undone me body s))
  dispatch-Ended (list_rooms query) s =
      kept (list_rooms query) s
        (authenticated-Undone _ s (λ me e h. list_rooms_route-Same d r query s))
  dispatch-Ended (get_room id) s =
      kept (get_room id) s (authenticated-Undone _ s (λ me e h. get_room_route-Same d r id s))
  dispatch-Ended (join_room id password) s =
      kept (join_room id password) s
        (authenticated-Undone _ s (λ me. join_room-Undone me id password s))
  dispatch-Ended (leave_room id) s =
      kept (leave_room id) s (authenticated-Undone _ s (λ me. leave_room-Undone me id s))
  dispatch-Ended (get_participants id) s =
      kept (get_participants id) s
        (authenticated-Undone _ s (λ me e h. get_participants_route-Same d r id s))
  dispatch-Ended (get_messages id query) s =
      kept (get_messages id query) s
        (authenticated-Undone _ s (λ me e h. get_messages_route-Same d r me id query s))
  dispatch-Ended (create_recording id body duration) s =
      kept (create_recording id body duration) s
        (authenticated-Undone _ s (λ me. create_recording-Undone me id body duration s))
  dispatch-Ended (list_recordings query) s =
      kept (list_recordings query) s
        (authenticated-Undone _ s (λ me e h. list_recordings_route-Same d r me query s))
  dispatch-Ended (get_recording id) s =
      kept (get_recording id) s
        (authenticated-Undone _ s (λ me e h. get_recording_route-Same d r me id s))
  dispatch-Ended (download_recording id) s =
      kept (download_recording id) s
        (authenticated-Undone _ s (λ me e h. download_recording_route-Same d r me id s))
  dispatch-Ended (health up) s = kept (health up) s (λ e h. refl)
  dispatch-Ended (metrics up) s = kept (metrics up) s (λ e h. refl)
  dispatch-Ended (unknown guarded line) s = kept (unknown guarded line) s (λ e h. ground arith)

  respond_under : (s : App) → r.over_api_limit ≡ false → respond d r s ≡ dispatch d r r.route s
  unfolding respond
  respond_under s under = rw under refl

  respond-Ended : (s : App) → Ended r.route (respond d r) s
  unfolding respond
  respond-Ended s e h = elim (Bool-cases r.over_api_limit) [
    | inl over ↦ inl (ground (arith, over))
    | inr under ↦
        subst
          (λ (x : Result (ℕ × Body) × App).
            x.0 ≡ err e
            → (x.1.server.db ≡ s.server.db) ⊎ IsUnsigned d r r.route e s.server.db x.1.server.db)
          (sym (respond_under s under)) (dispatch-Ended r.route s e) h
  ]

  -- A request of any route that is answered with an error leaves every table as it was, if the
  -- database answers its queries; but for a registration whose tokens jsonwebtoken does not sign,
  -- which is answered with that error, and whose account is stored all the same.
  pub handle-failure :
      (s : App) (answer : ErrorAnswer)
      → (handle d r s).0 ≡ failure answer
      → ((handle d r s).1.server.db ≡ s.server.db)
        ⊎ ((e : Failure) × (answer ≡ error_handler d.is_production e)
            × IsUnsigned d r r.route e s.server.db (handle d r s).1.server.db)
  unfolding handle
  handle-failure s answer h = go (respond d r s) (respond-Ended s) h
    where
      go :
          (end : Result (ℕ × Body) × App)
          → ((e : Failure)
              → end.0 ≡ err e
              → (end.1.server.db ≡ s.server.db)
                ⊎ IsUnsigned d r r.route e s.server.db end.1.server.db)
          → answer_of d r end.0 ≡ failure answer
          → (end.1.server.db ≡ s.server.db)
            ⊎ ((e : Failure) × (answer ≡ error_handler d.is_production e)
                × IsUnsigned d r r.route e s.server.db end.1.server.db)
      go (ok (status_code, body), t) k failed = cc
      go (err e, t) k failed = elim (k e refl) [
        | inl same ↦ inl same
        | inr unsigned ↦ inr (e, ground arith, unsigned)
      ]

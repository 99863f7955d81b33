-- ===== src/Http/Access.antt =====
-- What a request without a valid access token gets, and what the answers to errors tell.
use smartmeet_backend.Prelude.{
  ℕ, String, ◌≤◌, ◌≡◌, refl, subst, Bool, true, false, Option, none, some, Result, ok, err, arith,
  List,
}
use smartmeet_backend.Errors.{
  Failure, validation_error, auth_error, forbidden_error, not_found_error, conflict_error,
  too_many_requests_error, plain_error, library_error, unique_constraint_error, illegal_arguments,
}
use smartmeet_backend.UserService.{Jwt, JwtConfig, Verified, verified, expired, invalid}
use smartmeet_backend.Authentication.{
  split_space, bearer_token, access_of, access_of_token, authenticate,
}
use smartmeet_backend.Controllers.{App}
use smartmeet_backend.Http.Errors.{ErrorAnswer, app_status, own_status, message_of, error_handler}
use smartmeet_backend.Http.Requests.{
  Deployment, Request, Route, Body, failure, register, login, refresh, create_room, list_rooms,
  get_room, join_room, leave_room, get_participants, get_messages, create_recording,
  list_recordings, get_recording, download_recording, health, metrics, unknown,
}
use smartmeet_backend.Http.Routes.{dispatch, respond, handle, finish, answer_of}

-- the routes of rooms and of recordings
abbrev pub is_protected : Route → Bool
is_protected (register _) = false
is_protected (login _) = false
is_protected (refresh _) = false
is_protected (health _) = false
is_protected (metrics _) = false
is_protected (unknown is_guarded _) = is_guarded
is_protected _ = true

module _ (jwt : Jwt) (config : JwtConfig) where
  access_of-err :
      (v : Verified) (e : Failure) → access_of v ≡ err e → (m : String) × (e ≡ auth_error m)
  access_of-err (verified p) e h = cc
  access_of-err expired e h = ("Access token expired", ground arith)
  access_of-err invalid e h = ("Invalid access token", ground arith)

  access_of_token-err :
      (now : ℕ) (token : Option (List ℕ)) (e : Failure)
      → access_of_token jwt config now token ≡ err e
      → (m : String) × (e ≡ auth_error m)
  access_of_token-err now none e h = ("Missing or malformed Authorization header", ground arith)
  access_of_token-err now (some token) e h = access_of-err (jwt.verify now token config.secret) e h

  pub authenticate-err :
      (now : ℕ) (header : List ℕ) (e : Failure)
      → authenticate jwt config now header ≡ err e
      → (m : String) × (e ≡ auth_error m)
  unfolding authenticate
  authenticate-err now header e h = access_of_token-err now (bearer_token (split_space header)) e h

module _ (d : Deployment) (r : Request) where
  dispatch_refused :
      (route : Route) (e : Failure) (s : App)
      → is_protected route ≡ true
      → authenticate d.jwt d.config r.inputs.now r.authorization ≡ err e
      → dispatch d r route s ≡ (err e, s)
  unfolding dispatch
  dispatch_refused (register body) e s h k = cc
  dispatch_refused (login body) e s h k = cc
  dispatch_refused (refresh token) e s h k = cc
  dispatch_refused (health up) e s h k = cc
  dispatch_refused (metrics up) e s h k = cc
  dispatch_refused (unknown guarded line) e s h k = rw (h, k) refl
  dispatch_refused (create_room body) e s h k = rw k refl
  dispatch_refused (list_rooms query) e s h k = rw k refl
  dispatch_refused (get_room id) e s h k = rw k refl
  dispatch_refused (join_room id password) e s h k = rw k refl
  dispatch_refused (leave_room id) e s h k = rw k refl
  dispatch_refused (get_participants id) e s h k = rw k refl
  dispatch_refused (get_messages id query) e s h k = rw k refl
  dispatch_refused (create_recording id body duration) e s h k = rw k refl
  dispatch_refused (list_recordings query) e s h k = rw k refl
  dispatch_refused (get_recording id) e s h k = rw k refl
  dispatch_refused (download_recording id) e s h k = rw k refl

  -- Every request about rooms or recordings whose token the middleware refuses, and that is within
  -- the rate limit, is answered with 401, and nothing but the metrics changes.
  pub handle-unauthenticated :
      (e : Failure) (s : App)
      → is_protected r.route ≡ true
      → r.over_api_limit ≡ false
      → authenticate d.jwt d.config r.inputs.now r.authorization ≡ err e
      → (answer : ErrorAnswer) × (answer.status_code ≡ 401)
        × (handle d r s ≡ (failure answer, finish d r (failure answer) s))
  unfolding handle respond error_handler app_status
  handle-unauthenticated e s h under k =
      let (m, is_auth) = authenticate-err d.jwt d.config r.inputs.now r.authorization e k in
      (
        error_handler d.is_production (auth_error m),
        refl,
        rw (under, dispatch_refused r.route e s h k, is_auth) refl,
      )

-- What an answer to an error does not tell: the stack, and the message of an error that the
-- program does not throw for the client.
abbrev pub TellsNothing : ErrorAnswer → Type 0
TellsNothing a = (a.has_stack ≡ false) × (500 ≤ a.status_code → a.message ≡ "Internal server error")

error_handler-TellsNothing : (e : Failure) → TellsNothing (error_handler true e)
unfolding error_handler app_status own_status message_of
error_handler-TellsNothing (validation_error m) = (refl, λ h. absurd (omega arith))
error_handler-TellsNothing (auth_error m) = (refl, λ h. absurd (omega arith))
error_handler-TellsNothing (forbidden_error m) = (refl, λ h. absurd (omega arith))
error_handler-TellsNothing (not_found_error m) = (refl, λ h. absurd (omega arith))
error_handler-TellsNothing (conflict_error m) = (refl, λ h. absurd (omega arith))
error_handler-TellsNothing (too_many_requests_error m) = (refl, λ h. absurd (omega arith))
error_handler-TellsNothing (plain_error m) = (refl, λ h. refl)
error_handler-TellsNothing (library_error code m) = (refl, λ h. ground arith)
error_handler-TellsNothing unique_constraint_error = (refl, λ h. refl)
error_handler-TellsNothing illegal_arguments = (refl, λ h. refl)

module _ (d : Deployment) (r : Request) where
  -- In production an answer to an error never has the stack, and where its status code is 500 or
  -- more its message is that of an internal error, whatever went wrong.
  pub handle-TellsNothing :
      (s : App) (answer : ErrorAnswer)
      → d.is_production ≡ true
      → (handle d r s).0 ≡ failure answer
      → TellsNothing answer
  unfolding handle
  handle-TellsNothing s answer production h = go (respond d r s).0 h
    where
      go : (end : Result (ℕ × Body)) → answer_of d r end ≡ failure answer → TellsNothing answer
      go (ok (status_code, body)) k = cc
      go (err e) k =
          let same : failure (error_handler true e) ≡ failure answer = rw production at k in
          let told : error_handler true e ≡ answer = ground arith in
          subst TellsNothing told (error_handler-TellsNothing e)

-- ===== src/Http/Faults/Codes.antt =====
-- The status codes of the routes' own answers.
use smartmeet_backend.Prelude.{
  ℕ, ◌<◌, ◌≡◌, Bool, true, false, Option, none, some, arith, Result, ok, err, Action, pure, gets,
  proceed, Bool-cases, inl, inr, ◌>>=◌, ◌>>◌,
}
use smartmeet_backend.UserService.{TokenPair}
use smartmeet_backend.Authentication.{AuthUser, authenticate}
use smartmeet_backend.Controllers.{App}
use smartmeet_backend.Controllers.Accounts
use smartmeet_backend.Controllers.Rooms
use smartmeet_backend.Controllers.Recordings.{Download, redirect, bytes}
use smartmeet_backend.Controllers.Recordings
use smartmeet_backend.Http.Requests.{
  Deployment, Request, Route, Body, register, login, refresh, create_room, list_rooms, get_room,
  join_room, leave_room, get_participants, get_messages, create_recording, list_recordings,
  get_recording, download_recording, health, metrics, unknown, tokens, room, room_list,
  room_details, participation, roster, chat_history, new_recording, recording_list,
  recording_details, file,
}
use smartmeet_backend.Http.Routes.{
  respond, dispatch, authenticated, answering, limited, validated, create_room_route,
  list_rooms_route, get_room_route, join_room_route, leave_room_route, get_participants_route,
  get_messages_route, create_recording_route, list_recordings_route, get_recording_route,
  download_recording_route, not_found_handler,
}

-- A step that ends with an answer of its own gives it such a code.
abbrev pub IsCalm : Result (ℕ × Body) × App → Type 0
IsCalm step = (code : ℕ) (body : Body) → step.0 ≡ ok (code, body) → code < 500

IsCalm-proceed :
    {A : Type 0} (step : Result A × App) (f : A → Action App (ℕ × Body))
    → ((a : A) (s : App) → IsCalm (f a s))
    → IsCalm (proceed step f)
IsCalm-proceed (ok a, s) f h code body e = h a s code body e
IsCalm-proceed (err x, s) f h code body e = absurd (cc e)

IsCalm-pure : (c : ℕ) (b : Body) (s : App) → c < 500 → IsCalm (pure (c, b) s)
IsCalm-pure c b s h code body e = ground arith

IsCalm-answering :
    {A : Type 0} (c : ℕ) (body : A → Body) (m : Action App A) (s : App)
    → c < 500
    → IsCalm (answering c body m s)
IsCalm-answering c body m s h = IsCalm-proceed (m s) _ (λ a t. IsCalm-pure c (body a) t h)

-- the check of PostgreSQL and Redis, whose own answer may be 503
abbrev pub is_health : Route → Bool
is_health (health up) = true
is_health _ = false

below_200 : 200 < 500
below_200 = omega arith

below_201 : 201 < 500
below_201 = omega arith

module _ (d : Deployment) (r : Request) where
  accounts-IsCalm :
      {A : Type 0} (over : Bool) (verdict : Option A) (c : ℕ) (m : A → Action App TokenPair)
      (s : App)
      → c < 500
      → IsCalm ((limited over >> (validated verdict >>= λ a. answering c tokens (m a))) s)
  accounts-IsCalm true verdict c m s h = λ code body e. absurd (cc e)
  accounts-IsCalm false none c m s h = λ code body e. absurd (cc e)
  accounts-IsCalm false (some a) c m s h = IsCalm-answering c tokens (m a) s h

  validated-IsCalm :
      {A B : Type 0} (verdict : Option A) (c : ℕ) (body_of : B → Body) (m : A → Action App B)
      (s : App)
      → c < 500
      → IsCalm ((validated verdict >>= λ a. answering c body_of (m a)) s)
  validated-IsCalm none c body_of m s h = λ code body e. absurd (cc e)
  validated-IsCalm (some a) c body_of m s h = IsCalm-answering c body_of (m a) s h

  validated_twice-IsCalm :
      {A A' B : Type 0} (verdict : Option A) (other : Option A') (c : ℕ) (body_of : B → Body)
      (m : A → A' → Action App B) (s : App)
      → c < 500
      → IsCalm ((validated verdict >>= λ a. validated other >>= λ b. answering c body_of (m a b)) s)
  validated_twice-IsCalm none other c body_of m s h = λ code body e. absurd (cc e)
  validated_twice-IsCalm (some a) other c body_of m s h = validated-IsCalm other c body_of (m a) s h

  download-IsCalm :
      (me : AuthUser) (verdict : Option ℕ) (s : App)
      → IsCalm (download_recording_route d r me verdict s)
  download-IsCalm me none s = λ code body e. absurd (cc e)
  download-IsCalm me (some id) s =
      IsCalm-proceed (Recordings.download d.sign me id s)
        (λ found. pure (elim found [ redirect _ ↦ 302 | bytes _ ↦ 200 ], file found)) sent
    where
      sent :
          (found : Download) (t : App)
          → IsCalm (pure (elim found [ redirect _ ↦ 302 | bytes _ ↦ 200 ], file found) t)
      sent (redirect url) t = IsCalm-pure 302 _ t (omega arith)
      sent (bytes content) t = IsCalm-pure 200 _ t below_200

  authenticated-IsCalm :
      (handler : AuthUser → Action App (ℕ × Body)) (s : App)
      → ((me : AuthUser) → IsCalm (handler me s))
      → IsCalm (authenticated d r handler s)
  authenticated-IsCalm handler s h = go (authenticate d.jwt d.config r.inputs.now r.authorization)
    where
      go : (found : Result AuthUser) → IsCalm (proceed (found, s) handler)
      go (ok me) = h me
      go (err x) = λ code body e. absurd (cc e)

  pub dispatch-IsCalm :
      (route : Route) (s : App) → is_health route ≡ false → IsCalm (dispatch d r route s)
  unfolding dispatch
  dispatch-IsCalm (register body) s n =
      accounts-IsCalm r.over_auth_limit body 201
        (λ b. Accounts.register d.jwt d.config d.bcrypt r.inputs.now r.account b) s below_201
  dispatch-IsCalm (login body) s n =
      accounts-IsCalm r.over_auth_limit body 200
        (λ b. Accounts.login d.jwt d.config d.bcrypt r.inputs.now b.0 b.1) s below_200
  dispatch-IsCalm (refresh body) s n =
      accounts-IsCalm r.over_auth_limit body 200
        (λ b. Accounts.refresh d.jwt d.config r.inputs.now b) s below_200
  dispatch-IsCalm (create_room body) s n =
      authenticated-IsCalm (λ me. create_room_route d r me body) s
        (λ me.
          validated-IsCalm body 201 room (λ b. Rooms.create d.bcrypt r.inputs me b) s below_201)
  dispatch-IsCalm (list_rooms query) s n =
      authenticated-IsCalm (λ me. list_rooms_route d r query) s
        (λ me.
          validated-IsCalm query 200 room_list
            (λ q. Rooms.list r.orders.rooms r.inputs.now q.page q.limit) s below_200)
  dispatch-IsCalm (get_room id) s n =
      authenticated-IsCalm (λ me. get_room_route d r id) s
        (λ me. validated-IsCalm id 200 room_details Rooms.get_by_id s below_200)
  dispatch-IsCalm (join_room id password) s n =
      authenticated-IsCalm (λ me. join_room_route d r me id password) s
        (λ me.
          validated_twice-IsCalm id password 200 participation
            (λ i p. Rooms.join d.bcrypt r.inputs me i p) s below_200)
  dispatch-IsCalm (leave_room id) s n =
      authenticated-IsCalm (λ me. leave_room_route d r me id) s
        (λ me. validated-IsCalm id 200 participation (Rooms.leave r.inputs.now me) s below_200)
  dispatch-IsCalm (get_participants id) s n =
      authenticated-IsCalm (λ me. get_participants_route d r id) s
        (λ me. validated-IsCalm id 200 roster Rooms.participants s below_200)
  dispatch-IsCalm (get_messages id query) s n =
      authenticated-IsCalm (λ me. get_messages_route d r me id query) s
        (λ me.
          validated_twice-IsCalm id query 200 chat_history
            (λ i q. Rooms.messages r.orders.messages me i q.page q.limit) s below_200)
  dispatch-IsCalm (create_recording id body duration) s n =
      authenticated-IsCalm (λ me. create_recording_route d r me id body duration) s
        (λ me.
          validated-IsCalm id 201 new_recording
            (λ i. Recordings.create (d.id_text i) r.upload me i body duration) s below_201)
  dispatch-IsCalm (list_recordings query) s n =
      authenticated-IsCalm (λ me. list_recordings_route d r me query) s
        (λ me.
          validated-IsCalm query 200 recording_list
            (λ q. gets (λ s. Recordings.list r.orders.recordings me q.page q.limit s.server.db)) s
            below_200)
  dispatch-IsCalm (get_recording id) s n =
      authenticated-IsCalm (λ me. get_recording_route d r me id) s
        (λ me.
          validated-IsCalm id 200 recording_details (Recordings.get_by_id d.sign me) s below_200)
  dispatch-IsCalm (download_recording id) s n =
      authenticated-IsCalm (λ me. download_recording_route d r me id) s
        (λ me. download-IsCalm me id s)
  dispatch-IsCalm (health up) s n = absurd (cc n)
  dispatch-IsCalm (metrics up) s n = λ code body e. ground arith
  dispatch-IsCalm (unknown true line) s n =
      authenticated-IsCalm (λ me. not_found_handler d r line) s (λ me code body e. ground arith)
  dispatch-IsCalm (unknown false line) s n = λ code body e. ground arith

  pub respond-IsCalm : (s : App) → is_health r.route ≡ false → IsCalm (respond d r s)
  unfolding respond
  respond-IsCalm s n code body e = elim (Bool-cases r.over_api_limit) [
    | inl over ↦ absurd (ground (arith, over))
    | inr under ↦ dispatch-IsCalm r.route s n code body (rw under at e)
  ]

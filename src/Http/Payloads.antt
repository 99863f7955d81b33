-- ===== src/Http/Payloads.antt =====
-- What a client sends to the routes, before the validation (src/middleware/validation.js): the
-- payload that Joi accepts, with its defaults and conversions, takes the place of the one that was
-- sent, and the controllers read its keys.
pub mod Accepted
use smartmeet_backend.Prelude.{ℕ, String, Bool, Option, none, some, List, if◌then◌else◌}
use package.text.Mathlib.Text.{◌==◌ as str_eq}
use smartmeet_backend.Config.{ℤ, pos, negsuc, codes}
use smartmeet_backend.Constants.{RoomAccessType, public_access, private_access, password_access}
use smartmeet_backend.RoomService.{CreateRoomInput}
use smartmeet_backend.UserService.{RegisterInput}
use smartmeet_backend.Validators.{Value, text, whole, Payload, Schema}
use smartmeet_backend.Validators
use smartmeet_backend.Validators.Meaning.{Joi, value_of}
use smartmeet_backend.Http.Requests.{PageQuery, Route}

-- The payload that each key of a request comes with. The body of an upload is not validated.
pub data Sent : Type 0 where
  register login refresh create_room : (body : Payload) → Sent
  list_rooms list_recordings : (query : Payload) → Sent
  get_room leave_room get_participants get_recording download_recording : (params : Payload) → Sent
  join_room : (params body : Payload) → Sent
  get_messages : (params query : Payload) → Sent
  create_recording : (params : Payload) (body : Option (List ℕ)) (duration : ℕ) → Sent
  health metrics : (is_up : Bool) → Sent
  unknown : (is_guarded : Bool) (line : String) → Sent

abbrev and_then : {A B : Type 0} → Option A → (A → Option B) → Option B
and_then none f = none
and_then (some a) f = f a

abbrev pub text_in : Option Value → Option String
text_in (some (text s)) = some s
text_in _ = none

abbrev pub number_in : Option Value → Option ℕ
number_in (some (whole (pos n))) = some n
number_in _ = none

-- the values of ROOM_ACCESS_TYPES
abbrev pub access_type_of : String → Option RoomAccessType
access_type_of s =
    if str_eq "public" s
    then some public_access
    else if str_eq "private" s
    then some private_access
    else if str_eq "password" s
    then some password_access
    else none

-- the body of `createRoom`, where the controller sets the host
abbrev room_input :
    Option String → Option String → Option String → Option ℕ → Option CreateRoomInput
room_input name access password places = and_then name (λ n. and_then access (λ t.
    and_then (access_type_of t) (λ a. and_then places (λ m. some (record {
      name = n;
      access_type = a;
      password = password;
      max_participants = m;
      host_id = 0;
    })))))

module _ (joi : Joi) where
  -- `schema.validate(req[source])`, and what the handler reads of the result
  abbrev read : {A : Type 0} → Schema → (Payload → Option A) → Payload → Option A
  read schema reader given = and_then (joi.validate schema given) reader

  abbrev pub read_register : Payload → Option RegisterInput
  read_register = read Validators.register (λ body. and_then (text_in (value_of "email" body)) (λ e.
      and_then (text_in (value_of "username" body)) (λ u.
        and_then (text_in (value_of "password" body))
          (λ p. some (record { email = e; username = u; password = p })))))

  abbrev pub read_login : Payload → Option (String × String)
  read_login = read Validators.login (λ body.
      and_then (text_in (value_of "email" body))
        (λ e. and_then (text_in (value_of "password" body)) (λ p. some (e, p))))

  abbrev pub read_refresh : Payload → Option (List ℕ)
  read_refresh =
      read Validators.refresh_token
        (λ body. and_then (text_in (value_of "refreshToken" body)) (λ t. some (codes t)))

  abbrev pub read_create_room : Payload → Option CreateRoomInput
  read_create_room = read Validators.create_room (λ body.
      room_input (text_in (value_of "name" body)) (text_in (value_of "accessType" body))
        (text_in (value_of "password" body)) (number_in (value_of "maxParticipants" body)))

  -- The password of a join is optional.
  abbrev pub read_join_room : Payload → Option (Option String)
  read_join_room = read Validators.join_room (λ body. some (text_in (value_of "password" body)))

  abbrev pub read_page : Payload → Option PageQuery
  read_page = read Validators.pagination_query (λ query.
      and_then (number_in (value_of "page" query)) (λ p.
        and_then (number_in (value_of "limit" query)) (λ l. some (record { page = p; limit = l }))))

  -- An id is the number that its text stands for.
  module _ (id_of : String → ℕ) where
    abbrev read_room_id : Payload → Option ℕ
    read_room_id =
        read Validators.room_id_param
          (λ params. and_then (text_in (value_of "roomId" params)) (λ s. some (id_of s)))

    abbrev read_recording_id : Payload → Option ℕ
    read_recording_id =
        read Validators.recording_id_param
          (λ params. and_then (text_in (value_of "recordingId" params)) (λ s. some (id_of s)))

    -- the request as the handlers of the route see it
    unfoldable pub receive : Sent → Route
    receive (register body) = Route.register (read_register body)
    receive (login body) = Route.login (read_login body)
    receive (refresh body) = Route.refresh (read_refresh body)
    receive (create_room body) = Route.create_room (read_create_room body)
    receive (list_rooms query) = Route.list_rooms (read_page query)
    receive (list_recordings query) = Route.list_recordings (read_page query)
    receive (get_room params) = Route.get_room (read_room_id params)
    receive (leave_room params) = Route.leave_room (read_room_id params)
    receive (get_participants params) = Route.get_participants (read_room_id params)
    receive (get_recording params) = Route.get_recording (read_recording_id params)
    receive (download_recording params) = Route.download_recording (read_recording_id params)
    receive (join_room params body) = Route.join_room (read_room_id params) (read_join_room body)
    receive (get_messages params query) = Route.get_messages (read_room_id params) (read_page query)
    receive (create_recording params body duration) =
        Route.create_recording (read_room_id params) body duration
    receive (health up) = Route.health up
    receive (metrics up) = Route.metrics up
    receive (unknown guarded line) = Route.unknown guarded line

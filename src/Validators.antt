-- ===== src/Validators.antt =====
-- The schemas of the requests' payloads (src/utils/validators.js), as Joi is given them. What Joi
-- does with a schema is a parameter; IsJoi states what its documentation says of a value that it
-- accepts, and the code relies on.
pub mod Meaning
use smartmeet_backend.Prelude.{ℕ, String, Bool, Option, none, some, List, [], ◌∷◌}
use smartmeet_backend.Config.{ℤ, pos}

-- A value of JSON, of a query or of a path. A fraction lies between its floor and the next integer;
-- the values that are neither texts nor numbers are not told apart.
pub data Value : Type 0 where
  text : String → Value
  whole : ℤ → Value
  fraction : (floor : ℤ) → Value
  other : Value

-- an object: its keys with their values
abbrev pub Payload : Type 0
Payload = List (String × Value)

-- `Joi.string()` and `Joi.number()`
pub data Kind : Type 0 where
  string number : Kind

-- The rules that follow in the chain. `guid` is that of version 4.
pub data Rule : Type 0 where
  email alphanum guid integer : Rule
  at_least at_most : ℕ → Rule
  valid : List String → Rule

-- whether the key may or must be there; the last is `when(key, { is, then, otherwise })`
pub data Presence : Type 0 where
  required optional forbidden : Presence
  when_is : (key : String) → (is : String) → (then_ otherwise : Presence) → Presence

pub record Field : Type 0 where
  pub key : String
  pub kind : Kind
  pub rules : List Rule
  pub presence : Presence
  pub default : Option Value

-- `Joi.object({ … })`
abbrev pub Schema : Type 0
Schema = List Field

abbrev field : String → Kind → List Rule → Presence → Field
field key kind rules presence = record {
  key = key;
  kind = kind;
  rules = rules;
  presence = presence;
  default = none;
}

-- `.default(value)`
abbrev with_default : String → Kind → List Rule → Value → Field
with_default key kind rules value = record {
  key = key;
  kind = kind;
  rules = rules;
  presence = optional;
  default = some value;
}

-- `Object.values(ROOM_ACCESS_TYPES)` and `Object.values(CONNECTION_QUALITY)`
abbrev pub access_types : List String
access_types = "public" ∷ "private" ∷ "password" ∷ []

abbrev pub qualities : List String
qualities = "excellent" ∷ "good" ∷ "fair" ∷ "poor" ∷ []

abbrev pub register : Schema
register =
    field "email" string (email ∷ []) required
    ∷ field "username" string (alphanum ∷ at_least 3 ∷ at_most 30 ∷ []) required
    ∷ field "password" string (at_least 8 ∷ at_most 128 ∷ []) required
    ∷ []

abbrev pub login : Schema
login = field "email" string (email ∷ []) required ∷ field "password" string [] required ∷ []

abbrev pub refresh_token : Schema
refresh_token = field "refreshToken" string [] required ∷ []

abbrev pub create_room : Schema
create_room =
    field "name" string (at_least 1 ∷ at_most 120 ∷ []) required
    ∷ with_default "accessType" string (valid access_types ∷ []) (text "public")
    ∷ field "password" string (at_least 4 ∷ at_most 128 ∷ [])
        (when_is "accessType" "password" required forbidden)
    ∷ with_default "maxParticipants" number (integer ∷ at_least 2 ∷ at_most 500 ∷ [])
        (whole (pos 50))
    ∷ []

abbrev pub join_room : Schema
join_room = field "password" string (at_least 4 ∷ at_most 128 ∷ []) optional ∷ []

abbrev pub room_id_param : Schema
room_id_param = field "roomId" string (guid ∷ []) required ∷ []

abbrev pub recording_id_param : Schema
recording_id_param = field "recordingId" string (guid ∷ []) required ∷ []

abbrev pub connection_metric : Schema
connection_metric =
    field "roomId" string (guid ∷ []) required
    ∷ field "bandwidthIn" number (at_least 0 ∷ []) required
    ∷ field "bandwidthOut" number (at_least 0 ∷ []) required
    ∷ field "latency" number (integer ∷ at_least 0 ∷ []) required
    ∷ field "packetLoss" number (at_least 0 ∷ at_most 100 ∷ []) required
    ∷ field "connectionQuality" string (valid qualities ∷ []) optional
    ∷ []

abbrev pub pagination_query : Schema
pagination_query =
    with_default "page" number (integer ∷ at_least 1 ∷ []) (whole (pos 1))
    ∷ with_default "limit" number (integer ∷ at_least 1 ∷ at_most 100 ∷ []) (whole (pos 20))
    ∷ []

-- ===== src/Constants.antt =====
-- The enumerations of src/config/constants.js.
use Prim.Native.Nat.{ℕ}
use mathlib.Core.Bool.{Bool, true, false}

pub data RoomRole : Type 0 where
  host moderator participant : RoomRole

-- `password_access` is the source's `password`.
pub data RoomAccessType : Type 0 where
  public_access private_access password_access : RoomAccessType

pub data ConnectionQuality : Type 0 where
  excellent good fair poor : ConnectionQuality

pub data DisconnectReason : Type 0 where
  client_left transport_close server_shutdown auth_failed kicked : DisconnectReason

-- `accessType === ROOM_ACCESS_TYPES.PASSWORD`
abbrev pub is_password : RoomAccessType → Bool
is_password password_access = true
is_password _ = false

-- `[ROOM_ROLES.HOST, ROOM_ROLES.MODERATOR].includes(role)`
abbrev pub can_moderate : RoomRole → Bool
can_moderate participant = false
can_moderate _ = true

-- CACHE_TTL_SECONDS
abbrev pub room_list_ttl : ℕ
room_list_ttl = 15

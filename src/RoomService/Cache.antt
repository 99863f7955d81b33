-- ===== src/RoomService/Cache.antt =====
-- `listRooms` with its Redis cache, and `invalidateRoomListCache` (src/services/roomService.js).
-- Redis keeps each entry until the time at which it expires; while Redis is down its calls throw,
-- which the code catches. An entry is the answer that was stored: its serialisation is left out.
-- The keys stand for the texts `cache:rooms:list` and `cache:rooms:list:<page>:<limit>`, which are
-- different for different keys.
pub mod Staleness
use smartmeet_backend.Prelude.{
  ℕ, ◌+◌, Bool, true, false, ◌&&◌, Option, none, some, List, [], ◌∷◌, ◌==◌, ==_iff, ltb, arith, ◌≡◌,
  refl, ◌↔◌, if◌then◌else◌,
}
use smartmeet_backend.Prelude.Map.{Map, Key, get, set, delete}
use smartmeet_backend.Constants.{room_list_ttl}
use smartmeet_backend.Models.{Database, Room}
use smartmeet_backend.RoomService.Listing.{RoomList, query_rooms}

pub data CacheKey : Type 0 where
  room_list : CacheKey
  room_list_page : (page limit : ℕ) → CacheKey

abbrev pub same_key : CacheKey → CacheKey → Bool
same_key room_list room_list = true
same_key (room_list_page p l) (room_list_page q m) = p == q && l == m
same_key _ _ = false

pub same_key_iff : (a b : CacheKey) → (same_key a b ≡ true) ↔ (a ≡ b)
same_key_iff room_list room_list = ground arith
same_key_iff room_list (room_list_page q m) = ground arith
same_key_iff (room_list_page p l) room_list = ground arith
same_key_iff (room_list_page p l) (room_list_page q m) = ground arith

instance abbrev pub cache_key : Key CacheKey
cache_key = record { same = same_key; same_iff = same_key_iff }

pub record Entry : Type 0 where
  pub answer : RoomList
  pub expires_at : ℕ

pub record Redis : Type 0 where
  pub is_up : Bool
  pub entries : Map CacheKey Entry

-- an entry that has not expired
abbrev pub live : ℕ → Option Entry → Option RoomList
live now none = none
live now (some e) = if ltb now e.expires_at then some e.answer else none

-- `redisClient.get`, with the `catch` around it
unfoldable pub read_cache : ℕ → CacheKey → Redis → Option RoomList
read_cache now k redis = if redis.is_up then live now (get redis.entries k) else none

-- `redisClient.setEx`, with the `catch` around it
unfoldable pub write_cache : ℕ → CacheKey → ℕ → RoomList → Redis → Redis
write_cache now k ttl answer redis =
    if redis.is_up
    then record redis {
      entries = set redis.entries k (record { answer = answer; expires_at = now + ttl });
    }
    else redis

unfoldable pub invalidate_room_list_cache : Redis → Redis
invalidate_room_list_cache redis =
    if redis.is_up then record redis { entries = delete redis.entries room_list } else redis

abbrev from_database : (List Room → List Room) → ℕ → ℕ → ℕ → Database → Redis → RoomList × Redis
from_database order now page limit db redis =
    let result = query_rooms order page limit db in
    (result, write_cache now (room_list_page page limit) room_list_ttl result redis)

pub list_rooms : (List Room → List Room) → ℕ → ℕ → ℕ → Database → Redis → RoomList × Redis
list_rooms order now page limit db redis = elim (read_cache now (room_list_page page limit) redis) [
  | some cached ↦ (cached, redis)
  | none ↦ from_database order now page limit db redis
]

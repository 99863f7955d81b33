-- ===== src/WebrtcService.antt =====
-- The signaling state (src/services/webrtcService.js): which sockets are in which room, in memory
-- and mirrored into Redis, and the latest connection quality of each socket, in Redis alone. While
-- Redis is down its calls throw, which the code catches. `buildSignalingEnvelope` is used nowhere.
pub mod Peers
pub mod Mirror
pub mod Roster
use smartmeet_backend.Prelude.{
  ℕ, Bool, true, false, Option, none, some, List, [], ◌∷◌, if◌then◌else◌,
}
use smartmeet_backend.Prelude.Map.{nat_key, Map, get, set, delete, has, keys, is_empty}
use smartmeet_backend.Constants.{ConnectionQuality}

-- `Map<socketId, userId>`, in the order of joining
abbrev pub Peers : Type 0
Peers = Map ℕ ℕ

-- the JSON of `recordConnectionQuality`
pub record QualitySample : Type 0 where
  pub quality : ConnectionQuality
  pub at : ℕ

-- The hashes of Redis: HSET makes a hash, and HDEL removes it with its last field.
pub record SignalingRedis : Type 0 where
  pub is_up : Bool
  pub room_peers : Map ℕ Peers
  pub room_quality : Map ℕ (Map ℕ QualitySample)

pub record Signaling : Type 0 where
  pub in_memory_room_peers : Map ℕ Peers
  pub redis : SignalingRedis

abbrev pub or_empty {ℓ} : {V : Type ℓ} → Option (Map ℕ V) → Map ℕ V
or_empty none = []
or_empty (some m) = m

-- Redis HSET
abbrev pub hash_set {ℓ} : {V : Type ℓ} → Map ℕ (Map ℕ V) → ℕ → ℕ → V → Map ℕ (Map ℕ V)
hash_set h key field v = set h key (set (or_empty (get h key)) field v)

-- Redis HDEL
abbrev pub hash_delete {ℓ} : {V : Type ℓ} → Map ℕ (Map ℕ V) → ℕ → ℕ → Map ℕ (Map ℕ V)
hash_delete h key field =
    let rest = delete (or_empty (get h key)) field in
    if is_empty rest then delete h key else set h key rest

-- `if (!inMemoryRoomPeers.has(roomId)) inMemoryRoomPeers.set(roomId, new Map());`
ensure_room : Map ℕ Peers → ℕ → Map ℕ Peers
ensure_room rooms room_id = if has rooms room_id then rooms else set rooms room_id []

-- `inMemoryRoomPeers.get(roomId).set(socketId, userId)`, on a room that is there
add_to_room : Map ℕ Peers → ℕ → ℕ → ℕ → Map ℕ Peers
add_to_room rooms room_id socket_id user_id = elim (get rooms room_id) [
  | none ↦ rooms
  | some peers ↦ set rooms room_id (set peers socket_id user_id)
]

unfoldable pub mirror_join : ℕ → ℕ → ℕ → SignalingRedis → SignalingRedis
mirror_join room_id socket_id user_id redis =
    if redis.is_up
    then record redis { room_peers = hash_set redis.room_peers room_id socket_id user_id }
    else redis

pub add_peer_to_room : ℕ → ℕ → ℕ → Signaling → Signaling
unfolding ensure_room add_to_room mirror_join
add_peer_to_room room_id socket_id user_id s = record {
  in_memory_room_peers =
      add_to_room (ensure_room s.in_memory_room_peers room_id) room_id socket_id user_id;
  redis = mirror_join room_id socket_id user_id s.redis;
}

-- the deletion in memory, which drops a room with its last socket
remove_from_room : Map ℕ Peers → ℕ → ℕ → Map ℕ Peers
remove_from_room rooms room_id socket_id = elim (get rooms room_id) [
  | none ↦ rooms
  | some peers ↦
      let rest = delete peers socket_id in
      if is_empty rest then delete rooms room_id else set rooms room_id rest
]

unfoldable pub mirror_leave : ℕ → ℕ → SignalingRedis → SignalingRedis
mirror_leave room_id socket_id redis =
    if redis.is_up
    then record redis { room_peers = hash_delete redis.room_peers room_id socket_id }
    else redis

pub remove_peer_from_room : ℕ → ℕ → Signaling → Signaling
unfolding remove_from_room mirror_leave
remove_peer_from_room room_id socket_id s = record {
  in_memory_room_peers = remove_from_room s.in_memory_room_peers room_id socket_id;
  redis = mirror_leave room_id socket_id s.redis;
}

unfoldable pub get_peers_in_room : ℕ → Signaling → List ℕ
get_peers_in_room room_id s = keys (or_empty (get s.in_memory_room_peers room_id))

-- the loop of `getSocketIdsByUserId`
unfoldable pub collect_sockets : Map ℕ ℕ → Peers → Map ℕ ℕ
collect_sockets result [] = result
collect_sockets result ((socket_id, user_id) ∷ peers) =
    collect_sockets (set result user_id socket_id) peers

unfoldable pub get_socket_ids_by_user_id : ℕ → Signaling → Map ℕ ℕ
unfolding collect_sockets
get_socket_ids_by_user_id room_id s = elim (get s.in_memory_room_peers room_id) [
  | none ↦ []
  | some peers ↦ collect_sockets [] peers
]

pub record_connection_quality : ℕ → ℕ → ℕ → ConnectionQuality → Signaling → Signaling
record_connection_quality now room_id socket_id quality s =
    if s.redis.is_up
    then record s {
      redis = record s.redis {
        room_quality =
            hash_set s.redis.room_quality room_id socket_id
              (record { quality = quality; at = now });
      };
    }
    else s

pub get_room_quality_snapshot : ℕ → Signaling → Map ℕ QualitySample
get_room_quality_snapshot room_id s =
    if s.redis.is_up then or_empty (get s.redis.room_quality room_id) else []

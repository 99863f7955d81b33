-- ===== src/WebrtcService/Mirror.antt =====
-- Any sequence of joins and leaves: what the map says, what the mirror in Redis says, and that no
-- room stays without a socket.
use smartmeet_backend.Prelude.{
  ℕ, ◌≡◌, refl, ap, ◌∙◌, true, false, ◌&&◌, Option, none, some, List, [], ◌∷◌, arith, ◌==◌,
  if◌then◌else◌,
}
use smartmeet_backend.Prelude.Map.{nat_key, Map, get, set, delete, is_empty, get-set, get-delete}
use smartmeet_backend.WebrtcService.{
  Peers, Signaling, SignalingRedis, or_empty, hash_set, hash_delete, mirror_join, mirror_leave,
  add_peer_to_room, remove_peer_from_room,
}
use smartmeet_backend.WebrtcService.Peers.{
  user_in, user_of, user_of-add_peer_to_room, user_of-remove_peer_from_room, add_peer_to_room-get,
  remove_peer_from_room-get, drop_socket, drop_socket-get,
}

pub data PeerEvent : Type 0 where
  joins : (room_id socket_id user_id : ℕ) → PeerEvent
  leaves : (room_id socket_id : ℕ) → PeerEvent

pub apply : PeerEvent → Signaling → Signaling
apply (joins r k u) s = add_peer_to_room r k u s
apply (leaves r k) s = remove_peer_from_room r k s

-- The events are listed with the latest first.
pub replay : List PeerEvent → Signaling → Signaling
unfolding apply
replay [] s = s
replay (e ∷ es) s = apply e (replay es s)

-- What the latest event about the socket and the room says.
pub latest : List PeerEvent → ℕ → ℕ → Option ℕ
latest [] r k = none
latest (joins room_id socket_id user_id ∷ es) r k =
    if room_id == r && socket_id == k then some user_id else latest es r k
latest (leaves room_id socket_id ∷ es) r k =
    if room_id == r && socket_id == k then none else latest es r k

abbrev pub nobody : SignalingRedis → Signaling
nobody redis = record { in_memory_room_peers = []; redis = redis }

-- From a state with nobody in any room, after any joins and leaves, in any order, a socket speaks
-- in a room for the user of its last join, unless it has left since; it makes no difference
-- whether Redis is up.
pub replay-latest :
    (es : List PeerEvent) (redis : SignalingRedis) (r k : ℕ)
    → user_of (replay es (nobody redis)) r k ≡ latest es r k
unfolding replay latest
replay-latest [] redis r k = unfold get in refl
replay-latest (joins room_id socket_id user_id ∷ es) redis r k =
    rw
      (
        user_of-add_peer_to_room room_id socket_id user_id r k (replay es (nobody redis)),
        replay-latest es redis r k,
      )
      refl
replay-latest (leaves room_id socket_id ∷ es) redis r k =
    rw
      (
        user_of-remove_peer_from_room room_id socket_id r k (replay es (nobody redis)),
        replay-latest es redis r k,
      )
      refl

hash_set-user_in :
    (h : Map ℕ Peers) (room_id socket_id user_id r k : ℕ)
    → user_in (hash_set h room_id socket_id user_id) r k
      ≡ (if room_id == r && socket_id == k then some user_id else user_in h r k)
hash_set-user_in h room_id socket_id user_id r k =
    rw (get-set h room_id r (set (or_empty (get h room_id)) socket_id user_id))
      (ground (arith, get-set (or_empty (get h room_id)) socket_id k user_id))

hash_delete-get :
    (h : Map ℕ Peers) (room_id socket_id r : ℕ)
    → get (hash_delete h room_id socket_id) r
      ≡ (if room_id == r then drop_socket (or_empty (get h room_id)) socket_id else get h r)
hash_delete-get h room_id socket_id r = ground (
  arith,
  get-delete h room_id r,
  get-set h room_id r (delete (or_empty (get h room_id)) socket_id),
)

hash_delete-user_in :
    (h : Map ℕ Peers) (room_id socket_id r k : ℕ)
    → user_in (hash_delete h room_id socket_id) r k
      ≡ (if room_id == r && socket_id == k then none else user_in h r k)
hash_delete-user_in h room_id socket_id r k =
    rw (hash_delete-get h room_id socket_id r)
      (ground (arith, drop_socket-get (or_empty (get h room_id)) socket_id k))

-- The mirror is up, and says what the memory says.
pub record IsMirrored (s : Signaling) : Type 0 where
  pub up : s.redis.is_up ≡ true
  pub agrees : (r k : ℕ) → user_in s.redis.room_peers r k ≡ user_of s r k

joined_mirror :
    (room_id socket_id user_id : ℕ) (s : Signaling)
    → s.redis.is_up ≡ true
    → (add_peer_to_room room_id socket_id user_id s).redis
      ≡ record s.redis { room_peers = hash_set s.redis.room_peers room_id socket_id user_id }
unfolding add_peer_to_room mirror_join
joined_mirror room_id socket_id user_id s up = ground arith

left_mirror :
    (room_id socket_id : ℕ) (s : Signaling)
    → s.redis.is_up ≡ true
    → (remove_peer_from_room room_id socket_id s).redis
      ≡ record s.redis { room_peers = hash_delete s.redis.room_peers room_id socket_id }
unfolding remove_peer_from_room mirror_leave
left_mirror room_id socket_id s up = ground arith

apply-IsMirrored : (e : PeerEvent) (s : Signaling) → IsMirrored s → IsMirrored (apply e s)
unfolding apply
apply-IsMirrored (joins room_id socket_id user_id) s m =
    let e = joined_mirror room_id socket_id user_id s m.up in
    record {
      up = ap (λ (t : SignalingRedis). t.is_up) e ∙ m.up;
      agrees = λ r k.
          ap (λ (t : SignalingRedis). user_in t.room_peers r k) e
          ∙ hash_set-user_in s.redis.room_peers room_id socket_id user_id r k
          ∙ rw (user_of-add_peer_to_room room_id socket_id user_id r k s, m.agrees r k) refl;
    }
apply-IsMirrored (leaves room_id socket_id) s m =
    let e = left_mirror room_id socket_id s m.up in
    record {
      up = ap (λ (t : SignalingRedis). t.is_up) e ∙ m.up;
      agrees = λ r k.
          ap (λ (t : SignalingRedis). user_in t.room_peers r k) e
          ∙ hash_delete-user_in s.redis.room_peers room_id socket_id r k
          ∙ rw (user_of-remove_peer_from_room room_id socket_id r k s, m.agrees r k) refl;
    }

-- From a state in which Redis is up and its mirror says what the memory says, any joins and
-- leaves lead to such a state.
pub replay-IsMirrored :
    (es : List PeerEvent) (s : Signaling) → IsMirrored s → IsMirrored (replay es s)
unfolding replay
replay-IsMirrored [] s m = m
replay-IsMirrored (e ∷ es) s m = apply-IsMirrored e (replay es s) (replay-IsMirrored es s m)

-- No room is kept without a socket in it.
abbrev pub HasNoEmptyRoom : Signaling → Type 0
HasNoEmptyRoom s =
    (r : ℕ) (peers : Peers) → get s.in_memory_room_peers r ≡ some peers → is_empty peers ≡ false

set-is_empty : (m : Peers) (k v : ℕ) → is_empty (set m k v) ≡ false
unfolding set
set-is_empty [] k v = refl
set-is_empty (e ∷ m) k v = ground arith

apply-HasNoEmptyRoom :
    (e : PeerEvent) (s : Signaling) → HasNoEmptyRoom s → HasNoEmptyRoom (apply e s)
unfolding apply
apply-HasNoEmptyRoom (joins room_id socket_id user_id) s h r peers e = ground (
  arith,
  h r peers,
  add_peer_to_room-get room_id socket_id user_id r s,
  set-is_empty (or_empty (get s.in_memory_room_peers room_id)) socket_id user_id,
)
apply-HasNoEmptyRoom (leaves room_id socket_id) s h r peers e =
    ground (arith, h r peers, remove_peer_from_room-get room_id socket_id r s)

-- From a state in which every room that the map lists has a socket in it, any joins and leaves
-- lead to such a state: a room goes with its last socket.
pub replay-HasNoEmptyRoom :
    (es : List PeerEvent) (s : Signaling) → HasNoEmptyRoom s → HasNoEmptyRoom (replay es s)
unfolding replay
replay-HasNoEmptyRoom [] s h = h
replay-HasNoEmptyRoom (e ∷ es) s h =
    apply-HasNoEmptyRoom e (replay es s) (replay-HasNoEmptyRoom es s h)

-- ===== src/WebrtcService/Peers.antt =====
-- The in-memory map against the plain view of it: which user a socket speaks for in a room.
use smartmeet_backend.Prelude.{
  ℕ, ◌≡◌, refl, inl, inr, true, ◌&&◌, Option, none, some, [], ◌∷◌, arith, ◌==◌, if◌then◌else◌,
  Option-cases, Bool-cases,
}
use smartmeet_backend.Prelude.Map.{nat_key, Map, get, set, delete, is_empty, get-set, get-delete}
use smartmeet_backend.WebrtcService.{
  Peers, Signaling, or_empty, ensure_room, add_to_room, remove_from_room, add_peer_to_room,
  remove_peer_from_room,
}

-- The user for whom a socket speaks in a room.
abbrev pub user_in : Map ℕ Peers → ℕ → ℕ → Option ℕ
user_in rooms room_id socket_id = get (or_empty (get rooms room_id)) socket_id

abbrev pub user_of : Signaling → ℕ → ℕ → Option ℕ
user_of s = user_in s.in_memory_room_peers

ensure_room-get :
    (rooms : Map ℕ Peers) (room_id r : ℕ)
    → get (ensure_room rooms room_id) r
      ≡ (if room_id == r then some (or_empty (get rooms room_id)) else get rooms r)
unfolding ensure_room
ensure_room-get rooms room_id r = ground (arith, get-set rooms room_id r [])

add_to_room-get :
    (rooms : Map ℕ Peers) (room_id socket_id user_id r : ℕ)
    → get (add_to_room (ensure_room rooms room_id) room_id socket_id user_id) r ≡ (
        if room_id == r
        then some (set (or_empty (get rooms room_id)) socket_id user_id)
        else get rooms r)
unfolding add_to_room
add_to_room-get rooms room_id socket_id user_id r = ground (
  arith,
  ensure_room-get rooms room_id room_id,
  ensure_room-get rooms room_id r,
  get-set (ensure_room rooms room_id) room_id r
      (set (or_empty (get rooms room_id)) socket_id user_id),
)

-- Joining makes the socket speak for the user in the room, and changes nothing else.
pub user_of-add_peer_to_room :
    (room_id socket_id user_id r k : ℕ) (s : Signaling)
    → user_of (add_peer_to_room room_id socket_id user_id s) r k
      ≡ (if room_id == r && socket_id == k then some user_id else user_of s r k)
unfolding add_peer_to_room
user_of-add_peer_to_room room_id socket_id user_id r k s =
    rw (add_to_room-get s.in_memory_room_peers room_id socket_id user_id r)
      (ground (arith, get-set (or_empty (get s.in_memory_room_peers room_id)) socket_id k user_id))

get_of_is_empty : (m : Peers) (k : ℕ) → is_empty m ≡ true → get m k ≡ none
unfolding get
get_of_is_empty [] k h = refl
get_of_is_empty (e ∷ m) k h = ground arith

-- what a room holds once a socket is taken out: nothing, if it held no other
abbrev pub drop_socket : Peers → ℕ → Option Peers
drop_socket peers socket_id =
    let rest = delete peers socket_id in if is_empty rest then none else some rest

remove_from_room-get :
    (rooms : Map ℕ Peers) (room_id socket_id r : ℕ)
    → get (remove_from_room rooms room_id socket_id) r
      ≡ (if room_id == r then drop_socket (or_empty (get rooms room_id)) socket_id else get rooms r)
unfolding remove_from_room
remove_from_room-get rooms room_id socket_id r = elim (Option-cases (get rooms room_id)) [
  | inl missing ↦ unfold delete in ground arith
  | inr (peers, there) ↦
      ground
        (arith, there, get-delete rooms room_id r, get-set rooms room_id r (delete peers socket_id))
]

pub drop_socket-get :
    (peers : Peers) (socket_id k : ℕ)
    → get (or_empty (drop_socket peers socket_id)) k
      ≡ (if socket_id == k then none else get peers k)
drop_socket-get peers socket_id k = elim (Bool-cases (is_empty (delete peers socket_id))) [
  | inl last ↦ ground (
    arith,
    last,
    get_of_is_empty (delete peers socket_id) k last,
    get-delete peers socket_id k,
    get_of_is_empty [] k refl,
  )
  | inr others ↦ ground (arith, others, get-delete peers socket_id k)
]

-- Leaving makes the socket speak for nobody in the room, and changes nothing else.
pub user_of-remove_peer_from_room :
    (room_id socket_id r k : ℕ) (s : Signaling)
    → user_of (remove_peer_from_room room_id socket_id s) r k
      ≡ (if room_id == r && socket_id == k then none else user_of s r k)
unfolding remove_peer_from_room
user_of-remove_peer_from_room room_id socket_id r k s =
    rw (remove_from_room-get s.in_memory_room_peers room_id socket_id r)
      (ground (arith, drop_socket-get (or_empty (get s.in_memory_room_peers room_id)) socket_id k))

pub add_peer_to_room-get :
    (room_id socket_id user_id r : ℕ) (s : Signaling)
    → get (add_peer_to_room room_id socket_id user_id s).in_memory_room_peers r ≡ (
        if room_id == r
        then some (set (or_empty (get s.in_memory_room_peers room_id)) socket_id user_id)
        else get s.in_memory_room_peers r)
unfolding add_peer_to_room
add_peer_to_room-get room_id socket_id user_id r s =
    add_to_room-get s.in_memory_room_peers room_id socket_id user_id r

pub remove_peer_from_room-get :
    (room_id socket_id r : ℕ) (s : Signaling)
    → get (remove_peer_from_room room_id socket_id s).in_memory_room_peers r ≡ (
        if room_id == r
        then drop_socket (or_empty (get s.in_memory_room_peers room_id)) socket_id
        else get s.in_memory_room_peers r)
unfolding remove_peer_from_room
remove_peer_from_room-get room_id socket_id r s =
    remove_from_room-get s.in_memory_room_peers room_id socket_id r

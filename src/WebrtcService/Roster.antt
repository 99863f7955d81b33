-- ===== src/WebrtcService/Roster.antt =====
-- The lists that the signaling and the roster are built from: the sockets of a room, and the
-- socket at which each user is addressed.
use smartmeet_backend.Prelude.{
  ℕ, ◌≡◌, refl, inl, inr, Option, none, some, [], ◌∷◌, arith, ◌==◌, if◌then◌else◌, Option-cases,
  any, is_some, or_else,
}
use smartmeet_backend.Prelude.Map.{nat_key, Map, get, set, keys, has, get-set}
use smartmeet_backend.WebrtcService.{
  Peers, Signaling, or_empty, collect_sockets, get_peers_in_room, get_socket_ids_by_user_id,
}
use smartmeet_backend.WebrtcService.Peers.{user_of}

-- `keys.includes(k)` on the keys of a map is `has`.
any-keys : (m : Peers) (k : ℕ) → any (λ j. j == k) (keys m) ≡ has m k
unfolding get
any-keys [] k = refl
any-keys ((j, u) ∷ m) k = ground (arith, any-keys m k)

-- A socket is among the peers of a room exactly when it speaks there for a user.
pub get_peers_in_room-any :
    (room_id k : ℕ) (s : Signaling)
    → any (λ j. j == k) (get_peers_in_room room_id s) ≡ is_some (user_of s room_id k)
unfolding get_peers_in_room
get_peers_in_room-any room_id k s = any-keys (or_empty (get s.in_memory_room_peers room_id)) k

-- The last entry of a map that speaks for the user.
abbrev pub last_socket : Peers → ℕ → Option ℕ
last_socket [] u = none
last_socket ((k, v) ∷ m) u = or_else (last_socket m u) (if v == u then some k else none)

collect_sockets-get :
    (result : Map ℕ ℕ) (peers : Peers) (u : ℕ)
    → get (collect_sockets result peers) u ≡ or_else (last_socket peers u) (get result u)
unfolding collect_sockets
collect_sockets-get result [] u = refl
collect_sockets-get result ((k, v) ∷ m) u =
    ground (arith, collect_sockets-get (set result v k) m u, get-set result v u k)

-- A user is addressed at the last socket, in the order of the room's map, that speaks for the user
-- in the room, and has no address if there is none.
pub get_socket_ids_by_user_id-last :
    (room_id u : ℕ) (s : Signaling)
    → get (get_socket_ids_by_user_id room_id s) u
      ≡ last_socket (or_empty (get s.in_memory_room_peers room_id)) u
unfolding get_socket_ids_by_user_id
get_socket_ids_by_user_id-last room_id u s =
    elim (Option-cases (get s.in_memory_room_peers room_id)) [
      | inl missing ↦ unfold get in ground arith
      | inr (peers, there) ↦ ground (arith, there, collect_sockets-get [] peers u, empty_get u)
    ]
  where
    empty_get : (k : ℕ) → get {V = ℕ} [] k ≡ none
    empty_get k = unfold get in refl

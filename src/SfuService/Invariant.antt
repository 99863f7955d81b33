-- ===== src/SfuService/Invariant.antt =====
-- The invariant of the service's state, and that every operation keeps it.
use smartmeet_backend.Prelude.{
  ℕ, ◌+◌, ◌%◌, ◌<◌, ◌≡◌, refl, ◌∙◌, false, none, some, List, [], ◌∷◌, arith, ◌==◌, length,
  Option-cases, Bool-cases, inl, inr,
}
use native.Mathlib.Nat.{mod-lt}
use smartmeet_backend.Prelude.Map.{
  nat_key, Map, keys, get, set, delete, is_empty, get-set, get-delete,
}
use smartmeet_backend.SfuService.{
  Sfu, Call, Peer, Effect, update_peer, remove_peer, close_all, without_peer,
}

-- Peers stand under their socket's id.
abbrev pub HasOwnKeys : Map ℕ Peer → Type 0
HasOwnKeys peers = (k : ℕ) (p : Peer) → get peers k ≡ some p → p.socket_id ≡ k

pub record IsWellFormed (s : Sfu) : Type 0 where
  -- the next worker is one of the workers
  pub index : 0 < length s.workers → s.next_worker_index < length s.workers
  -- a call in the map has a peer
  pub occupied : (c : ℕ) (call : Call) → get s.calls c ≡ some call → is_empty call.peers ≡ false
  pub keyed : (c : ℕ) (call : Call) → get s.calls c ≡ some call → HasOwnKeys call.peers

pub set-is_empty : {V : Type 0} (m : Map ℕ V) (k : ℕ) (v : V) → is_empty (set m k v) ≡ false
unfolding set
set-is_empty [] k v = refl
set-is_empty (e ∷ m) k v = ground arith

pub set-HasOwnKeys :
    (peers : Map ℕ Peer) (k : ℕ) (p : Peer)
    → HasOwnKeys peers
    → p.socket_id ≡ k
    → HasOwnKeys (set peers k p)
set-HasOwnKeys peers k p h e j q there = ground (arith, get-set peers k j p, h j q)

pub delete-HasOwnKeys :
    (peers : Map ℕ Peer) (k : ℕ) → HasOwnKeys peers → HasOwnKeys (delete peers k)
delete-HasOwnKeys peers k h j q there = ground (arith, get-delete peers k j, h j q)

-- The same with nothing said of the call under one id.
pub record IsWellFormedBut (c : ℕ) (s : Sfu) : Type 0 where
  pub index : 0 < length s.workers → s.next_worker_index < length s.workers
  pub occupied :
      (d : ℕ) (call : Call)
      → (c == d) ≡ false
      → get s.calls d ≡ some call
      → is_empty call.peers ≡ false
  pub keyed :
      (d : ℕ) (call : Call) → (c == d) ≡ false → get s.calls d ≡ some call → HasOwnKeys call.peers

pub but_one : (c : ℕ) (s : Sfu) → IsWellFormed s → IsWellFormedBut c s
but_one c s w = record {
  index = w.index;
  occupied = λ d call apart there. w.occupied d call there;
  keyed = λ d call apart there. w.keyed d call there;
}

-- A write under the id.
module _ (s : Sfu) (c : ℕ) (effects : List Effect) where
  pub set-IsWellFormed :
      (call : Call)
      → IsWellFormedBut c s
      → is_empty call.peers ≡ false
      → HasOwnKeys call.peers
      → IsWellFormed (record s { calls = set s.calls c call; effects = effects })
  set-IsWellFormed call w some_peer own = record {
    index = w.index;
    occupied = λ d other there. ground (arith, get-set s.calls c d call, w.occupied d other);
    keyed = λ d other there. elim (Bool-cases (c == d)) [
      | inl this ↦ let e : call ≡ other = ground (arith, get-set s.calls c d call) in rw (← e) own
      | inr apart ↦ w.keyed d other apart (ground (arith, get-set s.calls c d call))
    ];
  }

  pub set-IsWellFormedBut :
      (call : Call)
      → IsWellFormedBut c s
      → IsWellFormedBut c (record s { calls = set s.calls c call; effects = effects })
  set-IsWellFormedBut call w = record {
    index = w.index;
    occupied =
        λ d other apart there. w.occupied d other apart (ground (arith, get-set s.calls c d call));
    keyed = λ d other apart there. w.keyed d other apart (ground (arith, get-set s.calls c d call));
  }

  pub delete-IsWellFormed :
      IsWellFormed s → IsWellFormed (record s { calls = delete s.calls c; effects = effects })
  delete-IsWellFormed w = record {
    index = w.index;
    occupied = λ d other there. w.occupied d other (ground (arith, get-delete s.calls c d));
    keyed = λ d other there. w.keyed d other (ground (arith, get-delete s.calls c d));
  }

-- Where a write to a peer ends up.
module _ (c k : ℕ) (change : Peer → Peer) (s : Sfu) where
  pub update_peer_no_call : get s.calls c ≡ none → update_peer c k change s ≡ s
  update_peer_no_call missing = ground arith

  pub update_peer_absent :
      {call : Call}
      → get s.calls c ≡ some call
      → get call.peers k ≡ none
      → update_peer c k change s ≡ s
  update_peer_absent there absent = ground arith

  pub update_peer_found :
      {call : Call} {p : Peer}
      → get s.calls c ≡ some call
      → get call.peers k ≡ some p
      → update_peer c k change s
        ≡ record s { calls = set s.calls c (record call { peers = set call.peers k (change p) }) }
  update_peer_found there found = ground arith

  pub update_peer-IsWellFormed :
      ((p : Peer) → (change p).socket_id ≡ p.socket_id)
      → IsWellFormed s
      → IsWellFormed (update_peer c k change s)
  update_peer-IsWellFormed same w = elim (Option-cases (get s.calls c)) [
    | inl missing ↦ rw (update_peer_no_call missing) w
    | inr (call, there) ↦ elim (Option-cases (get call.peers k)) [
      | inl absent ↦ rw (update_peer_absent there absent) w
      | inr (p, found) ↦ rw (update_peer_found there found) (
          set-IsWellFormed s c s.effects _ (but_one c s w) (set-is_empty call.peers k (change p)) (
            set-HasOwnKeys call.peers k (change p) (w.keyed c call there)
              (same p ∙ w.keyed c call there k p found)))
    ]
  ]

-- The branches of `removePeer`.
module _ (c k : ℕ) (s : Sfu) where
  pub remove_peer_no_call : get s.calls c ≡ none → remove_peer c k s ≡ s
  unfolding remove_peer
  remove_peer_no_call missing = ground arith

  pub remove_peer_absent :
      {call : Call} → get s.calls c ≡ some call → get call.peers k ≡ none → remove_peer c k s ≡ s
  unfolding remove_peer
  remove_peer_absent there absent = ground arith

  pub remove_peer_found :
      {call : Call} {p : Peer}
      → get s.calls c ≡ some call
      → get call.peers k ≡ some p
      → remove_peer c k s ≡ without_peer c call k (close_all (keys p.transports) s.effects) s
  unfolding remove_peer
  remove_peer_found there found = ground arith

abbrev pub advanced : Sfu → Sfu
advanced s = record s { next_worker_index = (s.next_worker_index + 1) % length s.workers }

pub advanced-IsWellFormed : (s : Sfu) → IsWellFormed s → IsWellFormed (advanced s)
advanced-IsWellFormed s w = record {
  index = λ h. mod-lt (s.next_worker_index + 1) h;
  occupied = w.occupied;
  keyed = w.keyed;
}

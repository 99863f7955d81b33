-- ===== src/SfuService/Opening.antt =====
-- `getRtpCapabilities`, with the `_getOrCreateCall` in it, keeps the invariant.
use smartmeet_backend.Prelude.{
  ℕ, ◌≡◌, refl, true, false, Option, none, some, [], ◌∷◌, arith, Option-cases, Bool-cases, inl, inr,
  Result, ok, err, proceed,
}
use smartmeet_backend.Prelude.Map.{nat_key, Map, get, set, is_empty, get-set, get-set_self}
use smartmeet_backend.SfuService.{
  Sfu, Call, Peer, new_peer, new_call, begin_call, rest_of_call, get_or_create_call, update_call,
  add_peer, get_rtp_capabilities, is_available,
}
use smartmeet_backend.SfuService.Invariant.{
  HasOwnKeys, IsWellFormed, IsWellFormedBut, but_one, set-is_empty, set-IsWellFormed,
  set-IsWellFormedBut, advanced-IsWellFormed,
}

-- What holds when `_getOrCreateCall` has come to its `await`.
abbrev Begun : ℕ → Result (Option Call × Option ℕ) × Sfu → Type 0
Begun c (ok (found, w), t) = IsWellFormed t × (get t.calls c ≡ found)
Begun c (err e, t) = IsWellFormed t

begin_call-Begun : (c : ℕ) (s : Sfu) → IsWellFormed s → Begun c (begin_call c s)
unfolding begin_call
begin_call-Begun c s w = elim (Bool-cases (is_available s)) [
  | inr off ↦ rw off w
  | inl on ↦ rw on (elim (Option-cases (get s.calls c)) [
    | inl missing ↦ rw missing (advanced-IsWellFormed s w, missing)
    | inr (call, there) ↦ rw there (w, there)
  ])
]

-- What holds when it returns: the call that it returns is the one in the map, which may still be
-- without a peer.
abbrev Opened : ℕ → Result Call × Sfu → Type 0
Opened c (ok call, t) = IsWellFormedBut c t × (get t.calls c ≡ some call) × HasOwnKeys call.peers
Opened c (err e, t) = IsWellFormed t

no_peers-HasOwnKeys : HasOwnKeys []
no_peers-HasOwnKeys k p there = unfold get in ground arith

rest_of_call-Opened :
    (created : Result ℕ) (c : ℕ) (begun : Result (Option Call × Option ℕ) × Sfu)
    → Begun c begun
    → Opened c (proceed begun (rest_of_call created c))
unfolding rest_of_call
rest_of_call-Opened created c (ok (some call, w), t) (wf, there) =
    (but_one c t wf, there, wf.keyed c call there)
rest_of_call-Opened created c (ok (none, none), t) (wf, missing) = wf
rest_of_call-Opened (ok router) c (ok (none, some worker), t) (wf, missing) = (
  set-IsWellFormedBut t c _ (new_call router) (but_one c t wf),
  get-set_self t.calls c (new_call router),
  no_peers-HasOwnKeys,
)
rest_of_call-Opened (err e) c (ok (none, some worker), t) (wf, missing) = wf
rest_of_call-Opened created c (err e, t) wf = wf

get_or_create_call-Opened :
    (created : Result ℕ) (c : ℕ) (s : Sfu)
    → IsWellFormed s
    → Opened c (get_or_create_call created c s)
unfolding get_or_create_call
get_or_create_call-Opened created c s w =
    rest_of_call-Opened created c (begin_call c s) (begin_call-Begun c s w)

add_peer-is_empty : (k u : ℕ) (call : Call) → is_empty (add_peer k u call).peers ≡ false
add_peer-is_empty k u call = elim (Option-cases (get call.peers k)) [
  | inl out ↦ ground (arith, out, set-is_empty call.peers k (new_peer k u))
  | inr (p, there) ↦ ground (arith, there, get_of_is_empty call.peers k)
]
  where
    get_of_is_empty : (m : Map ℕ Peer) (j : ℕ) → is_empty m ≡ true → get m j ≡ none
    get_of_is_empty [] j h = unfold get in refl
    get_of_is_empty (e ∷ m) j h = ground arith

add_peer-HasOwnKeys :
    (k u : ℕ) (call : Call) → HasOwnKeys call.peers → HasOwnKeys (add_peer k u call).peers
add_peer-HasOwnKeys k u call own j q there = elim (Option-cases (get call.peers k)) [
  | inl out ↦ ground (arith, out, get-set call.peers k j (new_peer k u), own j q)
  | inr (p, here) ↦ ground (arith, here, own j q)
]

pub update_call_same :
    (c : ℕ) (call : Call) (change : Call → Call) (t : Sfu)
    → get t.calls c ≡ some call
    → update_call c call.router change t ≡ record t { calls = set t.calls c (change call) }
update_call_same c call change t there = ground arith

first_peer-IsWellFormed :
    (c k u : ℕ) (opened : Result Call × Sfu)
    → Opened c opened
    → IsWellFormed
        (proceed opened (λ call t. (ok call.router, update_call c call.router (add_peer k u) t))).1
first_peer-IsWellFormed c k u (ok call, t) (w, there, own) =
    rw (update_call_same c call (add_peer k u) t there) (
      set-IsWellFormed t c t.effects (add_peer k u call) w (add_peer-is_empty k u call)
        (add_peer-HasOwnKeys k u call own))
first_peer-IsWellFormed c k u (err e, t) w = w

pub get_rtp_capabilities-IsWellFormed :
    (created : Result ℕ) (c k u : ℕ) (s : Sfu)
    → IsWellFormed s
    → IsWellFormed (get_rtp_capabilities created c k u s).1
unfolding get_rtp_capabilities
get_rtp_capabilities-IsWellFormed created c k u s w =
    first_peer-IsWellFormed c k u (get_or_create_call created c s)
      (get_or_create_call-Opened created c s w)

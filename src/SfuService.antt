-- ===== src/SfuService.antt =====
-- The SFU service (src/services/sfuService.js): workers, calls, peers, and what lives on them.
-- mediasoup is not under src: what it answers to a call (a fresh handle, or a failure) and what
-- `canConsume` says are arguments of the operations, and what the service asks it to open and to
-- close is recorded in `effects`, latest first. A call id `room:<id>` stands for the room's id. A
-- call object is known by its router, so a write to a call that is no longer in the map under its
-- id is seen by nobody. Codecs, RTP and DTLS parameters and logging are left out.
pub mod Invariant
pub mod Opening
pub mod Requests
pub mod Race
pub mod Startup
use smartmeet_backend.Prelude.{
  ℕ, String, zero, suc, ◌+◌, ◌%◌, ◌≡◌, Bool, true, false, not, ◌&&◌, Option, none, some, List, [],
  ◌∷◌, ◌++◌, ◌==◌, ltb, if◌then◌else◌, length, find_first, is_none, Action, Result, ok, err, pure,
  throw, gets, or_throw, throw_if, modify, ◌>>=◌, ◌>>◌,
}
use smartmeet_backend.Errors.{Failure, plain_error}
use smartmeet_backend.Prelude.Map.{nat_key, Map, get, set, delete, has, keys, values, is_empty}
pub use smartmeet_backend.SfuState.{
  Direction, send, recv, MediaKind, audio, video, Transport, Producer, Consumer, Peer, Call, Effect,
  router_created, router_closed, transport_closed, Sfu, new_peer, new_call,
}

-- the getter `isAvailable`
abbrev pub is_available : Sfu → Bool
is_available s = s.is_installed && ltb 0 (length s.workers)

abbrev pub unavailable : Failure
unavailable = plain_error "SFU calling is not available on this server (mediasoup not installed)"

-- `this.workers[i]`
abbrev pub nth_worker : List ℕ → ℕ → Option ℕ
nth_worker [] i = none
nth_worker (w ∷ ws) zero = some w
nth_worker (w ∷ ws) (suc i) = nth_worker ws i

-- `_nextWorker`
unfoldable pub next_worker : Action Sfu (Option ℕ)
next_worker s = (
  ok (nth_worker s.workers s.next_worker_index),
  record s { next_worker_index = (s.next_worker_index + 1) % length s.workers },
)

-- mediasoup's answer
abbrev pub answer : {A : Type 0} → Result A → Action Sfu A
answer r s = (r, s)

-- `_getOrCreateCall` up to its `await`: the call that is there, or the worker for a new one
unfoldable pub begin_call : ℕ → Action Sfu (Option Call × Option ℕ)
unfolding next_worker
begin_call call_id = do
  available ← gets is_available
  throw_if (not available) unavailable
  found ← gets (λ s. get s.calls call_id)
  worker ← (if is_none found then next_worker else pure none)
  pure (found, worker)

-- … and from there, with the worker and the new router
unfoldable pub finish_call : ℕ → ℕ → ℕ → Action Sfu Call
finish_call call_id worker router = do
  modify (λ s. record s {
    calls = set s.calls call_id (new_call router);
    effects = router_created worker router ∷ s.effects;
  })
  pure (new_call router)

-- A worker that is undefined has no `createRouter`.
unfoldable pub rest_of_call : Result ℕ → ℕ → Option Call × Option ℕ → Action Sfu Call
unfolding finish_call
rest_of_call created call_id (some call, w) = pure call
rest_of_call created call_id (none, w) = do
  worker ← or_throw w (plain_error "Cannot read properties of undefined (reading 'createRouter')")
  router ← answer created
  finish_call call_id worker router

pub get_or_create_call : Result ℕ → ℕ → Action Sfu Call
get_or_create_call created call_id = do
  begun ← begin_call call_id
  rest_of_call created call_id begun

-- a write to a call object, which the map shows only if the object is still there
abbrev pub update_call : ℕ → ℕ → (Call → Call) → Sfu → Sfu
update_call call_id router change s = elim (get s.calls call_id) [
  | none ↦ s
  | some call ↦
      if call.router == router then record s { calls = set s.calls call_id (change call) } else s
]

-- `if (!call.peers.has(socketId)) call.peers.set(socketId, new Peer(socketId, userId));`
abbrev pub add_peer : ℕ → ℕ → Call → Call
add_peer socket_id user_id call =
    if has call.peers socket_id
    then call
    else record call { peers = set call.peers socket_id (new_peer socket_id user_id) }

-- Returns the router, for its capabilities.
pub get_rtp_capabilities : Result ℕ → ℕ → ℕ → ℕ → Action Sfu ℕ
get_rtp_capabilities created call_id socket_id user_id = do
  call ← get_or_create_call created call_id
  modify (update_call call_id call.router (add_peer socket_id user_id))
  pure call.router

abbrev pub find_peer : ℕ → ℕ → Sfu → Option (Call × Peer)
find_peer call_id socket_id s = elim (get s.calls call_id) [
  | none ↦ none
  | some call ↦ elim (get call.peers socket_id) [ none ↦ none | some peer ↦ some (call, peer) ]
]

-- The text stands for the source's, which names the socket and the call.
pub get_peer : ℕ → ℕ → Action Sfu (Call × Peer)
get_peer call_id socket_id = do
  found ← gets (find_peer call_id socket_id)
  or_throw found (plain_error "No SFU peer for socket")

-- a write to the peer of a socket in a call
abbrev pub update_peer : ℕ → ℕ → (Peer → Peer) → Sfu → Sfu
update_peer call_id socket_id change s = elim (get s.calls call_id) [
  | none ↦ s
  | some call ↦ elim (get call.peers socket_id) [
    | none ↦ s
    | some peer ↦ record s {
      calls = set s.calls call_id (record call { peers = set call.peers socket_id (change peer) });
    }
  ]
]

abbrev pub put_transport : Transport → Peer → Peer
put_transport t p = record p { transports = set p.transports t.id t }

abbrev pub put_producer : Producer → Peer → Peer
put_producer x p = record p { producers = set p.producers x.id x }

abbrev pub put_consumer : Consumer → Peer → Peer
put_consumer c p = record p { consumers = set p.consumers c.id c }

pub create_transport : Result ℕ → ℕ → ℕ → Direction → Action Sfu Transport
create_transport created call_id socket_id direction = do
  get_peer call_id socket_id
  id ← answer created
  let t : Transport = record { id = id; direction = direction }
  modify (update_peer call_id socket_id (put_transport t))
  pure t

pub connect_transport : Result (Unit {0}) → ℕ → ℕ → ℕ → Action Sfu (Unit {0})
connect_transport connected call_id socket_id transport_id = do
  (call, peer) ← get_peer call_id socket_id
  or_throw (get peer.transports transport_id) (plain_error "Unknown transport")
  answer connected

pub produce : Result ℕ → ℕ → ℕ → ℕ → MediaKind → Action Sfu ℕ
produce produced call_id socket_id transport_id kind = do
  (call, peer) ← get_peer call_id socket_id
  or_throw (get peer.transports transport_id) (plain_error "Unknown transport")
  id ← answer produced
  modify (
      update_peer call_id socket_id
        (put_producer (record { id = id; transport_id = transport_id; kind = kind })))
  pure id

abbrev pub is_recv : Transport → Bool
is_recv t = elim t.direction [ recv ↦ true | send ↦ false ]

abbrev pub cannot_consume : Failure
cannot_consume = plain_error "Peer cannot consume producer"

abbrev pub no_recv_transport : Failure
no_recv_transport =
    plain_error "No recv transport for peer — call sfu:create-transport(direction=recv) first"

-- `canConsume` of the router is an argument.
pub consume : (ℕ → ℕ → Bool) → Result ℕ → ℕ → ℕ → ℕ → Action Sfu Consumer
consume can_consume consumed call_id socket_id producer_id = do
  (call, peer) ← get_peer call_id socket_id
  throw_if (not (can_consume call.router producer_id)) cannot_consume
  t ← or_throw (find_first is_recv (values peer.transports)) no_recv_transport
  id ← answer consumed
  let c : Consumer = record {
    id = id;
    transport_id = t.id;
    producer_id = producer_id;
    paused = true;
  }
  modify (update_peer call_id socket_id (put_consumer c))
  pure c

pub resume_consumer : Result (Unit {0}) → ℕ → ℕ → ℕ → Action Sfu (Unit {0})
resume_consumer resumed call_id socket_id consumer_id = do
  (call, peer) ← get_peer call_id socket_id
  c ← or_throw (get peer.consumers consumer_id) (plain_error "Unknown consumer")
  answer resumed
  modify (update_peer call_id socket_id (put_consumer (record c { paused = false })))

-- the listeners of 'transportclose' and 'producerclose' on a consumer
pub consumer_closed : ℕ → ℕ → ℕ → Sfu → Sfu
consumer_closed call_id socket_id consumer_id =
    update_peer call_id socket_id (λ p. record p { consumers = delete p.consumers consumer_id })

-- the listener of 'transportclose' on a producer
pub producer_closed : ℕ → ℕ → ℕ → Sfu → Sfu
producer_closed call_id socket_id producer_id =
    update_peer call_id socket_id (λ p. record p { producers = delete p.producers producer_id })

abbrev own_producer_ids : Option (Call × Peer) → List ℕ
own_producer_ids none = []
own_producer_ids (some (call, peer)) = keys peer.producers

pub list_own_producer_ids : ℕ → ℕ → Sfu → List ℕ
list_own_producer_ids call_id socket_id s = own_producer_ids (find_peer call_id socket_id s)

pub record ProducerInfo : Type 0 where
  pub producer_id : ℕ
  pub socket_id : ℕ
  pub user_id : ℕ
  pub kind : MediaKind

abbrev infos : ℕ → ℕ → List Producer → List ProducerInfo
infos socket_id user_id [] = []
infos socket_id user_id (x ∷ xs) =
    record { producer_id = x.id; socket_id = socket_id; user_id = user_id; kind = x.kind }
    ∷ infos socket_id user_id xs

-- the loop over the peers
abbrev pub others : ℕ → List Peer → List ProducerInfo
others socket_id [] = []
others socket_id (p ∷ ps) =
    let rest = others socket_id ps in
    if p.socket_id == socket_id
    then rest
    else infos p.socket_id p.user_id (values p.producers) ++ rest

pub list_other_producers : ℕ → ℕ → Sfu → List ProducerInfo
list_other_producers call_id socket_id s = elim (get s.calls call_id) [
  | none ↦ []
  | some call ↦ others socket_id (values call.peers)
]

-- the effects of closing the transports, latest first
abbrev pub close_all : List ℕ → List Effect → List Effect
close_all [] effects = effects
close_all (t ∷ ts) effects = close_all ts (transport_closed t ∷ effects)

-- what is left of a call without the peer
abbrev without_peer : ℕ → Call → ℕ → List Effect → Sfu → Sfu
without_peer call_id call socket_id closed s =
    let rest = delete call.peers socket_id in
    if is_empty rest
    then record s { calls = delete s.calls call_id; effects = router_closed call.router ∷ closed }
    else record s { calls = set s.calls call_id (record call { peers = rest }); effects = closed }

pub remove_peer : ℕ → ℕ → Sfu → Sfu
remove_peer call_id socket_id s = elim (get s.calls call_id) [
  | none ↦ s
  | some call ↦ elim (get call.peers socket_id) [
    | none ↦ s
    | some peer ↦ without_peer call_id call socket_id (close_all (keys peer.transports) s.effects) s
  ]
]

-- ===== src/SfuService/Requests.antt =====
-- Every operation keeps the invariant, and so does any sequence of them.
use smartmeet_backend.Prelude.{
  ℕ, ◌≡◌, refl, Bool, List, [], ◌∷◌, arith, Option-cases, Bool-cases, inl, inr, Result, proceed,
  proceed-reads, Action, throw_if, find_first, or_throw, or_throw_same, not,
}
use smartmeet_backend.Prelude.Map.{nat_key, values, get, delete, is_empty}
use smartmeet_backend.Errors.{plain_error}
use smartmeet_backend.SfuService.{
  Sfu, Call, Peer, Effect, get_rtp_capabilities, create_transport, produce, consume,
  resume_consumer, connect_transport, consumer_closed, producer_closed, remove_peer, answer,
  without_peer, Direction, MediaKind, get_peer,
}
use smartmeet_backend.SfuService.Invariant.{
  HasOwnKeys, IsWellFormed, but_one, delete-HasOwnKeys, set-IsWellFormed, delete-IsWellFormed,
  update_peer-IsWellFormed, remove_peer_no_call, remove_peer_absent, remove_peer_found,
}
use smartmeet_backend.SfuService.{is_recv, cannot_consume, no_recv_transport}
use smartmeet_backend.SfuService.Opening.{get_rtp_capabilities-IsWellFormed}

get_peer_same : (c k : ℕ) (s : Sfu) → (get_peer c k s).1 ≡ s
unfolding get_peer
get_peer_same c k s = ground arith

-- An operation on a peer: it looks the peer up, may fail on the way, and writes the peer once.
module _ (c k : ℕ) (s : Sfu) (w : IsWellFormed s) where
  abbrev after_peer : {A : Type 0} → (Call × Peer → Action Sfu A) → Sfu
  after_peer f = (proceed (get_peer c k s) f).1

  after_peer-IsWellFormed :
      {A : Type 0} (f : Call × Peer → Action Sfu A)
      → ((found : Call × Peer) → IsWellFormed (f found s).1)
      → IsWellFormed (after_peer f)
  after_peer-IsWellFormed f keep =
      proceed-reads IsWellFormed (get_peer c k s) f s w (get_peer_same c k s) keep

  create_transport-IsWellFormed :
      (created : Result ℕ) (d : Direction) → IsWellFormed (create_transport created c k d s).1
  unfolding create_transport
  create_transport-IsWellFormed created d = after_peer-IsWellFormed _ (λ found.
      proceed-reads IsWellFormed (answer created s) _ s w refl
        (λ id. update_peer-IsWellFormed c k _ s (λ p. refl) w))

  connect_transport-IsWellFormed :
      (connected : Result (Unit {0})) (t : ℕ) → IsWellFormed (connect_transport connected c k t s).1
  unfolding connect_transport
  connect_transport-IsWellFormed connected t = after_peer-IsWellFormed _ (λ found.
      proceed-reads IsWellFormed
        (or_throw (get found.1.transports t) (plain_error "Unknown transport") s) _ s w
        (or_throw_same (get found.1.transports t) _ s) (λ transport. w))

  produce-IsWellFormed :
      (produced : Result ℕ) (t : ℕ) (kind : MediaKind)
      → IsWellFormed (produce produced c k t kind s).1
  unfolding produce
  produce-IsWellFormed produced t kind = after_peer-IsWellFormed _ (λ found.
      proceed-reads IsWellFormed
        (or_throw (get found.1.transports t) (plain_error "Unknown transport") s) _ s w
        (or_throw_same (get found.1.transports t) _ s)
        (λ transport.
          proceed-reads IsWellFormed (answer produced s) _ s w refl
            (λ id. update_peer-IsWellFormed c k _ s (λ p. refl) w)))

  consume-IsWellFormed :
      (can_consume : ℕ → ℕ → Bool) (consumed : Result ℕ) (producer_id : ℕ)
      → IsWellFormed (consume can_consume consumed c k producer_id s).1
  unfolding consume
  consume-IsWellFormed can_consume consumed producer_id = after_peer-IsWellFormed _ (λ found.
      proceed-reads IsWellFormed
        (throw_if (not (can_consume found.0.router producer_id)) cannot_consume s) _ s w refl
        (λ u.
          proceed-reads IsWellFormed
            (or_throw (find_first is_recv (values found.1.transports)) no_recv_transport s) _ s w
            (or_throw_same (find_first is_recv (values found.1.transports)) _ s)
            (λ transport.
              proceed-reads IsWellFormed (answer consumed s) _ s w refl
                (λ id. update_peer-IsWellFormed c k _ s (λ p. refl) w))))

  resume_consumer-IsWellFormed :
      (resumed : Result (Unit {0})) (id : ℕ) → IsWellFormed (resume_consumer resumed c k id s).1
  unfolding resume_consumer
  resume_consumer-IsWellFormed resumed id = after_peer-IsWellFormed _ (λ found.
      proceed-reads IsWellFormed
        (or_throw (get found.1.consumers id) (plain_error "Unknown consumer") s) _ s w
        (or_throw_same (get found.1.consumers id) _ s)
        (λ consumer.
          proceed-reads IsWellFormed (answer resumed s) _ s w refl
            (λ u. update_peer-IsWellFormed c k _ s (λ p. refl) w)))

  consumer_closed-IsWellFormed : (id : ℕ) → IsWellFormed (consumer_closed c k id s)
  unfolding consumer_closed
  consumer_closed-IsWellFormed id = update_peer-IsWellFormed c k _ s (λ p. refl) w

  producer_closed-IsWellFormed : (id : ℕ) → IsWellFormed (producer_closed c k id s)
  unfolding producer_closed
  producer_closed-IsWellFormed id = update_peer-IsWellFormed c k _ s (λ p. refl) w

  without_peer-IsWellFormed :
      (call : Call) (closed : List Effect)
      → HasOwnKeys call.peers
      → IsWellFormed (without_peer c call k closed s)
  without_peer-IsWellFormed call closed own = elim (Bool-cases (is_empty (delete call.peers k))) [
    | inl last ↦ rw (last, without_peer) (delete-IsWellFormed s c _ w)
    | inr more ↦
        rw (more, without_peer)
          (set-IsWellFormed s c closed (record call { peers = delete call.peers k }) (but_one c s w)
            more (delete-HasOwnKeys call.peers k own))
  ]

  remove_peer-IsWellFormed : IsWellFormed (remove_peer c k s)
  remove_peer-IsWellFormed = elim (Option-cases (get s.calls c)) [
    | inl missing ↦ rw (remove_peer_no_call c k s missing) w
    | inr (call, there) ↦ elim (Option-cases (get call.peers k)) [
      | inl absent ↦ rw (remove_peer_absent c k s there absent) w
      | inr (p, found) ↦
          rw (remove_peer_found c k s there found)
            (without_peer-IsWellFormed call _ (w.keyed c call there))
    ]
  ]

-- One request of a socket to the service, with mediasoup's answer, or an event of mediasoup.
pub data Request : Type 0 where
  asks_capabilities : (created : Result ℕ) (c k u : ℕ) → Request
  opens_transport : (created : Result ℕ) (c k : ℕ) → Direction → Request
  connects : (connected : Result (Unit {0})) (c k t : ℕ) → Request
  produces : (produced : Result ℕ) (c k t : ℕ) → MediaKind → Request
  consumes : (can_consume : ℕ → ℕ → Bool) (consumed : Result ℕ) (c k producer : ℕ) → Request
  resumes : (resumed : Result (Unit {0})) (c k consumer : ℕ) → Request
  consumer_gone : (c k consumer : ℕ) → Request
  producer_gone : (c k producer : ℕ) → Request
  leaves : (c k : ℕ) → Request

pub serve : Request → Sfu → Sfu
serve (asks_capabilities r c k u) s = (get_rtp_capabilities r c k u s).1
serve (opens_transport r c k d) s = (create_transport r c k d s).1
serve (connects r c k t) s = (connect_transport r c k t s).1
serve (produces r c k t kind) s = (produce r c k t kind s).1
serve (consumes can r c k p) s = (consume can r c k p s).1
serve (resumes r c k x) s = (resume_consumer r c k x s).1
serve (consumer_gone c k x) s = consumer_closed c k x s
serve (producer_gone c k x) s = producer_closed c k x s
serve (leaves c k) s = remove_peer c k s

serve-IsWellFormed : (r : Request) (s : Sfu) → IsWellFormed s → IsWellFormed (serve r s)
unfolding serve
serve-IsWellFormed (asks_capabilities r c k u) s w = get_rtp_capabilities-IsWellFormed r c k u s w
serve-IsWellFormed (opens_transport r c k d) s w = create_transport-IsWellFormed c k s w r d
serve-IsWellFormed (connects r c k t) s w = connect_transport-IsWellFormed c k s w r t
serve-IsWellFormed (produces r c k t kind) s w = produce-IsWellFormed c k s w r t kind
serve-IsWellFormed (consumes can r c k p) s w = consume-IsWellFormed c k s w can r p
serve-IsWellFormed (resumes r c k x) s w = resume_consumer-IsWellFormed c k s w r x
serve-IsWellFormed (consumer_gone c k x) s w = consumer_closed-IsWellFormed c k s w x
serve-IsWellFormed (producer_gone c k x) s w = producer_closed-IsWellFormed c k s w x
serve-IsWellFormed (leaves c k) s w = remove_peer-IsWellFormed c k s w

pub serve_all : List Request → Sfu → Sfu
unfolding serve
serve_all [] s = s
serve_all (r ∷ rs) s = serve_all rs (serve r s)

-- From a state in which the invariant holds, requests that are served one after the other,
-- whatever mediasoup answers, keep it: the next worker is one of the workers if there are any,
-- every call in the map has a peer, and every peer stands under its socket's id.
pub serve_all-IsWellFormed :
    (rs : List Request) (s : Sfu) → IsWellFormed s → IsWellFormed (serve_all rs s)
unfolding serve_all
serve_all-IsWellFormed [] s w = w
serve_all-IsWellFormed (r ∷ rs) s w =
    serve_all-IsWellFormed rs (serve r s) (serve-IsWellFormed r s w)

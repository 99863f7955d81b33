-- ===== src/Tests/Services.antt =====
-- The theorems on the services that live in memory.
use smartmeet_backend.Prelude.{
  ℕ, zero, suc, ◌<◌, length, Result, ◌≡◌, ◌≤◌, refl, true, none, some, List, [], ◌∷◌, arith, count,
  ok, err,
}
use smartmeet_backend.Errors.{plain_error}
use smartmeet_backend.Prelude.Map.{nat_key, get}
use smartmeet_backend.RateLimit.{chat, reaction, RateKey, rate_key, RateLimitState}
use smartmeet_backend.RateLimit.Windows.{
  max_of, within, granted, is_call_of, granted_bound, granted_own,
}
use smartmeet_backend.WebrtcService.{Signaling, SignalingRedis, or_empty, get_socket_ids_by_user_id}
use smartmeet_backend.WebrtcService.Peers.{user_of}
use smartmeet_backend.WebrtcService.Roster.{last_socket, get_socket_ids_by_user_id-last}
use smartmeet_backend.WebrtcService.Mirror.{
  PeerEvent, joins, leaves, replay, latest, nobody, IsMirrored, replay-latest, replay-IsMirrored,
}
use smartmeet_backend.SfuService.{
  Sfu, Call, Peer, send, audio, begin_call, next_worker, rest_of_call, finish_call, get_peer,
}
use smartmeet_backend.SfuService.Invariant.{IsWellFormed}
use smartmeet_backend.SfuService.Requests.{
  asks_capabilities, opens_transport, produces, serve_all, serve_all-IsWellFormed,
}
use smartmeet_backend.SfuService.Race.{second_half, first_callers_race}
use smartmeet_backend.Config.{pos}
use smartmeet_backend.SfuService.{is_available}
use smartmeet_backend.SfuService.Startup.{init, init_fails_available}
use smartmeet_backend.Metrics.{Metrics}
use smartmeet_backend.Metrics.Totals.{record_all, Tells, record_all-Tells}

-- Two chat messages of one socket and a reaction of another.
abbrev chatter : RateKey
chatter = record { socket_id = 80; kind = chat }

abbrev traffic : List smartmeet_backend.RateLimit.Windows.Call
traffic =
    record { key = chatter; now = 10 }
    ∷ record { key = record { socket_id = 70; kind = reaction }; now = 11 }
    ∷ record { key = chatter; now = 12 }
    ∷ []

granted_bound_example : count (within 10) (granted chatter traffic []) ≤ 16
granted_bound_example =
    granted_bound chatter 10 10 traffic [] (unfold get in refl)
      (omega arith, (omega arith, (omega arith, tt)))

abbrev peer_events : List PeerEvent
peer_events = joins 1 81 8 ∷ leaves 1 80 ∷ joins 1 80 8 ∷ joins 1 70 7 ∷ []

abbrev empty_redis : SignalingRedis
empty_redis = record { is_up = true; room_peers = []; room_quality = [] }

replay-latest_example :
    user_of (replay peer_events (nobody empty_redis)) 1 81 ≡ latest peer_events 1 81
replay-latest_example = replay-latest peer_events empty_redis 1 81

nobody-IsMirrored : IsMirrored (nobody empty_redis)
nobody-IsMirrored = record { up = refl; agrees = λ r k. refl }

replay-IsMirrored_example : IsMirrored (replay peer_events (nobody empty_redis))
replay-IsMirrored_example = replay-IsMirrored peer_events (nobody empty_redis) nobody-IsMirrored

-- The guest has two sockets.
abbrev two_sockets : Signaling
two_sockets = record {
  in_memory_room_peers = (1, (70, 7) ∷ (80, 8) ∷ (81, 8) ∷ []) ∷ [];
  redis = empty_redis;
}

get_socket_ids_by_user_id-last_example :
    get (get_socket_ids_by_user_id 1 two_sockets) 8
    ≡ last_socket (or_empty (get two_sockets.in_memory_room_peers 1)) 8
get_socket_ids_by_user_id-last_example = get_socket_ids_by_user_id-last 1 8 two_sockets

abbrev idle_sfu : Sfu
idle_sfu = record {
  is_installed = true;
  workers = 1 ∷ 2 ∷ [];
  next_worker_index = 0;
  calls = [];
  effects = [];
}

idle_sfu-IsWellFormed : IsWellFormed idle_sfu
unfolding get
idle_sfu-IsWellFormed = record {
  index = λ h. omega arith;
  occupied = λ c call e. cc;
  keyed = λ c call e. cc;
}

serve_all-IsWellFormed_example : IsWellFormed (
    serve_all
      (asks_capabilities (ok 5) 1 80 8
        ∷ opens_transport (ok 20) 1 80 send
        ∷ produces (ok 30) 1 80 20 audio
        ∷ smartmeet_backend.SfuService.Requests.leaves 1 80
        ∷ [])
      idle_sfu)
serve_all-IsWellFormed_example =
    serve_all-IsWellFormed
      (asks_capabilities (ok 5) 1 80 8
        ∷ opens_transport (ok 20) 1 80 send
        ∷ produces (ok 30) 1 80 20 audio
        ∷ smartmeet_backend.SfuService.Requests.leaves 1 80
        ∷ [])
      idle_sfu idle_sfu-IsWellFormed

abbrev sfu_at : ℕ → Sfu
sfu_at i = record idle_sfu { next_worker_index = i }

first_begins : begin_call 1 idle_sfu ≡ (ok (none, some 1), sfu_at 1)
unfolding begin_call next_worker get
first_begins = refl

second_begins : begin_call 1 (sfu_at 1) ≡ (ok (none, some 2), sfu_at 0)
unfolding begin_call next_worker get
second_begins = refl

first_callers_race_example :
    let s₃ = (second_half (ok 5) 1 70 7 (none, some 1) (sfu_at 0)).1 in
    let s₄ = (second_half (ok 6) 1 80 8 (none, some 2) s₃).1 in
    ((found : Call × Peer) × ((get_peer 1 70 s₃).0 ≡ ok found))
    × ((get_peer 1 70 s₄).0 ≡ err (plain_error "No SFU peer for socket"))
first_callers_race_example =
    first_callers_race (ok 5) (ok 6) 1 70 80 7 8 {r = 5} {r' = 6} idle_sfu (sfu_at 1) (sfu_at 0)
      (none, some 1) (none, some 2) (omega arith) (unfold get in refl) first_begins second_begins
      (unfold second_half rest_of_call finish_call in refl)
      (unfold second_half rest_of_call finish_call in refl)

abbrev no_metrics : Metrics
no_metrics = record {
  is_enabled = true;
  routes = [];
  sockets = record {
    connections = 0;
    disconnections = 0;
    messages_sent = 0;
    messages_received = 0;
  };
}

abbrev two_requests : List smartmeet_backend.Metrics.Totals.Request
two_requests =
    record { route_key = 3; duration = 40; status_code = 500 }
    ∷ record { route_key = 3; duration = 20; status_code = 200 }
    ∷ []

record_all-Tells_example : Tells 3 two_requests (get (record_all two_requests no_metrics).routes 3)
record_all-Tells_example = record_all-Tells two_requests no_metrics 3 refl refl

-- Two workers are wanted, and the second does not start.
abbrev second_fails : ℕ → Result ℕ
second_fails zero = ok 5
second_fails (suc _) = err (plain_error "no port")

abbrev pub stopped_sfu : Sfu
stopped_sfu = record {
  is_installed = true;
  workers = [];
  next_worker_index = 0;
  calls = [];
  effects = [];
}

first_starts : (j : ℕ) → j < 1 → (w : ℕ) × (second_fails j ≡ ok w)
first_starts zero h = (5, refl)
first_starts (suc j) h = absurd (omega arith)

init_fails_available_example :
    ((init (pos 2) second_fails stopped_sfu).0 ≡ err (plain_error "no port"))
    × (length (init (pos 2) second_fails stopped_sfu).1.workers ≡ 1)
    × (is_available (init (pos 2) second_fails stopped_sfu).1 ≡ true)
init_fails_available_example =
    init_fails_available second_fails (pos 2) 1 (plain_error "no port") stopped_sfu refl refl
      (omega arith) (omega arith) first_starts refl

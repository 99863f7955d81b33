-- ===== src/SfuState.antt =====
-- The state of the SFU service (src/services/sfuService.js): its workers, calls and peers, and what
-- it asked mediasoup to open and to close, latest first.
use smartmeet_backend.Prelude.{ℕ, Bool, List, []}
use smartmeet_backend.Prelude.Map.{Map}

pub data Direction : Type 0 where
  send recv : Direction

pub data MediaKind : Type 0 where
  audio video : MediaKind

pub record Transport : Type 0 where
  pub id : ℕ
  pub direction : Direction

pub record Producer : Type 0 where
  pub id : ℕ
  pub transport_id : ℕ
  pub kind : MediaKind

pub record Consumer : Type 0 where
  pub id : ℕ
  pub transport_id : ℕ
  pub producer_id : ℕ
  pub paused : Bool

pub record Peer : Type 0 where
  pub socket_id : ℕ
  pub user_id : ℕ
  pub transports : Map ℕ Transport
  pub producers : Map ℕ Producer
  pub consumers : Map ℕ Consumer

pub record Call : Type 0 where
  pub router : ℕ
  pub peers : Map ℕ Peer

pub data Effect : Type 0 where
  router_created : (worker router : ℕ) → Effect
  router_closed : (router : ℕ) → Effect
  transport_closed : (transport : ℕ) → Effect

pub record Sfu : Type 0 where
  pub is_installed : Bool
  pub workers : List ℕ
  pub next_worker_index : ℕ
  pub calls : Map ℕ Call
  pub effects : List Effect

abbrev pub new_peer : ℕ → ℕ → Peer
new_peer socket_id user_id = record {
  socket_id = socket_id;
  user_id = user_id;
  transports = [];
  producers = [];
  consumers = [];
}

abbrev pub new_call : ℕ → Call
new_call router = record { router = router; peers = [] }

-- ===== src/Metrics.antt =====
-- The in-process metrics (src/utils/metrics.js). Durations are whole units of time, so a mean is
-- kept as its sum and its count; the rounding of `getSnapshot` to two decimals is left out.
-- `Infinity` as the first minimum is `none`.
pub mod Totals
use smartmeet_backend.Prelude.{
  ℕ, suc, ◌+◌, ◌≤◌, min, max, Bool, true, false, Option, none, some, List, [], ◌∷◌, leb,
  if◌then◌else◌,
}
use smartmeet_backend.Prelude.Map.{nat_key, Map, get, set}

pub record RouteStats : Type 0 where
  pub count : ℕ
  pub error_count : ℕ
  pub total_duration : ℕ
  pub min_duration : Option ℕ
  pub max_duration : ℕ

pub record SocketStats : Type 0 where
  pub connections : ℕ
  pub disconnections : ℕ
  pub messages_sent : ℕ
  pub messages_received : ℕ

-- A route key, such as `GET /api/rooms`, is a number.
pub record Metrics : Type 0 where
  pub is_enabled : Bool
  pub routes : Map ℕ RouteStats
  pub sockets : SocketStats

abbrev pub no_requests : RouteStats
no_requests = record {
  count = 0;
  error_count = 0;
  total_duration = 0;
  min_duration = none;
  max_duration = 0;
}

abbrev pub or_no_requests : Option RouteStats → RouteStats
or_no_requests none = no_requests
or_no_requests (some s) = s

-- `Math.min` from `Infinity`
abbrev pub lower : Option ℕ → ℕ → ℕ
lower none d = d
lower (some m) d = min m d

abbrev pub count_request : ℕ → ℕ → RouteStats → RouteStats
count_request duration status_code s = record {
  count = s.count + 1;
  error_count = if leb 500 status_code then s.error_count + 1 else s.error_count;
  total_duration = s.total_duration + duration;
  min_duration = some (lower s.min_duration duration);
  max_duration = max s.max_duration duration;
}

pub record_request : ℕ → ℕ → ℕ → Metrics → Metrics
record_request route_key duration status_code m =
    if m.is_enabled
    then record m {
      routes =
          set m.routes route_key
            (count_request duration status_code (or_no_requests (get m.routes route_key)));
    }
    else m

pub data SocketEvent : Type 0 where
  connections disconnections messages_sent messages_received : SocketEvent

abbrev bump : SocketEvent → SocketStats → SocketStats
bump SocketEvent.connections s = record s { connections = s.connections + 1 }
bump SocketEvent.disconnections s = record s { disconnections = s.disconnections + 1 }
bump SocketEvent.messages_sent s = record s { messages_sent = s.messages_sent + 1 }
bump SocketEvent.messages_received s = record s { messages_received = s.messages_received + 1 }

unfoldable pub record_socket_event : SocketEvent → Metrics → Metrics
record_socket_event type m = if m.is_enabled then record m { sockets = bump type m.sockets } else m

pub record RouteSnapshot : Type 0 where
  pub count : ℕ
  pub error_count : ℕ
  pub total_duration : ℕ
  pub min_duration : ℕ
  pub max_duration : ℕ

abbrev pub or_zero : Option ℕ → ℕ
or_zero none = 0
or_zero (some m) = m

abbrev pub snapshot_of : RouteStats → RouteSnapshot
snapshot_of s = record {
  count = s.count;
  error_count = s.error_count;
  total_duration = s.total_duration;
  min_duration = or_zero s.min_duration;
  max_duration = s.max_duration;
}

abbrev pub snapshots : Map ℕ RouteStats → Map ℕ RouteSnapshot
snapshots [] = []
snapshots ((k, s) ∷ m) = (k, snapshot_of s) ∷ snapshots m

-- the part of `getSnapshot` that the requests and the events decide
pub get_snapshot : Metrics → Map ℕ RouteSnapshot × SocketStats
get_snapshot m = (snapshots m.routes, m.sockets)

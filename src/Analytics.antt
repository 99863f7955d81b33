-- ===== src/Analytics.antt =====
-- The summary of the connection metrics and the report (src/services/analyticsService.js); the
-- insert of a metric is in Sockets/SignalingEvents. A mean is kept as its sum and its count. Times
-- are milliseconds.
use smartmeet_backend.Prelude.{
  ℕ, ◌+◌, ◌-◌, ◌*◌, Bool, Option, none, some, List, [], ◌∷◌, leb, select, length, if◌then◌else◌,
}
use smartmeet_backend.Prelude.Map.{Map}
use smartmeet_backend.Models.{Database, ConnectionMetric}
use smartmeet_backend.Metrics.{Metrics, RouteSnapshot, SocketStats, get_snapshot}

-- The sums are 0 where there is no sample, as the means of the source are.
pub record ConnectionSummary : Type 0 where
  pub window_minutes : ℕ
  pub sample_count : ℕ
  pub total_bandwidth_in : ℕ
  pub total_bandwidth_out : ℕ
  pub total_latency : ℕ
  pub total_packet_loss : ℕ

abbrev pub default_window_minutes : ℕ
default_window_minutes = 15

abbrev pub sum_of : (ConnectionMetric → ℕ) → List ConnectionMetric → ℕ
sum_of f [] = 0
sum_of f (m ∷ ms) = f m + sum_of f ms

-- `where: { recordedAt: { [Op.gte]: since } }`
abbrev pub recent_metrics : ℕ → ℕ → Database → List ConnectionMetric
recent_metrics now window_minutes db =
    let since = now - window_minutes * 60 * 1000 in
    select (λ (m : ConnectionMetric). leb since m.recorded_at) db.connection_metrics

unfoldable pub get_connection_metrics_summary : ℕ → ℕ → Database → ConnectionSummary
get_connection_metrics_summary now window_minutes db =
    let rows = recent_metrics now window_minutes db in
    record {
      window_minutes = window_minutes;
      sample_count = length rows;
      total_bandwidth_in = sum_of (λ m. m.bandwidth_in) rows;
      total_bandwidth_out = sum_of (λ m. m.bandwidth_out) rows;
      total_latency = sum_of (λ m. m.latency) rows;
      total_packet_loss = sum_of (λ m. m.packet_loss) rows;
    }

pub record MetricsReport : Type 0 where
  pub api : Map ℕ RouteSnapshot × SocketStats
  pub connection_quality : Option ConnectionSummary
  pub generated_at : ℕ

-- Where the query fails, the summary is `null`.
unfoldable pub get_metrics_report : (is_query_ok : Bool) → ℕ → Metrics → Database → MetricsReport
unfolding get_connection_metrics_summary
get_metrics_report is_query_ok now metrics db = record {
  api = get_snapshot metrics;
  connection_quality =
      if is_query_ok
      then some (get_connection_metrics_summary now default_window_minutes db)
      else none;
  generated_at = now;
}

-- ===== src/Server/Metrics.antt =====
-- server/ServerMetrics.cc. A counter is an `AtomicInt64`: its 64 bits as a number, which wraps.
-- Doubles are not modelled: a quotient is kept as its two sides.
use chat_service.Base.{
  ℕ, ◌+◌, ◌-◌, ◌%◌, ◌^◌, none, some, find, codes, ◌&&◌, ltb, leb, ◌==◌, if◌then◌else◌,
}
use chat_service.Json.{JsonObject}
use chat_service.Server.Numbers.{strtol_positive}

abbrev pub wrap : ℕ → ℕ
wrap n = n % 2 ^ 64

pub record ServerMetrics : Type 0 where
  pub total_connections : ℕ
  pub dropped_connections : ℕ
  pub total_messages : ℕ
  pub interval_messages : ℕ
  pub interval_latency_micros : ℕ
  pub interval_latency_samples : ℕ

abbrev pub no_metrics : ServerMetrics
no_metrics = record {
  total_connections = 0;
  dropped_connections = 0;
  total_messages = 0;
  interval_messages = 0;
  interval_latency_micros = 0;
  interval_latency_samples = 0;
}

unfoldable pub record_connection_opened : ServerMetrics → ServerMetrics
record_connection_opened m = record m { total_connections = wrap (m.total_connections + 1) }

unfoldable pub record_connection_dropped : ServerMetrics → ServerMetrics
record_connection_dropped m = record m { dropped_connections = wrap (m.dropped_connections + 1) }

-- A latency as the difference of two times, since it may be negative.
pub record Latency : Type 0 where
  pub until : ℕ
  pub since : ℕ

-- `latencyMicros < 0` counts as 0, as does the subtraction of ℕ.
abbrev pub clamped : Latency → ℕ
clamped l = if ltb l.until l.since then 0 else l.until - l.since

unfoldable pub record_message : Latency → ServerMetrics → ServerMetrics
record_message latency m = record m {
  total_messages = wrap (m.total_messages + 1);
  interval_messages = wrap (m.interval_messages + 1);
  interval_latency_micros = wrap (m.interval_latency_micros + clamped latency);
  interval_latency_samples = wrap (m.interval_latency_samples + 1);
}

-- `over / under`, or 0.0 if `under` is 0.
pub record Quotient : Type 0 where
  pub over : ℕ
  pub under : ℕ

abbrev pub quotient : ℕ → ℕ → Quotient
quotient a b = if b == 0 then record { over = 0; under = 1 } else record { over = a; under = b }

pub record MetricsSnapshot : Type 0 where
  pub online_users : ℕ
  pub active_rooms : ℕ
  pub reported_messages : ℕ
  pub all_messages : ℕ
  pub all_connections : ℕ
  pub all_dropped : ℕ
  pub messages_per_second : Quotient
  pub average_latency_micros : Quotient

-- `intervalSeconds` is the whole number of seconds of common/Config.h.
unfoldable pub snapshot_and_reset : ℕ → ℕ → ℕ → ServerMetrics → ServerMetrics × MetricsSnapshot
snapshot_and_reset online rooms seconds m = (
  record m { interval_messages = 0; interval_latency_micros = 0; interval_latency_samples = 0 },
  record {
    online_users = online;
    active_rooms = rooms;
    reported_messages = m.interval_messages;
    all_messages = m.total_messages;
    all_connections = m.total_connections;
    all_dropped = m.dropped_connections;
    messages_per_second = quotient m.interval_messages seconds;
    average_latency_micros = quotient m.interval_latency_micros m.interval_latency_samples;
  },
)

-- `requestLatencyMicros` of server/ChatServer.cc: from the time that the client wrote into the
-- request, if that time is a positive number and not in the future.
unfoldable pub request_latency_micros : JsonObject → ℕ → ℕ → Latency
request_latency_micros request receive_time now = elim (find (codes "sent_at_us") request) [
  | none ↦ record { until = now; since = receive_time }
  | some text ↦
      let sent = strtol_positive text in
      if ltb 0 sent && leb sent now
      then record { until = now; since = sent }
      else record { until = now; since = receive_time }
]

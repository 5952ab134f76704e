-- ===== src/Telemetry.antt =====
-- src/telemetry.rs: the counters and gauges of the daemon. Each is an `AtomicU64`, changed by one
-- relaxed `fetch_add` or `fetch_sub`, which wraps.
use baffle.Prelude.{ℕ, ◌+◌, ◌%◌, ◌<◌, ◌≡◌, refl, arith}

pub record Metrics : Type 0 where
  pub active_sessions : ℕ
  pub accepted_connections : ℕ
  pub active_connections : ℕ
  pub denied_requests : ℕ
  pub upstream_failures : ℕ
  pub interception_errors : ℕ
  pub forced_shutdowns : ℕ

-- `fetch_add(1)` and `fetch_sub(1)`.
unfoldable pub increment : ℕ → ℕ
increment n = (n + 1) % 18446744073709551616

unfoldable pub decrement : ℕ → ℕ
decrement n = (n + 18446744073709551615) % 18446744073709551616

unfoldable pub connection_started : Metrics → Metrics
connection_started m = record m {
  accepted_connections = increment m.accepted_connections;
  active_connections = increment m.active_connections;
}

unfoldable pub connection_stopped : Metrics → Metrics
connection_stopped m = record m { active_connections = decrement m.active_connections }

unfoldable pub denied_request : Metrics → Metrics
denied_request m = record m { denied_requests = increment m.denied_requests }

unfoldable pub upstream_failure : Metrics → Metrics
upstream_failure m = record m { upstream_failures = increment m.upstream_failures }

unfoldable pub interception_error : Metrics → Metrics
interception_error m = record m { interception_errors = increment m.interception_errors }

unfoldable pub forced_shutdown : Metrics → Metrics
forced_shutdown m = record m { forced_shutdowns = increment m.forced_shutdowns }

-- A connection that starts and stops leaves the gauge of active connections where it was, even if
-- the gauge wraps between, and is counted once as accepted, modulo 2^64.
pub connection_stopped-connection_started :
    (m : Metrics)
    → m.active_connections < 18446744073709551616
    → connection_stopped (connection_started m)
      ≡ record m { accepted_connections = increment m.accepted_connections }
unfolding connection_stopped connection_started
connection_stopped-connection_started m h =
    let same : decrement (increment m.active_connections) ≡ m.active_connections =
      unfold increment decrement in omega arith in
    rw same refl

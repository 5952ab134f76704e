-- ===== src/Tests/Telemetry.antt =====
-- The metrics at concrete values.
use baffle.Prelude.{◌≡◌, arith}
use baffle.Telemetry.{
  Metrics, increment, connection_started, connection_stopped, connection_stopped-connection_started,
}

abbrev metrics : Metrics
metrics = record {
  active_sessions = 1;
  accepted_connections = 4;
  active_connections = 18446744073709551615;
  denied_requests = 0;
  upstream_failures = 0;
  interception_errors = 0;
  forced_shutdowns = 0;
}

connection_stopped-connection_started_example :
    connection_stopped (connection_started metrics)
    ≡ record metrics { accepted_connections = increment 4 }
connection_stopped-connection_started_example =
    connection_stopped-connection_started metrics (omega arith)

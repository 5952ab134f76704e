-- ===== src/Connect/Handle.antt =====
-- `handle_client` and `handle_tunnel` of src/proxy_runtime/rama/connect.rs, and `intercept_client`
-- of src/proxy_runtime/rama/tls.rs: what becomes of one accepted connection.
use baffle.Prelude.{
  ℕ, true, false, Option, none, some, List, [], ◌∷◌, ◌++◌, Result, ok, err, ◌>>=◌, map_err,
}
use baffle.Prelude.Text.{Bytes, bytes}
use baffle.Prelude.Assoc.{Assoc}
use baffle.Policy.Types.{RuleMode}
use baffle.Policy.Dns.{ParsedHost}
use baffle.Telemetry.{Metrics, denied_request, upstream_failure, interception_error}
use baffle.Authorization.{
  Destination, SessionPolicy, authorize_connect_authority, permits_tls_interception_authority,
}
use baffle.Io.{Reader, Writer, IoError}
use baffle.Connect.Head.{ParsedConnect}
use baffle.Connect.Receive.{read_connect_request}
use baffle.Connect.Buffered.{BufferedConnectIo, new, buffered}
use baffle.Connect.Tunnel.{copy_until_eof}
use baffle.Connect.Network.{
  ProxyRuntimeError, run, build, elapsed, within, RamaPolicyLayer, Network, established,
  bad_request, forbidden, request_timeout, bad_gateway, gateway_timeout, try_join,
}

module _ (network : Network) where
  open network use {
    client_in, client_out, upstream_in, upstream_out, head_elapses, connect, first_fails,
    peek_client_hello, ext_server_name, rama_domain, connector_data, handshake, relay_http, Hello,
  }

  abbrev pub Client : Type 0
  Client = BufferedConnectIo client_in

  -- What one connection did: the counters, the responses that the handlers wrote themselves, the
  -- destination they called, what a tunnel that ended left with both ends, and the result.
  pub record Handled : Type 0 where
    pub metrics : Metrics
    pub sent : List Bytes
    pub dialed : Option Destination
    pub tunnelled : Option (Writer.State upstream_out × Writer.State client_out)
    pub result : Result ProxyRuntimeError (Unit {0})

  abbrev pub reply : Metrics → Bytes → Result ProxyRuntimeError (Unit {0}) → Handled
  reply metrics response result = record {
    metrics = metrics;
    sent = response ∷ [];
    dialed = none;
    tunnelled = none;
    result = result;
  }

  -- Both directions, the client's bytes to the upstream server first.
  unfoldable pub copy_bidirectional :
      ℕ
      → Client
      → Writer.State client_out
      → Reader.State upstream_in × Writer.State upstream_out
      → Option (Result IoError ((ℕ × Writer.State upstream_out) × (ℕ × Writer.State client_out)))
  copy_bidirectional rounds client w (r, u) =
      try_join first_fails (copy_until_eof (buffered client_in) upstream_out rounds 0 client u)
        (copy_until_eof upstream_in client_out rounds 0 r w)

  abbrev pub tunnel_ended :
      Destination
      → Metrics
      → Result IoError ((ℕ × Writer.State upstream_out) × (ℕ × Writer.State client_out))
      → Handled
  tunnel_ended destination metrics (err e) =
      record (reply metrics established (err (run e.message))) { dialed = some destination }
  tunnel_ended destination metrics (ok ((up, u), (down, w))) =
      record (reply metrics established (ok tt)) {
        dialed = some destination;
        tunnelled = some (u, w);
      }

  abbrev pub tunnel_copied :
      Destination
      → Metrics
      → Option (Result IoError ((ℕ × Writer.State upstream_out) × (ℕ × Writer.State client_out)))
      → Option Handled
  tunnel_copied destination metrics none = none
  tunnel_copied destination metrics (some outcome) = some (tunnel_ended destination metrics outcome)

  -- Nothing, if the rounds of the copies run out.
  unfoldable pub handle_tunnel :
      ℕ → Client → Writer.State client_out → Destination → Metrics → Option Handled
  handle_tunnel rounds client w destination metrics = elim (connect destination) [
    | elapsed ↦ some (record (reply (upstream_failure metrics) gateway_timeout (ok tt)) {
      dialed = some destination;
    })
    | within (err e) ↦
        some (record (reply (upstream_failure metrics) bad_gateway (err (run e.message))) {
          dialed = some destination;
        })
    | within (ok upstream) ↦ elim (Writer.write_all client_out w established) [
      | err e ↦
          some
            (record (reply metrics established (err (run e.message))) { dialed = some destination })
      | ok w' ↦ tunnel_copied destination metrics (copy_bidirectional rounds client w' upstream)
    ]
  ]

  -- `map_err(|error| ProxyRuntimeError::Run(error.to_string()))` on a result of rama, and so on.
  abbrev pub intercept_ended :
      Metrics → Option Destination → Result ProxyRuntimeError (Unit {0}) → Handled
  intercept_ended metrics dialed result = record (reply metrics established result) {
    dialed = dialed;
  }

  -- The upstream handshake, bound to the authorized destination, and the relay of the requests.
  unfoldable pub intercept_upstream :
      SessionPolicy
      → Assoc Bytes
      → Bytes
      → Destination
      → Metrics
      → Client
      → Hello
      → Reader.State upstream_in × Writer.State upstream_out
      → Metrics × Result ProxyRuntimeError (Unit {0})
  intercept_upstream policy secrets authority destination metrics client hello upstream =
      elim (rama_domain destination.host >>= connector_data hello) [
        | err e ↦ (metrics, err (build e))
        | ok connector ↦ elim (handshake client upstream connector) [
          | err e ↦ (interception_error metrics, err (run e))
          | ok decrypted ↦
              let layer : RamaPolicyLayer = record {
                policy = policy;
                connect_authority = authority;
                secrets = secrets;
              } in
              let (relayed, counted) = relay_http layer metrics decrypted in
              (counted, map_err run relayed)
        ]
      ]

  unfoldable pub intercept_hello :
      (Bytes → ParsedHost)
      → SessionPolicy
      → Assoc Bytes
      → Bytes
      → Destination
      → Metrics
      → Client
      → Hello
      → Handled
  intercept_hello parse_host policy secrets authority destination metrics client hello =
      elim (permits_tls_interception_authority parse_host policy authority
        (ext_server_name hello)) [
          | false ↦
              intercept_ended (denied_request metrics) none
                (err (run (bytes "TLS SNI does not match the authorized CONNECT authority")))
          | true ↦ elim (connect destination) [
            | elapsed ↦ intercept_ended (upstream_failure metrics) (some destination) (ok tt)
            | within (err e) ↦
                intercept_ended (upstream_failure metrics) (some destination) (err (run e.message))
            | within (ok upstream) ↦
                let (counted, result) =
                  intercept_upstream policy secrets authority destination metrics client hello
                    upstream in
                intercept_ended counted (some destination) result
          ]
        ]

  unfoldable pub intercept_client :
      (Bytes → ParsedHost)
      → SessionPolicy
      → Assoc Bytes
      → Bytes
      → Destination
      → Metrics
      → Client
      → Writer.State client_out
      → Handled
  intercept_client parse_host policy secrets authority destination metrics client w =
      elim (Writer.write_all client_out w established) [
        | err e ↦ intercept_ended metrics none (err (run e.message))
        | ok w' ↦ elim (peek_client_hello client) [
          | err e ↦
              intercept_ended (interception_error metrics) none
                (err (run (bytes "could not inspect TLS ClientHello: " ++ e)))
          | ok (client, none) ↦
              intercept_ended (interception_error metrics) none (
                err (run (bytes "interception-required CONNECT did not contain a TLS ClientHello")))
          | ok (client, some hello) ↦
              intercept_hello parse_host policy secrets authority destination metrics client hello
        ]
      ]

  abbrev pub host_headers : Option Bytes → List Bytes
  host_headers none = []
  host_headers (some host) = host ∷ []

  -- A request whose head was read.
  unfoldable pub handle_parsed :
      (Bytes → ParsedHost)
      → SessionPolicy
      → Assoc Bytes
      → ℕ
      → Metrics
      → Writer.State client_out
      → ParsedConnect
      → Reader.State client_in
      → Option Handled
  handle_parsed parse_host policy secrets rounds metrics w parsed s =
      let client : Client = new client_in s parsed.read_ahead in
      elim (authorize_connect_authority parse_host policy parsed.authority
        (host_headers parsed.host)) [
          | err e ↦ some (reply (denied_request metrics) forbidden (ok tt))
          | ok (mode, destination) ↦ elim parsed.has_body [
            | true ↦ some (reply (denied_request metrics) bad_request (ok tt))
            | false ↦ elim mode [
              | RuleMode.tunnel ↦ handle_tunnel rounds client w destination metrics
              | RuleMode.intercept ↦ some (
                  intercept_client parse_host policy secrets parsed.authority destination metrics
                    client w)
            ]
          ]
        ]

  unfoldable pub handle_client :
      (Bytes → ParsedHost)
      → SessionPolicy
      → Assoc Bytes
      → ℕ
      → Metrics
      → Writer.State client_out
      → Reader.State client_in
      → Option Handled
  handle_client parse_host policy secrets rounds metrics w s = elim (head_elapses s) [
    | true ↦ some (reply metrics request_timeout (ok tt))
    | false ↦ elim (read_connect_request client_in s) [
      | none ↦ none
      | some (err e) ↦ some (reply metrics bad_request (err (run e.message)))
      | some (ok (parsed, s')) ↦ handle_parsed parse_host policy secrets rounds metrics w parsed s'
    ]
  ]

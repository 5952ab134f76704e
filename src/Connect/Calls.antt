-- ===== src/Connect/Calls.antt =====
-- Whom the handlers of src/proxy_runtime/rama/connect.rs and tls.rs call, once a destination is known.
use baffle.Prelude.{
  ℕ, ◌≡◌, ◌⊎◌, inl, inr, refl, true, Option, none, some, Result, ok, err, Bool-cases, Result-cases,
  Bool,
}
use baffle.Prelude.Text.{Bytes}
use baffle.Prelude.Assoc.{Assoc}
use baffle.Policy.Dns.{ParsedHost}
use baffle.Telemetry.{Metrics}
use baffle.Authorization.{Destination, SessionPolicy, permits_tls_interception_authority}
use baffle.Io.{Writer, IoError}
use baffle.Connect.Network.{Network, established, Timed-cases}
use baffle.Connect.Handle.{
  Client, Handled, handle_tunnel, copy_bidirectional, intercept_client, intercept_hello,
  tunnel_copied,
}

module _ (network : Network) where
  open network use {
    client_in, client_out, upstream_in, upstream_out, head_elapses, connect, ext_server_name, Hello,
  }

  -- The handler called nobody but the server of the destination.
  unfoldable pub Calls : Destination → Option (Handled network) → Type 0
  Calls d none = Unit {0}
  Calls d (some handled) = (handled.dialed ≡ none) ⊎ (handled.dialed ≡ some d)

  copied-Calls :
      (d : Destination) (metrics : Metrics)
      (copied : Option
        (Result IoError ((ℕ × Writer.State upstream_out) × (ℕ × Writer.State client_out))))
      → Calls d (tunnel_copied network d metrics copied)
  unfolding Calls
  copied-Calls d metrics none = tt
  copied-Calls d metrics (some (err e)) = inr refl
  copied-Calls d metrics (some (ok ((up, u), (down, w)))) = inr refl

  pub tunnel-Calls :
      (rounds : ℕ) (client : Client network) (w : Writer.State client_out) (d : Destination)
      (metrics : Metrics)
      → Calls d (handle_tunnel network rounds client w d metrics)
  unfolding handle_tunnel Calls
  tunnel-Calls rounds client w d metrics = elim (Timed-cases (connect d)) [
    | inl late ↦ rw (handle_tunnel, late) (inr refl)
    | inr (inl (f, failed)) ↦ rw (handle_tunnel, failed) (inr refl)
    | inr (inr (upstream, dialed)) ↦
        elim (Result-cases (Writer.write_all client_out w established)) [
          | inl (w', wrote) ↦
              rw (handle_tunnel, dialed, wrote)
                (copied-Calls d metrics (copy_bidirectional network rounds client w' upstream))
          | inr (f, failed) ↦ rw (handle_tunnel, dialed, failed) (inr refl)
        ]
  ]

  module _ (parse_host : Bytes → ParsedHost) (policy : SessionPolicy) (secrets : Assoc Bytes) where
    -- The server name of some ClientHello is permitted for the authority.
    abbrev pub IsNamed : Bytes → Type 0
    IsNamed authority =
        (hello : Hello) × (permits_tls_interception_authority parse_host policy authority
            (ext_server_name hello)
          ≡ true)

    -- The handler called nobody, or the server of the destination after such a ClientHello.
    unfoldable pub CallsNamed : Bytes → Destination → Handled network → Type 0
    CallsNamed authority d handled =
        (handled.dialed ≡ none) ⊎ ((handled.dialed ≡ some d) × IsNamed authority)

    hello-CallsNamed :
        (authority : Bytes) (d : Destination) (metrics : Metrics) (client : Client network)
        (hello : Hello)
        → CallsNamed authority d
            (intercept_hello network parse_host policy secrets authority d metrics client hello)
    unfolding CallsNamed intercept_hello
    hello-CallsNamed authority d metrics client hello =
        let named : Bool =
          permits_tls_interception_authority parse_host policy authority (ext_server_name hello) in
        elim (Bool-cases named) [
          | inr other ↦ rw (intercept_hello, other) (inl refl)
          | inl same ↦ elim (Timed-cases (connect d)) [
            | inl late ↦ rw (intercept_hello, same, late) (inr (refl, (hello, same)))
            | inr (inl (f, failed)) ↦ rw (intercept_hello, same, failed) (inr (refl, (hello, same)))
            | inr (inr (upstream, dialed)) ↦
                rw (intercept_hello, same, dialed) (inr (refl, (hello, same)))
          ]
        ]

    pub intercept-CallsNamed :
        (authority : Bytes) (d : Destination) (metrics : Metrics) (client : Client network)
        (w : Writer.State client_out)
        → CallsNamed authority d
            (intercept_client network parse_host policy secrets authority d metrics client w)
    unfolding intercept_client CallsNamed
    intercept-CallsNamed authority d metrics client w =
        elim (Result-cases (Writer.write_all client_out w established)) [
          | inr (f, failed) ↦ rw (intercept_client, failed) (inl refl)
          | inl (w', wrote) ↦ elim (Result-cases (Network.peek_client_hello network client)) [
            | inr (f, failed) ↦ rw (intercept_client, wrote, failed) (inl refl)
            | inl ((client', none), peeked) ↦ rw (intercept_client, wrote, peeked) (inl refl)
            | inl ((client', some hello), peeked) ↦
                rw (intercept_client, wrote, peeked)
                  (hello-CallsNamed authority d metrics client' hello)
          ]
        ]

-- ===== src/Connect/Dialing.antt =====
-- Which connections of src/proxy_runtime/rama/connect.rs call an upstream server, and which are refused.
use baffle.Prelude.{
  some-injective, ℕ, ◌≡◌, inl, inr, false, none, some, Result, ok, err, Bool-cases, Result-cases,
  arith, sym, subst, ◌∙◌, ap, ◌++◌, Option-cases,
}
use baffle.Prelude.Text.{Bytes}
use baffle.Prelude.Assoc.{Assoc}
use baffle.Policy.Types.{RuleMode}
use baffle.Policy.Dns.{ParsedHost}
use baffle.Telemetry.{Metrics, denied_request}
use baffle.Authorization.{
  Destination, SessionPolicy, authorize_connect_authority, AuthorizationError,
}
use baffle.Io.{Writer, Serves, Reader}
use baffle.Connect.Head.{ParsedConnect}
use baffle.Connect.Framing.{connect_of, read_connect_request_lem, with_unread}
use baffle.Connect.Buffered.{new}
use baffle.Connect.Network.{
  Network, forbidden, bad_request, ProxyRuntimeError, request_timeout, run,
}
use baffle.Connect.Handle.{
  Client, Handled, host_headers, handle_tunnel, intercept_client, reply, handle_parsed,
  handle_client,
}
use baffle.Connect.Receive.{read_connect_request}
use baffle.Connect.Calls.{Calls, tunnel-Calls, IsNamed, CallsNamed, intercept-CallsNamed}

module _ (network : Network) where
  open network use {
    client_in, client_out, upstream_in, upstream_out, head_elapses, connect, ext_server_name, Hello,
  }

  module _ (parse_host : Bytes → ParsedHost) (policy : SessionPolicy) (secrets : Assoc Bytes) where
    -- What a request with such a head may call.
    abbrev MayCallParsed : ParsedConnect → Destination → Type 0
    MayCallParsed parsed d =
        (mode : RuleMode) × (authorize_connect_authority parse_host policy parsed.authority
            (host_headers network parsed.host)
          ≡ ok (mode, d))
        × (parsed.has_body ≡ false)
        × (mode ≡ RuleMode.intercept → IsNamed network parse_host policy secrets parsed.authority)

    Calls-dialed :
        (d e : Destination) (handled : Handled network)
        → Calls network d (some handled)
        → handled.dialed ≡ some e
        → d ≡ e
    unfolding Calls
    Calls-dialed d e handled (inl nobody) h = absurd (ground arith)
    Calls-dialed d e handled (inr called) h = some-injective (sym called ∙ h)

    CallsNamed-dialed :
        (authority : Bytes) (d e : Destination) (handled : Handled network)
        → CallsNamed network parse_host policy secrets authority d handled
        → handled.dialed ≡ some e
        → (d ≡ e) × IsNamed network parse_host policy secrets authority
    unfolding CallsNamed
    CallsNamed-dialed authority d e handled (inl nobody) h = absurd (ground arith)
    CallsNamed-dialed authority d e handled (inr (called, named)) h =
        (some-injective (sym called ∙ h), named)

    -- A request that was admitted in a mode, for a destination.
    admitted-MayCall :
        (rounds : ℕ) (metrics : Metrics) (w : Writer.State client_out) (parsed : ParsedConnect)
        (client : Client network) (mode : RuleMode) (d e : Destination) (handled : Handled network)
        → (elim mode [
          | RuleMode.tunnel ↦ handle_tunnel network rounds client w d metrics
          | RuleMode.intercept ↦ some (
              intercept_client network parse_host policy secrets parsed.authority d metrics client
                w)
        ])
          ≡ some handled
        → handled.dialed ≡ some e
        → (d ≡ e)
          × (mode ≡ RuleMode.intercept → IsNamed network parse_host policy secrets parsed.authority)
    admitted-MayCall rounds metrics w parsed client RuleMode.tunnel d e handled h dials = (
      Calls-dialed d e handled
          (subst (Calls network d) h (tunnel-Calls network rounds client w d metrics)) dials,
      λ same. absurd (ground arith),
    )
    admitted-MayCall rounds metrics w parsed client RuleMode.intercept d e handled h dials =
        let (same, named) =
          CallsNamed-dialed parsed.authority d e handled
            (subst (CallsNamed network parse_host policy secrets parsed.authority d)
              (some-injective h)
              (intercept-CallsNamed network parse_host policy secrets parsed.authority d metrics
                client w))
            dials in
        (same, λ mode. named)

    silent_lem :
        (metrics : Metrics) (response : Bytes) (result : Result ProxyRuntimeError (Unit {0}))
        (d : Destination) (handled : Handled network)
        → some (reply network metrics response result) ≡ some handled
        → handled.dialed ≡ some d
        → ⊥
    silent_lem metrics response result d handled h dials = ground arith

    nothing_lem : (handled : Handled network) → none ≡ some handled → ⊥
    nothing_lem handled h = ground arith

    abbrev decide : ParsedConnect → Result AuthorizationError (RuleMode × Destination)
    decide parsed =
        authorize_connect_authority parse_host policy parsed.authority
          (host_headers network parsed.host)

    parsed-MayCall :
        (rounds : ℕ) (metrics : Metrics) (w : Writer.State client_out) (parsed : ParsedConnect)
        (s : Reader.State client_in) (d : Destination) (handled : Handled network)
        → handle_parsed network parse_host policy secrets rounds metrics w parsed s ≡ some handled
        → handled.dialed ≡ some d
        → MayCallParsed parsed d
    unfolding handle_parsed
    parsed-MayCall rounds metrics w parsed s d handled h dials =
        elim (Result-cases (
          authorize_connect_authority parse_host policy parsed.authority
            (host_headers network parsed.host))) [
              | inr (refused, failed) ↦ absurd (
                  silent_lem (denied_request metrics) forbidden (ok tt) d handled
                    (rw (handle_parsed, failed) at h) dials)
              | inl ((mode, d'), admitted) ↦ elim (Bool-cases parsed.has_body) [
                | inl body ↦ absurd (
                    silent_lem (denied_request metrics) bad_request (ok tt) d handled
                      (rw (handle_parsed, admitted, body) at h) dials)
                | inr bodiless ↦
                    let (same, named) =
                      admitted-MayCall rounds metrics w parsed (new client_in s parsed.read_ahead)
                        mode d' d handled (rw (handle_parsed, admitted, bodiless) at h) dials in
                    (mode, admitted ∙ ap (λ x. ok (mode, x)) same, bodiless, named)
              ]
            ]

    module _ (serves : Serves client_in) where
      open serves use {unread}

      -- A destination that a connection may call, by its whole text.
      abbrev pub MayCall : Bytes → Destination → Type 0
      MayCall text d =
          (parsed : ParsedConnect) × (mode : RuleMode) × (connect_of text ≡ ok parsed)
          × (authorize_connect_authority parse_host policy parsed.authority
                (host_headers network parsed.host)
              ≡ ok (mode, d))
          × (parsed.has_body ≡ false)
          × (mode ≡ RuleMode.intercept → IsNamed network parse_host policy secrets parsed.authority)

      read_lem :
          (s : Reader.State client_in) (found : ParsedConnect) (s' : Reader.State client_in)
          → read_connect_request client_in s ≡ some (ok (found, s'))
          → connect_of (unread s) ≡ ok (record found { read_ahead = found.read_ahead ++ unread s' })
      read_lem s found s' e =
          let (outcome, given, same) = read_connect_request_lem client_in serves s in
          sym same ∙ ap (with_unread client_in serves) (some-injective (sym given ∙ e))

      -- A connection calls no upstream server, unless its whole text is a CONNECT request without a
      -- body that the policy admits, and then none but the destination that it was admitted for. If
      -- it was admitted for interception, the server name of a ClientHello was permitted before.
      pub handle_client-MayCall :
          (rounds : ℕ) (metrics : Metrics) (w : Writer.State client_out)
          (s : Reader.State client_in) (d : Destination) (handled : Handled network)
          → handle_client network parse_host policy secrets rounds metrics w s ≡ some handled
          → handled.dialed ≡ some d
          → MayCall (unread s) d
      unfolding handle_client
      handle_client-MayCall rounds metrics w s d handled h dials =
          elim (Bool-cases (head_elapses s)) [
            | inl late ↦ absurd (
                silent_lem metrics request_timeout (ok tt) d handled (rw (handle_client, late) at h)
                  dials)
            | inr timely ↦ elim (Option-cases (read_connect_request client_in s)) [
              | inl unread ↦ absurd (nothing_lem handled (rw (handle_client, timely, unread) at h))
              | inr (err f, failed) ↦ absurd (
                  silent_lem metrics bad_request (err (run f.message)) d handled
                    (rw (handle_client, timely, failed) at h) dials)
              | inr (ok (found, s'), read) ↦
                  let (mode, admitted, bodiless, named) =
                    parsed-MayCall rounds metrics w found s' d handled
                      (rw (handle_client, timely, read) at h) dials in
                  (
                    record found { read_ahead = found.read_ahead ++ unread s' },
                    mode,
                    read_lem s found s' read,
                    admitted,
                    bodiless,
                    named,
                  )
            ]
          ]

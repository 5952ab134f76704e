-- ===== src/Connect/Refused.antt =====
-- How src/proxy_runtime/rama/connect.rs answers a connection, by its whole text.
use baffle.Prelude.{
  ℕ, ◌≡◌, refl, ◌⊎◌, inl, inr, Bool, true, false, Option, none, some, List, [], ◌∷◌, if◌then◌else◌,
  Result, ok, err, Bool-cases, Result-cases, subst, sym, arith,
}
use baffle.Connect.Buffered.{new}
use baffle.Connect.Framing.{connect_of, with_unread, read_connect_request_lem}
use baffle.Connect.Receive.{read_connect_request}
use baffle.Prelude.Text.{Bytes}
use baffle.Prelude.Assoc.{Assoc}
use baffle.Policy.Types.{RuleMode}
use baffle.Policy.Dns.{ParsedHost}
use baffle.Telemetry.{Metrics, denied_request}
use baffle.Authorization.{
  Destination, SessionPolicy, AuthorizationError, authorize_connect_authority,
  permits_tls_interception_authority,
}
use baffle.Io.{Writer, IoError, Serves, Reader}
use baffle.Connect.Head.{ParsedConnect}
use baffle.Connect.Network.{
  Network, established, bad_request, forbidden, request_timeout, bad_gateway, gateway_timeout,
  Timed-cases, ProxyRuntimeError, run,
}
use baffle.Connect.Handle.{
  Client, Handled, host_headers, handle_tunnel, copy_bidirectional, tunnel_copied, intercept_client,
  intercept_hello, handle_parsed, reply, handle_client,
}

module _ (network : Network) where
  open network use {
    client_in, client_out, upstream_in, upstream_out, head_elapses, connect, ext_server_name, Hello,
  }

  -- The answer of a handler that was admitted to its destination: the tunnel is established, or the
  -- upstream server did not answer.
  abbrev pub IsServed : List Bytes → Type 0
  IsServed sent =
      (sent ≡ established ∷ []) ⊎ (sent ≡ bad_gateway ∷ []) ⊎ (sent ≡ gateway_timeout ∷ [])

  -- The same of a handler that may not come to an end.
  unfoldable pub Serving : Option (Handled network) → Type 0
  Serving none = Unit {0}
  Serving (some handled) = IsServed handled.sent

  copied-Serving :
      (d : Destination) (metrics : Metrics)
      (copied : Option
        (Result IoError ((ℕ × Writer.State upstream_out) × (ℕ × Writer.State client_out))))
      → Serving (tunnel_copied network d metrics copied)
  unfolding Serving
  copied-Serving d metrics none = tt
  copied-Serving d metrics (some (err e)) = inl refl
  copied-Serving d metrics (some (ok ((up, u), (down, w)))) = inl refl

  tunnel-Serving :
      (rounds : ℕ) (client : Client network) (w : Writer.State client_out) (d : Destination)
      (metrics : Metrics)
      → Serving (handle_tunnel network rounds client w d metrics)
  unfolding handle_tunnel Serving
  tunnel-Serving rounds client w d metrics = elim (Timed-cases (connect d)) [
    | inl late ↦ rw (handle_tunnel, late) (inr (inr refl))
    | inr (inl (f, failed)) ↦ rw (handle_tunnel, failed) (inr (inl refl))
    | inr (inr (upstream, dialed)) ↦
        elim (Result-cases (Writer.write_all client_out w established)) [
          | inl (w', wrote) ↦
              rw (handle_tunnel, dialed, wrote)
                (copied-Serving d metrics (copy_bidirectional network rounds client w' upstream))
          | inr (f, failed) ↦ rw (handle_tunnel, dialed, failed) (inl refl)
        ]
  ]

  module _ (parse_host : Bytes → ParsedHost) (policy : SessionPolicy) (secrets : Assoc Bytes) where
    hello-established :
        (authority : Bytes) (d : Destination) (metrics : Metrics) (client : Client network)
        (hello : Hello)
        → (intercept_hello network parse_host policy secrets authority d metrics client hello).sent
          ≡ established ∷ []
    unfolding intercept_hello
    hello-established authority d metrics client hello =
        elim (Bool-cases (
          permits_tls_interception_authority parse_host policy authority (ext_server_name hello))) [
            | inr other ↦ rw (intercept_hello, other) refl
            | inl same ↦ elim (Timed-cases (connect d)) [
              | inl late ↦ rw (intercept_hello, same, late) refl
              | inr (inl (f, failed)) ↦ rw (intercept_hello, same, failed) refl
              | inr (inr (upstream, dialed)) ↦ rw (intercept_hello, same, dialed) refl
            ]
          ]

    intercept-established :
        (authority : Bytes) (d : Destination) (metrics : Metrics) (client : Client network)
        (w : Writer.State client_out)
        → (intercept_client network parse_host policy secrets authority d metrics client w).sent
          ≡ established ∷ []
    unfolding intercept_client
    intercept-established authority d metrics client w =
        elim (Result-cases (Writer.write_all client_out w established)) [
          | inr (f, failed) ↦ rw (intercept_client, failed) refl
          | inl (w', wrote) ↦ elim (Result-cases (Network.peek_client_hello network client)) [
            | inr (f, failed) ↦ rw (intercept_client, wrote, failed) refl
            | inl ((client', none), peeked) ↦ rw (intercept_client, wrote, peeked) refl
            | inl ((client', some hello), peeked) ↦
                rw (intercept_client, wrote, peeked)
                  (hello-established authority d metrics client' hello)
          ]
        ]

    abbrev decide : ParsedConnect → Result AuthorizationError (RuleMode × Destination)
    decide parsed =
        authorize_connect_authority parse_host policy parsed.authority
          (host_headers network parsed.host)

    -- The refusal that a whole text calls for, and whether it counts as a denial: none for a CONNECT
    -- request without a body that the policy admits.
    abbrev pub refusal : Result IoError ParsedConnect → Option (Bytes × Bool)
    refusal (err e) = some (bad_request, false)
    refusal (ok parsed) =
        elim (authorize_connect_authority parse_host policy parsed.authority
          (host_headers network parsed.host)) [
            | err e ↦ some (forbidden, true)
            | ok admitted ↦ if parsed.has_body then some (bad_request, true) else none
          ]

    -- The same, where the head may be late.
    abbrev pub refusal_in_time : Bool → Result IoError ParsedConnect → Option (Bytes × Bool)
    refusal_in_time true read = some (request_timeout, false)
    refusal_in_time false read = refusal read

    -- A connection is answered with what its text calls for: with the refusal and nothing else done,
    -- no upstream server called and one denial counted where it counts, or by one of the handlers.
    unfoldable pub Answered : Metrics → Option (Bytes × Bool) → Option (Handled network) → Type 0
    Answered metrics none outcome = Serving outcome
    Answered metrics (some (response, counted)) outcome =
        (handled : Handled network) × (outcome ≡ some handled)
        × (handled.sent ≡ response ∷ [])
        × (handled.dialed ≡ none)
        × (handled.metrics ≡ (if counted then denied_request metrics else metrics))

    reply-Answered :
        (metrics counted : Metrics) (response : Bytes) (denied : Bool)
        (result : Result ProxyRuntimeError (Unit {0}))
        → counted ≡ (if denied then denied_request metrics else metrics)
        → Answered metrics (some (response, denied)) (some (reply network counted response result))
    unfolding Answered
    reply-Answered metrics counted response denied result same =
        (reply network counted response result, refl, refl, refl, same)

    -- A request that was admitted in a mode, for a destination.
    served_lem :
        (rounds : ℕ) (metrics : Metrics) (w : Writer.State client_out) (authority : Bytes)
        (client : Client network) (mode : RuleMode) (d : Destination)
        → Answered metrics none (elim mode [
          | RuleMode.tunnel ↦ handle_tunnel network rounds client w d metrics
          | RuleMode.intercept ↦
              some (intercept_client network parse_host policy secrets authority d metrics client w)
        ])
    unfolding Answered Serving
    served_lem rounds metrics w authority client RuleMode.tunnel d =
        tunnel-Serving rounds client w d metrics
    served_lem rounds metrics w authority client RuleMode.intercept d =
        inl (intercept-established authority d metrics client w)

    parsed-Answered :
        (rounds : ℕ) (metrics : Metrics) (w : Writer.State client_out) (parsed : ParsedConnect)
        (s : Reader.State client_in)
        → Answered metrics
            (refusal (ok parsed))
            (handle_parsed network parse_host policy secrets rounds metrics w parsed s)
    unfolding handle_parsed
    parsed-Answered rounds metrics w parsed s =
        let as_read : (r : Option (Bytes × Bool)) (outcome : Option (Handled network))
            → refusal (ok parsed) ≡ r
            → outcome ≡ handle_parsed network parse_host policy secrets rounds metrics w parsed s
            → Answered metrics r outcome
            → Answered metrics (refusal (ok parsed))
                (handle_parsed network parse_host policy secrets rounds metrics w parsed s) =
          λ r outcome same handled a.
            subst (Answered metrics (refusal (ok parsed))) handled
              (subst (λ r. Answered metrics r outcome) (sym same) a) in
        elim (Result-cases (
          authorize_connect_authority parse_host policy parsed.authority
            (host_headers network parsed.host))) [
              | inr (refused, failed) ↦
                  as_read (some (forbidden, true)) _ (ground arith)
                    (sym (rw (handle_parsed, failed) refl))
                    (reply-Answered metrics (denied_request metrics) forbidden true (ok tt) refl)
              | inl ((mode, d), admitted) ↦ elim (Bool-cases parsed.has_body) [
                | inl body ↦
                    as_read (some (bad_request, true)) _ (ground arith)
                      (sym (rw (handle_parsed, admitted, body) refl))
                      (reply-Answered metrics (denied_request metrics) bad_request true (ok tt)
                        refl)
                | inr bodiless ↦
                    as_read none _ (ground arith)
                      (sym (rw (handle_parsed, admitted, bodiless) refl))
                      (served_lem rounds metrics w parsed.authority
                        (new client_in s parsed.read_ahead) mode d)
              ]
            ]

    module _ (serves : Serves client_in) where
      open serves use {unread}

      outcome-Answered :
          (rounds : ℕ) (metrics : Metrics) (w : Writer.State client_out)
          (s : Reader.State client_in)
          (outcome : Result IoError (ParsedConnect × Reader.State client_in))
          → head_elapses s ≡ false
          → read_connect_request client_in s ≡ some outcome
          → Answered metrics
              (refusal (with_unread client_in serves outcome))
              (handle_client network parse_host policy secrets rounds metrics w s)
      unfolding handle_client
      outcome-Answered rounds metrics w s (err f) timely read =
          rw (handle_client, timely, read)
            (reply-Answered metrics metrics bad_request false (err (run f.message)) refl)
      outcome-Answered rounds metrics w s (ok (found, s')) timely read =
          rw (handle_client, timely, read) (parsed-Answered rounds metrics w found s')

      -- How a connection is answered: if its head is late, with 408; if its whole text is no CONNECT
      -- request, with 400; if the policy does not admit it, with 403; if it is admitted and has a
      -- body, with 400. Each of these refusals ends; the last two are counted as one denial, the
      -- first two as none, and none of the four calls an upstream server. Every other connection that
      -- ends is answered that the tunnel is established or that the upstream server failed, and by
      -- nothing else.
      pub handle_client-Answered :
          (rounds : ℕ) (metrics : Metrics) (w : Writer.State client_out)
          (s : Reader.State client_in)
          → Answered metrics
              (refusal_in_time (head_elapses s) (connect_of (unread s)))
              (handle_client network parse_host policy secrets rounds metrics w s)
      unfolding handle_client
      handle_client-Answered rounds metrics w s = elim (Bool-cases (head_elapses s)) [
        | inl late ↦
            rw (handle_client, late)
              (reply-Answered metrics metrics request_timeout false (ok tt) refl)
        | inr timely ↦
            let (outcome, read, same) = read_connect_request_lem client_in serves s in
            rw timely (
              subst
                (λ r.
                  Answered metrics (refusal r)
                    (handle_client network parse_host policy secrets rounds metrics w s))
                same (outcome-Answered rounds metrics w s outcome timely read))
      ]

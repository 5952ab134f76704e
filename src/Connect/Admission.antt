-- ===== src/Connect/Admission.antt =====
-- What an admitted tunnel of src/proxy_runtime/rama/connect.rs carries, and what a connection may call.
use baffle.Prelude.{
  ℕ, ◌<◌, ◌≡◌, refl, sym, ap, ◌∙◌, false, some, [], ◌∷◌, ◌++◌, Result, ok, err, ok-injective, arith,
  subst,
}
use baffle.Prelude.Text.{Bytes, length}
use baffle.Prelude.Assoc.{Assoc}
use baffle.Policy.Types.{RuleMode}
use baffle.Policy.Dns.{ParsedHost}
use baffle.Telemetry.{Metrics}
use baffle.Authorization.{Destination, SessionPolicy, authorize_connect_authority}
use baffle.Io.{Reader, Writer, IoError, Serves, Accepts, drop}
use baffle.Connect.Head.{ParsedConnect}
use baffle.Connect.Receive.{read_connect_request}
use baffle.Connect.Framing.{connect_of, with_unread, read_connect_request_lem}
use baffle.Connect.Buffered.{new, buffered}
use baffle.Connect.Relay.{buffered-Serves, buffered_unread, copy_until_eof_lem}
use baffle.Connect.Network.{Network, within, established, try_join}
use baffle.Connect.Handle.{
  Client, host_headers, handle_parsed, handle_client, handle_tunnel, copy_bidirectional,
}

module _ (network : Network) (serves : Serves (Network.client_in network)) where
  open network use {
    client_in, client_out, upstream_in, upstream_out, head_elapses, connect, ext_server_name, Hello,
  }
  open serves use {unread}

  outcome_ok :
      (outcome : Result IoError (ParsedConnect × Reader.State client_in)) (parsed : ParsedConnect)
      → with_unread client_in serves outcome ≡ ok parsed
      → (found : ParsedConnect) × (s' : Reader.State client_in) × (outcome ≡ ok (found, s'))
        × (record found { read_ahead = found.read_ahead ++ unread s' } ≡ parsed)
  outcome_ok (err f) parsed e = absurd (ground arith)
  outcome_ok (ok (found, s')) parsed e = (found, s', refl, ok-injective e)

  outcome_err :
      (outcome : Result IoError (ParsedConnect × Reader.State client_in)) (e : IoError)
      → with_unread client_in serves outcome ≡ err e
      → outcome ≡ err e
  outcome_err (err f) e h = ground arith
  outcome_err (ok (found, s')) e h = absurd (ground arith)

  -- What the whole text decides about a request is what was read of it.
  pub read_ok :
      (s : Reader.State client_in) (parsed : ParsedConnect)
      → connect_of (unread s) ≡ ok parsed
      → (found : ParsedConnect) × (s' : Reader.State client_in) × (read_connect_request client_in s
          ≡ some (ok (found, s')))
        × (record found { read_ahead = found.read_ahead ++ unread s' } ≡ parsed)
  read_ok s parsed e =
      let (outcome, given, same) = read_connect_request_lem client_in serves s in
      let (found, s', is, whole) = outcome_ok outcome parsed (same ∙ e) in
      (found, s', given ∙ ap some is, whole)

  pub read_err :
      (s : Reader.State client_in) (e : IoError)
      → connect_of (unread s) ≡ err e
      → read_connect_request client_in s ≡ some (err e)
  read_err s e h =
      let (outcome, given, same) = read_connect_request_lem client_in serves s in
      given ∙ ap some (outcome_err outcome e (same ∙ h))

  module _ (up_accepts : Accepts upstream_out) (up_serves : Serves upstream_in)
      (accepts : Accepts client_out) where
    tunnel_lem :
        (rounds : ℕ) (client : Client network) (w : Writer.State client_out) (d : Destination)
        (metrics : Metrics) (r : Reader.State upstream_in) (u : Writer.State upstream_out)
        → connect d ≡ within (ok (r, u))
        → length (buffered_unread client_in serves client) < rounds
        → length (Serves.unread up_serves r) < rounds
        → (u' : Writer.State upstream_out) × (w' : Writer.State client_out) × (handle_tunnel network
              rounds client w d metrics
            ≡ some (record {
              metrics = metrics;
              sent = established ∷ [];
              dialed = some d;
              tunnelled = some (u', w');
              result = ok tt;
            }))
          × (Accepts.received up_accepts u'
              ≡ Accepts.received up_accepts u ++ buffered_unread client_in serves client)
          × (Accepts.received accepts w'
              ≡ (Accepts.received accepts w ++ established) ++ Serves.unread up_serves r)
    unfolding handle_tunnel copy_bidirectional try_join
    tunnel_lem rounds client w d metrics r u dials enough enough' =
        let (w0, wrote, got) = Accepts.accept accepts w established in
        let (u', up, sent) =
          copy_until_eof_lem (buffered client_in) (buffered-Serves client_in serves) upstream_out
            up_accepts rounds 0 client u enough (omega arith) in
        let (w', down, back) =
          copy_until_eof_lem upstream_in up_serves client_out accepts rounds 0 r w0 enough'
            (omega arith) in
        (
          u',
          w',
          rw (handle_tunnel, dials, wrote, copy_bidirectional, up, down) refl,
          sent,
          rw (back, got) refl,
        )

    -- When a connection's whole text is a request that the policy admits as a tunnel, without a body,
    -- and the upstream server is reached, the handler ends, answers 200 and nothing else, and copies
    -- exactly what follows the head of the request to the server, and all that the server sends, after
    -- the answer, to the client. It counts neither a denial nor a failure.
    pub handle_client-tunnel :
        (parse_host : Bytes → ParsedHost) (policy : SessionPolicy) (secrets : Assoc Bytes)
        (rounds : ℕ) (metrics : Metrics) (w : Writer.State client_out) (s : Reader.State client_in)
        (parsed : ParsedConnect) (d : Destination) (r : Reader.State upstream_in)
        (u : Writer.State upstream_out)
        → head_elapses s ≡ false
        → connect_of (unread s) ≡ ok parsed
        → authorize_connect_authority parse_host policy parsed.authority
            (host_headers network parsed.host)
          ≡ ok (RuleMode.tunnel, d)
        → parsed.has_body ≡ false
        → connect d ≡ within (ok (r, u))
        → length parsed.read_ahead < rounds
        → length (Serves.unread up_serves r) < rounds
        → (u' : Writer.State upstream_out) × (w' : Writer.State client_out) × (handle_client network
              parse_host policy secrets rounds metrics w s
            ≡ some (record {
              metrics = metrics;
              sent = established ∷ [];
              dialed = some d;
              tunnelled = some (u', w');
              result = ok tt;
            }))
          × (Accepts.received up_accepts u' ≡ Accepts.received up_accepts u ++ parsed.read_ahead)
          × (Accepts.received accepts w'
              ≡ (Accepts.received accepts w ++ established) ++ Serves.unread up_serves r)
    unfolding handle_client handle_parsed new drop
    handle_client-tunnel parse_host policy secrets rounds metrics w s parsed d r u timely whole
          admitted bodiless dials enough enough' =
        let (found, s', read, same) = read_ok s parsed whole in
        let body : found.has_body ≡ false = ap ParsedConnect.has_body same ∙ bodiless in
        let rest : parsed.read_ahead ≡ found.read_ahead ++ unread s' =
          sym (ap ParsedConnect.read_ahead same) in
        let admits : authorize_connect_authority parse_host policy found.authority
              (host_headers network found.host)
            ≡ ok (RuleMode.tunnel, d) =
          subst
            (λ p.
              authorize_connect_authority parse_host policy (ParsedConnect.authority p)
                (host_headers network (ParsedConnect.host p))
              ≡ ok (RuleMode.tunnel, d))
            (sym same) admitted in
        let (u', w', done, sent, back) =
          tunnel_lem rounds (new client_in s' found.read_ahead) w d metrics r u dials
            (subst (λ t. length t < rounds) rest enough) enough' in
        (
          u',
          w',
          rw (handle_client, timely, read, handle_parsed, admits, body) done,
          subst (λ t. Accepts.received up_accepts u' ≡ Accepts.received up_accepts u ++ t)
              (sym rest) sent,
          back,
        )

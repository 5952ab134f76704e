-- ===== src/Tests/Connect.antt =====
-- CONNECT requests at concrete inputs.
use baffle.Prelude.{
  ℕ, ◌≤◌, ◌<◌, ◌≡◌, refl, sym, ap, ◌∙◌, true, false, some, List, [], ◌∷◌, ◌++◌, Result, ok, ◌>>=◌,
  ok-injective, arith, subst,
}
use baffle.Prelude.Text.{Bytes, bytes, length, all, eq}
use baffle.Authorization.{
  parse_authority_text, is_bad_authority, host_and_port, parse_u16, decide_connect, parse_digits,
  validate_host_header_text,
}
use baffle.Policy.Dns.{
  normalize_dns_name, is_bad_host, without_final_dot, is_bad_label, is_label_byte,
}
use baffle.Policy.Ip.{is_ip_addr}
use baffle.Http.{trim_start, trim_end}
use baffle.Prelude.Text.{any, split_once, strip_suffix, split, starts_with, contains_text}
use baffle.Prelude.Assoc.{get}
use baffle.Policy.Path.{hex_value}
use baffle.Connect.Head.{read_header, read_host}
use baffle.Policy.Types.{RuleMode}
use baffle.Telemetry.{Metrics, denied_request}
use baffle.Authorization.{Destination, authorize_connect_authority, AuthorizationError}
use baffle.Io.{Reader, Writer, IoError, Serves, Accepts, IsBounded, take, drop, min}
use baffle.Io.Slices.{take-drop, length-take}
use baffle.Connect.Head.{ParsedConnect, no_headers, read_headers, Headers}
use baffle.Connect.Receive.{read_connect_request}
use baffle.Connect.Framing.{connect_of, with_unread, read_connect_request_lem}
use baffle.Connect.Ends.{Holds, read_connect_request-Holds}
use baffle.Connect.RoundTrip.{connect_of-print_head}
use baffle.Connect.Printed.{print_head, IsWord, AreLines, join_lines}
use baffle.Connect.Network.{Network, within, established, run, bad_request, forbidden}
use baffle.Connect.Handle.{Handled, handle_client, reply, host_headers}
use baffle.Connect.Admission.{handle_client-tunnel}
use baffle.Connect.Dialing.{MayCall, handle_client-MayCall}
use baffle.Connect.Refused.{Answered, refusal_in_time, handle_client-Answered}
use baffle.Tests.Values.{parse_host, policy}

-- A stream that gives seven bytes at most per read, and one that takes every write.
abbrev size : Bytes → ℕ → ℕ
size s room = min (length s) (min 7 room)

abbrev seven : Reader
seven = record { State = Bytes; read = λ s room. ok (take (size s room) s, drop (size s room) s) }

abbrev sink : Writer
sink = record { State = Bytes; write_all = λ s text. ok (s ++ text); shutdown = λ s. ok s }

seven-length : (s : Bytes) (room : ℕ) → length (take (size s room) s) ≡ size s room
seven-length s room = length-take (size s room) s (ground arith)

seven-fits : (s : Bytes) (room : ℕ) → length (take (size s room) s) ≤ room
seven-fits s room =
    let small : size s room ≤ room = ground arith in omega (arith, seven-length s room, small)

seven-ended : (s : Bytes) (room : ℕ) → 0 < room → take (size s room) s ≡ [] → s ≡ []
unfolding take
seven-ended [] room positive h = refl
seven-ended (c ∷ s) room positive h =
    let some_room : 0 < size (c ∷ s) room = ground arith in
    absurd (omega (arith, some_room, seven-length (c ∷ s) room, ap length h))

seven-IsBounded : IsBounded seven
seven-IsBounded s room chunk s' e =
    subst (λ p. length p.0 ≤ room) (ok-injective e) (seven-fits s room)

abbrev seven-Serves : Serves seven
seven-Serves = record {
  unread = λ s. s;
  serve = λ s room positive. (
    take (size s room) s,
    drop (size s room) s,
    refl,
    sym (take-drop (size s room) s),
    seven-fits s room,
    seven-ended s room positive,
  );
}

abbrev sink-Accepts : Accepts sink
sink-Accepts = record {
  received = λ s. s;
  accept = λ s text. (s ++ text, refl, refl);
  close = λ s. (s, refl, refl);
}

abbrev authority : Bytes
authority = bytes "other.example:443"

abbrev lines : List Bytes
lines = bytes "Host: other.example:443" ∷ bytes "Expect" ∷ []

abbrev destination : Destination
destination = record { host = bytes "other.example"; port = 443 }

abbrev host_line : List Bytes
host_line = bytes "Host: other.example:443" ∷ []

abbrev hello : Bytes
hello = bytes "hello"

abbrev text : Bytes
text = print_head authority host_line ++ hello

abbrev parsed : ParsedConnect
parsed = record {
  authority = authority;
  host = some authority;
  has_body = false;
  read_ahead = hello;
}

abbrev network : Network
network = record {
  client_in = seven;
  client_out = sink;
  upstream_in = seven;
  upstream_out = sink;
  Hello = Bytes;
  Connector = Bytes;
  Decrypted = Bytes;
  head_elapses = λ s. false;
  connect = λ d. within (ok (bytes "welcome", []));
  first_fails = true;
  peek_client_hello = λ client. ok (client, some (bytes "api.example.com"));
  ext_server_name = λ name. some name;
  rama_domain = λ name. ok name;
  connector_data = λ name host. ok host;
  handshake = λ client upstream connector. ok connector;
  relay_http = λ layer metrics decrypted. (ok tt, metrics);
}

abbrev metrics : Metrics
metrics = record {
  active_sessions = 1;
  accepted_connections = 4;
  active_connections = 1;
  denied_requests = 0;
  upstream_failures = 0;
  interception_errors = 0;
  forced_shutdowns = 0;
}

read_connect_request_lem_example :
    (outcome : Result IoError (ParsedConnect × Bytes)) × (read_connect_request seven text
      ≡ some outcome)
    × (with_unread seven seven-Serves outcome ≡ connect_of text)
read_connect_request_lem_example = read_connect_request_lem seven seven-Serves text

read_connect_request-Holds_example :
    (outcome : Result IoError (ParsedConnect × Bytes)) × (read_connect_request seven text
      ≡ some outcome)
    × Holds seven seven-IsBounded outcome
read_connect_request-Holds_example = read_connect_request-Holds seven seven-IsBounded text

authority-IsWord : IsWord authority
unfolding all
authority-IsWord = (refl, refl)

lines-AreLines : AreLines host_line
unfolding all
lines-AreLines = ((refl, refl), tt)

head_fits : length (print_head authority host_line) ≤ 16384
unfolding join_lines
head_fits = omega arith

host_read :
    read_headers no_headers host_line ≡ ok (record { host = some authority; has_body = false })
unfolding read_headers split_once read_header eq read_host trim_end trim_start
host_read = refl

connect_of-print_head_example : connect_of text ≡ (
    read_headers no_headers host_line >>= λ headers. ok (record {
      authority = authority;
      host = headers.host;
      has_body = headers.has_body;
      read_ahead = hello;
    }))
connect_of-print_head_example =
    connect_of-print_head authority host_line hello authority-IsWord lines-AreLines head_fits

text_parsed : connect_of text ≡ ok parsed
text_parsed =
    connect_of-print_head authority host_line hello authority-IsWord lines-AreLines head_fits
    ∙ ap
        (λ r. r >>= λ headers. ok (record {
          authority = authority;
          host = Headers.host headers;
          has_body = Headers.has_body headers;
          read_ahead = hello;
        }))
        host_read

admitted :
    authorize_connect_authority parse_host policy authority (authority ∷ [])
    ≡ ok (RuleMode.tunnel, destination)
unfolding authorize_connect_authority parse_authority_text is_bad_authority all any host_and_port
    split_once parse_u16 normalize_dns_name is_bad_host without_final_dot strip_suffix eq is_ip_addr
    split is_bad_label starts_with is_label_byte decide_connect parse_digits
    validate_host_header_text hex_value get contains_text
admitted = refl

abbrev tunnelled_to : Bytes → Bytes → Handled network
tunnelled_to u w = record {
  metrics = metrics;
  sent = established ∷ [];
  dialed = some destination;
  tunnelled = some (u, w);
  result = ok tt;
}

abbrev rounds : ℕ
rounds = 100

handle_client-tunnel_example :
    (u : Bytes) × (w : Bytes) × (handle_client network parse_host policy [] rounds metrics [] text
      ≡ some (tunnelled_to u w))
    × (u ≡ hello)
    × (w ≡ established ++ bytes "welcome")
handle_client-tunnel_example =
    handle_client-tunnel network seven-Serves sink-Accepts seven-Serves sink-Accepts parse_host
      policy [] rounds metrics [] text parsed destination (bytes "welcome") [] refl text_parsed
      admitted refl refl (omega arith) (omega arith)

reached :
    (u : Bytes) × (w : Bytes) × (handle_client network parse_host policy [] rounds metrics [] text
      ≡ some (tunnelled_to u w))
    × (u ≡ hello)
    × (w ≡ established ++ bytes "welcome")
reached =
    handle_client-tunnel network seven-Serves sink-Accepts seven-Serves sink-Accepts parse_host
      policy [] rounds metrics [] text parsed destination (bytes "welcome") [] refl text_parsed
      admitted refl refl (omega arith) (omega arith)

handle_client-MayCall_example : MayCall network parse_host policy [] seven-Serves text destination
handle_client-MayCall_example =
    handle_client-MayCall network parse_host policy [] seven-Serves rounds metrics [] text
      destination (tunnelled_to reached.0 reached.1) reached.2 refl

-- A request for another port than the fallback allows, and its refusal.
abbrev refused_text : Bytes
refused_text = print_head (bytes "other.example:8443") []

abbrev refused : Handled network
refused = reply network (denied_request metrics) forbidden (ok tt)

handled_refused :
    handle_client network parse_host policy [] rounds metrics [] refused_text ≡ some refused
unfolding handle_client read_connect_request baffle.Connect.Receive.receive take join_lines
    baffle.Connect.Head.header_end baffle.Connect.Head.position starts_with drop
    baffle.Connect.Receive.split_received baffle.Connect.Head.parse_head all
    baffle.Connect.Head.parse_lines baffle.Connect.Head.split_lines
    baffle.Connect.Head.request_authority baffle.Connect.Head.split_ascii_whitespace
    baffle.Connect.Head.words eq authorize_connect_authority decide_connect host_and_port
    is_bad_authority parse_authority_text parse_digits parse_u16
    baffle.Authorization.permits_tls_interception_authority validate_host_header_text
    baffle.Connect.Buffered.new baffle.Connect.Buffered.poll_read
    baffle.Connect.Handle.copy_bidirectional baffle.Connect.Handle.handle_parsed
    baffle.Connect.Handle.handle_tunnel baffle.Connect.Handle.intercept_client
    baffle.Connect.Handle.intercept_hello baffle.Connect.Handle.intercept_upstream read_header
    read_headers read_host baffle.Connect.Network.try_join baffle.Connect.Tunnel.copy_until_eof
    trim_end trim_start is_bad_host is_bad_label is_label_byte normalize_dns_name without_final_dot
    is_ip_addr hex_value get any split split_once strip_suffix denied_request
    baffle.Telemetry.increment baffle.Telemetry.interception_error baffle.Telemetry.upstream_failure
handled_refused = refl

handle_client-Answered_example :
    Answered network parse_host policy [] metrics
      (refusal_in_time network parse_host policy [] false (connect_of refused_text))
      (handle_client network parse_host policy [] rounds metrics [] refused_text)
handle_client-Answered_example =
    handle_client-Answered network parse_host policy [] seven-Serves rounds metrics [] refused_text

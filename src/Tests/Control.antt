-- ===== src/Tests/Control.antt =====
-- Control connections at concrete inputs.
use baffle.Prelude.{
  none, ℕ, ◌≤◌, ◌≡◌, refl, ap, ◌∙◌, true, false, none, some, [], ◌∷◌, ◌++◌, ok, err, arith, leb,
  if◌then◌else◌,
}
use baffle.Prelude.Text.{length-append, Bytes, bytes, length, is_ascii}
use baffle.Io.{IoError, take, drop, unexpected_eof}
use baffle.Io.Slices.{take-length, drop-length}
use baffle.Connect.Network.{within}
use baffle.Tests.Values.{session, parse_host}
use baffle.Control.Requests.{IsValidRequest, request_from_toml-IsValidRequest}
use baffle.Control.Protocol.{
  RequestToml, raw_stop, request_from_toml, protocol_version, ControlRequest,
}
use baffle.Control.Frame.{
  TimedReader, Prompt, max_request_bytes, request_frame, read_request_frame,
  read_request_frame-request_frame, unauthorized,
}
use baffle.Control.Connection.{
  ControlState, inline, CreatedSession, is_peer, refuse, handle_connection,
}
use baffle.Control.Effects.{leased, removed}
use baffle.Control.Leases.{handle_connection-leased}
use baffle.Control.Answers.{AllAllowed}

abbrev read_byte : Bytes → Bytes × Bytes
read_byte [] = ([], [])
read_byte (c ∷ rest) = (c ∷ [], rest)

abbrev eof : IoError
eof = record { kind = unexpected_eof; message = [] }

-- A stream that holds its bytes.
abbrev reader : TimedReader
reader = record {
  State = Bytes;
  read = λ s room. within (ok (read_byte s));
  read_exact = λ s n. within (if leb n (length s) then ok (take n s, drop n s) else err eof);
}

read_whole_lem :
    (s text rest : Bytes)
    → s ≡ text ++ rest
    → (s' : Bytes) × (TimedReader.read_exact reader s (length text) ≡ within (ok (text, s')))
      × (s' ≡ rest)
read_whole_lem s text rest e =
    let fits : leb (length text) (length s) ≡ true =
      ground (arith, ap length e, length-append {0} text rest) in
    let taken : take (length text) s ≡ text = ap (take (length text)) e ∙ take-length text rest in
    let left : drop (length text) s ≡ rest = ap (drop (length text)) e ∙ drop-length text rest in
    (rest, rw (fits, taken, left) refl, refl)

read_one_lem :
    (s : Bytes) (c : ℕ) (rest : Bytes)
    → s ≡ c ∷ rest
    → (s' : Bytes) × (TimedReader.read reader s 1 ≡ within (ok (c ∷ [], s'))) × (s' ≡ rest)
read_one_lem s c rest e = (rest, ap (λ t. within (ok (read_byte t))) e, refl)

abbrev prompt : Prompt reader
prompt = record { unread = λ s. s; read_one = read_one_lem; read_whole = read_whole_lem }

abbrev body : Bytes
body = bytes "create"

fits : length body ≤ max_request_bytes
fits = omega arith

read_request_frame-request_frame_example :
    (frame : Bytes) × (request_frame body ≡ some frame)
    × (0 ∷ 0 ∷ 0 ∷ 6 ∷ bytes "create!" ≡ frame ++ bytes "!"
        → (s' : Bytes) × (read_request_frame reader (0 ∷ 0 ∷ 0 ∷ 6 ∷ bytes "create!")
            ≡ ok (some body, s'))
          × (s' ≡ bytes "!"))
read_request_frame-request_frame_example =
    read_request_frame-request_frame reader prompt (0 ∷ 0 ∷ 0 ∷ 6 ∷ bytes "create!") body
      (bytes "!") refl fits

abbrev created : CreatedSession
created = record {
  id = bytes "s1";
  socket = bytes "/run/s1.sock";
  persistent = false;
  ca_certificate_pem = [];
  credential_seed = [];
}

-- A daemon that takes policies in requests.
abbrev state : ControlState
state = record {
  stream = reader;
  Report = Bytes;
  peer_uid = some 1000;
  trusted_operator_uid = 1000;
  create_mode = inline;
  has_slot = true;
  session_configs = none;
  resolve_secrets = λ session. ok [];
  create_session = λ session secrets source. ok created;
  stop_session = λ id. false;
  reload_session = λ id. none;
  reload_sessions = [];
  list_sessions = [];
  is_utf8 = is_ascii;
  parse_request = λ body. ok (ControlRequest.create 2 session);
  writes = λ response. true;
}

handle_connection-leased_example :
    AllAllowed state (handle_connection state (0 ∷ 0 ∷ 0 ∷ 6 ∷ body)).effects
    × (removed (handle_connection state (0 ∷ 0 ∷ 0 ∷ 6 ∷ body)).effects
        ≡ leased (handle_connection state (0 ∷ 0 ∷ 0 ∷ 6 ∷ body)).effects)
    × (is_peer state (some 1000) ≡ false
        → handle_connection state (0 ∷ 0 ∷ 0 ∷ 6 ∷ body) ≡ refuse state unauthorized)
handle_connection-leased_example = handle_connection-leased state (0 ∷ 0 ∷ 0 ∷ 6 ∷ body)

-- The session that it created is removed again.
removes_session : removed (handle_connection state (0 ∷ 0 ∷ 0 ∷ 6 ∷ body)).effects ≡ bytes "s1" ∷ []
unfolding handle_connection removed read_request_frame baffle.Control.Frame.read_body
    baffle.Control.Frame.read_exact_timed baffle.Control.Frame.from_be_bytes take drop
    baffle.Control.Connection.handle_request baffle.Prelude.Text.all
    baffle.Control.Connection.finish baffle.Control.Connection.answer_request
    baffle.Control.Connection.answer_create baffle.Control.Connection.create_session_response
removes_session = refl

abbrev version : ℕ
version = 2

abbrev toml : RequestToml
toml = record {
  Value = Bytes;
  deserialize_version = λ text. some version;
  deserialize_request = λ text. some (raw_stop version text);
  to_string = λ value. some value;
  deserialize_session = λ text. none;
}

stop_parsed :
    request_from_toml toml parse_host (bytes "s1") ≡ ok (ControlRequest.stop version (bytes "s1"))
unfolding request_from_toml baffle.Control.Protocol.validate_protocol_version
    baffle.Control.Protocol.validate_request baffle.Policy.Names.validate_session_id
    baffle.Prelude.Text.all
stop_parsed = refl

request_from_toml-IsValidRequest_example :
    (some version ≡ some protocol_version)
    × IsValidRequest (ControlRequest.stop version (bytes "s1"))
request_from_toml-IsValidRequest_example =
    request_from_toml-IsValidRequest toml parse_host (bytes "s1")
      (ControlRequest.stop version (bytes "s1")) stop_parsed

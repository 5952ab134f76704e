-- ===== src/Lib.antt =====
-- Baffle: an authorizing HTTPS proxy for sessions that must not hold their own credentials.
--
-- The program. A client sends the daemon a session policy, or names a policy file, over a control
-- socket (src/control/server.rs, src/control/file_config.rs). The policy is
-- validated (crates/baffle-client/src/policy.rs) and compiled, with the session's seed, into the
-- form that requests are held to (src/policy.rs, src/credentials.rs). Each CONNECT of the session's
-- socket is authorized against it; a tunnel that an intercept rule admits is decrypted, and each
-- request in it passes the policy layer (src/proxy_runtime/rama/http.rs), which authorizes it,
-- puts managed credentials into its headers and sends it on, or refuses it.
--
-- The files.
--   Prelude.antt and Prelude/   helpers: Boolean tests, results, byte strings as Rust's `str` has
--                               them, association lists for maps, lists whose elements are apart.
--   Policy/Types.antt           crates/baffle-client/src/lib.rs: the session policy and its parts.
--   Policy/Ip.antt              the address syntax of Rust's `IpAddr`, which host names must not have.
--   Policy/Dns.antt, Dns/       crates/baffle-client/src/policy.rs: normalize_dns_name.
--   Policy/Names.antt           the validators of header names, secret identifiers, user names, socket
--                               names, file names and (src/config/protocol.rs) session identifiers.
--   Policy/Path.antt, Path/     canonicalize_path. Path/Shadow.antt has an independent decoding of
--                               paths to hold it to.
--   Policy/Pattern.antt, Pattern/  validate_path and paths_overlap, and matches_path_pattern of
--                               src/policy.rs.
--   Policy/Rules.antt, Rules/   validate_rule and validate_named_rules. The child modules say what a
--                               valid rule is and hold the checks to it.
--   Policy/Document.antt        validate_session_document and SessionConfig::from_toml.
--   Policy/Builders.antt        crates/baffle-client/src/lib.rs: the constructors of policies.
--   Credentials.antt            src/credentials.rs: derive_fake_credential.
--   Authorization.antt          src/policy.rs: SessionPolicy and its operations. Authorization/ has
--                               its theorems by operation.
--   Http.antt, Http/            src/proxy_runtime/rama/http.rs: RamaPolicyService::serve and
--                               apply_header_credentials.
--   Secrets.antt, Secrets/      src/secrets.rs: the checks and the value of a secret file, and, in
--                               Resolve.antt, SecretStore::resolve.
--   SessionFiles.antt, SessionFiles/  src/control/file_config.rs. Errors.antt: the errors; Imports.antt:
--                               resolve_import_name; Access.antt: read_snapshot and the checks of
--                               directories; Merge.antt: Composition and what one file adds to it;
--                               Compose.antt: compose_file and read_session. The others are theorems.
--   Session.antt                src/control/session.rs: the registry of sessions. Each function is a
--                               section of a method of SessionManager under the registry's lock.
--   Session/Reload.antt         src/control/reload.rs: the sections of reload_locked, and `list`.
--   Session/Step.antt           the interleavings of concurrent calls as a step relation, with the
--                               gauge of src/telemetry.rs and the reload locks. Session/ has the
--                               invariant and its proof by groups of steps.
--   Io.antt, Io/                byte streams as tokio's AsyncRead and AsyncWrite give them.
--   Connect.antt, Connect/      src/proxy_runtime/rama/connect.rs. Head.antt: the text of a request's
--                               head; Receive.antt: read_connect_request; Buffered.antt:
--                               BufferedConnectIo; Tunnel.antt: copy_until_eof; Network.antt: the
--                               parameters; Handle.antt: handle_client, handle_tunnel and, of
--                               src/proxy_runtime/rama/tls.rs, intercept_client. The others are
--                               theorems.
--   Control.antt, Control/      Protocol.antt: src/config/protocol.rs; Frame.antt and Connection.antt:
--                               src/control/server.rs, read_request_frame and handle_connection. The
--                               others are theorems.
--   Settings.antt, Settings/    src/config/daemon.rs: DaemonConfig::from_toml_in_directory.
--   Telemetry.antt              src/telemetry.rs: the counters.
--   Tests.antt, Tests/          runs and theorems at concrete inputs.
--
-- Correspondence. A function has the name of the Rust function, or, where it is a part of one, of
-- what that part does; `&mut` parameters are passed and returned. `Result` and `Option` are data
-- types, early returns are `do` blocks with `fail_if`, and each error message is a constructor.
-- Strings are lists of bytes; ports are natural numbers, below 2^16 where `u16` is parsed. Loops
-- over data are structural recursion. The loops over streams count their rounds:
-- read_connect_request has 16385, and each but the last receives a byte and leaves fewer than 16384,
-- so they never run out; copy_until_eof has as many as its caller gives, and one more than the stream
-- has bytes are enough.
-- compose_file counts the depth of imports that is left: read_session starts with 33, one more than
-- the code's limit on the depth, so the code's error comes first.
--
-- Parameters: `url::Host::parse` (parse_host), the `toml` crate (deserialize, Toml), the file system
-- (Files, SecretFiles), HMAC-SHA256 and base64 (Crypto), the streams, timeouts and TCP connections of tokio and
-- the TLS relay of rama (Network, with the documented behaviour of streams as Serves, Accepts and
-- IsBounded), and the header map and header values of `rama::http` (HttpLibrary, with the laws of
-- remove and insert on a header map).
--
-- Not modelled: sockets, the TLS protocol, the certificate authorities, the start and the loop of the
-- control server, the directories of sockets, what a reload compares, the reading of the daemon's own
-- configuration file, command line and logging. Of a session's runtime only its socket and listener generation are kept; whether it
-- starts is left open.
pub mod Prelude
pub mod Io
pub mod Policy
pub mod Connect
pub mod Control
pub mod Credentials
pub mod Authorization
pub mod Http
pub mod Secrets
pub mod Session
pub mod Settings
pub mod SessionFiles
pub mod Telemetry
pub mod Tests
